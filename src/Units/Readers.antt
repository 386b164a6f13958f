-- ===== src/Units/Readers.antt =====
-- The unit tests of src/dir.rs, src/utf8.rs, src/file.rs, src/reader.rs and src/varblock.rs.
use affs_read.Prelude.{
  ℕ, arith, ◌≡◌, refl, Bool-cases, inl, inr, Bool, true, false, ◌&&◌, ◌==◌, List, [], ◌∷◌, Option,
  some, none, pos, replicate, splice, slice,
}
use affs_read.Constants.{max_name_len, max_comment_len}
use affs_read.Error.{Result, ok, err}
use affs_read.Run.{Run, done}
use affs_read.Types.{file, ffs}
use affs_read.Dir.{DirEntry, entry_name}
use affs_read.File
use affs_read.Reader
use affs_read.Types.{from_dos_type, from_sec_type}
use affs_read.Checksum.{
  read_u32_be, read_u32_be_slice, read_i32_be_slice, normal_sum_slice, normal_sum_slice_scalar,
  normal_loop,
}
use affs_read.Block.Fields.{read_table, read_string}
use affs_read.Var
use affs_read.Var.{
  AffsReaderVar, probe, boot_loop, size_loop, read_sectors, sectors_loop, is_root_block,
  is_boot_block, probe_result,
}
use affs_read.Var.Dirs
use affs_read.Var.Dirs.{VarDirEntry, VarDirIter}
use affs_read.Var.Accessors.{block_size, root_block}
use affs_read.Utf8.{Validator, from_utf8, IsUtf8, one, two, three, four, no_bytes}
use affs_read.Utf8.Views.{name_str, var_disk_name_str, var_name_str}
use affs_read.Units.Links.{equal_bytes}
use affs_read.Examples.Good.{dummy_device, dummy_sector_device, good_device}

abbrev is_err {ℓ} : {A : Type ℓ} → Result A → Bool
is_err (ok a) = false
is_err (err e) = true

-- `assert_eq!(o, Some(bytes))` and `assert_eq!(o, None)`
abbrev is_some : Option (List ℕ) → List ℕ → Bool
is_some (some bytes) expected = equal_bytes bytes expected
is_some none expected = false

abbrev is_none : Option (List ℕ) → Bool
is_none (some bytes) = false
is_none none = true

abbrev test_bytes : List ℕ
test_bytes = b't' ∷ b'e' ∷ b's' ∷ b't' ∷ []

abbrev test_entry : DirEntry
test_entry = record {
  name = splice (replicate max_name_len 0) 0 test_bytes;
  name_len = 4;
  entry_type = file;
  block = 100;
  parent = 880;
  size = 1024;
  access = record { raw = 0 };
  date = record { days = pos 0; mins = pos 0; ticks = pos 0 };
  real_entry = 0;
  comment = replicate max_comment_len 0;
  comment_len = 0;
}

-- A first byte 0xff begins no character.
not-IsUtf8 : (rest : List ℕ) → ¬ IsUtf8 (0xff ∷ rest)
not-IsUtf8 rest (one h more) = ground arith
not-IsUtf8 rest (two h t more) = ground arith
not-IsUtf8 rest (three h t more) = ground arith
not-IsUtf8 rest (four h t u more) = ground arith

module _ (v : Validator) where
  abbrev test_dir_entry_name : Bool
  test_dir_entry_name =
      equal_bytes (entry_name test_entry) test_bytes && is_some (name_str v test_entry) test_bytes

  abbrev test_valid_utf8 : Bool
  test_valid_utf8 =
      let hello = b'h' ∷ b'e' ∷ b'l' ∷ b'l' ∷ b'o' ∷ [] in is_some (from_utf8 v hello) hello

  abbrev test_invalid_utf8 : Bool
  test_invalid_utf8 = is_none (from_utf8 v (0xff ∷ 0xfe ∷ []))

  abbrev test_utf8_multibyte : Bool
  test_utf8_multibyte =
      let cafe = b'c' ∷ b'a' ∷ b'f' ∷ 0xc3 ∷ 0xa9 ∷ [] in is_some (from_utf8 v cafe) cafe

  test_dir_entry_name_passes : test_dir_entry_name ≡ true
  unfolding entry_name name_str from_utf8 splice
  test_dir_entry_name_passes =
      let accepted =
        v.accepts_complete test_bytes (one refl (one refl (one refl (one refl no_bytes)))) in
      rw (accepted, name_str) refl

  test_valid_utf8_passes : test_valid_utf8 ≡ true
  unfolding from_utf8
  test_valid_utf8_passes =
      let hello = b'h' ∷ b'e' ∷ b'l' ∷ b'l' ∷ b'o' ∷ [] in
      let accepted =
        v.accepts_complete hello (one refl (one refl (one refl (one refl (one refl no_bytes))))) in
      rw accepted refl

  test_invalid_utf8_passes : test_invalid_utf8 ≡ true
  unfolding from_utf8
  test_invalid_utf8_passes =
      let bytes = 0xff ∷ 0xfe ∷ [] in
      elim (Bool-cases (v.accepts bytes)) [
        | inl accepted ↦ absurd (not-IsUtf8 (0xfe ∷ []) (v.accepts_sound bytes accepted))
        | inr refused ↦ rw refused refl
      ]

  test_utf8_multibyte_passes : test_utf8_multibyte ≡ true
  unfolding from_utf8
  test_utf8_multibyte_passes =
      let cafe = b'c' ∷ b'a' ∷ b'f' ∷ 0xc3 ∷ 0xa9 ∷ [] in
      let accepted =
        v.accepts_complete cafe (one refl (one refl (one refl (two refl refl no_bytes)))) in
      rw accepted refl

abbrev test_file_reader_error_on_bad_device : Bool
test_file_reader_error_on_bad_device = is_err (File.new dummy_device ffs 100)

test_file_reader_error_on_bad_device_passes : test_file_reader_error_on_bad_device ≡ true
unfolding File.new
test_file_reader_error_on_bad_device_passes = refl

abbrev test_reader_error_on_bad_device : Bool
test_reader_error_on_bad_device = is_err (Reader.new dummy_device)

test_reader_error_on_bad_device_passes : test_reader_error_on_bad_device ≡ true
unfolding Reader.new Reader.with_size Reader.fetch
test_reader_error_on_bad_device_passes = refl

abbrev test_var_reader_error_on_bad_device : Bool
test_var_reader_error_on_bad_device = is_err (Var.new dummy_sector_device 1760)

test_var_reader_error_on_bad_device_passes : test_var_reader_error_on_bad_device ≡ true
unfolding Var.new probe boot_loop read_sectors sectors_loop
test_var_reader_error_on_bad_device_passes = refl

module _ (v : Validator) where
  -- `iter.next().expect("entry").expect("ok entry")`
  abbrev first_is_file : Run (Option (Result VarDirEntry) × VarDirIter) → Bool
  first_is_file (done (some (ok first), it)) =
      is_some (var_name_str v first) (b'f' ∷ b'i' ∷ b'l' ∷ b'e' ∷ [])
      && (first.size == 123 && first.block == 5)
  first_is_file _ = false

  abbrev walks_root : AffsReaderVar → Bool
  walks_root reader = elim (Dirs.read_root_dir good_device reader) [
    | err e ↦ false
    | ok iter ↦ first_is_file (Dirs.next good_device 10 iter)
  ]

  abbrev test_var_probe_and_dir_iter : Bool
  test_var_probe_and_dir_iter = elim (Var.new good_device 100) [
    | err e ↦ false
    | ok reader ↦
        block_size reader == 512
        && (root_block reader == 2
            && (is_some (var_disk_name_str v reader) test_bytes && walks_root reader))
  ]

  test_var_probe_and_dir_iter_passes : test_var_probe_and_dir_iter ≡ true
  unfolding Var.new probe boot_loop size_loop read_sectors sectors_loop is_root_block is_boot_block
      probe_result read_u32_be_slice read_i32_be_slice normal_sum_slice normal_sum_slice_scalar
      normal_loop splice slice good_device from_dos_type Dirs.read_root_dir Var.fetch
      Var.read_block_into Dirs.iter_new Dirs.slots read_table Dirs.next Dirs.seek_slot
      Dirs.load_block Dirs.parse_entry read_string read_u32_be from_sec_type Dirs.entry_name
      block_size root_block var_disk_name_str var_name_str from_utf8 Var.disk_name_bytes
  test_var_probe_and_dir_iter_passes =
      let volume =
        v.accepts_complete test_bytes (one refl (one refl (one refl (one refl no_bytes)))) in
      let entry =
        v.accepts_complete (b'f' ∷ b'i' ∷ b'l' ∷ b'e' ∷ [])
          (one refl (one refl (one refl (one refl no_bytes)))) in
      rw (volume, entry) refl
