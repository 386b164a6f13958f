-- ===== src/Examples/Whole.antt =====
-- A file of a disk, from its name to its bytes: src/reader.rs and src/file.rs.
use affs_read.Prelude.{
  ℕ, ◌≡◌, refl, true, false, List, [], ◌∷◌, arith, get_or, length, take, replicate, ==_iff, ◌==◌,
  passes_below, at-passes_below, if◌then◌else◌, slice, splice, ◌≤◌, some, sym,
}
use affs_read.Error.{ok}
use affs_read.Run.{done}
use affs_read.Types.{ffs, file, from_sec_type, from_dos_type}
use affs_read.Checksum.{read_u32_be, read_i32_be, read_u32_be_slice, read_i32_be_slice}
use affs_read.Block.Boot
use affs_read.Block.Fields.{read_string}
use affs_read.Block.Entry
use affs_read.Block.Entry.{EntryBlock, name_bytes}
use affs_read.Block.Names.{hash_name, hash_loop, ascii_to_upper}
use affs_read.Dir
use affs_read.Dir.{from_entry_block, entry_of_type, load_entry}
use affs_read.Dir.Find.{Chain}
use affs_read.Dir.Table.{listing}
use affs_read.File.{FileReader}
use affs_read.File.Listed.{contents}
use affs_read.File.Whole.{read_all}
use affs_read.Reader.{AffsReader, fs_type, is_intl, read_dir, read_root_dir, find_entry, read_file}
use affs_read.Reader.Contents.{IsFirst, IsFileOf, by_tables, GivesAll, find_entry-GivesAll}
use affs_read.Examples.Disk.{opened}
use affs_read.Examples.Stored.{
  ffs_header, ffs_blocks, ffs_disk, ffs-Stored, ffs_header-parsed, ffs_header-file, ffs-Listed,
}
use affs_read.Examples.Starts.{ffs-enough}
use affs_read.Examples.Tables.{single-IsTable, single-IsHashed}

-- The header is in the first slot of the root directory, since its name is empty.
abbrev slots : List ℕ
slots = 900 ∷ replicate 71 0

abbrev volume : AffsReader
volume = record opened { root = record (opened.root) { hash_table = slots } }

abbrev entry : EntryBlock
entry = Entry.decode ffs_header

first_slot : passes_below (λ s. get_or slots s 0 == (if s == 0 then 900 else 0)) 72 ≡ true
unfolding passes_below
first_slot = refl

name_hash : hash_name (name_bytes entry) false ≡ 0
unfolding hash_name hash_loop ascii_to_upper name_bytes Entry.decode read_string slice splice
name_hash = refl

chain_end : entry.next_same_hash ≡ 0
unfolding Entry.decode read_u32_be read_u32_be_slice
chain_end = refl

header_loads : (buf : List ℕ) → (load_entry ffs_disk 900 buf).1 ≡ ok entry
unfolding load_entry
header_loads buf = ffs_header-parsed

header-Chain : (buf : List ℕ) → Chain ffs_disk 900 buf ((900, entry) ∷ [])
header-Chain buf = Chain.link (omega arith) (header_loads buf) (Chain.stop chain_end)

no_name : length (name_bytes entry) ≡ 0
unfolding name_bytes Entry.decode read_string slice splice
no_name = refl

header-IsFirst : IsFirst ffs_disk volume 880 900 entry
unfolding read_dir read_root_dir is_intl Boot.fs_flags from_dos_type Dir.new listing
header-IsFirst = record {
  table = slots;
  intl = false;
  chains = λ slot. if slot == 0 then (900, entry) ∷ [] else [];
  before = [];
  rest = [];
  opened = refl;
  is_table =
      single-IsTable ffs_disk slots 0 900 ((900, entry) ∷ [])
        (λ slot h. (==_iff _ _).0 (at-passes_below _ 72 slot h first_slot)) header-Chain;
  hashed = single-IsHashed false 0 900 entry name_hash;
  here = refl;
  others = tt;
  short = omega (arith, no_name);
}

header_typed : from_entry_block 900 entry ≡ some (entry_of_type 900 entry file)
unfolding from_entry_block Entry.entry_type Entry.decode from_sec_type read_i32_be read_i32_be_slice
    read_u32_be_slice
header_typed = refl

volume_ffs : fs_type volume ≡ ffs
unfolding fs_type Boot.fs_type
volume_ffs = refl

one_in_chain : length (header-IsFirst.chains (hash_name (name_bytes entry) header-IsFirst.intl)) ≤ 1
unfolding header-IsFirst
one_in_chain = rw name_hash (omega arith)

abbrev stored_bytes : List ℕ
stored_bytes = take entry.byte_size (contents ffs_blocks (901 ∷ 902 ∷ []))

stored_size : length stored_bytes ≡ 700
unfolding contents Entry.decode read_u32_be read_u32_be_slice
stored_size = refl

whole_file : IsFileOf ffs_disk ffs_blocks entry (fs_type volume) stored_bytes
unfolding fs_type Boot.fs_type
whole_file = by_tables (901 ∷ 902 ∷ []) ffs-Listed ffs-enough

find_entry_example :
    (find_entry ffs_disk 1 volume 880 (name_bytes entry) ≡ done (ok (entry_of_type 900 entry file)))
    × ((reader : FileReader) × (read_file ffs_disk volume 900 ≡ ok reader)
        × GivesAll stored_bytes (read_all ffs_disk reader (replicate 700 0)))
find_entry_example =
    find_entry-GivesAll ffs_disk ffs_blocks 1 volume 880 900 entry (entry_of_type 900 entry file)
      stored_bytes (replicate 700 0) header-IsFirst header_typed one_in_chain (ffs-Stored 900)
      ffs_header-parsed ffs_header-file whole_file (sym stored_size)
