-- ===== src/Examples/Blocks.antt =====
-- Names, directories and the variable reader at concrete inputs: src/block.rs, src/dir.rs and src/varblock.rs.
use affs_read.Prelude.{
  ℕ, ◌<◌, ◌≡◌, ◌↔◌, refl, true, false, List, [], ◌∷◌, arith, map, replicate, get_or, slice, splice,
}
use affs_read.Constants.{hash_table_size, t_header}
use affs_read.Error.{ok}
use affs_read.Run.{panic, out_of_fuel}
use affs_read.Types.{sector_device, from_sec_type, file}
use affs_read.Checksum.{
  read_u32_be_slice, read_u32_be, read_i32_be, read_i32_be_slice, normal_loop, normal_sum,
  normal_sum_slice, normal_sum_slice_scalar,
}
use affs_read.Block.Fields.{check_header, read_string}
use affs_read.Block.Entry
use affs_read.Block.Entry.{EntryBlock, decode, name_bytes}
use affs_read.Block.Names.{names_equal, hash_name, hash_loop, ascii_to_upper}
use affs_read.Block.Accepts.{IsHeader, parse-eq-decode}
use affs_read.Block.Names.Laws.{capital, names_equal_iff, hash_name-names_equal}
use affs_read.Dir.{DirIter, load_entry, find_loop, zero_block}
use affs_read.Dir.Find.{Chain, find_loop_endless}
use affs_read.Var.Dirs
use affs_read.Var.Dirs.{VarDirEntry, VarDirIter, parse_entry, entry_of_kind}
use affs_read.Var.Agree.{parse_entry_nameless, next_panics}
use affs_read.Examples.Data.{
  all_bytes, all_bytes_sound, file_header, hello, looping, ending, get_or-replicate, last-IsBytes,
}

abbrev shouted : List ℕ
shouted = b'H' ∷ b'E' ∷ b'L' ∷ b'L' ∷ b'O' ∷ []

names_equal_iff_example :
    (names_equal hello shouted true ≡ true)
    ↔ (map (capital true) hello ≡ map (capital true) shouted)
unfolding all_bytes
names_equal_iff_example =
    names_equal_iff hello shouted true (all_bytes_sound hello refl) (all_bytes_sound shouted refl)

same_name : names_equal hello shouted false ≡ true
unfolding names_equal ascii_to_upper
same_name = refl

hash_name_example :
    (hash_name hello false ≡ hash_name shouted false) × (hash_name hello false < hash_table_size)
hash_name_example = hash_name-names_equal hello shouted false same_name

loads_looping : (buf : List ℕ) → (load_entry looping 882 buf).1 ≡ ok (decode (file_header 882))
unfolding load_entry Entry.parse check_header read_i32_be read_u32_be normal_sum read_i32_be_slice
    read_u32_be_slice normal_sum_slice_scalar normal_sum_slice normal_loop
loads_looping buf = refl

pub loads_ending : (buf : List ℕ) → (load_entry ending 882 buf).1 ≡ ok (decode (file_header 0))
unfolding load_entry Entry.parse check_header read_i32_be read_u32_be normal_sum read_i32_be_slice
    read_u32_be_slice normal_sum_slice_scalar normal_sum_slice normal_loop
loads_ending buf = refl

find_loop_endless_example : find_loop looping false (b'x' ∷ []) 1000 882 zero_block ≡ out_of_fuel
find_loop_endless_example =
    find_loop_endless looping false (b'x' ∷ []) 882 (decode (file_header 882)) (omega arith)
      loads_looping (unfold decode read_u32_be read_u32_be_slice in refl)
      (unfold name_bytes decode read_string names_equal ascii_to_upper splice slice in refl) 1000
      zero_block

abbrev full_table : DirIter
full_table = record {
  hash_table = replicate 72 882;
  hash_index = 72;
  current_chain = 882;
  intl = false;
  buf = zero_block;
}

abbrev pub only_entry : List (ℕ × EntryBlock)
only_entry = (882, decode (file_header 0)) ∷ []

hello_slot : get_or {A = ℕ} (replicate 72 882) (hash_name hello false) 0 ≡ 882
unfolding hash_name hash_loop ascii_to_upper
hello_slot = refl

pub last_chain : (decode (file_header 0)).next_same_hash ≡ 0
unfolding decode read_u32_be read_u32_be_slice
last_chain = refl

only-Chain : Chain ending 882 zero_block only_entry
only-Chain = Chain.link (omega arith) (loads_ending zero_block) (Chain.stop last_chain)

abbrev long_table : VarDirIter
long_table = record {
  hash_table = replicate 256 0;
  hash_size = 300;
  hash_index = 0;
  current_chain = 0;
  log_blocksize = 0;
  size = 512;
  buf = zero_block;
}

next_panics_example : Dirs.next (sector_device ending) 1 long_table ≡ panic
next_panics_example =
    next_panics (sector_device ending) long_table 0 refl (omega arith) (omega arith)
      (λ k h. get_or-replicate 256 k)

nameless_example : (entry_of_kind (file_header 0) 512 882 file).name_len ≡ 0
unfolding parse_entry decode from_sec_type read_i32_be read_i32_be_slice read_u32_be_slice
nameless_example =
    parse_entry_nameless (file_header 0) 882 3000 (entry_of_kind (file_header 0) 512 882 file)
      last-IsBytes refl (omega arith) refl

parse_example :
    (Entry.parse (file_header 0) ≡ ok (decode (file_header 0)))
    ↔ (IsHeader (file_header 0) t_header × (decode (file_header 0) ≡ decode (file_header 0)))
parse_example = parse-eq-decode (file_header 0) (decode (file_header 0)) last-IsBytes
