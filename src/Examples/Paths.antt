-- ===== src/Examples/Paths.antt =====
-- A path that goes through a file, at a concrete input: src/reader.rs.
use affs_read.Prelude.{ℕ, ◌≡◌, refl, List, [], ◌∷◌, ◌++◌, replicate, slice, splice}
use affs_read.Error.{ok}
use affs_read.Run.{done}
use affs_read.Types.{file, from_sec_type, from_dos_type}
use affs_read.Checksum.{
  read_u32_be, read_i32_be, read_u32_be_slice, read_i32_be_slice, normal_sum, normal_sum_slice,
  normal_sum_slice_scalar, normal_loop,
}
use affs_read.Block.Boot
use affs_read.Block.Fields.{read_string, check_header}
use affs_read.Block.Entry
use affs_read.Block.Entry.{decode, name_bytes}
use affs_read.Block.Names.{hash_name, hash_loop, ascii_to_upper, names_equal}
use affs_read.Dir
use affs_read.Dir.{DirEntry, entry_of_type, load_entry, from_entry_block}
use affs_read.Reader.{AffsReader, find_entry, find_path, read_dir, read_root_dir, is_intl}
use affs_read.Reader.Components.{components, nonempty, cut}
use affs_read.Reader.Path.{find_path-past_file}
use affs_read.Examples.Data.{hello, file_header, ending}
use affs_read.Examples.Instances.{first_position}
use affs_read.Examples.Disk.{opened}

-- Each slot of the root directory heads the block of the file `hello`.
abbrev crowded : AffsReader
crowded = record opened { root = record (opened.root) { hash_table = replicate 72 882 } }

abbrev hello_file : DirEntry
hello_file = entry_of_type 882 (decode (file_header 0)) file

-- `hello/hello`
abbrev through : List ℕ
through = hello ++ (b'/' ∷ hello)

components-through : components through ≡ hello ∷ hello ∷ []
unfolding components nonempty cut
components-through = refl

hello_found : find_entry ending 2 crowded 880 hello ≡ done (ok hello_file)
unfolding find_entry read_dir read_root_dir is_intl Boot.fs_flags from_dos_type Dir.new Dir.find
    Dir.find_loop load_entry hash_name hash_loop ascii_to_upper names_equal from_entry_block
    Entry.parse check_header read_i32_be read_u32_be normal_sum read_i32_be_slice read_u32_be_slice
    normal_sum_slice_scalar normal_sum_slice normal_loop name_bytes decode read_string slice splice
    from_sec_type Entry.entry_type
hello_found = refl

find_path-past_file_example :
    find_path ending first_position 2 crowded through ≡ find_entry ending 2 crowded 880 hello
find_path-past_file_example =
    find_path-past_file ending first_position 2 crowded through hello hello hello_file
      components-through hello_found refl
