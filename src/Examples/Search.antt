-- ===== src/Examples/Search.antt =====
-- Paths, the probe and the iterators at concrete inputs: src/reader.rs, src/varblock.rs and src/dir.rs.
use affs_read.Prelude.{pos, none, ◌<◌, ℕ, ◌≡◌, refl, false, List, ◌∷◌, some, arith, replicate, All}
use affs_read.Error.{err, block_read_error}
use affs_read.Run.{done}
use affs_read.Types.{ffs}
use affs_read.Dir.{DirIter, load_entry}
use affs_read.Dir.Stuck.{items, next-repeats}
use affs_read.Reader.{find_path}
use affs_read.Reader.Components.{components}
use affs_read.Reader.Path.{follow, find_path-eq-follow}
use affs_read.Var
use affs_read.Var.Probes.{Mounts, new-Mounts}
use affs_read.Var.Dirs
use affs_read.Var.{AffsReaderVar}
use affs_read.Var.Dirs.{iter_new}
use affs_read.Var.Safe.{Steps, next-Steps, iter_new-InTable}
use affs_read.Fuzz.Image.{fuzz_device, ReadsAs, fuzz_device-ReadsAs}
use affs_read.Examples.Data.{hello, replicate-IsBytes}
use affs_read.Examples.Instances.{first_position}
use affs_read.Examples.Disk.{disk, opened}
use affs_read.Examples.Good.{dummy_device, good_device}

-- `c//hello`
abbrev path : List ℕ
path = b'c' ∷ b'/' ∷ b'/' ∷ hello

find_path_example :
    find_path disk first_position 10 opened path
    ≡ follow disk first_position 10 opened (components path) 880 none
find_path_example = find_path-eq-follow disk first_position 10 opened path

new-Mounts_example : Mounts good_device 100 (Var.new good_device 100)
new-Mounts_example = new-Mounts good_device 100

abbrev stuck : DirIter
stuck = record {
  hash_table = replicate 72 5;
  hash_index = 1;
  current_chain = 5;
  intl = false;
  buf = replicate 512 0;
}

fails : (buf : List ℕ) → (load_entry dummy_device 5 buf).1 ≡ err block_read_error
unfolding load_entry
fails buf = refl

next-repeats_example :
    items dummy_device 10 3 stuck ≡ done (replicate 3 (some (err block_read_error)))
next-repeats_example = next-repeats dummy_device 9 3 stuck block_read_error (omega arith) fails

abbrev small_reader : AffsReaderVar
small_reader = record {
  probed = record {
    fs_type = ffs;
    fs_flags = record { intl = false; dircache = false };
    root_block = 2;
    log_blocksize = 0;
    size = 512;
    hash_size = 72;
    disk_name = replicate 30 0;
    disk_name_len = 0;
    creation_date = record { days = pos 0; mins = pos 0; ticks = pos 0 };
    last_modified = record { days = pos 0; mins = pos 0; ticks = pos 0 };
  };
  total_blocks = 100;
}

next-Steps_example :
    Steps
      (iter_new small_reader (replicate 512 0))
      (Dirs.next good_device 10 (iter_new small_reader (replicate 512 0)))
next-Steps_example =
    next-Steps good_device 10 (iter_new small_reader (replicate 512 0))
      (iter_new-InTable small_reader (replicate 512 0) (omega arith))

-- A block and a half.
abbrev image : List ℕ
image = replicate 768 7

image-bytes : All (λ b. b < 256) image
image-bytes = (replicate-IsBytes 768 7 (omega arith)).bytes

fuzz_device_example : ReadsAs (fuzz_device image image-bytes) image 1
fuzz_device_example = fuzz_device-ReadsAs image image-bytes 1
