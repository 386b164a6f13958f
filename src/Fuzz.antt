-- ===== src/Fuzz.antt =====
-- fuzz/fuzz_targets/fuzz_read.rs: a disk image in memory as a block device, and the target that
-- reads what there is on it.
pub mod Image
pub mod Endless
pub mod Targets
use affs_read.Prelude.{
  ℕ, zero, suc, ◌+◌, ◌*◌, ◌/◌, ◌^◌, ◌%◌, ◌<◌, ◌≡◌, Bool, true, false, List, Option, none, some, ltb,
  leb, if◌then◌else◌, length, drop, replicate, slice, splice, All,
}
use affs_read.Constants.{block_size}
use affs_read.Error.{Result, ok, err}
use affs_read.Run.{Run, done, panic, out_of_fuel}
use affs_read.Types.{BlockDevice}
use affs_read.Dir
use affs_read.Dir.{DirEntry, DirIter}
use affs_read.File
use affs_read.File.{FileReader}
use affs_read.Reader.{AffsReader, with_size, read_root_dir, read_dir, read_file}

-- `FuzzDevice::read_block`: the last block of the image may be a part of one.
unfoldable pub read_image : List ℕ → ℕ → List ℕ → List ℕ × Bool
read_image image block buf =
    let offset = block * 512 in
    if leb (offset + 512) (length image)
    then (slice image offset (offset + 512), true)
    else if ltb offset (length image)
    then (splice (replicate block_size 0) 0 (drop offset image), true)
    else (buf, false)

-- One run after another.
abbrev and_then : Run (Unit {0}) → Run (Unit {0}) → Run (Unit {0})
and_then (done _) rest = rest
and_then panic rest = panic
and_then out_of_fuel rest = out_of_fuel

module _ (device : BlockDevice) where
  -- `for subentry in subdir`
  unfoldable pub drain : ℕ → DirIter → Run (Unit {0})
  drain zero it = out_of_fuel
  drain (suc fuel) it = elim (Dir.next device (suc fuel) it) [
    | out_of_fuel ↦ out_of_fuel
    | panic ↦ panic
    | done (item, it') ↦ elim item [ none ↦ done tt | some _ ↦ drain fuel it' ]
  ]

  -- What is done with an entry of the root directory: its results are dropped.
  pub try_file : AffsReader → DirEntry → Run (Unit {0})
  try_file r entry =
      if Dir.is_file entry
      then elim (read_file device r entry.block) [
        | err e ↦ done tt
        | ok file_reader ↦ elim (File.read device file_reader (replicate 1024 0)) [
          | done _ ↦ done tt
          | panic ↦ panic
          | out_of_fuel ↦ out_of_fuel
        ]
      ]
      else done tt

  pub try_dir : ℕ → AffsReader → DirEntry → Run (Unit {0})
  unfolding drain
  try_dir fuel r entry =
      if Dir.is_dir entry
      then elim (read_dir device r entry.block) [ err e ↦ done tt | ok subdir ↦ drain fuel subdir ]
      else done tt

  -- `for entry in reader.read_root_dir().flatten()`: an error is left out, and the loop goes on.
  unfoldable pub entries_loop : ℕ → AffsReader → DirIter → Run (Unit {0})
  unfolding try_file try_dir
  entries_loop zero r it = out_of_fuel
  entries_loop (suc fuel) r it = elim (Dir.next device (suc fuel) it) [
    | out_of_fuel ↦ out_of_fuel
    | panic ↦ panic
    | done (item, it') ↦ elim item [
      | none ↦ done tt
      | some found ↦ elim found [
        | err e ↦ entries_loop fuel r it'
        | ok entry ↦
            and_then (try_file r entry) (and_then (try_dir fuel r entry) (entries_loop fuel r it'))
      ]
    ]
  ]

  -- The target, on the device of an image of `size` bytes.
  unfoldable pub explore : ℕ → ℕ → Run (Unit {0})
  unfolding entries_loop
  explore fuel size =
      if ltb size 1536 then done tt else elim (with_size device (size / 512 % 2 ^ 32)) [
        | err e ↦ done tt
        | ok reader ↦ entries_loop fuel reader (read_root_dir reader)
      ]
