-- ===== src/Examples/Runs.antt =====
-- The test of src/varblock.rs that mounts its good device and walks its root directory, and the
-- constants that follow from others: src/constants.rs.
use affs_read.Constants.{
  floppy_dd_sectors, floppy_hd_sectors, sectors_per_track_dd, sectors_per_track_hd, heads,
  cylinders, block_sizes, amiga_epoch_offset,
}
use affs_read.Prelude.{map, pos, ◌*◌, ◌^◌, ℕ, ◌≡◌, refl, Option, some, List, [], ◌∷◌, splice, slice}
use affs_read.Error.{Result, ok, err}
use affs_read.Run.{Run, done, panic}
use affs_read.Types.{from_dos_type, from_sec_type}
use affs_read.Checksum.{
  read_u32_be, read_u32_be_slice, read_i32_be_slice, normal_sum_slice, normal_sum_slice_scalar,
  normal_loop,
}
use affs_read.Block.Fields.{read_table, read_string}
use affs_read.Var
use affs_read.Var.{
  probe, boot_loop, size_loop, read_sectors, sectors_loop, is_root_block, is_boot_block,
  probe_result,
}
use affs_read.Var.Dirs
use affs_read.Var.Dirs.{VarDirEntry, VarDirIter}
use affs_read.Examples.Good.{good_device}

abbrev block_found : Result Var.AffsReaderVar → ℕ × ℕ
block_found (ok r) = (r.probed.root_block, r.probed.size)
block_found (err e) = (0, 0)

mounts_good : block_found (Var.new good_device 100) ≡ (2, 512)
unfolding Var.new probe boot_loop size_loop read_sectors sectors_loop is_root_block is_boot_block
    probe_result read_u32_be_slice read_i32_be_slice normal_sum_slice normal_sum_slice_scalar
    normal_loop splice good_device from_dos_type
mounts_good = refl

abbrev root_item : Result Var.AffsReaderVar → Run (Option (Result VarDirEntry) × VarDirIter)
root_item (err e) = panic
root_item (ok r) = elim (Dirs.read_root_dir good_device r) [
  | err e ↦ panic
  | ok it ↦ Dirs.next good_device 10 it
]

abbrev entry_found : Run (Option (Result VarDirEntry) × VarDirIter) → List ℕ × ℕ × ℕ
entry_found (done (some (ok e), it)) = (Dirs.entry_name e, e.size, e.block)
entry_found _ = ([], 0, 0)

first_entry :
    entry_found (root_item (Var.new good_device 100)) ≡ (b'f' ∷ b'i' ∷ b'l' ∷ b'e' ∷ [], 123, 5)
unfolding Var.new probe boot_loop size_loop read_sectors sectors_loop is_root_block is_boot_block
    probe_result read_u32_be_slice read_i32_be_slice normal_sum_slice normal_sum_slice_scalar
    normal_loop splice slice good_device from_dos_type Dirs.read_root_dir Var.fetch
    Var.read_block_into Dirs.iter_new Dirs.slots read_table Dirs.next Dirs.seek_slot Dirs.load_block
    Dirs.parse_entry read_string read_u32_be from_sec_type Dirs.entry_name
first_entry = refl

-- The sizes of the disks by their geometry, and the days of the epoch constant.
dd_sectors : floppy_dd_sectors ≡ sectors_per_track_dd * heads * cylinders
dd_sectors = refl

hd_sectors : floppy_hd_sectors ≡ sectors_per_track_hd * heads * cylinders
hd_sectors = refl

probed_sizes : block_sizes ≡ map (λ k. 512 * 2 ^ k) (0 ∷ 1 ∷ 2 ∷ 3 ∷ 4 ∷ [])
probed_sizes = refl

epoch_days : amiga_epoch_offset ≡ pos (2920 * 86400)
epoch_days = refl
