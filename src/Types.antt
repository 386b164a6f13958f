-- ===== src/Types.antt =====
-- src/types.rs: devices, entry types and flags.
use affs_read.Prelude.{
  ℕ, ◌%◌, ◌^◌, ◌<◌, ◌≡◌, Bool, true, false, not, List, Option, none, some, ℤ, eq_ℤ, length, All,
  bit_and, ◌==◌, if◌then◌else◌,
}
use affs_read.Constants.{
  ofs_data_size, ffs_data_size, dosfs_intl, dosfs_dircache, st_root, st_dir, st_file, st_lfile,
  st_ldir, st_lsoft, acc_delete, acc_execute, acc_write, acc_read, acc_archive, acc_pure,
  acc_script, acc_hold,
}

-- `[u8; n]`
pub record IsBytes (n : ℕ) (buf : List ℕ) : Type 0 where
  pub size : length buf ≡ n
  pub bytes : All (λ b. b < 256) buf

-- A call gives the buffer that it was handed back, and whether it succeeded. Nothing is supposed
-- of the contents: an implementation may leave the buffer alone, or fill a part of it and fail.
-- That the buffer is still a `[u8; 512]` is its Rust type.
pub record BlockDevice : Type 0 where
  pub read_block : ℕ → List ℕ → List ℕ × Bool
  pub read_block-IsBytes :
      (block : ℕ) (buf : List ℕ) → IsBytes 512 buf → IsBytes 512 (read_block block buf).0

pub record SectorDevice : Type 0 where
  pub read_sector : ℕ → List ℕ → List ℕ × Bool
  pub read_sector-IsBytes :
      (sector : ℕ) (buf : List ℕ) → IsBytes 512 buf → IsBytes 512 (read_sector sector buf).0

-- The blanket implementation: `sector as u32` cuts a sector number to 32 bits.
unfoldable pub sector_device : BlockDevice → SectorDevice
sector_device d = record {
  read_sector = λ sector buf. d.read_block (sector % 2 ^ 32) buf;
  read_sector-IsBytes = λ sector buf h. d.read_block-IsBytes (sector % 2 ^ 32) buf h;
}

pub data FsType : Type 0 where
  ofs ffs : FsType

unfoldable pub data_block_size : FsType → ℕ
data_block_size ofs = ofs_data_size
data_block_size ffs = ffs_data_size

pub data EntryType : Type 0 where
  root dir file hard_link_file hard_link_dir soft_link : EntryType

unfoldable pub from_sec_type : ℤ → Option EntryType
from_sec_type sec_type =
    if eq_ℤ sec_type st_root
    then some root
    else if eq_ℤ sec_type st_dir
    then some dir
    else if eq_ℤ sec_type st_file
    then some file
    else if eq_ℤ sec_type st_lfile
    then some hard_link_file
    else if eq_ℤ sec_type st_ldir
    then some hard_link_dir
    else if eq_ℤ sec_type st_lsoft
    then some soft_link
    else none

unfoldable pub is_dir : EntryType → Bool
is_dir root = true
is_dir dir = true
is_dir hard_link_dir = true
is_dir _ = false

unfoldable pub is_file : EntryType → Bool
is_file file = true
is_file hard_link_file = true
is_file _ = false

pub record FsFlags : Type 0 where
  pub intl : Bool
  pub dircache : Bool

unfoldable pub from_dos_type : ℕ → FsFlags
from_dos_type dos_type = record {
  intl = not (bit_and dos_type dosfs_intl == 0);
  dircache = not (bit_and dos_type dosfs_dircache == 0);
}

-- `Access(pub u32)`
pub record Access : Type 0 where
  pub raw : ℕ

-- The tests on `self.0`, each by its mask.
has : ℕ → Access → Bool
has mask a = not (bit_and a.raw mask == 0)

pub is_delete_protected : Access → Bool
unfolding has
is_delete_protected = has acc_delete

pub is_execute_protected : Access → Bool
unfolding has
is_execute_protected = has acc_execute

pub is_write_protected : Access → Bool
unfolding has
is_write_protected = has acc_write

pub is_read_protected : Access → Bool
unfolding has
is_read_protected = has acc_read

pub is_archived : Access → Bool
unfolding has
is_archived = has acc_archive

pub is_pure : Access → Bool
unfolding has
is_pure = has acc_pure

pub is_script : Access → Bool
unfolding has
is_script = has acc_script

pub is_hold : Access → Bool
unfolding has
is_hold = has acc_hold
