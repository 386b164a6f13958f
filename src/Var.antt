-- ===== src/Var.antt =====
-- src/varblock.rs: `AffsReaderVar`, a reader that finds out the block size by probing.
pub mod Dirs
pub mod Accessors
pub mod Agree
pub mod Probes
pub mod Sectors
pub mod Valid
pub mod Safe
pub mod Beside
pub mod Follows
use affs_read.Prelude.{
  ℕ, zero, suc, ◌+◌, ◌-◌, ◌*◌, ◌/◌, ◌%◌, ◌^◌, Bool, true, false, List, [], ◌∷◌, ◌++◌, ◌&&◌, ◌||◌,
  Option, none, some, ℤ, eq_ℤ, bit_and, min, leb, ◌==◌, if◌then◌else◌, not, length, replicate, take,
  slice, splice, get_or,
}
use affs_read.Constants.{
  block_size, boot_block_size, dosfs_ffs, file_location, max_name_len, max_log_block_size,
  max_boot_block, t_header, st_root, st_lsoft,
}
use affs_read.Error.{
  AffsError, Result, ok, err, guard, block_read_error, invalid_dos_type, not_a_symlink, ◌>>=◌, ◌>>◌,
}
use affs_read.Types.{SectorDevice, FsType, ffs, FsFlags, from_dos_type}
use affs_read.Checksum.{byte_at, read_u32_be_slice, read_i32_be_slice, normal_sum_slice, boot_sum}
use affs_read.Date.{AmigaDate, to_unix_timestamp}
use affs_read.Block.Boot.{has_dos}
use affs_read.Block.Fields.{read_string, string_len}
use affs_read.Symlink.{Memchr, read_symlink_target_with_block_size}

abbrev pub max_block_size : ℕ
max_block_size = 8192

-- What `probe` finds. Of the reader itself only `total_blocks` is added.
pub record ProbeResult : Type 0 where
  pub fs_type : FsType
  pub fs_flags : FsFlags
  pub root_block : ℕ
  pub log_blocksize : ℕ
  pub size : ℕ
  pub hash_size : ℕ
  pub disk_name : List ℕ
  pub disk_name_len : ℕ
  pub creation_date : AmigaDate
  pub last_modified : AmigaDate

pub record AffsReaderVar : Type 0 where
  pub probed : ProbeResult
  pub open probed use *
  pub total_blocks : ℕ

-- Offsets from the end of a block, as the source computes them.
abbrev pub name_offset : ℕ → ℕ
name_offset size = size - file_location + 108

abbrev pub date_offset : ℕ → ℕ
date_offset size = size - file_location + 0x1a4 - (block_size - file_location)

abbrev pub mod_offset : ℕ → ℕ
mod_offset size = size - file_location + 0x1d8 - (block_size - file_location)

abbrev pub size_offset : ℕ → ℕ
size_offset size = size - file_location + 12

abbrev pub date_at : List ℕ → ℕ → AmigaDate
date_at buf offset = record {
  days = read_i32_be_slice buf offset;
  mins = read_i32_be_slice buf (offset + 4);
  ticks = read_i32_be_slice buf (offset + 8);
}

-- The tests on a block that may be the root block, at a block size.
unfoldable pub is_root_block : List ℕ → ℕ → Bool
is_root_block buf size =
    eq_ℤ (read_i32_be_slice buf 0) t_header
    && (eq_ℤ (read_i32_be_slice buf (size - 4)) st_root
        && (not (read_u32_be_slice buf 12 == 0)
            && read_u32_be_slice buf 20 == normal_sum_slice (take size buf) 20))

unfoldable pub probe_result : List ℕ → FsFlags → ℕ → ℕ → ProbeResult
probe_result buf fs_flags root_block log_blocksize =
    let size = 512 * 2 ^ log_blocksize in
    record {
      fs_type = ffs;
      fs_flags = fs_flags;
      root_block = root_block;
      log_blocksize = log_blocksize;
      size = size;
      hash_size = read_u32_be_slice buf 12;
      disk_name = read_string buf (name_offset size) max_name_len;
      disk_name_len = string_len buf (name_offset size) max_name_len;
      creation_date = date_at buf (date_offset size);
      last_modified = date_at buf (mod_offset size);
    }

-- The tests on a boot block: the signature, the FFS flag, and the sum where there is boot code.
unfoldable pub is_boot_block : List ℕ → Bool
is_boot_block buf =
    has_dos buf
    && (not (bit_and (byte_at buf 3) dosfs_ffs == 0)
        && (byte_at buf 12 == 0 || read_u32_be_slice buf 4 == boot_sum (take boot_block_size buf)))

abbrev pub zero_sector : List ℕ
zero_sector = replicate block_size 0

module _ (device : SectorDevice) where
  -- The loop of `read_sectors` at sector i, with its rounds left; the buffer keeps what was
  -- written to it before an error.
  unfoldable pub sectors_loop : ℕ → ℕ → ℕ → List ℕ → List ℕ → List ℕ × Result (Unit {0})
  sectors_loop zero i start_sector sector_buf buf = (buf, ok tt)
  sectors_loop (suc left) i start_sector sector_buf buf =
      let (sector_buf', good) = device.read_sector (start_sector + i) sector_buf in
      let more =
        sectors_loop left (i + 1) start_sector sector_buf'
          (splice buf (i * block_size) sector_buf') in
      if good then more else (buf, err block_read_error)

  -- `read_sectors(device, start_sector, &mut buf[..len])`
  unfoldable pub read_sectors : ℕ → ℕ → List ℕ → List ℕ × Result (Unit {0})
  read_sectors start_sector len buf = sectors_loop (len / block_size) 0 start_sector zero_sector buf

  -- `for log_blocksize in 0..=MAX_LOG_BLOCK_SIZE`, with its rounds left.
  unfoldable pub size_loop : ℕ → ℕ → FsFlags → ℕ → List ℕ → List ℕ × Option ProbeResult
  size_loop zero log_blocksize fs_flags root_block buf = (buf, none)
  size_loop (suc left) log_blocksize fs_flags root_block buf =
      let (buf', loaded) =
        read_sectors (root_block * 2 ^ log_blocksize) (512 * 2 ^ log_blocksize) buf in
      let more = size_loop left (log_blocksize + 1) fs_flags root_block buf' in
      elim loaded [
        | err e ↦ more
        | ok _ ↦
            if is_root_block buf' (512 * 2 ^ log_blocksize)
            then (buf', some (probe_result buf' fs_flags root_block log_blocksize))
            else more
      ]

  -- `for boot_sector in 0..=MAX_BOOT_BLOCK`, with its rounds left.
  unfoldable pub boot_loop : ℕ → ℕ → List ℕ → Result ProbeResult
  boot_loop zero boot_sector buf = err invalid_dos_type
  boot_loop (suc left) boot_sector buf =
      let (buf', loaded) = read_sectors boot_sector boot_block_size buf in
      let next_sector = boot_loop left (boot_sector + 1) buf' in
      elim loaded [
        | err e ↦ next_sector
        | ok _ ↦ elim (is_boot_block buf') [
          | false ↦ next_sector
          | true ↦
              let (buf'', found) =
                size_loop (max_log_block_size + 1) 0 (from_dos_type (byte_at buf' 3))
                  (read_u32_be_slice buf' 8) buf' in
              elim found [ some result ↦ ok result | none ↦ boot_loop left (boot_sector + 1) buf'' ]
        ]
      ]

  unfoldable pub probe : Result ProbeResult
  probe = boot_loop (max_boot_block + 1) 0 (replicate max_block_size 0)

  unfoldable pub new : ℕ → Result AffsReaderVar
  new total_sectors = do
    result ← probe
    ok (record {
      probed = result;
      total_blocks = total_sectors / 2 ^ result.log_blocksize % 2 ^ 32;
    })

  unfoldable pub read_block_into : AffsReaderVar → ℕ → List ℕ → List ℕ × Result (Unit {0})
  read_block_into r block buf = read_sectors (block * 2 ^ r.log_blocksize) r.size buf

  -- `let mut buf = [0u8; MAX_BLOCK_SIZE]; self.read_block_into(block, &mut buf)?;`
  unfoldable pub fetch : AffsReaderVar → ℕ → Result (List ℕ)
  fetch r block =
      let (buf, loaded) = read_block_into r block (replicate max_block_size 0) in
      do _ ← loaded; ok buf

  -- The symlink's block is not parsed: its type and checksum are not looked at.
  unfoldable pub read_symlink : Memchr → AffsReaderVar → ℕ → List ℕ → Result (List ℕ × ℕ)
  read_symlink m r block out = do
    buf ← fetch r block
    guard (eq_ℤ (read_i32_be_slice buf (r.size - 4)) st_lsoft) not_a_symlink
    ok (read_symlink_target_with_block_size m (take r.size buf) r.size out)

unfoldable pub disk_name_bytes : AffsReaderVar → List ℕ
disk_name_bytes r = take r.disk_name_len r.disk_name

unfoldable pub label : AffsReaderVar → List ℕ
label r = disk_name_bytes r

unfoldable pub mtime : AffsReaderVar → ℤ
mtime r = to_unix_timestamp r.last_modified

unfoldable pub is_intl : AffsReaderVar → Bool
is_intl r = r.fs_flags.intl || r.fs_flags.dircache
