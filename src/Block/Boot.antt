-- ===== src/Block/Boot.antt =====
-- src/block.rs, `BootBlock`.
use affs_read.Prelude.{ℕ, Bool, true, List, [], ◌∷◌, ◌&&◌, bit_and, ◌==◌, if◌then◌else◌, get_or}
use affs_read.Constants.{dosfs_ffs}
use affs_read.Error.{Result, ok, guard, invalid_dos_type, checksum_mismatch, ◌>>◌}
use affs_read.Types.{FsType, ofs, ffs, FsFlags, from_dos_type}
use affs_read.Checksum.{byte_at, read_u32_be_slice, boot_sum}

pub record BootBlock : Type 0 where
  pub dos_type : List ℕ
  pub checksum : ℕ
  pub root_block : ℕ

-- `&buf[0..3] == b"DOS"`
abbrev pub has_dos : List ℕ → Bool
has_dos buf = byte_at buf 0 == b'D' && (byte_at buf 1 == b'O' && byte_at buf 2 == b'S')

-- The checksum counts only where the first byte of boot code is not 0.
unfoldable pub parse : List ℕ → Result BootBlock
parse buf = do
  guard (has_dos buf) invalid_dos_type
  let checksum = read_u32_be_slice buf 4
  guard (if byte_at buf 12 == 0 then true else checksum == boot_sum buf) checksum_mismatch
  ok (record {
    dos_type = byte_at buf 0 ∷ byte_at buf 1 ∷ byte_at buf 2 ∷ byte_at buf 3 ∷ [];
    checksum = checksum;
    root_block = read_u32_be_slice buf 8;
  })

-- `dos_type[3]`
abbrev pub flags_byte : BootBlock → ℕ
flags_byte b = get_or b.dos_type 3 0

unfoldable pub fs_type : BootBlock → FsType
fs_type b = if bit_and (flags_byte b) dosfs_ffs == 0 then ofs else ffs

unfoldable pub fs_flags : BootBlock → FsFlags
fs_flags b = from_dos_type (flags_byte b)
