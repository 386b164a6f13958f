-- ===== src/Examples/Disk.antt =====
-- A whole disk at a concrete input: src/reader.rs.
use affs_read.Prelude.{
  ℕ, ◌-◌, ◌^◌, refl, true, List, [], ◌∷◌, ◌++◌, pos, inl, inr, replicate, ◌==◌, if◌then◌else◌,
  Bool-cases,
}
use affs_read.Types.{IsBytes, BlockDevice}
use affs_read.Block.Boot
use affs_read.Block.Root
use affs_read.Block.Root.{RootBlock}
use affs_read.Reader
use affs_read.Reader.{AffsReader}
use affs_read.Examples.Data.{longword, all_bytes, IsBytes-decided}

abbrev pub dos_block : List ℕ
dos_block = b'D' ∷ b'O' ∷ b'S' ∷ 1 ∷ replicate 508 0

abbrev pub empty_root : List ℕ
empty_root = longword 2 ++ replicate 16 0 ++ longword (2 ^ 32 - 3) ++ replicate 484 0 ++ longword 1

pub disk_block-IsBytes : (n : ℕ) → IsBytes 512 (if n == 0 then dos_block else empty_root)
unfolding all_bytes
disk_block-IsBytes n = elim (Bool-cases (n == 0)) [
  | inl e ↦ rw e (IsBytes-decided 512 dos_block refl refl)
  | inr e ↦ rw e (IsBytes-decided 512 empty_root refl refl)
]

abbrev pub disk : BlockDevice
disk = record {
  read_block = λ n buf. (if n == 0 then dos_block else empty_root, true);
  read_block-IsBytes = λ n buf h. disk_block-IsBytes n;
}

abbrev pub opened : AffsReader
opened = record {
  boot = record { dos_type = b'D' ∷ b'O' ∷ b'S' ∷ 1 ∷ []; checksum = 0; root_block = 0 };
  root = record {
    block_type = pos 2;
    hash_size = pos 0;
    checksum = 2 ^ 32 - 3;
    hash_table = replicate 72 0;
    bm_flag = pos 0;
    bm_pages = replicate 25 0;
    bm_ext = 0;
    creation_date = record { days = pos 0; mins = pos 0; ticks = pos 0 };
    name_len = 0;
    disk_name = replicate 30 0;
    last_modified = record { days = pos 0; mins = pos 0; ticks = pos 0 };
    extension = 0;
    sec_type = pos 1;
  };
  root_block = 880;
  total_blocks = 1760;
}
