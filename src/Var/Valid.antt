-- ===== src/Var/Valid.antt =====
-- What the probe asks of a boot block and of a root block, in plain sums and numbers:
-- src/varblock.rs, `probe`.
use affs_read.Prelude.{
  ℕ, ◌-◌, ◌≤◌, ◌≡◌, ◌≢◌, ◌↔◌, ◌⊎◌, true, List, arith, pos, length, take, bit_and, ◌==◌, ◌&&◌, ◌||◌,
  not, length-take,
}
use affs_read.Checksum.{byte_at, read_u32_be_slice, read_i32_be_slice, boot_sum}
use affs_read.Checksum.Sums.{plain_boot_sum, plain_sum, boot_sum-plain, normal_sum-plain}
use affs_read.Block.Valid.{IsSigned}
use affs_read.Var.{is_boot_block, is_root_block}

-- A boot block that the probe takes: signed, of FFS, and without boot code or with its sum.
abbrev pub IsFfsBoot : List ℕ → Type 0
IsFfsBoot buf =
    IsSigned buf
    × (bit_and (byte_at buf 3) 1 ≢ 0)
    × ((byte_at buf 12 ≡ 0) ⊎ (read_u32_be_slice buf 4 ≡ plain_boot_sum (take 1024 buf)))

-- A root block of `size` bytes that it takes: of the types, with a hash table, and with its sum.
abbrev pub IsRootOf : ℕ → List ℕ → Type 0
IsRootOf size buf =
    (read_i32_be_slice buf 0 ≡ pos 2)
    × (read_i32_be_slice buf (size - 4) ≡ pos 1)
    × (read_u32_be_slice buf 12 ≢ 0)
    × (read_u32_be_slice buf 20 ≡ plain_sum (take size buf) size)

boot_tests :
    (a b c f t x y : ℕ)
    → ((a == 68 && (b == 79 && c == 83)) && (not (f == 0) && (t == 0 || x == y)) ≡ true)
      ↔ (((a ≡ 68) × (b ≡ 79) × (c ≡ 83)) × (f ≢ 0) × ((t ≡ 0) ⊎ (x ≡ y)))
boot_tests a b c f t x y = ground arith

pub is_boot_block_iff : (buf : List ℕ) → (is_boot_block buf ≡ true) ↔ IsFfsBoot buf
unfolding is_boot_block
is_boot_block_iff buf = rw (← boot_sum-plain (take 1024 buf)) (
    boot_tests (byte_at buf 0) (byte_at buf 1) (byte_at buf 2) (bit_and (byte_at buf 3) 1)
      (byte_at buf 12) (read_u32_be_slice buf 4) (boot_sum (take 1024 buf)))

pub is_root_block_iff :
    (size : ℕ) (buf : List ℕ)
    → size ≤ length buf
    → (is_root_block buf size ≡ true) ↔ IsRootOf size buf
unfolding is_root_block
is_root_block_iff size buf fits =
    let part = normal_sum-plain (take size buf) size (omega (arith, length-take size buf)) in
    ground (arith, part)
