-- ===== src/Block/Valid.antt =====
-- What the boot block and the root block are that their parsers take, in plain sums and numbers:
-- src/block.rs.
use affs_read.Prelude.{
  ℕ, ◌≡◌, ◌⊎◌, refl, Bool, true, false, List, arith, pos, length, ◌∙◌, eq_ℤ, eq_ℤ→eq, ◌==◌, ==_iff,
  ◌&&◌, if◌then◌else◌,
}
use affs_read.Error.{
  AffsError, Result, ok, guard, ◌>>◌, past_test, invalid_dos_type, invalid_block_type,
  invalid_sec_type, checksum_mismatch,
}
use affs_read.Checksum.{
  byte_at, read_u32_be_slice, read_u32_be, read_i32_be, boot_sum, normal_sum, normal_sum_slice,
}
use affs_read.Checksum.Sums.{plain_boot_sum, plain_sum, boot_sum-plain, normal_sum-plain}
use affs_read.Block.Boot
use affs_read.Block.Boot.{BootBlock}
use affs_read.Block.Root
use affs_read.Block.Root.{RootBlock}

-- The block begins with `DOS`.
abbrev pub IsSigned : List ℕ → Type 0
IsSigned buf = (byte_at buf 0 ≡ 68) × (byte_at buf 1 ≡ 79) × (byte_at buf 2 ≡ 83)

-- A boot block: signed, and without boot code or with its sum.
abbrev pub IsBoot : List ℕ → Type 0
IsBoot buf = IsSigned buf × ((byte_at buf 12 ≡ 0) ⊎ (read_u32_be_slice buf 4 ≡ plain_boot_sum buf))

-- A root block of 512 bytes: of the types, and with its sum.
abbrev pub IsRoot : List ℕ → Type 0
IsRoot buf =
    (read_i32_be buf 0 ≡ pos 2)
    × (read_i32_be buf 508 ≡ pos 1)
    × (read_u32_be buf 20 ≡ plain_sum buf 512)

-- A function that returned had its test true.
held :
    {S : Type 0} (b : Bool) (e : AffsError) (rest : Result S) {value : S}
    → (guard b e >> rest) ≡ ok value
    → b ≡ true
held true e rest h = refl
held false e rest h = absurd (ground arith)

signed_tests :
    (a b c : ℕ) → (a == 68 && (b == 79 && c == 83)) ≡ true → (a ≡ 68) × (b ≡ 79) × (c ≡ 83)
signed_tests a b c h = ground arith

sum_test : (t x y : ℕ) → (if t == 0 then true else x == y) ≡ true → (t ≡ 0) ⊎ (x ≡ y)
sum_test t x y h = ground arith

pub parse-IsBoot : (buf : List ℕ) (boot : BootBlock) → Boot.parse buf ≡ ok boot → IsBoot buf
unfolding Boot.parse
parse-IsBoot buf boot e = (
  signed_tests (byte_at buf 0) (byte_at buf 1) (byte_at buf 2) (held _ invalid_dos_type _ e),
  rw (← boot_sum-plain buf) (
      sum_test (byte_at buf 12) (read_u32_be_slice buf 4) (boot_sum buf)
        (held _ checksum_mismatch _ (past_test (guard _ invalid_dos_type) e))),
)

pub parse-IsRoot :
    (buf : List ℕ) (root : RootBlock) → length buf ≡ 512 → Root.parse buf ≡ ok root → IsRoot buf
unfolding Root.parse normal_sum
parse-IsRoot buf root size e =
    let e1 = past_test (guard (eq_ℤ (read_i32_be buf 0) (pos 2)) invalid_block_type) e in
    let e2 = past_test (guard (eq_ℤ (read_i32_be buf 508) (pos 1)) invalid_sec_type) e1 in
    (
      eq_ℤ→eq _ _ (held (eq_ℤ (read_i32_be buf 0) (pos 2)) invalid_block_type _ e),
      eq_ℤ→eq _ _ (held (eq_ℤ (read_i32_be buf 508) (pos 1)) invalid_sec_type _ e1),
      (==_iff _ _).0 (held (read_u32_be buf 20 == normal_sum_slice buf 20) checksum_mismatch _ e2)
          ∙ normal_sum-plain buf 512 size,
    )
