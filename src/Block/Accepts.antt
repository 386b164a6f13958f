-- ===== src/Block/Accepts.antt =====
-- What a header block must be for its parser to take it: src/block.rs.
use affs_read.Prelude.{
  ℕ, ◌/◌, ◌%◌, ◌^◌, ◌≡◌, ◌↔◌, refl, ap, sym, Bool, true, false, List, arith, ℤ, eq_ℤ, eq_ℤ→eq,
  length, ◌==◌, ==_iff,
}
use affs_read.Constants.{t_header}
use affs_read.Error.{AffsError, ok, guard, invalid_block_type, checksum_mismatch, ◌>>◌}
use affs_read.Types.{IsBytes}
use affs_read.Checksum.{read_u32_be, read_i32_be, normal_sum}
use affs_read.Checksum.Sums.{word, sum_range, normal_sum_iff}
use affs_read.Block.Fields.{check_header}
use affs_read.Block.Entry
use affs_read.Block.Entry.{EntryBlock, decode}

-- The block has the type, and its longwords sum up to 0.
pub record IsHeader (buf : List ℕ) (expected : ℤ) : Type 0 where
  pub typed : read_i32_be buf 0 ≡ expected
  pub balanced : sum_range (word buf) 0 128 % 2 ^ 32 ≡ 0

checksum-balanced :
    (buf : List ℕ)
    → IsBytes 512 buf
    → (read_u32_be buf 20 ≡ normal_sum buf 20) ↔ (sum_range (word buf) 0 128 % 2 ^ 32 ≡ 0)
unfolding read_u32_be normal_sum
checksum-balanced buf h =
    let words : length buf / 4 ≡ 128 = omega (arith, h.size) in
    rw (← words) (normal_sum_iff buf 5 h.bytes (omega (arith, words)))

-- Two tests, one after the other, before a result: both are passed, and the result is it.
two_tests :
    {A : Type 0} (a b : Bool) (x y : AffsError) (result given : A)
    → ((guard a x >> guard b y >> ok result) ≡ ok given)
      ↔ ((a ≡ true) × (b ≡ true) × (given ≡ result))
two_tests true true x y result given = (λ e. (refl, refl, ground arith), λ (p, q, e). ap ok (sym e))
two_tests true false x y result given = (λ e. absurd (ground arith), λ h. absurd (ground arith))
two_tests false b x y result given = (λ e. absurd (ground arith), λ h. absurd (ground arith))

eq_ℤ_refl : (a : ℤ) → eq_ℤ a a ≡ true
eq_ℤ_refl a = ground arith

-- For a block of bytes, the parser of entries takes it exactly when its type is T_HEADER and its
-- 128 longwords sum up to 0 modulo 2 ^ 32, and then gives the block's decoding.
pub parse-eq-decode :
    (buf : List ℕ) (entry : EntryBlock)
    → IsBytes 512 buf
    → (Entry.parse buf ≡ ok entry) ↔ (IsHeader buf t_header × (entry ≡ decode buf))
unfolding Entry.parse check_header
parse-eq-decode buf entry h =
    let tests =
      two_tests (eq_ℤ (read_i32_be buf 0) t_header) (read_u32_be buf 20 == normal_sum buf 20)
        invalid_block_type checksum_mismatch (decode buf) entry in
    let sums = checksum-balanced buf h in
    (
      λ taken.
          let (typed, summed, same) = tests.0 taken in
          (record { typed = eq_ℤ→eq _ _ typed; balanced = sums.0 ((==_iff _ _).0 summed) }, same),
      λ (header, same).
          tests.1
            (rw header.typed (eq_ℤ_refl t_header), (==_iff _ _).1 (sums.1 header.balanced), same),
    )
