-- ===== src/Checksum/Simd/Equal.antt =====
-- The SIMD checksums against the scalar ones: src/checksum.rs.
use affs_read.Prelude.{
  ℕ, zero, suc, ◌+◌, ◌-◌, ◌/◌, ◌%◌, ◌^◌, ◌≤◌, ◌<◌, ◌≡◌, refl, ap, ◌∙◌, List, inl, inr, arith, leb,
  ◌==◌, length, Bool-cases, Option-cases, lt→ltb, leb→le,
}
use affs_read.Checksum.{wrapping_add, wrapping_neg, normal_sum_slice_scalar}
use affs_read.Checksum.Sums.{word, sum_range, skip, normal_loop-sum}
use affs_read.Checksum.Simd.{
  Quad, Lanes, WordCast, be_word, kept_word, normal_simd_loop, normal_tail_loop, sum_lanes,
  normal_sum_aligned, normal_sum_slice_simd,
}

pub sum_range_ext :
    (f g : ℕ → ℕ) (i n : ℕ) → ((j : ℕ) → j < i + n → f j ≡ g j) → sum_range f i n ≡ sum_range g i n
unfolding sum_range
sum_range_ext f g i zero h = refl
sum_range_ext f g i (suc n) h =
    omega (arith, h i (omega arith), sum_range_ext f g (i + 1) n (λ j p. h j (omega arith)))

pub sum_range_four :
    (f : ℕ → ℕ) (i n : ℕ)
    → sum_range f i (4 + n) ≡ f i + f (i + 1) + f (i + 2) + f (i + 3) + sum_range f (i + 4) n
unfolding sum_range
sum_range_four f i n = ground arith

pub sum_range_split :
    (f : ℕ → ℕ) (i m n : ℕ) → sum_range f i (m + n) ≡ sum_range f i m + sum_range f (i + m) n
unfolding sum_range
sum_range_split f i zero n =
    let e : 0 + n ≡ n = omega arith in
    let e' : i + 0 ≡ i = omega arith in
    omega (arith, ap (λ (t : ℕ). sum_range f i t) e, ap (λ (t : ℕ). sum_range f t n) e')
sum_range_split f i (suc m) n =
    let e : suc m + n ≡ suc (m + n) = omega arith in
    let e' : i + 1 + m ≡ i + suc m = omega arith in
    omega (
      arith,
      ap (λ (t : ℕ). sum_range f i t) e,
      sum_range_split f (i + 1) m n,
      ap (λ (t : ℕ). sum_range f t n) e',
    )

abbrev pub total : Quad → ℕ
total q = q.q0 + q.q1 + q.q2 + q.q3

module _ (lanes : Lanes) (cast : WordCast) (words : List ℕ) where
  open lanes use {V, zeros, new, add, sub, to_array}

  total-add :
      (v : V) (q : Quad)
      → total (to_array (add v (new q))) % 2 ^ 32 ≡ (total (to_array v) + total q) % 2 ^ 32
  total-add v q = rw (lanes.to_array-add, lanes.to_array-new) (omega arith)

  module _ (c num : ℕ) where
    abbrev kept : ℕ → ℕ
    kept = kept_word lanes cast words c

    abbrev chunk : ℕ → Quad
    chunk i = record { q0 = kept i; q1 = kept (i + 1); q2 = kept (i + 2); q3 = kept (i + 3) }

    chunk-total :
        (i left : ℕ) (v : V)
        → 4 ≤ left
        → (total (to_array (add v (new (chunk i)))) + sum_range kept (i + 4) (left - 4)) % 2 ^ 32
          ≡ (total (to_array v) + sum_range kept i left) % 2 ^ 32
    chunk-total i left v h =
        let e : 4 + (left - 4) ≡ left = omega arith in
        omega (
          arith,
          total-add v (chunk i),
          sum_range_four kept i (left - 4),
          ap (λ (t : ℕ). sum_range kept i t) e,
        )

    simd_loop_total :
        (fuel i left : ℕ) (v : V)
        → i + left ≡ num
        → let (v', i') = normal_simd_loop lanes cast words c num fuel i v in
          (r : ℕ) × (i' + r ≡ num)
          × ((total (to_array v') + sum_range kept i' r) % 2 ^ 32
              ≡ (total (to_array v) + sum_range kept i left) % 2 ^ 32)
    unfolding normal_simd_loop
    simd_loop_total zero i left v e = (left, e, refl)
    simd_loop_total (suc fuel) i left v e = elim (Bool-cases (leb (i + 4) num)) [
      | inl more ↦
          let (r, ends, same) =
            simd_loop_total fuel (i + 4) (left - 4) (add v (new (chunk i)))
              (omega (arith, leb→le (i + 4) num more)) in
          rw more (r, ends, same ∙ chunk-total i left v (omega (arith, leb→le (i + 4) num more)))
      | inr stop ↦ rw stop (left, e, refl)
    ]

    tail_loop_total :
        (fuel i left sum : ℕ)
        → i + left ≡ num
        → left ≤ fuel
        → sum < 2 ^ 32
        → normal_tail_loop lanes cast words c num fuel i sum
          ≡ (sum + sum_range kept i left) % 2 ^ 32
    unfolding normal_tail_loop sum_range kept_word
    tail_loop_total zero i zero sum e h lt = omega arith
    tail_loop_total zero i (suc left) sum e h lt = absurd (omega arith)
    tail_loop_total (suc fuel) i zero sum e h lt = ground arith
    tail_loop_total (suc fuel) i (suc left) sum e h lt =
        rw (lt→ltb i num (omega arith)) (elim (Bool-cases (i == c)) [
          | inl at ↦
              rw at (
                omega (arith, tail_loop_total fuel (i + 1) left sum (omega arith) (omega arith) lt))
          | inr off ↦ rw off (
              omega (
                arith,
                tail_loop_total fuel (i + 1) left (wrapping_add sum (be_word lanes cast words i))
                    (omega arith) (omega arith) (omega arith),
              ))
        ])

    aligned_total :
        normal_sum_aligned lanes cast words c num ≡ wrapping_neg (sum_range kept 0 num % 2 ^ 32)
    unfolding normal_sum_aligned
    aligned_total =
        let (sum_vec, i) = normal_simd_loop lanes cast words c num num 0 zeros in
        let (r, ends, same) = simd_loop_total num 0 num zeros (omega arith) in
        ap wrapping_neg (
          omega (
            arith,
            same,
            ap total lanes.to_array-zeros,
            tail_loop_total num i r (sum_lanes (to_array sum_vec)) ends (omega arith) (omega arith),
          ))

-- For any lanes and cast that keep their laws, and any buffer and checksum offset, the SIMD normal
-- sum is the scalar one, aligned or not.
pub normal_sum_slice_simd-eq-scalar :
    (lanes : Lanes) (cast : WordCast) (buf : List ℕ) (checksum_offset : ℕ)
    → normal_sum_slice_simd lanes cast buf checksum_offset
      ≡ normal_sum_slice_scalar buf checksum_offset
unfolding normal_sum_slice_simd normal_sum_slice_scalar
normal_sum_slice_simd-eq-scalar lanes cast buf offset =
    elim (Option-cases (cast.try_cast_slice buf)) [
      | inl unaligned ↦ rw (unaligned, normal_sum_slice_simd)
      | inr (words, aligned) ↦
          rw (aligned, normal_sum_slice_simd)
            (omega (
              arith,
              aligned_total lanes cast words (offset / 4) (length buf / 4),
              normal_loop-sum buf (offset / 4) (length buf / 4) 0 0 0 refl (omega arith),
              sum_range_ext (kept_word lanes cast words (offset / 4)) (skip (offset / 4) (word buf))
                  0 (length buf / 4)
                  (λ j p.
                    unfold kept_word in ground (arith, cast.from_be-cast buf words aligned j)),
            ))
    ]
