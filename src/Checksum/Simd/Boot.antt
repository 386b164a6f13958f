-- ===== src/Checksum/Simd/Boot.antt =====
-- The SIMD sums of the boot block and of a bitmap block against the scalar ones: src/checksum.rs.
use affs_read.Prelude.{
  ℕ, zero, suc, ◌+◌, ◌*◌, ◌/◌, ◌%◌, ◌^◌, ◌≤◌, ◌<◌, ◌≡◌, refl, ap, ◌∙◌, List, some, inl, inr, arith,
  ltb, if◌then◌else◌, length, Option-cases,
}
use affs_read.Types.{IsBytes}
use affs_read.Checksum.{
  wrapping_add, wrapping_sub, complement, boot_sum_scalar, bitmap_sum_scalar, boot_loop,
  bitmap_loop,
}
use affs_read.Checksum.Sums.{
  word, sum_range, skip, normal_loop-sum, boot_loop-eq-normal_loop, bitmap_loop-sum, sum_range-suc,
  sum_range-skip_out, read_u32_be_slice-lt,
}
use affs_read.Checksum.Simd.{
  Quad, Lanes, WordCast, be_word, add_lanes, boot_quad, boot_simd_loop, boot_sum_simd,
  bitmap_simd_loop, bitmap_sum_simd,
}
use affs_read.Checksum.Simd.Equal.{sum_range_ext, sum_range_four, sum_range_split, total}

module _ (lanes : Lanes) (cast : WordCast) (words : List ℕ) where
  open lanes use {V, zeros, new, add, sub, to_array}

  -- A longword of the boot block, and 0 behind its end.
  boot_word : ℕ → ℕ
  boot_word j = if ltb j 256 then be_word lanes cast words j else 0

  total-boot_quad :
      (i : ℕ)
      → total (boot_quad lanes cast words i)
        ≡ boot_word i + boot_word (i + 1) + boot_word (i + 2) + boot_word (i + 3)
  unfolding boot_word
  total-boot_quad i = ground arith

  boot_simd_loop_total :
      (left i sum : ℕ)
      → sum < 2 ^ 32
      → boot_simd_loop lanes cast words left i sum
        ≡ (sum + sum_range boot_word i (left * 4)) % 2 ^ 32
  unfolding boot_simd_loop
  boot_simd_loop_total zero i sum lt = unfold sum_range in omega arith
  boot_simd_loop_total (suc left) i sum lt = rw lanes.to_array-new (
      omega (
        arith,
        boot_simd_loop_total left (i + 4) (add_lanes sum (boot_quad lanes cast words i))
            (omega arith),
        total-boot_quad i,
        sum_range_four boot_word i (left * 4),
        ap (λ (t : ℕ). sum_range boot_word i t)
            (let e : suc left * 4 ≡ 4 + left * 4 = omega arith in e),
      ))

  boot_aligned_total :
      boot_simd_loop lanes cast words 64 2 (wrapping_add 0 (be_word lanes cast words 0))
      ≡ (be_word lanes cast words 0 + sum_range (be_word lanes cast words) 2 254) % 2 ^ 32
  boot_aligned_total = omega (
    arith,
    boot_simd_loop_total 64 2 (wrapping_add 0 (be_word lanes cast words 0)) (omega arith),
    sum_range_split boot_word 2 254 2,
    sum_range_ext boot_word (be_word lanes cast words) 2 254
        (λ j p. unfold boot_word in ground arith),
    behind,
  )
    where
      behind : sum_range boot_word 256 2 ≡ 0
      behind = unfold sum_range boot_word in refl

  module _ (w : ℕ → ℕ) (bound : (j : ℕ) → j < 128 → w j < 2 ^ 32) where
    abbrev quad_at : ℕ → Quad
    quad_at i = record { q0 = w i; q1 = w (i + 1); q2 = w (i + 2); q3 = w (i + 3) }

    total-sub :
        (v : V) (i : ℕ)
        → i + 3 < 128
        → (total (to_array (sub v (new (quad_at i)))) + total (quad_at i)) % 2 ^ 32
          ≡ total (to_array v) % 2 ^ 32
    total-sub v i h =
        rw (lanes.to_array-sub, lanes.to_array-new)
          (omega (
            arith,
            bound i (omega arith),
            bound (i + 1) (omega arith),
            bound (i + 2) (omega arith),
            bound (i + 3) (omega arith),
          ))

  bitmap_simd_loop-total :
      ((j : ℕ) → j < 128 → be_word lanes cast words j < 2 ^ 32)
      → (left i : ℕ) (v : V) → i + left * 4 ≤ 128
      → (total (to_array (bitmap_simd_loop lanes cast words left i v))
            + sum_range (be_word lanes cast words) i (left * 4))
          % 2 ^ 32
        ≡ total (to_array v) % 2 ^ 32
  unfolding bitmap_simd_loop
  bitmap_simd_loop-total bound zero i v h = unfold sum_range in omega arith
  bitmap_simd_loop-total bound (suc left) i v h =
      let e : suc left * 4 ≡ 4 + left * 4 = omega arith in
      omega (
        arith,
        bitmap_simd_loop-total bound left (i + 4)
            (sub v (new (quad_at (be_word lanes cast words) bound i))) (omega arith),
        total-sub (be_word lanes cast words) bound v i (omega arith),
        sum_range_four (be_word lanes cast words) i (left * 4),
        ap (λ (t : ℕ). sum_range (be_word lanes cast words) i t) e,
      )

add_lanes-total : (s : ℕ) (q : Quad) → add_lanes s q ≡ (s + total q) % 2 ^ 32
add_lanes-total s q = omega arith

sum_three : (f : ℕ → ℕ) → sum_range f 125 3 ≡ f 125 + f 126 + f 127
unfolding sum_range
sum_three f = omega arith

last_words :
    (a b c lane_sum front loop : ℕ)
    → a < 2 ^ 32
    → b < 2 ^ 32
    → c < 2 ^ 32
    → (lane_sum + front) % 2 ^ 32 ≡ 0
    → loop < 2 ^ 32
    → (loop + (front + (a + b + c))) % 2 ^ 32 ≡ 0
    → (wrapping_sub (wrapping_sub (wrapping_sub 0 a) b) c + lane_sum) % 2 ^ 32 ≡ loop
last_words a b c lane_sum front loop p q r e lt e' = omega arith

module _ (lanes : Lanes) (cast : WordCast) (buf words : List ℕ) where
  open lanes use {zeros, to_array}

  module _ (aligned : cast.try_cast_slice buf ≡ some words) where
    be_word-eq-word : (j : ℕ) → j < length buf / 4 → be_word lanes cast words j ≡ word buf j
    be_word-eq-word = cast.from_be-cast buf words aligned

    boot_aligned-eq-loop :
        length buf ≡ 1024
        → boot_simd_loop lanes cast words 64 2 (wrapping_add 0 (be_word lanes cast words 0))
          ≡ boot_loop buf 256 0 0 0
    boot_aligned-eq-loop size = omega (
      arith,
      boot_aligned_total lanes cast words,
      be_word-eq-word 0 (omega arith),
      sum_range_ext (be_word lanes cast words) (word buf) 2 254
          (λ j p. be_word-eq-word j (omega arith)),
      boot_loop-eq-normal_loop buf 256 0 0 0,
      normal_loop-sum buf 1 256 0 0 0 refl (omega arith),
      sum_range-suc (skip 1 (word buf)) 0 255,
      sum_range-suc (skip 1 (word buf)) 1 254,
      sum_range-skip_out (word buf) 1 2 254 (omega arith),
    )

    bitmap_aligned-eq-loop :
        IsBytes 512 buf
        → add_lanes
            (wrapping_sub
              (wrapping_sub
                (wrapping_sub 0 (be_word lanes cast words 125))
                (be_word lanes cast words 126))
              (be_word lanes cast words 127))
            (to_array (bitmap_simd_loop lanes cast words 31 1 zeros))
          ≡ bitmap_loop buf 127 4 0
    bitmap_aligned-eq-loop h =
        add_lanes-total _ (to_array (bitmap_simd_loop lanes cast words 31 1 zeros))
        ∙ last_words _ _ _ (total (to_array (bitmap_simd_loop lanes cast words 31 1 zeros)))
            (sum_range (be_word lanes cast words) 1 124) (bitmap_loop buf 127 4 0)
            (word-lt 125 (omega arith)) (word-lt 126 (omega arith)) (word-lt 127 (omega arith))
            (bitmap_simd_loop-total lanes cast words word-lt 31 1 zeros (omega arith) ∙ cleared)
            scalar.0 (omega (arith, scalar.1, split, same, three))
      where
        word-lt : (j : ℕ) → j < 128 → be_word lanes cast words j < 2 ^ 32
        word-lt j p = omega (
          arith,
          h.size,
          be_word-eq-word j (omega (arith, h.size)),
          read_u32_be_slice-lt buf (4 * j) h.bytes,
        )

        cleared : total (to_array zeros) % 2 ^ 32 ≡ 0
        cleared = rw lanes.to_array-zeros

        scalar :
            (bitmap_loop buf 127 4 0 < 2 ^ 32)
            × ((bitmap_loop buf 127 4 0 + sum_range (word buf) 1 127) % 2 ^ 32 ≡ 0)
        scalar = bitmap_loop-sum buf 127 1 4 0 h.bytes refl (omega arith)

        split :
            sum_range (be_word lanes cast words) 1 127
            ≡ sum_range (be_word lanes cast words) 1 124
              + sum_range (be_word lanes cast words) 125 3
        split = sum_range_split (be_word lanes cast words) 1 124 3

        same : sum_range (be_word lanes cast words) 1 127 ≡ sum_range (word buf) 1 127
        same =
            sum_range_ext (be_word lanes cast words) (word buf) 1 127
              (λ j p. be_word-eq-word j (omega (arith, h.size)))

        three :
            sum_range (be_word lanes cast words) 125 3
            ≡ be_word lanes cast words 125
              + be_word lanes cast words 126
              + be_word lanes cast words 127
        three = sum_three (be_word lanes cast words)

module _ (lanes : Lanes) (cast : WordCast) (buf : List ℕ) where
  -- For any lanes and cast that keep their laws, the SIMD boot sum of a boot block is the scalar
  -- one, aligned or not.
  pub boot_sum_simd-eq-scalar :
      IsBytes 1024 buf → boot_sum_simd lanes cast buf ≡ boot_sum_scalar buf
  unfolding boot_sum_simd boot_sum_scalar
  boot_sum_simd-eq-scalar h = elim (Option-cases (cast.try_cast_slice buf)) [
    | inl unaligned ↦ rw (unaligned, boot_sum_simd)
    | inr (words, aligned) ↦
        rw (aligned, boot_sum_simd)
          (ap complement (boot_aligned-eq-loop lanes cast buf words aligned h.size))
  ]

  -- For any lanes and cast that keep their laws, the SIMD bitmap sum of a bitmap block is the
  -- scalar one, aligned or not.
  pub bitmap_sum_simd-eq-scalar :
      IsBytes 512 buf → bitmap_sum_simd lanes cast buf ≡ bitmap_sum_scalar buf
  unfolding bitmap_sum_simd bitmap_sum_scalar
  bitmap_sum_simd-eq-scalar h = elim (Option-cases (cast.try_cast_slice buf)) [
    | inl unaligned ↦ rw (unaligned, bitmap_sum_simd)
    | inr (words, aligned) ↦
        rw (aligned, bitmap_sum_simd) (bitmap_aligned-eq-loop lanes cast buf words aligned h)
  ]
