-- ===== src/Checksum/Simd.antt =====
-- src/checksum.rs under the feature `simd`. The crates `wide` and `bytemuck` are parameters.
pub mod Equal
pub mod Boot
use affs_read.Prelude.{
  ℕ, zero, suc, ◌+◌, ◌-◌, ◌/◌, ◌<◌, ◌≡◌, Bool, true, false, List, Option, none, some, ltb, leb,
  ◌==◌, if◌then◌else◌, length, get_or, min,
}
use affs_read.Checksum.{
  wrapping_add, wrapping_sub, wrapping_neg, complement, normal_sum_slice_scalar, boot_loop,
  bitmap_loop, boot_sum_scalar, bitmap_sum_scalar,
}
use affs_read.Checksum.Sums.{word}

-- `[u32; 4]`
pub record Quad : Type 0 where
  pub q0 : ℕ
  pub q1 : ℕ
  pub q2 : ℕ
  pub q3 : ℕ

abbrev pub zip_quad : (ℕ → ℕ → ℕ) → Quad → Quad → Quad
zip_quad f a b = record { q0 = f a.q0 b.q0; q1 = f a.q1 b.q1; q2 = f a.q2 b.q2; q3 = f a.q3 b.q3 }

abbrev pub add_lanes : ℕ → Quad → ℕ
add_lanes sum q = wrapping_add (wrapping_add (wrapping_add (wrapping_add sum q.q0) q.q1) q.q2) q.q3

abbrev pub sum_lanes : Quad → ℕ
sum_lanes q = wrapping_add (wrapping_add (wrapping_add q.q0 q.q1) q.q2) q.q3

-- `wide::u32x4`: four lanes that add and subtract with wrap, each by itself.
pub record Lanes : Type 1 where
  pub V : Type 0
  pub zeros : V
  pub new : Quad → V
  pub add : V → V → V
  pub sub : V → V → V
  pub to_array : V → Quad
  pub to_array-zeros : to_array zeros ≡ record { q0 = 0; q1 = 0; q2 = 0; q3 = 0 }
  pub to_array-new : (q : Quad) → to_array (new q) ≡ q
  pub to_array-add :
      (u v : V) → to_array (add u v) ≡ zip_quad wrapping_add (to_array u) (to_array v)
  pub to_array-sub :
      (u v : V) → to_array (sub u v) ≡ zip_quad wrapping_sub (to_array u) (to_array v)

-- `bytemuck::try_cast_slice::<u8, u32>`, which fails on a slice that is not aligned, and
-- `u32::from_be`: on success a cast longword, brought to the machine's order, is the big-endian
-- number at its place in the slice.
pub record WordCast : Type 0 where
  pub try_cast_slice : List ℕ → Option (List ℕ)
  pub from_be : ℕ → ℕ
  pub from_be-cast :
      (buf words : List ℕ)
      → try_cast_slice buf ≡ some words
      → (i : ℕ) → i < length buf / 4
      → from_be (get_or words i 0) ≡ word buf i

module _ (lanes : Lanes) (cast : WordCast) where
  open lanes use {V, zeros, new, add, sub, to_array}
  open cast use {try_cast_slice, from_be}

  -- `u32::from_be(words_slice[i])`
  abbrev pub be_word : List ℕ → ℕ → ℕ
  be_word words i = from_be (get_or words i 0)

  pub kept_word : List ℕ → ℕ → ℕ → ℕ
  kept_word words checksum_word i = if i == checksum_word then 0 else be_word words i

  -- `while i + 4 <= num_words`, on fuel; gives the lanes and i back.
  pub normal_simd_loop : List ℕ → ℕ → ℕ → ℕ → ℕ → V → V × ℕ
  normal_simd_loop words checksum_word num_words zero i sum_vec = (sum_vec, i)
  normal_simd_loop words checksum_word num_words (suc fuel) i sum_vec =
      let more = normal_simd_loop words checksum_word num_words fuel (i + 4) (
        add sum_vec (
          new (record {
            q0 = kept_word words checksum_word i;
            q1 = kept_word words checksum_word (i + 1);
            q2 = kept_word words checksum_word (i + 2);
            q3 = kept_word words checksum_word (i + 3);
          }))) in
      if leb (i + 4) num_words then more else (sum_vec, i)

  -- `while i < num_words`, on fuel.
  pub normal_tail_loop : List ℕ → ℕ → ℕ → ℕ → ℕ → ℕ → ℕ
  normal_tail_loop words checksum_word num_words zero i sum = sum
  normal_tail_loop words checksum_word num_words (suc fuel) i sum =
      let rest =
        normal_tail_loop words checksum_word num_words fuel (i + 1)
          (if i == checksum_word then sum else wrapping_add sum (be_word words i)) in
      if ltb i num_words then rest else sum

  pub normal_sum_aligned : List ℕ → ℕ → ℕ → ℕ
  normal_sum_aligned words checksum_word num_words =
      let (sum_vec, i) = normal_simd_loop words checksum_word num_words num_words 0 zeros in
      wrapping_neg
        (normal_tail_loop words checksum_word num_words num_words i (sum_lanes (to_array sum_vec)))

  pub normal_sum_slice_simd : List ℕ → ℕ → ℕ
  normal_sum_slice_simd buf checksum_offset = elim (try_cast_slice buf) [
    | some words ↦ normal_sum_aligned words (checksum_offset / 4) (length buf / 4)
    | none ↦ normal_sum_slice_scalar buf checksum_offset
  ]

  -- `arr` of the last round: `take((256 - i).min(4))` words, and zeros.
  abbrev pub partial_word : List ℕ → ℕ → ℕ → ℕ
  partial_word words i j = if ltb j (min (256 - i) 4) then be_word words (i + j) else 0

  abbrev pub boot_quad : List ℕ → ℕ → Quad
  boot_quad words i =
      if ltb (i + 3) 256
      then record {
        q0 = be_word words i;
        q1 = be_word words (i + 1);
        q2 = be_word words (i + 2);
        q3 = be_word words (i + 3);
      }
      else record {
        q0 = partial_word words i 0;
        q1 = partial_word words i 1;
        q2 = partial_word words i 2;
        q3 = partial_word words i 3;
      }

  -- `for i in (2..256).step_by(4)`, with its rounds left.
  pub boot_simd_loop : List ℕ → ℕ → ℕ → ℕ → ℕ
  boot_simd_loop words zero i sum = sum
  boot_simd_loop words (suc left) i sum =
      boot_simd_loop words left (i + 4) (add_lanes sum (to_array (new (boot_quad words i))))

  -- 64 rounds, at i = 2, 6, …, 254.
  pub boot_sum_simd : List ℕ → ℕ
  boot_sum_simd buf = elim (try_cast_slice buf) [
    | some words ↦ complement (boot_simd_loop words 64 2 (wrapping_add 0 (be_word words 0)))
    | none ↦ boot_sum_scalar buf
  ]

  -- `for i in (1..125).step_by(4)`, with its rounds left.
  pub bitmap_simd_loop : List ℕ → ℕ → ℕ → V → V
  bitmap_simd_loop words zero i sum_vec = sum_vec
  bitmap_simd_loop words (suc left) i sum_vec = bitmap_simd_loop words left (i + 4) (
      sub sum_vec (
        new (record {
          q0 = be_word words i;
          q1 = be_word words (i + 1);
          q2 = be_word words (i + 2);
          q3 = be_word words (i + 3);
        })))

  -- 31 rounds, at i = 1, 5, …, 121; then words 125, 126 and 127.
  pub bitmap_sum_simd : List ℕ → ℕ
  bitmap_sum_simd buf = elim (try_cast_slice buf) [
    | some words ↦
        add_lanes
          (wrapping_sub (wrapping_sub (wrapping_sub 0 (be_word words 125)) (be_word words 126))
            (be_word words 127))
          (to_array (bitmap_simd_loop words 31 1 zeros))
    | none ↦ bitmap_sum_scalar buf
  ]
