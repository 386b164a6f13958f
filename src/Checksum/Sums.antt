-- ===== src/Checksum/Sums.antt =====
-- The checksums against plain sums of longwords: src/checksum.rs.
use affs_read.Prelude.{
  ℕ, zero, suc, ◌+◌, ◌-◌, ◌*◌, ◌/◌, ◌%◌, ◌^◌, ◌≤◌, ◌<◌, ◌≡◌, ◌↔◌, refl, List, [], ◌∷◌, arith,
  length, All, ◌==◌, if◌then◌else◌, inl, inr, Bool-cases,
}
use affs_read.Types.{IsBytes}
use affs_read.Checksum.{
  byte_at, read_u32_be_slice, normal_loop, normal_sum_slice, boot_loop, boot_sum, boot_sum_scalar,
  normal_sum_slice_scalar, bitmap_sum_scalar, bitmap_loop, bitmap_sum, wrapping_add,
}

-- The longword at index i.
abbrev pub word : List ℕ → ℕ → ℕ
word buf i = read_u32_be_slice buf (4 * i)

-- The sum of `f i`, …, `f (i + n - 1)`, with no wrap.
unfoldable pub sum_range : (ℕ → ℕ) → ℕ → ℕ → ℕ
sum_range f i zero = 0
sum_range f i (suc n) = f i + sum_range f (i + 1) n

abbrev pub skip : ℕ → (ℕ → ℕ) → ℕ → ℕ
skip c f j = if j == c then 0 else f j

pub sum_range-skip_out :
    (f : ℕ → ℕ) (c i n : ℕ) → c < i → sum_range (skip c f) i n ≡ sum_range f i n
unfolding sum_range
sum_range-skip_out f c i zero h = refl
sum_range-skip_out f c i (suc n) h = ground (arith, sum_range-skip_out f c (i + 1) n)

pub sum_range-skip :
    (f : ℕ → ℕ) (c i n : ℕ) → i ≤ c → c < i + n → sum_range (skip c f) i n + f c ≡ sum_range f i n
unfolding sum_range
sum_range-skip f c i zero p q = absurd (omega arith)
sum_range-skip f c i (suc n) p q =
    ground (arith, sum_range-skip f c (i + 1) n, sum_range-skip_out f c (i + 1) n)

pub byte_at-lt : (buf : List ℕ) (i : ℕ) → All (λ b. b < 256) buf → byte_at buf i < 256
byte_at-lt [] i h = omega arith
byte_at-lt (x ∷ buf) zero h = h.0
byte_at-lt (x ∷ buf) (suc i) h = byte_at-lt buf i h.1

pub read_u32_be_slice-lt :
    (buf : List ℕ) (i : ℕ) → All (λ b. b < 256) buf → read_u32_be_slice buf i < 2 ^ 32
unfolding read_u32_be_slice
read_u32_be_slice-lt buf i h = omega (
  arith,
  byte_at-lt buf i h,
  byte_at-lt buf (i + 1) h,
  byte_at-lt buf (i + 2) h,
  byte_at-lt buf (i + 3) h,
)

-- The loops keep a sum below 2 ^ 32, equal to the plain one up to the wrap.
pub normal_loop-sum :
    (buf : List ℕ) (c n i offset sum : ℕ)
    → offset ≡ 4 * i
    → sum < 2 ^ 32
    → normal_loop buf c n i offset sum ≡ (sum + sum_range (skip c (word buf)) i n) % 2 ^ 32
unfolding normal_loop sum_range
normal_loop-sum buf c zero i offset sum e lt = omega arith
normal_loop-sum buf c (suc n) i offset sum e lt = elim (Bool-cases (i == c)) [
  | inl at ↦
      rw at (omega (arith, normal_loop-sum buf c n (i + 1) (offset + 4) sum (omega arith) lt))
  | inr off ↦ rw off (
      rw e (
        omega (
          arith,
          normal_loop-sum buf c n (i + 1) (4 * i + 4) (wrapping_add sum (word buf i)) (omega arith)
              (omega arith),
        )))
]

pub boot_loop-eq-normal_loop :
    (buf : List ℕ) (n i offset sum : ℕ)
    → boot_loop buf n i offset sum ≡ normal_loop buf 1 n i offset sum
unfolding boot_loop normal_loop
boot_loop-eq-normal_loop buf zero i offset sum = refl
boot_loop-eq-normal_loop buf (suc n) i offset sum =
    boot_loop-eq-normal_loop buf n (i + 1) (offset + 4) _

pub bitmap_loop-sum :
    (buf : List ℕ) (n i offset sum : ℕ)
    → All (λ b. b < 256) buf
    → offset ≡ 4 * i
    → sum < 2 ^ 32
    → (bitmap_loop buf n offset sum < 2 ^ 32)
      × ((bitmap_loop buf n offset sum + sum_range (word buf) i n) % 2 ^ 32 ≡ sum)
unfolding bitmap_loop sum_range
bitmap_loop-sum buf zero i offset sum h e lt = omega arith
bitmap_loop-sum buf (suc n) i offset sum h e lt = rw e (
    omega (
      arith,
      read_u32_be_slice-lt buf (4 * i) h,
      bitmap_loop-sum buf n (i + 1) (4 * i + 4) ((sum + (2 ^ 32 - word buf i)) % 2 ^ 32) h
          (omega arith) (omega arith),
    ))

-- For a buffer of bytes and the index c of a longword in it, the longword holds the normal sum for
-- its own offset exactly when all longwords of the buffer sum up to 0 modulo 2 ^ 32.
pub normal_sum_iff :
    (buf : List ℕ) (c : ℕ)
    → All (λ b. b < 256) buf
    → c < length buf / 4
    → (read_u32_be_slice buf (4 * c) ≡ normal_sum_slice buf (4 * c))
      ↔ (sum_range (word buf) 0 (length buf / 4) % 2 ^ 32 ≡ 0)
unfolding normal_sum_slice
normal_sum_iff buf c h lt =
    let e : 4 * c / 4 ≡ c = omega arith in
    rw e (
      omega (
        arith,
        read_u32_be_slice-lt buf (4 * c) h,
        normal_loop-sum buf c (length buf / 4) 0 0 0 refl (omega arith),
        sum_range-skip (word buf) c 0 (length buf / 4),
      ))

pub sum_range-suc : (f : ℕ → ℕ) (i n : ℕ) → sum_range f i (suc n) ≡ f i + sum_range f (i + 1) n
unfolding sum_range
sum_range-suc f i n = refl

-- For the bytes of a boot block, longword 1 holds the boot sum exactly when all 256 longwords sum
-- up to 2 ^ 32 - 1 modulo 2 ^ 32.
pub boot_sum_iff :
    (buf : List ℕ)
    → IsBytes 1024 buf
    → (read_u32_be_slice buf 4 ≡ boot_sum buf) ↔ (sum_range (word buf) 0 256 % 2 ^ 32 ≡ 2 ^ 32 - 1)
unfolding boot_sum boot_sum_scalar
boot_sum_iff buf h = omega (
  arith,
  read_u32_be_slice-lt buf 4 h.bytes,
  boot_loop-eq-normal_loop buf 256 0 0 0,
  normal_loop-sum buf 1 256 0 0 0 refl (omega arith),
  sum_range-skip (word buf) 1 0 256,
)

-- For the bytes of a bitmap block, longword 0 holds the bitmap sum exactly when all 128 longwords
-- sum up to 0 modulo 2 ^ 32.
bitmap_sum_iff :
    (buf : List ℕ)
    → IsBytes 512 buf
    → (read_u32_be_slice buf 0 ≡ bitmap_sum buf) ↔ (sum_range (word buf) 0 128 % 2 ^ 32 ≡ 0)
unfolding bitmap_sum bitmap_sum_scalar
bitmap_sum_iff buf h = omega (
  arith,
  read_u32_be_slice-lt buf 0 h.bytes,
  bitmap_loop-sum buf 127 1 4 0 h.bytes refl (omega arith),
  sum_range-suc (word buf) 0 127,
)

-- The boot sum as the complement of a plain sum of the longwords but the second.
abbrev pub plain_boot_sum : List ℕ → ℕ
plain_boot_sum buf = 2 ^ 32 - 1 - sum_range (skip 1 (word buf)) 0 256 % 2 ^ 32

-- The sum of a block's first `size` bytes as the negation of a plain sum of the longwords but the
-- sixth.
abbrev pub plain_sum : List ℕ → ℕ → ℕ
plain_sum buf size = (2 ^ 32 - sum_range (skip 5 (word buf)) 0 (size / 4) % 2 ^ 32) % 2 ^ 32

pub boot_sum-plain : (buf : List ℕ) → boot_sum buf ≡ plain_boot_sum buf
unfolding boot_sum boot_sum_scalar
boot_sum-plain buf = omega (
  arith,
  boot_loop-eq-normal_loop buf 256 0 0 0,
  normal_loop-sum buf 1 256 0 0 0 refl (omega arith),
)

pub normal_sum-plain :
    (buf : List ℕ) (size : ℕ) → length buf ≡ size → normal_sum_slice buf 20 ≡ plain_sum buf size
unfolding normal_sum_slice normal_sum_slice_scalar
normal_sum-plain buf size e =
    rw e (omega (arith, normal_loop-sum buf 5 (size / 4) 0 0 0 refl (omega arith)))
