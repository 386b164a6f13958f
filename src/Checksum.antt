-- ===== src/Checksum.antt =====
-- src/checksum.rs: reads of big-endian numbers, and the three checksums by their scalar loops.
-- Offsets in the program are in range for the sizes of its buffers, so the default of `get_or` is
-- not seen.
pub mod Sums
pub mod Simd
use affs_read.Prelude.{
  ℕ, zero, suc, ◌+◌, ◌-◌, ◌*◌, ◌/◌, ◌%◌, ◌^◌, List, ℤ, as_i32, get_or, length, ◌==◌, if◌then◌else◌,
}
use affs_read.Constants.{block_size}

abbrev pub byte_at : List ℕ → ℕ → ℕ
byte_at buf i = get_or buf i 0

-- `u32::from_be_bytes`
abbrev pub from_be_bytes : ℕ → ℕ → ℕ → ℕ → ℕ
from_be_bytes a b c d = ((a * 256 + b) * 256 + c) * 256 + d

-- `u32::wrapping_add`, `u32::wrapping_sub`, `(x as i32).wrapping_neg() as u32` and `!x`
abbrev pub wrapping_add : ℕ → ℕ → ℕ
wrapping_add a b = (a + b) % 2 ^ 32

abbrev pub wrapping_sub : ℕ → ℕ → ℕ
wrapping_sub a b = (a + (2 ^ 32 - b)) % 2 ^ 32

abbrev pub wrapping_neg : ℕ → ℕ
wrapping_neg a = (2 ^ 32 - a) % 2 ^ 32

abbrev pub complement : ℕ → ℕ
complement a = 2 ^ 32 - 1 - a

unfoldable pub read_u32_be_slice : List ℕ → ℕ → ℕ
read_u32_be_slice buf offset =
    from_be_bytes (byte_at buf offset) (byte_at buf (offset + 1)) (byte_at buf (offset + 2))
      (byte_at buf (offset + 3))

unfoldable pub read_u32_be : List ℕ → ℕ → ℕ
unfolding read_u32_be_slice
read_u32_be buf offset = read_u32_be_slice buf offset

unfoldable pub read_i32_be_slice : List ℕ → ℕ → ℤ
unfolding read_u32_be_slice
read_i32_be_slice buf offset = as_i32 (read_u32_be_slice buf offset)

unfoldable pub read_i32_be : List ℕ → ℕ → ℤ
unfolding read_i32_be_slice
read_i32_be buf offset = read_i32_be_slice buf offset

unfoldable pub read_u16_be : List ℕ → ℕ → ℕ
read_u16_be buf offset = byte_at buf offset * 256 + byte_at buf (offset + 1)

-- The loop of `normal_sum_slice_scalar`, with its rounds left.
unfoldable pub normal_loop : List ℕ → ℕ → ℕ → ℕ → ℕ → ℕ → ℕ
normal_loop buf checksum_word zero i offset sum = sum
normal_loop buf checksum_word (suc left) i offset sum =
    normal_loop buf checksum_word left (i + 1) (offset + 4)
      (if i == checksum_word then sum else wrapping_add sum (read_u32_be_slice buf offset))

unfoldable pub normal_sum_slice_scalar : List ℕ → ℕ → ℕ
normal_sum_slice_scalar buf checksum_offset =
    wrapping_neg (normal_loop buf (checksum_offset / 4) (length buf / 4) 0 0 0)

-- The default build is without the `simd` feature. The debug assertions, that the length and the
-- offset are multiples of 4, are left out.
unfoldable pub normal_sum_slice : List ℕ → ℕ → ℕ
unfolding normal_sum_slice_scalar
normal_sum_slice = normal_sum_slice_scalar

unfoldable pub normal_sum : List ℕ → ℕ → ℕ
unfolding normal_sum_slice
normal_sum buf checksum_offset = normal_sum_slice buf checksum_offset

-- The loop of `boot_sum_scalar` is that of the normal sum, over 256 words, less word 1.
unfoldable pub boot_loop : List ℕ → ℕ → ℕ → ℕ → ℕ → ℕ
boot_loop buf zero i offset sum = sum
boot_loop buf (suc left) i offset sum =
    boot_loop buf left (i + 1) (offset + 4)
      (if i == 1 then sum else wrapping_add sum (read_u32_be_slice buf offset))

unfoldable pub boot_sum_scalar : List ℕ → ℕ
boot_sum_scalar buf = complement (boot_loop buf 256 0 0 0)

unfoldable pub boot_sum : List ℕ → ℕ
unfolding boot_sum_scalar
boot_sum buf = boot_sum_scalar buf

unfoldable pub bitmap_loop : List ℕ → ℕ → ℕ → ℕ → ℕ
bitmap_loop buf zero offset sum = sum
bitmap_loop buf (suc left) offset sum =
    bitmap_loop buf left (offset + 4) (wrapping_sub sum (read_u32_be_slice buf offset))

unfoldable pub bitmap_sum_scalar : List ℕ → ℕ
bitmap_sum_scalar buf = bitmap_loop buf 127 4 0

unfoldable pub bitmap_sum : List ℕ → ℕ
unfolding bitmap_sum_scalar
bitmap_sum buf = bitmap_sum_scalar buf
