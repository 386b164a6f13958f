-- ===== src/Block/Ranges.antt =====
-- The Rust types of what is read off a block: `u32`, `i32`, `[u32; n]` and `[u8; n]`, as ranges of
-- the numbers and lengths of the lists of src/block.rs.
use affs_read.Prelude.{
  ℕ, zero, suc, ◌+◌, ◌*◌, ◌^◌, ◌<◌, ◌≤◌, ◌≡◌, ◌∙◌, List, arith, length, All, IsI32, as_i32-IsI32,
  All-slice, All-splice, All-replicate, replicate, slice, length-splice, length-replicate,
  length-slice,
}
use affs_read.Types.{IsBytes}
use affs_read.Checksum.{read_u32_be, read_u32_be_slice, read_i32_be, read_i32_be_slice}
use affs_read.Checksum.Sums.{read_u32_be_slice-lt}
use affs_read.Date.{AmigaDate}
use affs_read.Block.Fields.{read_table, read_string, string_len, length-read_table}

abbrev pub IsU32 : ℕ → Type 0
IsU32 n = n < 2 ^ 32

-- `[u32; n]`
pub record IsU32s (n : ℕ) (words : List ℕ) : Type 0 where
  pub size : length words ≡ n
  pub each : All IsU32 words

-- A string in an array `[u8; max_len]`, and its length.
pub record IsString (max_len len : ℕ) (chars : List ℕ) : Type 0 where
  pub fits : len ≤ max_len
  pub array : IsBytes max_len chars

pub record IsDate (d : AmigaDate) : Type 0 where
  pub days : IsI32 d.days
  pub mins : IsI32 d.mins
  pub ticks : IsI32 d.ticks

module _ (buf : List ℕ) (bytes : All (λ b. b < 256) buf) where
  pub read_u32_be-IsU32 : (at : ℕ) → IsU32 (read_u32_be buf at)
  unfolding read_u32_be
  read_u32_be-IsU32 at = read_u32_be_slice-lt buf at bytes

  pub read_i32_be-IsI32 : (at : ℕ) → IsI32 (read_i32_be buf at)
  unfolding read_i32_be read_i32_be_slice
  read_i32_be-IsI32 at = as_i32-IsI32 (read_u32_be_slice buf at) (read_u32_be_slice-lt buf at bytes)

  table-words : (base i n : ℕ) → All IsU32 (read_table buf base i n)
  unfolding read_table
  table-words base i zero = tt
  table-words base i (suc n) = (read_u32_be-IsU32 (base + i * 4), table-words base (i + 1) n)

  pub read_table-IsU32s : (base n : ℕ) → IsU32s n (read_table buf base 0 n)
  read_table-IsU32s base n = record {
    size = length-read_table buf base 0 n;
    each = table-words base 0 n;
  }

  pub read_string-IsString :
      (at max_len : ℕ)
      → at + 1 + max_len ≤ length buf
      → IsString max_len (string_len buf at max_len) (read_string buf at max_len)
  unfolding read_string
  read_string-IsString at max_len inside =
      let len = string_len buf at max_len in
      let chars = slice buf (at + 1) (at + 1 + len) in
      let size = length-slice buf (at + 1) (at + 1 + len) (omega arith) (omega arith) in
      record {
        fits = omega arith;
        array = record {
          size =
              length-splice (replicate max_len 0) 0 chars
                (omega (arith, size, length-replicate {A = ℕ} max_len 0))
              ∙ length-replicate {A = ℕ} max_len 0;
          bytes =
              All-splice (λ b. b < 256) (replicate max_len 0) 0 chars
                (All-replicate (λ b. b < 256) max_len 0 (omega arith))
                (All-slice (λ b. b < 256) buf (at + 1) (at + 1 + len) bytes);
        };
      }
