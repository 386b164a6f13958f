-- ===== src/Block/Fields.antt =====
-- Parts that the blocks of src/block.rs share: tables, names and the tests on type and checksum.
use affs_read.Prelude.{
  ℕ, zero, suc, ◌+◌, ◌*◌, ◌<◌, ◌≡◌, refl, ap, List, [], ◌∷◌, arith, ℤ, eq_ℤ, min, length, get_or,
  replicate, slice, splice, ◌==◌,
}
use affs_read.Error.{Result, guard, invalid_block_type, checksum_mismatch, ◌>>◌}
use affs_read.Checksum.{byte_at, read_u32_be, read_i32_be, normal_sum}

-- `for (i, entry) in table.iter_mut().enumerate() { *entry = read_u32_be(buf, base + i * 4); }`,
-- from index i on.
unfoldable pub read_table : List ℕ → ℕ → ℕ → ℕ → List ℕ
read_table buf base i zero = []
read_table buf base i (suc n) = read_u32_be buf (base + i * 4) ∷ read_table buf base (i + 1) n

-- A counted string: its length, cut to `max_len`, and its bytes, padded with zeros.
abbrev pub string_len : List ℕ → ℕ → ℕ → ℕ
string_len buf at max_len = min (byte_at buf at) max_len

unfoldable pub read_string : List ℕ → ℕ → ℕ → List ℕ
read_string buf at max_len =
    splice (replicate max_len 0) 0 (slice buf (at + 1) (at + 1 + string_len buf at max_len))

-- `block_type != expected`, then the checksum at offset 20.
unfoldable pub check_header : List ℕ → ℤ → Result (Unit {0})
check_header buf expected = do
  guard (eq_ℤ (read_i32_be buf 0) expected) invalid_block_type
  guard (read_u32_be buf 20 == normal_sum buf 20) checksum_mismatch

pub length-read_table : (buf : List ℕ) (base i n : ℕ) → length (read_table buf base i n) ≡ n
unfolding read_table
length-read_table buf base i zero = refl
length-read_table buf base i (suc n) = ap suc (length-read_table buf base (i + 1) n)

pub get_or-read_table :
    (buf : List ℕ) (base i n k : ℕ)
    → k < n
    → get_or (read_table buf base i n) k 0 ≡ read_u32_be buf (base + (i + k) * 4)
unfolding read_table
get_or-read_table buf base i zero k h = absurd (omega arith)
get_or-read_table buf base i (suc n) zero h =
    let e : i * 4 ≡ (i + 0) * 4 = omega arith in ap (λ t. read_u32_be buf (base + t)) e
get_or-read_table buf base i (suc n) (suc k) h =
    let e : i + 1 + k ≡ i + suc k = omega arith in
    rw (← e) (get_or-read_table buf base (i + 1) n k (omega arith))
