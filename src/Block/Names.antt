-- ===== src/Block/Names.antt =====
-- src/block.rs: the hash of a name, and names compared without regard to case.
pub mod Laws
use affs_read.Prelude.{
  ℕ, zero, suc, ◌+◌, ◌-◌, ◌*◌, ◌%◌, ◌^◌, Bool, true, false, not, List, [], ◌∷◌, ◌&&◌, ◌||◌, bit_and,
  ltb, leb, ◌==◌, if◌then◌else◌, length,
}
use affs_read.Constants.{hash_table_size}

abbrev pub is_ascii_lowercase : ℕ → Bool
is_ascii_lowercase c = leb b'a' c && leb c b'z'

-- `c & !(c.is_ascii_lowercase() as u8 * 32)`, where `!` is that of a `u8`.
unfoldable pub ascii_to_upper : ℕ → ℕ
ascii_to_upper c =
    if ltb c 128 then bit_and c (255 - (if is_ascii_lowercase c then 1 else 0) * 32) else c

unfoldable pub intl_to_upper : ℕ → ℕ
intl_to_upper c =
    if leb b'a' c && leb c b'z' || leb 224 c && leb c 254 && not (c == 247)
    then (c + 256 - 32) % 2 ^ 8
    else c

abbrev pub to_upper : Bool → ℕ → ℕ
to_upper intl c = if intl then intl_to_upper c else ascii_to_upper c

-- `(hash.wrapping_mul(13).wrapping_add(upper as u32)) & 0x7FF` for each character.
unfoldable pub hash_loop : Bool → List ℕ → ℕ → ℕ
hash_loop intl [] hash = hash
hash_loop intl (c ∷ name) hash =
    hash_loop intl name (bit_and ((hash * 13 % 2 ^ 32 + to_upper intl c) % 2 ^ 32) 0x7ff)

unfoldable pub hash_name : List ℕ → Bool → ℕ
unfolding hash_loop
hash_name name intl = hash_loop intl name (length name % 2 ^ 32) % hash_table_size

-- The loop over the zipped names.
pub all_equal : (ℕ → ℕ) → List ℕ → List ℕ → Bool
all_equal upper [] _ = true
all_equal upper (x ∷ a) [] = true
all_equal upper (x ∷ a) (y ∷ b) = upper x == upper y && all_equal upper a b

abbrev pub is_empty : List ℕ → Bool
is_empty [] = true
is_empty (x ∷ a) = false

unfoldable pub names_equal : List ℕ → List ℕ → Bool → Bool
unfolding all_equal
names_equal a b intl =
    if length a == length b
    then if is_empty a
      then true
      else if intl
      then all_equal intl_to_upper a b
      else all_equal ascii_to_upper a b
    else false
