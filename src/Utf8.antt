-- ===== src/Utf8.antt =====
-- src/utf8.rs: bytes as a string, where they are UTF-8.
pub mod Views
pub mod Targets
use affs_read.Prelude.{
  ℕ, ◌≡◌, Bool, true, false, List, [], ◌∷◌, ◌&&◌, ◌||◌, ltb, leb, ◌==◌, Option, none, some,
  if◌then◌else◌,
}

abbrev pub is_tail : ℕ → Bool
is_tail b = leb 0x80 b && leb b 0xbf

-- The bytes that begin a character of two, three and four bytes.
abbrev pub opens_two : ℕ → Bool
opens_two a = leb 0xc2 a && leb a 0xdf

abbrev pub opens_three : ℕ → ℕ → Bool
opens_three a b =
    (a == 0xe0 && (leb 0xa0 b && leb b 0xbf))
    || ((leb 0xe1 a && (leb a 0xec && is_tail b))
        || ((a == 0xed && (leb 0x80 b && leb b 0x9f)) || (leb 0xee a && (leb a 0xef && is_tail b))))

abbrev pub opens_four : ℕ → ℕ → Bool
opens_four a b =
    (a == 0xf0 && (leb 0x90 b && leb b 0xbf))
    || ((leb 0xf1 a && (leb a 0xf3 && is_tail b)) || (a == 0xf4 && (leb 0x80 b && leb b 0x8f)))

-- Well-formed UTF-8, as the Unicode standard has it.
pub data IsUtf8 : List ℕ → Type 0 where
  no_bytes : IsUtf8 []
  one : {a : ℕ} {rest : List ℕ} → ltb a 0x80 ≡ true → IsUtf8 rest → IsUtf8 (a ∷ rest)
  two :
      {a b : ℕ} {rest : List ℕ}
      → opens_two a ≡ true
      → is_tail b ≡ true
      → IsUtf8 rest
      → IsUtf8 (a ∷ b ∷ rest)
  three :
      {a b c : ℕ} {rest : List ℕ}
      → opens_three a b ≡ true
      → is_tail c ≡ true
      → IsUtf8 rest
      → IsUtf8 (a ∷ b ∷ c ∷ rest)
  four :
      {a b c d : ℕ} {rest : List ℕ}
      → opens_four a b ≡ true
      → is_tail c ≡ true
      → is_tail d ≡ true
      → IsUtf8 rest
      → IsUtf8 (a ∷ b ∷ c ∷ d ∷ rest)

-- `simdutf8::basic::from_utf8` and `core::str::from_utf8`: whether the bytes are accepted.
pub record Validator : Type 0 where
  pub accepts : List ℕ → Bool
  pub accepts_sound : (bytes : List ℕ) → accepts bytes ≡ true → IsUtf8 bytes
  pub accepts_complete : (bytes : List ℕ) → IsUtf8 bytes → accepts bytes ≡ true

-- A string is its bytes.
unfoldable pub from_utf8 : Validator → List ℕ → Option (List ℕ)
from_utf8 v bytes = if v.accepts bytes then some bytes else none
