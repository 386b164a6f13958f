-- ===== src/Symlink/Target.antt =====
-- A symlink's target read from its block, and read back from the UTF-8. src/symlink.rs.
use affs_read.Prelude.{
  ◌==◌, ℕ, ◌+◌, ◌-◌, ◌*◌, ◌/◌, ◌%◌, ◌<◌, ◌≡◌, refl, ap, true, false, List, [], ◌∷◌, Option, none,
  some, inl, inr, arith, ltb, if◌then◌else◌, All, Bool-cases,
}
use mathlib.Core.Option
use affs_read.Symlink.Utf8.{translate, utf8_char, utf8, volume_byte-lt}

-- The code points of UTF-8 that has none above 255: the other direction, for the specification.
pub decode : List ℕ → Option (List ℕ)
decode [] = some []
decode (a ∷ []) = if ltb a 0x80 then some (a ∷ []) else none
decode (a ∷ b ∷ rest) =
    let short = decode (b ∷ rest) in
    let long = decode rest in
    if ltb a 0x80
    then Option.map (λ cs. a ∷ cs) short
    else Option.map (λ cs. ((a - 0xc0) * 64 + (b - 0x80)) ∷ cs) long

pub translate-bytes :
    (i : ℕ) (xs : List ℕ) → All (λ b. b < 256) xs → All (λ b. b < 256) (translate i xs)
unfolding translate
translate-bytes i [] h = tt
translate-bytes i (x ∷ xs) h = (volume_byte-lt i x h.0, translate-bytes (i + 1) xs h.1)

decode-cons_ascii :
    (c : ℕ) (rest cs : List ℕ)
    → ltb c 0x80 ≡ true
    → decode rest ≡ some cs
    → decode (c ∷ rest) ≡ some (c ∷ cs)
unfolding decode
decode-cons_ascii c [] cs h e = ground arith
decode-cons_ascii c (b ∷ rest) cs h e = rw (h, e)

decode-cons_pair :
    (c : ℕ) (rest cs : List ℕ)
    → c < 256
    → ltb c 0x80 ≡ false
    → decode rest ≡ some cs
    → decode ((0xc0 + c / 64) ∷ (0x80 + c % 64) ∷ rest) ≡ some (c ∷ cs)
unfolding decode
decode-cons_pair c rest cs lt h e =
    let big : ltb (0xc0 + c / 64) 0x80 ≡ false = ground arith in
    let back : (0xc0 + c / 64 - 0xc0) * 64 + (0x80 + c % 64 - 0x80) ≡ c = omega arith in
    rw (big, e) (ap (λ (t : ℕ). some (t ∷ cs)) back)

-- UTF-8 of code points below 256 is read back as them.
pub decode-utf8 : (cs : List ℕ) → All (λ c. c < 256) cs → decode (utf8 cs) ≡ some cs
unfolding utf8 utf8_char
decode-utf8 [] h = unfold decode in refl
decode-utf8 (c ∷ cs) h = elim (Bool-cases (ltb c 0x80)) [
  | inl ascii ↦ rw ascii (decode-cons_ascii c (utf8 cs) cs ascii (decode-utf8 cs h.1))
  | inr high ↦ rw high (decode-cons_pair c (utf8 cs) cs h.0 high (decode-utf8 cs h.1))
]

-- The bytes before the first zero, and the bytes with `/` for a `:` at the front.
pub upto_zero : List ℕ → List ℕ
upto_zero [] = []
upto_zero (b ∷ bs) = if b == 0 then [] else b ∷ upto_zero bs

pub slash_first : List ℕ → List ℕ
slash_first [] = []
slash_first (b ∷ bs) = (if b == 58 then 47 else b) ∷ bs
