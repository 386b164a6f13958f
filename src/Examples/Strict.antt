-- ===== src/Examples/Strict.antt =====
-- A validator of UTF-8.
use affs_read.Prelude.{
  some, take, replicate, ℕ, ◌⊎◌, ◌≡◌, refl, true, false, Bool, List, [], ◌∷◌, ◌&&◌, ◌||◌, ltb,
  arith, inl, inr,
}
use affs_read.Utf8.{
  IsUtf8, no_bytes, one, two, three, four, is_tail, opens_two, opens_three, opens_four, Validator,
  from_utf8,
}
use affs_read.Utf8.Targets.{from_utf8-latin1_to_utf8_symlink}
use affs_read.Symlink.{latin1_to_utf8_symlink}

checked : List ℕ → Bool
checked [] = true
checked (a ∷ []) = ltb a 0x80
checked (a ∷ b ∷ []) = (ltb a 0x80 && checked (b ∷ [])) || (opens_two a && is_tail b)
checked (a ∷ b ∷ c ∷ []) =
    (ltb a 0x80 && checked (b ∷ c ∷ []))
    || ((opens_two a && (is_tail b && checked (c ∷ []))) || (opens_three a b && is_tail c))
checked (a ∷ b ∷ c ∷ d ∷ rest) =
    (ltb a 0x80 && checked (b ∷ c ∷ d ∷ rest))
    || ((opens_two a && (is_tail b && checked (c ∷ d ∷ rest)))
        || ((opens_three a b && (is_tail c && checked (d ∷ rest)))
            || (opens_four a b && (is_tail c && (is_tail d && checked rest)))))

both : (p q : Bool) → (p && q) ≡ true → (p ≡ true) × (q ≡ true)
both p q h = ground arith

or_right : (p q : Bool) → q ≡ true → (p || q) ≡ true
or_right p q h = ground arith

either : (p q : Bool) → (p || q) ≡ true → (p ≡ true) ⊎ (q ≡ true)
either true q h = inl refl
either false q h = inr h

and_true : (p q : Bool) → p ≡ true → q ≡ true → (p && q) ≡ true
and_true p q h g = ground arith

or_left : (p q : Bool) → p ≡ true → (p || q) ≡ true
or_left p q h = ground arith

checked_complete : (bytes : List ℕ) → IsUtf8 bytes → checked bytes ≡ true
unfolding checked
checked_complete [] no_bytes = refl
checked_complete (a ∷ []) (one h r) = h
checked_complete (a ∷ b ∷ []) (one h r) = or_left _ _ (and_true _ _ h (checked_complete (b ∷ []) r))
checked_complete (a ∷ b ∷ []) (two h g r) = or_right _ _ (and_true _ _ h g)
checked_complete (a ∷ b ∷ c ∷ []) (one h r) =
    or_left _ _ (and_true _ _ h (checked_complete (b ∷ c ∷ []) r))
checked_complete (a ∷ b ∷ c ∷ []) (two h g r) =
    or_right _ _ (or_left _ _ (and_true _ _ h (and_true _ _ g (checked_complete (c ∷ []) r))))
checked_complete (a ∷ b ∷ c ∷ []) (three h g r) = or_right _ _ (or_right _ _ (and_true _ _ h g))
checked_complete (a ∷ b ∷ c ∷ d ∷ rest) (one h r) =
    or_left _ _ (and_true _ _ h (checked_complete (b ∷ c ∷ d ∷ rest) r))
checked_complete (a ∷ b ∷ c ∷ d ∷ rest) (two h g r) =
    or_right _ _ (or_left _ _ (and_true _ _ h (and_true _ _ g (checked_complete (c ∷ d ∷ rest) r))))
checked_complete (a ∷ b ∷ c ∷ d ∷ rest) (three h g r) =
    or_right _ _
      (or_right _ _ (or_left _ _ (and_true _ _ h (and_true _ _ g (checked_complete (d ∷ rest) r)))))
checked_complete (a ∷ b ∷ c ∷ d ∷ rest) (four h g k r) =
    or_right (ltb a 0x80 && checked (b ∷ c ∷ d ∷ rest)) _ (
      or_right (opens_two a && (is_tail b && checked (c ∷ d ∷ rest))) _ (
        or_right (opens_three a b && (is_tail c && checked (d ∷ rest))) _
          (and_true _ _ h (and_true _ _ g (and_true _ _ k (checked_complete rest r))))))

checked_sound : (bytes : List ℕ) → checked bytes ≡ true → IsUtf8 bytes
unfolding checked
checked_sound [] h = no_bytes
checked_sound (a ∷ []) h = one h no_bytes
checked_sound (a ∷ b ∷ []) h = elim (either (ltb a 0x80 && checked (b ∷ [])) _ h) [
  | inl p ↦ let (x, y) = both _ _ p in one x (checked_sound (b ∷ []) y)
  | inr p ↦ let (x, y) = both _ _ p in two x y no_bytes
]
checked_sound (a ∷ b ∷ c ∷ []) h = elim (either (ltb a 0x80 && checked (b ∷ c ∷ [])) _ h) [
  | inl p ↦ let (x, y) = both _ _ p in one x (checked_sound (b ∷ c ∷ []) y)
  | inr other ↦ elim (either (opens_two a && (is_tail b && checked (c ∷ []))) _ other) [
    | inl p ↦
        let (x, q) = both _ _ p in let (y, z) = both _ _ q in two x y (checked_sound (c ∷ []) z)
    | inr p ↦ let (x, y) = both _ _ p in three x y no_bytes
  ]
]
checked_sound (a ∷ b ∷ c ∷ d ∷ rest) h =
    elim (either (ltb a 0x80 && checked (b ∷ c ∷ d ∷ rest)) _ h) [
      | inl p ↦ let (x, y) = both _ _ p in one x (checked_sound (b ∷ c ∷ d ∷ rest) y)
      | inr other ↦ elim (either (opens_two a && (is_tail b && checked (c ∷ d ∷ rest))) _ other) [
        | inl p ↦
            let (x, q) = both _ _ p in
            let (y, z) = both _ _ q in two x y (checked_sound (c ∷ d ∷ rest) z)
        | inr longer ↦
            elim (either (opens_three a b && (is_tail c && checked (d ∷ rest))) _ longer) [
              | inl p ↦
                  let (x, q) = both _ _ p in
                  let (y, z) = both _ _ q in three x y (checked_sound (d ∷ rest) z)
              | inr p ↦
                  let (x, q) = both _ _ p in
                  let (y, q') = both _ _ q in
                  let (z, w) = both _ _ q' in four x y z (checked_sound rest w)
            ]
      ]
    ]

pub strict : Validator
strict = record {
  accepts = checked;
  accepts_sound = checked_sound;
  accepts_complete = checked_complete;
}

-- `é` and `a`.
abbrev latin1 : List ℕ
latin1 = 0xe9 ∷ b'a' ∷ []

from_utf8_example :
    let (out', n) = latin1_to_utf8_symlink latin1 (replicate 2 0) in
    from_utf8 strict (take n out') ≡ some (take n out')
from_utf8_example =
    from_utf8-latin1_to_utf8_symlink strict latin1 (replicate 2 0) (omega arith, (omega arith, tt))
