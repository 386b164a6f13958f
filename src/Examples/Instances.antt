-- ===== src/Examples/Instances.antt =====
-- Concrete functions in place of the crates `wide`, `bytemuck` and `memchr`.
use affs_read.Prelude.{
  ℕ, zero, suc, ◌+◌, ◌*◌, ◌/◌, ◌<◌, ◌≡◌, ◌≢◌, refl, ap, ◌∙◌, List, [], ◌∷◌, Option, none, some, inl,
  inr, arith, get_or, length, if◌then◌else◌, ◌==◌, Bool-cases, Option-cases, ==_iff, ==_eq,
}
use mathlib.Core.Option
use affs_read.Checksum.{wrapping_add, wrapping_sub, read_u32_be}
use affs_read.Checksum.Sums.{word}
use affs_read.Checksum.Simd.{Quad, Lanes, WordCast, zip_quad}
use affs_read.Symlink.{Memchr}
use affs_read.Block.Fields.{read_table, get_or-read_table}

abbrev pub four_lanes : Lanes
four_lanes = record {
  V = Quad;
  zeros = record { q0 = 0; q1 = 0; q2 = 0; q3 = 0 };
  new = λ q. q;
  add = zip_quad wrapping_add;
  sub = zip_quad wrapping_sub;
  to_array = λ v. v;
  to_array-zeros = refl;
  to_array-new = λ q. refl;
  to_array-add = λ u v. refl;
  to_array-sub = λ u v. refl;
}

-- On a machine of big-endian order.
pub big_endian : WordCast
big_endian = record {
  try_cast_slice = λ buf. some (read_table buf 0 0 (length buf / 4));
  from_be = λ n. n;
  from_be-cast = λ buf words e i h. cast_word buf words e i h;
}
  where
    cast_word :
        (buf words : List ℕ)
        → some (read_table buf 0 0 (length buf / 4)) ≡ some words
        → (i : ℕ) → i < length buf / 4
        → get_or words i 0 ≡ word buf i
    cast_word buf words e i h =
        let same : read_table buf 0 0 (length buf / 4) ≡ words = ground arith in
        let at : 0 + (0 + i) * 4 ≡ 4 * i = omega arith in
        rw (← same) (
          get_or-read_table buf 0 0 (length buf / 4) i h
          ∙ ap (λ t. read_u32_be buf t) at
          ∙ unfold read_u32_be in refl)

unfoldable pub position_of : ℕ → List ℕ → Option ℕ
position_of needle [] = none
position_of needle (x ∷ xs) =
    let later = position_of needle xs in if x == needle then some 0 else Option.map suc later

pub position_of-none :
    (needle : ℕ) (hay : List ℕ)
    → position_of needle hay ≡ none
    → (j : ℕ) → j < length hay
    → get_or hay j 0 ≢ needle
unfolding position_of
position_of-none needle [] e j h = absurd (omega arith)
position_of-none needle (x ∷ xs) e zero h = λ p. ground (arith, ==_eq x needle p)
position_of-none needle (x ∷ xs) e (suc j) h = elim (Option-cases (position_of needle xs)) [
  | inl later ↦ position_of-none needle xs later j (omega arith)
  | inr (k, found) ↦ absurd (ground arith)
]

first_hit : (needle x : ℕ) (xs : List ℕ) → position_of needle (x ∷ xs) ≡ some 0 → x ≡ needle
unfolding position_of
first_hit needle x xs e = elim (Bool-cases (x == needle)) [
  | inl here ↦ (==_iff x needle).0 here
  | inr away ↦ elim (Option-cases (position_of needle xs)) [
    | inl nowhere ↦ absurd (ground arith)
    | inr (k, found) ↦ absurd (ground arith)
  ]
]

later_hit :
    (needle x : ℕ) (xs : List ℕ) (i : ℕ)
    → position_of needle (x ∷ xs) ≡ some (suc i)
    → (x ≢ needle) × (position_of needle xs ≡ some i)
unfolding position_of
later_hit needle x xs i e = elim (Option-cases (position_of needle xs)) [
  | inl nowhere ↦ absurd (ground arith)
  | inr (k, found) ↦ (λ p. ground (arith, ==_eq x needle p), ground arith)
]

not_before :
    (needle x : ℕ) (xs : List ℕ) (i : ℕ)
    → x ≢ needle
    → ((j : ℕ) → j < i → get_or xs j 0 ≢ needle)
    → (j : ℕ) → j < suc i
    → get_or (x ∷ xs) j 0 ≢ needle
not_before needle x xs i away before zero h = away
not_before needle x xs i away before (suc j) h = before j (omega arith)

pub position_of-some :
    (needle : ℕ) (hay : List ℕ) (i : ℕ)
    → position_of needle hay ≡ some i
    → (i < length hay) × (get_or hay i 0 ≡ needle) × ((j : ℕ) → j < i → get_or hay j 0 ≢ needle)
unfolding position_of
position_of-some needle [] i e = absurd (ground arith)
position_of-some needle (x ∷ xs) zero e =
    (omega arith, first_hit needle x xs e, λ j h. absurd (omega arith))
position_of-some needle (x ∷ xs) (suc i) e =
    let (away, later) = later_hit needle x xs i e in
    let (inside, at, before) = position_of-some needle xs i later in
    (omega arith, at, not_before needle x xs i away before)

unfoldable pub first_position : Memchr
first_position = record {
  memchr = position_of;
  memchr-some = position_of-some;
  memchr-none = position_of-none;
}
