-- ===== src/Reader/Components.antt =====
-- The components of a path, and its parts one after the other: src/reader.rs, `find_path`.
use affs_read.Prelude.{
  ℕ, zero, suc, ◌≤◌, ◌<◌, ◌≡◌, ◌≢◌, refl, ap, List, [], ◌∷◌, arith, ◌==◌, ==_ne, ==_eq,
  if◌then◌else◌, length, get_or, take, drop, drop_all,
}

-- A path cut at each `/`: the part before the first one, and the others.
unfoldable pub cut : List ℕ → List ℕ × List (List ℕ)
cut [] = ([], [])
cut (b ∷ path) =
    let (part, parts) = cut path in if b == b'/' then ([], part ∷ parts) else (b ∷ part, parts)

abbrev pub parts : List ℕ → List (List ℕ)
parts path = (cut path).0 ∷ (cut path).1

unfoldable pub nonempty : List (List ℕ) → List (List ℕ)
nonempty [] = []
nonempty ([] ∷ names) = nonempty names
nonempty ((b ∷ name) ∷ names) = (b ∷ name) ∷ nonempty names

-- The names of a path: what stands between the slashes, empty parts left out.
unfoldable pub components : List ℕ → List (List ℕ)
components path = nonempty ((cut path).0 ∷ (cut path).1)

pub cut-found :
    (path : List ℕ) (i : ℕ)
    → i < length path
    → get_or path i 0 ≡ b'/'
    → ((j : ℕ) → j < i → get_or path j 0 ≢ b'/')
    → cut path ≡ (take i path, parts (drop (suc i) path))
unfolding cut
cut-found [] i inside here before = absurd (omega arith)
cut-found (b ∷ path) zero inside here before = rw (==_eq b b'/' here) refl
cut-found (b ∷ path) (suc i) inside here before = rw (==_ne b b'/' (before 0 (omega arith))) (
    ap (λ t. (b ∷ t.0, t.1))
      (cut-found path i (omega arith) here (λ j h. before (suc j) (omega arith))))

pub cut-whole :
    (path : List ℕ) → ((j : ℕ) → j < length path → get_or path j 0 ≢ b'/') → cut path ≡ (path, [])
unfolding cut
cut-whole [] free = refl
cut-whole (b ∷ path) free =
    rw (==_ne b b'/' (free 0 (omega arith)))
      (ap (λ t. (b ∷ t.0, t.1)) (cut-whole path (λ j h. free (suc j) (omega arith))))

pub nothing_behind : (n : ℕ) (path : List ℕ) → length path ≤ n → nonempty (parts (drop n path)) ≡ []
unfolding nonempty cut
nothing_behind n path h = ap (λ t. nonempty (parts t)) (drop_all n path h)

pub nonempty_name :
    (name : List ℕ) (names : List (List ℕ))
    → 0 < length name
    → nonempty (name ∷ names) ≡ name ∷ nonempty names
unfolding nonempty
nonempty_name [] names h = absurd (omega arith)
nonempty_name (b ∷ name) names h = refl

pub empty_name :
    (name : List ℕ) (names : List (List ℕ))
    → length name ≡ 0
    → nonempty (name ∷ names) ≡ nonempty names
unfolding nonempty
empty_name [] names h = refl
empty_name (b ∷ name) names h = absurd (omega arith)

pub nonempty-ap :
    (name : List ℕ) (names names' : List (List ℕ))
    → nonempty names ≡ nonempty names'
    → nonempty (name ∷ names) ≡ nonempty (name ∷ names')
unfolding nonempty
nonempty-ap [] names names' e = e
nonempty-ap (b ∷ name) names names' e = ap (λ t. (b ∷ name) ∷ t) e
