-- ===== src/Prelude/Drops.antt =====
-- How prefixes and remainders of lists meet.
use Prim.Native.Nat.{ℕ, zero, suc, ◌+◌, ◌≤◌, min}
use mathlib.Core.Path.{◌≡◌, refl, ap, ◌∙◌}
use mathlib.Core.List.{List, [], ◌∷◌, ◌++◌, append-nil}
use native.Mathlib.Omega.{arith}
use affs_read.Prelude.Slices.{splice}
use affs_read.Prelude.Lists.{length, take, drop}

module _ {ℓ} {A : Type ℓ} where
  pub drop-take : (m k n : ℕ) (xs : List A) → m + k ≡ n → drop m (take n xs) ≡ take k (drop m xs)
  drop-take zero k n xs e = let same : n ≡ k = omega arith in ap (λ t. take t xs) same
  drop-take (suc m) k zero xs e = absurd (omega arith)
  drop-take (suc m) zero (suc n) [] e = refl
  drop-take (suc m) (suc k) (suc n) [] e = refl
  drop-take (suc m) k (suc n) (x ∷ xs) e = drop-take m k n xs (omega arith)

  pub drop-drop : (m n k : ℕ) (xs : List A) → n + m ≡ k → drop m (drop n xs) ≡ drop k xs
  drop-drop m zero k xs e = let same : m ≡ k = omega arith in ap (λ t. drop t xs) same
  drop-drop m (suc n) zero xs e = absurd (omega arith)
  drop-drop zero (suc n) (suc k) [] e = refl
  drop-drop (suc m) (suc n) (suc k) [] e = refl
  drop-drop m (suc n) (suc k) (x ∷ xs) e = drop-drop m n k xs (omega arith)

  pub drop_all : (n : ℕ) (xs : List A) → length xs ≤ n → drop n xs ≡ []
  drop_all zero [] h = refl
  drop_all zero (x ∷ xs) h = absurd (omega arith)
  drop_all (suc n) [] h = refl
  drop_all (suc n) (x ∷ xs) h = drop_all n xs (omega arith)

  pub drop-append_left :
      (m : ℕ) (xs ys : List A) → m ≤ length xs → drop m (xs ++ ys) ≡ drop m xs ++ ys
  drop-append_left zero xs ys h = refl
  drop-append_left (suc m) [] ys h = absurd (omega arith)
  drop-append_left (suc m) (x ∷ xs) ys h = drop-append_left m xs ys (omega arith)

  pub take-split :
      (m j k : ℕ) (xs : List A) → m + j ≡ k → take k xs ≡ take m xs ++ take j (drop m xs)
  take-split zero j k xs e = let same : k ≡ j = omega arith in ap (λ t. take t xs) same
  take-split (suc m) j zero xs e = absurd (omega arith)
  take-split (suc m) zero (suc k) [] e = refl
  take-split (suc m) (suc j) (suc k) [] e = refl
  take-split (suc m) j (suc k) (x ∷ xs) e = ap (λ t. x ∷ t) (take-split m j k xs (omega arith))

  -- A prefix of two lists, by how many elements it has of each.
  pub take-append :
      (m k j : ℕ) (xs ys : List A)
      → m ≡ min (length xs) k
      → m + j ≡ k
      → take k (xs ++ ys) ≡ take m xs ++ take j ys
  take-append zero k j [] ys e sum = let same : k ≡ j = omega arith in ap (λ t. take t ys) same
  take-append zero zero zero (x ∷ xs) ys e sum = refl
  take-append zero zero (suc j) (x ∷ xs) ys e sum = absurd (omega arith)
  take-append zero (suc k) j (x ∷ xs) ys e sum = absurd (omega arith)
  take-append (suc m) k j [] ys e sum = absurd (omega arith)
  take-append (suc m) zero j (x ∷ xs) ys e sum = absurd (omega arith)
  take-append (suc m) (suc k) j (x ∷ xs) ys e sum =
      ap (λ t. x ∷ t) (take-append m k j xs ys (omega arith) (omega arith))

  -- A write over the whole list.
  pub splice_whole : (xs ys : List A) → length ys ≡ length xs → splice xs 0 ys ≡ ys
  unfolding splice
  splice_whole xs ys e =
      ap (λ t. ys ++ t) (drop_all (0 + length ys) xs (omega arith)) ∙ append-nil ys
