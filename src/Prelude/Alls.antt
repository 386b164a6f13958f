-- ===== src/Prelude/Alls.antt =====
-- What all elements of a list have, in the lists made of it.
use Prim.Native.Nat.{ℕ, zero, suc, ◌+◌, ◌-◌}
use mathlib.Core.List.{List, [], ◌∷◌, ◌++◌}
use affs_read.Prelude.Lists.{take, drop, replicate, length, get_or}
use affs_read.Prelude.Slices.{slice, splice}
use affs_read.Prelude.Tables.{All}

module _ {ℓ κ} {A : Type ℓ} (p : A → Type κ) where
  pub All-append : (xs ys : List A) → All p xs → All p ys → All p (xs ++ ys)
  All-append [] ys h g = g
  All-append (x ∷ xs) ys h g = (h.0, All-append xs ys h.1 g)

  pub All-take : (n : ℕ) (xs : List A) → All p xs → All p (take n xs)
  All-take zero xs h = tt
  All-take (suc n) [] h = tt
  All-take (suc n) (x ∷ xs) h = (h.0, All-take n xs h.1)

  pub All-drop : (n : ℕ) (xs : List A) → All p xs → All p (drop n xs)
  All-drop zero xs h = h
  All-drop (suc n) [] h = tt
  All-drop (suc n) (x ∷ xs) h = All-drop n xs h.1

  pub All-replicate : (n : ℕ) (a : A) → p a → All p (replicate n a)
  All-replicate zero a h = tt
  All-replicate (suc n) a h = (h, All-replicate n a h)

  pub All-slice : (xs : List A) (a b : ℕ) → All p xs → All p (slice xs a b)
  unfolding slice
  All-slice xs a b h = All-take (b - a) (drop a xs) (All-drop a xs h)

  pub All-splice :
      (xs : List A) (start : ℕ) (ys : List A) → All p xs → All p ys → All p (splice xs start ys)
  unfolding splice
  All-splice xs start ys h g =
      let tail = drop (start + length ys) xs in
      All-append (take start xs) (ys ++ tail) (All-take start xs h)
        (All-append ys tail g (All-drop (start + length ys) xs h))

  pub All-get_or : (xs : List A) (i : ℕ) (d : A) → p d → All p xs → p (get_or xs i d)
  All-get_or [] i d h g = h
  All-get_or (x ∷ xs) zero d h g = g.0
  All-get_or (x ∷ xs) (suc i) d h g = All-get_or xs i d h g.1
