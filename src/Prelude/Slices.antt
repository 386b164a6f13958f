-- ===== src/Prelude/Slices.antt =====
-- Slices `xs[a..b]`, and the write `xs[at..at + ys.len()].copy_from_slice(ys)`.
use Prim.Native.Nat.{ℕ, zero, suc, ◌+◌, ◌-◌, ◌≤◌}
use mathlib.Core.Path.{◌≡◌, refl, sym, ap, ◌∙◌}
use mathlib.Core.List.{List, [], ◌∷◌, ◌++◌, append_assoc}
use native.Mathlib.Omega.{arith}
use affs_read.Prelude.Lists.{
  length, take, drop, length-append, length-take, length-drop, take-append_left, take-length-append,
}

module _ {ℓ} {A : Type ℓ} where
  unfoldable pub slice : List A → ℕ → ℕ → List A
  slice xs a b = take (b - a) (drop a xs)

  unfoldable pub splice : List A → ℕ → List A → List A
  splice xs start ys = take start xs ++ (ys ++ drop (start + length ys) xs)

  pub length-slice : (xs : List A) (a b : ℕ) → a ≤ b → b ≤ length xs → length (slice xs a b) ≡ b - a
  unfolding slice
  length-slice xs a b p q = omega (arith, length-take (b - a) (drop a xs), length-drop a xs)

  pub length-splice :
      (xs : List A) (start : ℕ) (ys : List A)
      → start + length ys ≤ length xs
      → length (splice xs start ys) ≡ length xs
  unfolding splice
  length-splice xs start ys h = omega (
    arith,
    length-append (take start xs) (ys ++ drop (start + length ys) xs),
    length-append ys (drop (start + length ys) xs),
    length-take start xs,
    length-drop (start + length ys) xs,
  )

  pub take-take : (k n : ℕ) (xs : List A) → k ≤ n → take k (take n xs) ≡ take k xs
  take-take zero n xs h = refl
  take-take (suc k) zero xs h = absurd (omega arith)
  take-take (suc k) (suc n) [] h = refl
  take-take (suc k) (suc n) (x ∷ xs) h = ap (λ t. x ∷ t) (take-take k n xs (omega arith))

  -- What stands before the written range stays.
  pub take-splice :
      (k : ℕ) (xs : List A) (start : ℕ) (ys : List A)
      → k ≤ start
      → start ≤ length xs
      → take k (splice xs start ys) ≡ take k xs
  unfolding splice
  take-splice k xs start ys p q =
      take-append_left k (take start xs) _ (omega (arith, length-take start xs))
      ∙ take-take k start xs p

  -- And the written range holds what was written.
  pub take-splice_end :
      (xs : List A) (start : ℕ) (ys : List A)
      → start + length ys ≤ length xs
      → take (start + length ys) (splice xs start ys) ≡ take start xs ++ ys
  unfolding splice
  take-splice_end xs start ys h =
      let front : List A = take start xs ++ ys in
      let e : length front ≡ start + length ys =
        omega (arith, length-append (take start xs) ys, length-take start xs) in
      ap (λ n. take n (splice xs start ys)) (sym e)
      ∙ ap (take (length front))
          (sym (append_assoc (take start xs) ys (drop (start + length ys) xs)))
      ∙ take-length-append front _
