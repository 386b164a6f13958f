-- ===== src/File/Delivers.antt =====
-- What a read has given of the bytes to come: src/file.rs.
use affs_read.Prelude.{
  ℕ, ◌+◌, ◌-◌, ◌≤◌, ◌≡◌, refl, sym, ap, ◌∙◌, List, ◌++◌, arith, min, length, take, drop, splice,
  length-splice, length-take, length-drop, take-splice_end, take-split, drop-drop,
}
use mathlib.Core.List.{append_assoc, append-nil}
use mathlib.Core.Path.{subst}
use affs_read.Error.{Result, ok}
use affs_read.Run.{Run, done}
use affs_read.Types.{BlockDevice}
use affs_read.File.{FileReader}
use affs_read.File.Stream.{Rest}

module _ (device : BlockDevice) where
  -- A read into `out`, behind `total` bytes, has given the next `k` bytes of `bs`: as many as there
  -- is room for, or all of them. The others stay to be given.
  pub data Delivers (out : List ℕ) (total : ℕ) (bs : List ℕ)
      : Run (Result ℕ × FileReader × List ℕ) → Type 0 where
    delivered :
        (k n : ℕ) (r' : FileReader) (out' : List ℕ)
        → k ≡ min (length out - total) (length bs)
        → n ≡ total + k
        → length out' ≡ length out
        → take n out' ≡ take total out ++ take k bs
        → Rest device r' (drop k bs)
        → Delivers out total bs (done (ok n, r', out'))

  pub idle :
      (r : FileReader) (out : List ℕ) (total : ℕ) (bs : List ℕ)
      → Rest device r bs
      → min (length out - total) (length bs) ≡ 0
      → Delivers out total bs (done (ok total, r, out))
  idle r out total bs rest e =
      delivered 0 total r out (sym e) (omega arith) refl (sym (append-nil _)) rest

  -- The bytes that a round copies come before those of the rounds behind it.
  pub Delivers-round :
      (out : List ℕ) (total m : ℕ) (src bs : List ℕ) {x : Run (Result ℕ × FileReader × List ℕ)}
      → src ≡ take m bs
      → m ≤ length bs
      → total + m ≤ length out
      → Delivers (splice out total src) (total + m) (drop m bs) x
      → Delivers out total bs x
  Delivers-round out total m src bs same some room
        (delivered k n r' out' count end_ size bytes rest) =
      delivered (m + k) n r' out' (omega (arith, kept, length-drop m bs)) (omega arith)
        (size ∙ kept) whole (subst (λ t. Rest device r' t) (drop-drop k m (m + k) bs refl) rest)
    where
      exact : length src ≡ m
      exact = omega (arith, ap length same, length-take m bs)

      kept : length (splice out total src) ≡ length out
      kept = length-splice out total src (omega (arith, exact))

      front : take (total + m) (splice out total src) ≡ take total out ++ src
      front =
          ap (λ (t : ℕ). take (total + t) (splice out total src)) (sym exact)
          ∙ take-splice_end out total src (omega (arith, exact))

      whole : take n out' ≡ take total out ++ take (m + k) bs
      whole =
          bytes
          ∙ ap (λ t. t ++ take k (drop m bs)) front
          ∙ append_assoc (take total out) src (take k (drop m bs))
          ∙ ap (λ t. take total out ++ t)
              (ap (λ t. t ++ take k (drop m bs)) same ∙ sym (take-split m k (m + k) bs refl))
