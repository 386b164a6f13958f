-- ===== src/File/All.antt =====
-- `read_all` reads what remains of the file: src/file.rs.
use affs_read.Prelude.{
  ℕ, zero, suc, ◌+◌, ◌≤◌, ◌<◌, ◌≡◌, refl, sym, ◌∙◌, true, false, List, inl, inr, arith, ltb, ◌==◌,
  length, drop, splice, length-splice, length-drop, Bool-cases, ==_eq,
}
use affs_read.Error.{AffsError, ok, err, buffer_too_small}
use affs_read.Run.{done, panic}
use affs_read.Types.{BlockDevice, ofs, ffs}
use affs_read.File.{FileReader}
use affs_read.File.Round.{SameFile, SameFile-trans}
use affs_read.File.Ends.{IsValid, ReadEnds, returned, failed, panicked}
use affs_read.File.Loop.{read-ReadEnds}
use affs_read.File.Whole.{Outcome, after, within_buffer, read_from, read_all_loop, read_all}
use affs_read.File.Position.{SameFile-refl}

-- The ends of `read_all` with `total` bytes read before: the count of all bytes read, with the
-- file read to its end under FFS; an error; or, under OFS only, a panic.
pub data ReadAllEnds (r : FileReader) (out : List ℕ) (total : ℕ) : Outcome ℕ → Type 0 where
  whole :
      (n : ℕ) (r' : FileReader) (out' : List ℕ)
      → IsValid r'
      → SameFile r r'
      → length out' ≡ length out
      → n + r'.remaining ≡ total + r.remaining
      → (r.fs_type ≡ ffs → r'.remaining ≡ 0)
      → ReadAllEnds r out total (done (ok n, r', out'))
  stopped :
      (e : AffsError) (r' : FileReader) (out' : List ℕ)
      → IsValid r'
      → SameFile r r'
      → length out' ≡ length out
      → ReadAllEnds r out total (done (err e, r', out'))
  crashed : r.fs_type ≡ ofs → ReadAllEnds r out total panic

-- The ends of a loop that goes on from a later state.
ReadAllEnds-later :
    (r r' : FileReader) (out out' : List ℕ) (total total' : ℕ) {x : Outcome ℕ}
    → SameFile r r'
    → length out' ≡ length out
    → total' + r'.remaining ≡ total + r.remaining
    → ReadAllEnds r' out' total' x
    → ReadAllEnds r out total x
ReadAllEnds-later r r' out out' total total' same size sum (whole n r'' out'' v s l e rest) =
    whole n r'' out'' v (SameFile-trans same s) (l ∙ size) (e ∙ sum) (λ p. rest (same.fs_type ∙ p))
ReadAllEnds-later r r' out out' total total' same size sum (stopped e r'' out'' v s l) =
    stopped e r'' out'' v (SameFile-trans same s) (l ∙ size)
ReadAllEnds-later r r' out out' total total' same size sum (crashed p) =
    crashed (sym same.fs_type ∙ p)

module _ (device : BlockDevice) where
  -- The rest of the loop after a read, whichever way that ended.
  all_step :
      (fuel : ℕ) (r : FileReader) (out : List ℕ) (total : ℕ) {x : Outcome ℕ}
      → total + r.remaining ≤ length out
      → ReadEnds r (drop total out) 0 x
      → ((r' : FileReader) (out' : List ℕ) (n : ℕ)
          → IsValid r'
          → length out' ≡ length out
          → 0 < n
          → n + r'.remaining ≡ r.remaining
          → ReadAllEnds r' out' (total + n) (read_all_loop device fuel r' out' (total + n)))
      → ReadAllEnds r out total (
          after (within_buffer out total x) λ n r' out'. elim (n == 0) [
            | true ↦ done (ok total, r', out')
            | false ↦ read_all_loop device fuel r' out' (total + n)
          ])
  all_step fuel r out total room (returned n r' part a lo hi sum full) rest =
      elim (Bool-cases (n == 0)) [
        | inl none ↦
            rw (none, after)
              (whole total r' (splice out total part) a.valid a.same kept_length (ground arith)
                at_end)
        | inr some ↦
            rw (some, after)
              (ReadAllEnds-later r r' out (splice out total part) total (total + n) a.same
                kept_length (omega arith)
                (rest r' (splice out total part) n a.valid kept_length (ground arith)
                  (omega arith)))
      ]
    where
      kept_length : length (splice out total part) ≡ length out
      kept_length =
          length-splice out total part (omega (arith, a.same_length, length-drop total out))

      at_end : r.fs_type ≡ ffs → r'.remaining ≡ 0
      at_end p = elim (full p) [
        | inl all ↦ omega (arith, length-drop total out)
        | inr ended ↦ ended
      ]
  all_step fuel r out total room (failed e r' part a) rest =
      stopped e r' (splice out total part) a.valid a.same
        (length-splice out total part (omega (arith, a.same_length, length-drop total out)))
  all_step fuel r out total room (panicked p) rest = crashed p

  read_all_loop-ReadAllEnds :
      (fuel : ℕ) (r : FileReader) (out : List ℕ) (total : ℕ)
      → IsValid r
      → total + r.remaining ≤ length out
      → r.remaining ≤ fuel
      → ReadAllEnds r out total (read_all_loop device fuel r out total)
  unfolding read_all_loop read_from
  read_all_loop-ReadAllEnds zero r out total v room enough =
      let e : r.remaining ≡ 0 = omega arith in
      rw (==_eq _ _ e, read_all_loop) (whole total r out v (SameFile-refl r) refl refl (λ p. e))
  read_all_loop-ReadAllEnds (suc fuel) r out total v room enough =
      elim (Bool-cases (r.remaining == 0)) [
        | inl ended ↦
            rw (ended, read_all_loop)
              (whole total r out v (SameFile-refl r) refl refl (λ p. ground arith))
        | inr more ↦
            rw (more, read_all_loop)
              (all_step fuel r out total room (read-ReadEnds device r (drop total out) v)
                (λ r' out' n v' size pos sum.
                  read_all_loop-ReadAllEnds fuel r' out' (total + n) v' (omega arith)
                    (omega arith)))
      ]

  -- From a valid reader, `read_all` ends: it returns the count of the bytes that it took from the
  -- rest of the file, which under FFS are all of them; it fails; or, under OFS only, it panics.
  -- Returned or failed, the reader is valid and of the same file and the buffer keeps its size.
  pub read_all-ReadAllEnds :
      (r : FileReader) (out : List ℕ) → IsValid r → ReadAllEnds r out 0 (read_all device r out)
  unfolding read_all
  read_all-ReadAllEnds r out v = elim (Bool-cases (ltb (length out) r.remaining)) [
    | inl small ↦ rw (small, read_all) (stopped buffer_too_small r out v (SameFile-refl r) refl)
    | inr fits ↦
        rw (fits, read_all)
          (read_all_loop-ReadAllEnds r.remaining r out 0 v (ground arith) (omega arith))
  ]
