-- ===== src/File/Entire.antt =====
-- `read_all` of a reader that is at a position in its file: src/file.rs.
use affs_read.Prelude.{
  splice_whole, ℕ, zero, suc, ◌+◌, ◌≤◌, ◌<◌, ◌≡◌, refl, sym, ap, ap₂, ◌∙◌, true, false, List, inl,
  inr, arith, length, take, drop, drop_all, length-drop, take_all, splice, ◌==◌, ltb, ltb→lt, ==_ne,
  ==_eq, Bool-cases,
}
use affs_read.Error.{Result, ok, err, buffer_too_small}
use affs_read.Run.{Run, done}
use affs_read.Types.{BlockDevice}
use affs_read.File.{FileReader, position}
use affs_read.File.Whole.{Outcome, after, within_buffer, read_from, read_all_loop, read_all}
use affs_read.File.Holds.{Holds, Reads, reads, read-Reads}

module _ (device : BlockDevice) where
  -- What `read_all` gives of a file.
  pub data ReadsAll (r : FileReader) (out bytes : List ℕ) : Outcome ℕ → Type 0 where
    too_small :
        length out < r.remaining → ReadsAll r out bytes (done (err buffer_too_small, r, out))
    all_read :
        (n : ℕ) (r' : FileReader) (out' : List ℕ)
        → n ≡ r.remaining
        → length out' ≡ length out
        → take n out' ≡ drop (position r) bytes
        → position r' ≡ r.file_size
        → Holds device r' bytes
        → ReadsAll r out bytes (done (ok n, r', out'))

  -- The loop where nothing remains.
  loop_ended :
      (fuel : ℕ) (r : FileReader) (out : List ℕ) (total : ℕ)
      → r.remaining ≡ 0
      → read_all_loop device fuel r out total ≡ done (ok total, r, out)
  unfolding read_all_loop
  loop_ended zero r out total e = rw (==_eq _ _ e, read_all_loop)
  loop_ended (suc fuel) r out total e = rw (==_eq _ _ e, read_all_loop)

  pub remaining-position :
      (r : FileReader) (bytes : List ℕ)
      → Holds device r bytes
      → position r + r.remaining ≡ r.file_size
  unfolding position
  remaining-position r bytes h = omega (arith, h.valid.within)

  -- The first read gives all, since there is room for it.
  one_read :
      (fuel : ℕ) (r : FileReader) (out bytes : List ℕ) {x : Run (Result ℕ × FileReader × List ℕ)}
      → Holds device r bytes
      → 0 < r.remaining
      → r.remaining ≤ length out
      → Reads device r out bytes x
      → ReadsAll r out bytes (
          after (within_buffer out 0 x) λ n r' out'. elim (n == 0) [
            | true ↦ done (ok 0, r', out')
            | false ↦ read_all_loop device fuel r' out' (0 + n)
          ])
  one_read fuel r out bytes h some room (reads n r' out' count kept given moved h') =
      let left = remaining-position r bytes h in
      let left' = remaining-position r' bytes h' in
      rw (==_ne n 0 (omega arith), after)
        (rw (loop_ended fuel r' (splice out 0 out') (0 + n) (omega (arith, h.size, h'.size))) (
          all_read (0 + n) r' (splice out 0 out') (omega arith) (ap length whole ∙ kept)
            (ap₂ (λ (k : ℕ) t. take k t) (omega arith) whole
              ∙ given
              ∙ take_all n (drop (position r) bytes)
                  (omega (arith, h.size, length-drop (position r) bytes)))
            (omega arith) h'))
    where
      whole : splice out 0 out' ≡ out'
      whole = splice_whole out out' kept

  nothing_left :
      (r : FileReader) (out bytes : List ℕ) (fuel : ℕ)
      → Holds device r bytes
      → r.remaining ≡ 0
      → ReadsAll r out bytes (read_all_loop device fuel r out 0)
  nothing_left r out bytes fuel h e =
      let left = remaining-position r bytes h in
      rw (loop_ended fuel r out 0 e) (
        all_read 0 r out (omega arith) refl
          (sym (drop_all (position r) bytes (omega (arith, h.size)))) (omega arith) h)

  read_all_loop-ReadsAll :
      (fuel : ℕ) (r : FileReader) (out bytes : List ℕ)
      → Holds device r bytes
      → r.remaining ≤ length out
      → r.remaining ≤ fuel
      → ReadsAll r out bytes (read_all_loop device fuel r out 0)
  unfolding read_all_loop read_from
  read_all_loop-ReadsAll zero r out bytes h room enough =
      nothing_left r out bytes zero h (omega arith)
  read_all_loop-ReadsAll (suc fuel) r out bytes h room enough =
      elim (Bool-cases (r.remaining == 0)) [
        | inl ended ↦ nothing_left r out bytes (suc fuel) h (ground arith)
        | inr more ↦
            rw (more, read_all_loop)
              (one_read fuel r out bytes h (ground arith) room (read-Reads device r out bytes h))
      ]

  -- For a reader that is at its position in a file of `bytes`: where the buffer is too small for
  -- the rest of the file, `read_all` fails and changes nothing; otherwise it returns, and all bytes
  -- from the position on stand at the start of the buffer, and the reader is at the end of the file.
  pub read_all-ReadsAll :
      (r : FileReader) (out bytes : List ℕ)
      → Holds device r bytes
      → ReadsAll r out bytes (read_all device r out)
  unfolding read_all
  read_all-ReadsAll r out bytes h = elim (Bool-cases (ltb (length out) r.remaining)) [
    | inl small ↦ rw (small, read_all) (too_small (ltb→lt _ _ small))
    | inr fits ↦
        rw (fits, read_all)
          (read_all_loop-ReadsAll r.remaining r out bytes h (ground arith) (omega arith))
  ]
