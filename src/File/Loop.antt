-- ===== src/File/Loop.antt =====
-- The loop of `read`: it ends, it keeps the reader valid, and it accounts for every byte.
-- src/file.rs.
use affs_read.Prelude.{
  ℕ, zero, suc, ◌+◌, ◌-◌, ◌≤◌, ◌<◌, ◌≡◌, ◌≢◌, refl, sym, ◌∙◌, true, false, List, ◌⊎◌, inl, inr,
  ◌&&◌, ◌||◌, arith, length, ltb, leb, ◌==◌, splice, leb→le, Bool-cases,
}
use affs_read.Error.{Result, ok, Result-cases}
use affs_read.Run.{Run, done, panic}
use affs_read.Types.{BlockDevice, ofs, ffs}
use affs_read.File.{
  FileReader, data_offset, data_block_size, current_block_data_size, to_read, copied, source_bytes,
  refill, read_loop, read,
}
use affs_read.File.Round.{SameFile-trans, refill-Fetched, refill-offset-lt}
use affs_read.File.Ends.{
  IsValid, Advanced, ReadEnds, returned, failed, panicked, to_read-le, written, copied-IsValid,
  length-written, Advanced-copied, lt_of_test, pos_of_test, full,
}

module _ (device : BlockDevice) where
  pub refill-IsValid : (r : FileReader) → IsValid r → IsValid (refill device r).1
  unfolding data_offset
  refill-IsValid r v = ground (arith, refill-Fetched device r v.block)

  Advanced-refill :
      (r : FileReader) (out : List ℕ) (total : ℕ)
      → IsValid r
      → Advanced r (refill device r).1 out out total
  Advanced-refill r out total v =
      let fetched = refill-Fetched device r v.block in
      record {
        valid = refill-IsValid r v;
        same = fetched.same;
        fewer = omega (arith, fetched.remaining);
        same_length = refl;
        kept = refl;
      }

  Advanced-after-refill :
      (r : FileReader) (out : List ℕ) (total : ℕ) {r' : FileReader} {out' : List ℕ}
      → IsValid r
      → Advanced (refill device r).1 r' out out' total
      → Advanced r r' out out' total
  Advanced-after-refill r out total v a =
      let first = Advanced-refill r out total v in
      record {
        valid = a.valid;
        same = SameFile-trans first.same a.same;
        fewer = omega (arith, a.fewer, first.fewer);
        same_length = a.same_length;
        kept = a.kept;
      }

  -- The ends of the rest of the loop are ends of the whole.
  ReadEnds-round :
      (r : FileReader) (out : List ℕ) (total n : ℕ) {x : Run (Result ℕ × FileReader × List ℕ)}
      → IsValid r
      → total + n ≤ length out
      → n ≤ (refill device r).1.remaining
      → data_offset (refill device r).1 + (refill device r).1.offset_in_block + n ≤ 512
      → ReadEnds
          (copied (refill device r).1 n)
          (splice out total (source_bytes (refill device r).1 n))
          (total + n)
          x
      → ReadEnds r out total x
  ReadEnds-round r out total n v room left inside (returned m r' out' a lo hi sum all) =
      let first = Advanced-refill r out total v in
      let fetched = refill-Fetched device r v.block in
      let n_len = length-written (refill device r).1 out total n first.valid room left inside in
      returned m r' out'
        (Advanced-after-refill r out total v
          (Advanced-copied (refill device r).1 out total n first.valid room left inside a))
        (omega arith) (omega (arith, n_len, hi)) (omega (arith, sum, fetched.remaining))
        (λ p. rw (← n_len) (all (fetched.same.fs_type ∙ p)))
  ReadEnds-round r out total n v room left inside (failed e r' out' a) =
      let first = Advanced-refill r out total v in
      failed e r' out' (
        Advanced-after-refill r out total v
          (Advanced-copied (refill device r).1 out total n first.valid room left inside a))
  ReadEnds-round r out total n v room left inside (panicked p) =
      panicked (sym (refill-Fetched device r v.block).same.fs_type ∙ p)

  -- The bytes to copy lie in the block buffer, or the reader is one of OFS.
  in_bounds :
      (r : FileReader) (n : ℕ)
      → IsValid r
      → n ≤ current_block_data_size r - r.offset_in_block
      → (data_offset r + r.offset_in_block + n ≤ 512) ⊎ (r.fs_type ≡ ofs)
  unfolding data_offset current_block_data_size
  in_bounds r n v h = ground (arith, v.fits)

  nothing_read :
      (r : FileReader) (out : List ℕ) (total : ℕ)
      → IsValid r
      → total ≤ length out
      → (total ≡ length out) ⊎ (r.remaining ≡ 0)
      → ReadEnds r out total (done (ok total, r, out))
  nothing_read r out total v h all =
      returned total r out
        (record {
          valid = v;
          same = ground arith;
          fewer = omega arith;
          same_length = refl;
          kept = refl;
        })
        (omega arith) h refl (λ _. all)

  abbrev pub after_refill : ℕ → FileReader → List ℕ → ℕ → Run (Result ℕ × FileReader × List ℕ)
  after_refill fuel r' out total =
      let n = to_read r' (length out - total) in
      elim (n == 0) [
        | true ↦ done (ok total, r', out)
        | false ↦ elim (leb (data_offset r' + r'.offset_in_block + n) (length r'.buf)) [
          | false ↦ panic
          | true ↦
              read_loop device fuel (copied r' n) (splice out total (source_bytes r' n)) (total + n)
        ]
      ]

  -- Under FFS a round that follows a refill has bytes to copy.
  empty_round :
      (r : FileReader) (out : List ℕ) (total : ℕ)
      → IsValid r
      → (refill device r).0 ≡ ok tt
      → r.fs_type ≡ ffs
      → 0 < r.remaining
      → total < length out
      → (to_read (refill device r).1 (length out - total) == 0) ≢ true
  unfolding to_read current_block_data_size data_block_size
  empty_round r out total v filled type more h none_left =
      let fetched = refill-Fetched device r v.block in
      ground (arith, refill-offset-lt device r filled, fetched.remaining, fetched.same.fs_type)

  -- A round after its refill, from what the rest of the loop does.
  copy_round :
      (fuel : ℕ) (r : FileReader) (out : List ℕ) (total : ℕ)
      → IsValid r
      → (refill device r).0 ≡ ok tt
      → 0 < r.remaining
      → total < length out
      → ((r1 : FileReader) (out1 : List ℕ) (total1 : ℕ)
          → IsValid r1
          → total < total1
          → total1 ≤ length out1
          → length out1 ≡ length out
          → ReadEnds r1 out1 total1 (read_loop device fuel r1 out1 total1))
      → ReadEnds r out total (after_refill fuel (refill device r).1 out total)
  copy_round fuel r out total v filled more h rest =
      let first = Advanced-refill r out total v in
      let fetched = refill-Fetched device r v.block in
      let r' = (refill device r).1 in
      let n = to_read r' (length out - total) in
      let (room, left, avail) = to_read-le r' (length out - total) in
      elim (Bool-cases (n == 0)) [
        | inl none_left ↦
            rw (none_left, after_refill)
              (returned total r' out first (omega arith) (omega arith)
                (omega (arith, fetched.remaining))
                (λ p. absurd (empty_round r out total v filled p more h none_left)))
        | inr some_left ↦
            rw (some_left, after_refill)
              (elim (Bool-cases (leb (data_offset r' + r'.offset_in_block + n) (length r'.buf))) [
                | inl inside ↦
                    let low : data_offset r' + r'.offset_in_block + n ≤ 512 =
                      omega (arith, leb→le _ _ inside, first.valid.block.size) in
                    let fits : total + n ≤ length out = omega arith in
                    let same = length-written r' out total n first.valid fits left low in
                    rw inside (
                      ReadEnds-round r out total n v fits left low (
                        rest (copied r' n) (written r' out total n first.valid fits left low)
                          (total + n) (copied-IsValid r' out total n first.valid fits left low)
                          (ground arith) (omega (arith, same)) same))
                | inr outside ↦ rw outside (
                    panicked (
                      ground (
                        arith,
                        in_bounds r' n first.valid avail,
                        first.same.fs_type,
                        first.valid.block.size,
                      )))
              ])
      ]

  pub read_loop-ReadEnds :
      (fuel : ℕ) (r : FileReader) (out : List ℕ) (total : ℕ)
      → IsValid r
      → total ≤ length out
      → length out - total ≤ fuel
      → ReadEnds r out total (read_loop device fuel r out total)
  unfolding read_loop
  read_loop-ReadEnds zero r out total v h enough =
      rw (full r out total (omega arith)) (nothing_read r out total v h (inl (omega arith)))
  read_loop-ReadEnds (suc fuel) r out total v h enough =
      elim (Bool-cases (ltb total (length out) && ltb 0 r.remaining)) [
        | inl more ↦ elim (Result-cases (refill device r).0) [
          | inl (_, filled) ↦
              rw (more, filled, read_loop)
                (copy_round fuel r out total v filled (pos_of_test r out total more)
                  (lt_of_test r out total more)
                  (λ r1 out1 total1 valid up fits same.
                    read_loop-ReadEnds fuel r1 out1 total1 valid fits (omega arith)))
          | inr (e, broken) ↦
              rw (more, broken, read_loop)
                (failed e (refill device r).1 out (Advanced-refill r out total v))
        ]
        | inr stop ↦ rw (stop, read_loop) (nothing_read r out total v h (ground arith))
      ]

  -- From a valid reader, `read` ends: it returns, it fails, or, under OFS only, it panics. Where it
  -- returns n, that is at most the size of the buffer, the reader has n bytes less to read, and
  -- under FFS n is the size of the buffer or the file is at its end.
  -- Returned or failed, the reader is valid and of the same file, and the buffer keeps its size.
  pub read-ReadEnds :
      (r : FileReader) (out : List ℕ) → IsValid r → ReadEnds r out 0 (read device r out)
  unfolding read
  read-ReadEnds r out v = elim (Bool-cases (r.remaining == 0 || length out == 0)) [
    | inl idle ↦ rw (idle, read) (nothing_read r out 0 v (omega arith) (ground arith))
    | inr busy ↦
        rw (busy, read) (read_loop-ReadEnds (length out) r out 0 v (omega arith) (omega arith))
  ]
