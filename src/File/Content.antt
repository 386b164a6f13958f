-- ===== src/File/Content.antt =====
-- Reads give the bytes of the file in order, however the file is split into reads: src/file.rs.
use affs_read.Prelude.{
  ℕ, zero, suc, ◌+◌, ◌-◌, ◌≤◌, ◌<◌, ◌≡◌, refl, sym, ◌∙◌, true, false, List, [], ◌++◌, inl, inr,
  arith, min, ◌&&◌, ◌||◌, length, drop, splice, Bool-cases, ltb, leb, ◌==◌, ==_ne,
}
use affs_read.Types.{BlockDevice}
use affs_read.File.{FileReader, copied, source_bytes, data_offset, to_read, refill, read_loop, read}
use affs_read.File.Ends.{IsValid, copied-IsValid, length-written, full}
use affs_read.File.Loop.{refill-IsValid, after_refill}
use affs_read.File.Stream.{
  Rest, ended, block, Fits, piece, in_block, copied-Rest, take-piece, piece-eq-source_bytes,
}
use affs_read.File.Delivers.{Delivers, idle, Delivers-round}

-- What a round copies.
to_read-in_block : (r : FileReader) (room : ℕ) → to_read r room ≡ min (in_block r) room
unfolding to_read
to_read-in_block r room = omega arith

at_end :
    (r : FileReader) (out : List ℕ) (total : ℕ)
    → r.remaining ≡ 0
    → (ltb total (length out) && ltb 0 r.remaining) ≡ false
at_end r out total e = ground arith

module _ (device : BlockDevice) where
  -- A round after its refill, from what the rest of the loop does.
  copy_block :
      (fuel : ℕ) (r : FileReader) (out : List ℕ) (total : ℕ) (bs : List ℕ)
      → IsValid r
      → 0 < in_block r
      → Fits r
      → total < length out
      → ((r1 : FileReader) (out1 : List ℕ) (total1 : ℕ) (bs1 : List ℕ)
          → IsValid r1
          → total < total1
          → total1 ≤ length out1
          → length out1 ≡ length out
          → Rest device r1 bs1
          → Delivers device out1 total1 bs1 (read_loop device fuel r1 out1 total1))
      → Rest device (copied r (in_block r)) bs
      → Delivers device out total
          (piece r (in_block r) ++ bs)
          (after_refill device fuel r out total)
  copy_block fuel r out total bs v some fits room loop rest =
      let m = to_read r (length out - total) in
      let count = to_read-in_block r (length out - total) in
      let (given, have) = take-piece r m bs fits v.block (omega arith) in
      let size = length-written r out total m v (omega arith) (omega arith) (omega arith) in
      let positive : (m == 0) ≡ false = ==_ne m 0 (omega arith) in
      let low : leb (data_offset r + r.offset_in_block + m) (length r.buf) ≡ true =
        ground (arith, v.block.size, count) in
      rw (positive, low, after_refill)
        (Delivers-round device out total m (source_bytes r m) (piece r (in_block r) ++ bs)
          (piece-eq-source_bytes r m ∙ sym given) have (omega arith)
          (loop (copied r m) (splice out total (source_bytes r m)) (total + m)
            (drop m (piece r (in_block r) ++ bs))
            (copied-IsValid r out total m v (omega arith) (omega arith) (omega arith)) (omega arith)
            (omega arith) size
            (copied-Rest device r m bs v.block (omega arith) (omega arith) fits rest)))

  read_loop-Delivers :
      (fuel : ℕ) (r : FileReader) (out : List ℕ) (total : ℕ) (bs : List ℕ)
      → IsValid r
      → total ≤ length out
      → length out - total ≤ fuel
      → Rest device r bs
      → Delivers device out total bs (read_loop device fuel r out total)
  unfolding read_loop
  read_loop-Delivers zero r out total bs v h enough rest =
      rw (full r out total (omega arith)) (idle device r out total bs rest (omega arith))
  read_loop-Delivers (suc fuel) r out total bs v h enough (ended e) =
      rw (at_end r out total e, read_loop) (idle device r out total [] (ended e) (omega arith))
  read_loop-Delivers (suc fuel) r out total bs v h enough
        (block {bs = bs'} pos filled some fits rest) =
      elim (Bool-cases (ltb total (length out))) [
        | inl open_ ↦
            let going : (ltb total (length out) && ltb 0 r.remaining) ≡ true = ground arith in
            rw (going, filled, read_loop)
              (copy_block fuel (refill device r).1 out total bs' (refill-IsValid device r v) some
                fits (ground arith)
                (λ r1 out1 total1 bs1 v1 up inside same rest1.
                  read_loop-Delivers fuel r1 out1 total1 bs1 v1 inside (omega arith) rest1)
                rest)
        | inr none ↦
            rw (full r out total (ground arith), read_loop)
              (idle device r out total bs (block pos filled some fits rest) (ground arith))
      ]

  Rest-at_end : {r : FileReader} {bs : List ℕ} → Rest device r bs → r.remaining ≡ 0 → length bs ≡ 0
  Rest-at_end (ended e) h = refl
  Rest-at_end (block pos filled some fits rest) h = absurd (omega arith)

  -- For a valid reader whose fetches of the blocks to come succeed, with the bytes `bs` in them up
  -- to the end of the file: `read` returns, with as many of these bytes as there is room for in
  -- the buffer, or all of them, in order at its start; and those behind them stay to be given by
  -- the reader.
  pub read-Delivers :
      (r : FileReader) (out bs : List ℕ)
      → IsValid r
      → Rest device r bs
      → Delivers device out 0 bs (read device r out)
  unfolding read
  read-Delivers r out bs v rest = elim (Bool-cases (r.remaining == 0 || length out == 0)) [
    | inl nothing ↦
        rw (nothing, read) (idle device r out 0 bs rest (ground (arith, Rest-at_end rest)))
    | inr busy ↦
        rw (busy, read)
          (read_loop-Delivers (length out) r out 0 bs v (omega arith) (omega arith) rest)
  ]
