-- ===== src/File/Stream.antt =====
-- The bytes that a reader still has to give, block after block, whatever the sizes of the reads:
-- src/file.rs.
use affs_read.Prelude.{
  ℕ, ◌+◌, ◌-◌, ◌≤◌, ◌<◌, ◌≡◌, refl, sym, ap, ap₂, ◌∙◌, List, [], ◌++◌, arith, min, slice, length,
  take, drop, length-drop, length-take, drop-take, drop-drop, drop-append_left, take-append,
  take-append_left, take-take, length-append, Bool-cases, inl, inr, ◌==◌,
}
use mathlib.Core.Path.{subst}
use affs_read.Error.{ok}
use affs_read.Types.{BlockDevice, IsBytes}
use affs_read.File.{
  FileReader, copied, source_bytes, data_offset, data_block_size, current_block_data_size, refill,
}

-- The next `n` bytes of the block that is in the buffer.
abbrev pub piece : FileReader → ℕ → List ℕ
piece r n = take n (drop (data_offset r + r.offset_in_block) r.buf)

-- What the block in the buffer has for the reader.
abbrev pub in_block : FileReader → ℕ
in_block r = min (current_block_data_size r - r.offset_in_block) r.remaining

-- The data of the block in the buffer lie in it.
abbrev pub Fits : FileReader → Type 0
Fits r = data_offset r + current_block_data_size r ≤ 512

pub piece-eq-source_bytes : (r : FileReader) (n : ℕ) → source_bytes r n ≡ piece r n
unfolding slice
piece-eq-source_bytes r n =
    ap (λ (k : ℕ). take k (drop (data_offset r + r.offset_in_block) r.buf)) (omega arith)

room_of_block : (r : FileReader) → data_offset r + data_block_size r ≡ 512
unfolding data_offset data_block_size
room_of_block r = ground arith

-- A copy leaves the block as large as it was.
size-copied :
    (r : FileReader) (m : ℕ)
    → m ≤ r.remaining
    → current_block_data_size (copied r m) ≡ current_block_data_size r
unfolding current_block_data_size
size-copied r m h = ground arith

offset-copied : (r : FileReader) (m : ℕ) → data_offset (copied r m) ≡ data_offset r
unfolding data_offset
offset-copied r m = refl

-- A piece of what the block has is as long as was asked for.
length-piece :
    (r : FileReader) (n m : ℕ)
    → Fits r
    → n ≤ in_block r
    → m ≤ n
    → IsBytes 512 r.buf
    → m ≤ length (piece r n)
length-piece r n m fits some less h = omega (
  arith,
  h.size,
  length-take n (drop (data_offset r + r.offset_in_block) r.buf),
  length-drop (data_offset r + r.offset_in_block) r.buf,
)

pub take-piece :
    (r : FileReader) (m : ℕ) (bs : List ℕ)
    → Fits r
    → IsBytes 512 r.buf
    → m ≤ in_block r
    → (take m (piece r (in_block r) ++ bs) ≡ piece r m) × (m ≤ length (piece r (in_block r) ++ bs))
take-piece r m bs fits h less =
    let long = length-piece r (in_block r) m fits (omega arith) less h in
    (
      take-append_left m (piece r (in_block r)) bs long
          ∙ take-take m (in_block r) (drop (data_offset r + r.offset_in_block) r.buf) less,
      omega (arith, long, length-append (piece r (in_block r)) bs),
    )

module _ (device : BlockDevice) where
  -- The bytes of the blocks that the reader is to fetch, up to the end of the file. Each fetch
  -- succeeds, with a byte or more for the reader, and no block claims data behind its end.
  pub data Rest : FileReader → List ℕ → Type 0 where
    ended : {r : FileReader} → r.remaining ≡ 0 → Rest r []
    block :
        {r : FileReader} {bs : List ℕ}
        → 0 < r.remaining
        → (refill device r).0 ≡ ok tt
        → 0 < in_block (refill device r).1
        → Fits (refill device r).1
        → Rest (copied (refill device r).1 (in_block (refill device r).1)) bs
        → Rest r (piece (refill device r).1 (in_block (refill device r).1) ++ bs)

  -- A reader inside a block needs no other one.
  refill-inside :
      (r : FileReader)
      → 0 < r.offset_in_block
      → r.offset_in_block < data_block_size r
      → refill device r ≡ (ok tt, r)
  unfolding refill
  refill-inside r pos inside = ground arith

  pub Rest-eq : {r r' : FileReader} {bs bs' : List ℕ} → r ≡ r' → bs ≡ bs' → Rest r bs → Rest r' bs'
  Rest-eq {r} {r'} {bs} {bs'} p q rest = subst (λ t. Rest t bs') p (subst (λ t. Rest r t) q rest)

  pub Rest-at_end : (r : FileReader) (xs : List ℕ) → r.remaining ≡ 0 → Rest r (take r.remaining xs)
  Rest-at_end r xs e = Rest-eq refl (ap (λ t. take t xs) (sym e)) (ended e)

  -- The same from what a refill is known to give.
  filled-Rest :
      (r now : FileReader) (bs : List ℕ)
      → refill device r ≡ (ok tt, now)
      → 0 < r.remaining
      → 0 < in_block now
      → Fits now
      → Rest (copied now (in_block now)) bs
      → Rest r (piece now (in_block now) ++ bs)
  filled-Rest r now bs filled pos some fits rest =
      let same : now ≡ (refill device r).1 = sym (ap (λ t. t.1) filled) in
      Rest-eq refl (ap (λ t. piece t (in_block t) ++ bs) (sym same)) (
        block pos (ap (λ t. t.0) filled) (subst (λ t. 0 < in_block t) same some)
          (subst Fits same fits) (Rest-eq (ap (λ t. copied t (in_block t)) same) refl rest))

  -- The same where the data of the block are known.
  pub front-Rest :
      (r now : FileReader) (held rest : List ℕ)
      → refill device r ≡ (ok tt, now)
      → 0 < r.remaining
      → now.remaining ≡ r.remaining
      → 0 < length held
      → in_block now ≡ min (length held) now.remaining
      → piece now (in_block now) ≡ take (in_block now) held
      → Fits now
      → Rest (copied now (in_block now)) (take (copied now (in_block now)).remaining rest)
      → Rest r (take r.remaining (held ++ rest))
  front-Rest r now held rest filled some kept held_some size same fits more =
      Rest-eq refl
        (ap (λ t. t ++ take (now.remaining - in_block now) rest) same
          ∙ sym (
              take-append (in_block now) r.remaining (now.remaining - in_block now) held rest
                (omega (arith, size, kept)) (omega (arith, size, kept))))
        (filled-Rest r now (take (now.remaining - in_block now) rest) filled some
          (omega (arith, size, kept)) fits more)

  -- Where `m` bytes of the block are read, the others stay to be given.
  part-Rest :
      (r : FileReader) (m : ℕ) (bs : List ℕ)
      → IsBytes 512 r.buf
      → 0 < m
      → m < in_block r
      → Fits r
      → Rest (copied r (in_block r)) bs
      → Rest (copied r m) (drop m (piece r (in_block r) ++ bs))
  part-Rest r m bs h pos less fits rest = Rest-eq refl (sym bytes) (
      filled-Rest (copied r m) (copied r m) bs
        (refill-inside (copied r m) (omega arith)
          (omega (arith, size, room_of_block (copied r m), offset-copied r m)))
        (omega arith) (omega (arith, size)) (omega (arith, size, offset-copied r m))
        (Rest-eq (sym moved) refl rest))
    where
      size : current_block_data_size (copied r m) ≡ current_block_data_size r
      size = size-copied r m (omega arith)

      moved : copied (copied r m) (in_block (copied r m)) ≡ copied r (in_block r)
      moved =
          ap₂ (λ (o k : ℕ). record r { remaining = k; offset_in_block = o }) (omega (arith, size))
            (omega (arith, size))

      bytes : drop m (piece r (in_block r) ++ bs) ≡ piece (copied r m) (in_block (copied r m)) ++ bs
      bytes =
          drop-append_left m (piece r (in_block r)) bs
            (length-piece r (in_block r) m fits (omega arith) (omega arith) h)
          ∙ ap (λ t. t ++ bs)
              (drop-take m (in_block (copied r m)) (in_block r)
                  (drop (data_offset r + r.offset_in_block) r.buf) (omega (arith, size))
                ∙ ap (take (in_block (copied r m))) (
                    drop-drop m (data_offset r + r.offset_in_block)
                      (data_offset (copied r m) + (r.offset_in_block + m)) r.buf
                      (omega (arith, offset-copied r m))))

  -- The same for all bytes of the block.
  pub copied-Rest :
      (r : FileReader) (m : ℕ) (bs : List ℕ)
      → IsBytes 512 r.buf
      → 0 < m
      → m ≤ in_block r
      → Fits r
      → Rest (copied r (in_block r)) bs
      → Rest (copied r m) (drop m (piece r (in_block r) ++ bs))
  copied-Rest r m bs h pos less fits rest = elim (Bool-cases (m == in_block r)) [
    | inl all ↦
        let same : in_block r ≡ m = ground arith in
        let behind : drop m (piece r (in_block r) ++ bs) ≡ bs =
          drop-append_left m (piece r (in_block r)) bs
            (length-piece r (in_block r) m fits (omega arith) (omega arith) h)
          ∙ ap (λ t. t ++ bs)
              (drop-take m 0 (in_block r) (drop (data_offset r + r.offset_in_block) r.buf)
                (omega arith)) in
        Rest-eq (ap (λ t. copied r t) same) (sym behind) rest
    | inr part ↦ part-Rest r m bs h pos (ground arith) fits rest
  ]
