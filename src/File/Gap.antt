-- ===== src/File/Gap.antt =====
-- What a failed read of a block leaves under FFS: src/file.rs, `get_next_ffs_block`.
use affs_read.Prelude.{
  splice_whole, ℕ, zero, suc, ◌+◌, ◌-◌, ◌≤◌, ◌<◌, ◌≡◌, ◌≢◌, refl, ap, ◌∙◌, true, false, List, [],
  ◌∷◌, arith, min, length, take, slice, splice, ==_ne, lt→ltb, leb, ◌==◌, length-take,
}
use affs_read.Error.{ok, err, block_read_error}
use affs_read.Run.{done}
use affs_read.Types.{BlockDevice, ffs}
use affs_read.File.{
  FileReader, data_block_size, data_offset, current_block_data_size, to_read, copied, source_bytes,
  refill, read_next_data_block, fetch_block, read_loop, read, position,
}
use affs_read.File.Ends.{full}
use affs_read.File.Loop.{after_refill}
use affs_read.File.Fetch.{AtBlock, needs_block}
use affs_read.File.Listed.{pointer, Pending}
use affs_read.File.Pending.{Pending-Fetches, next-taken, taken}

-- The reader behind a block that it could not read.
abbrev pub behind : BlockDevice → FileReader → FileReader
behind device r = record r {
  index_in_current = r.index_in_current + 1;
  buf = (device.read_block (pointer r.data_blocks r.index_in_current) r.buf).0;
}

module _ (device : BlockDevice) where
  -- The table has a block here, which cannot be read.
  pub record IsUnreadable (r : FileReader) : Type 0 where
    pub fs_type : r.fs_type ≡ ffs
    pub at : AtBlock r
    pub listed : r.index_in_current < r.blocks_in_current
    pub inside : r.index_in_current < 72
    pub used : pointer r.data_blocks r.index_in_current ≢ 0
    pub bad : (device.read_block (pointer r.data_blocks r.index_in_current) r.buf).1 ≡ false

  refill_fails :
      (r : FileReader) → IsUnreadable r → refill device r ≡ (err block_read_error, behind device r)
  unfolding refill read_next_data_block fetch_block
  refill_fails r h =
      let next =
        next-taken device (λ n. []) r h.fs_type h.listed
        ∙ taken device (λ n. []) r h.listed h.inside in
      rw (needs_block r h.at, refill)
        (rw (ap (λ t. t.0) next, read_next_data_block)
          (rw (==_ne _ _ h.used) (
            ap (λ t. fetch_block device (pointer r.data_blocks r.index_in_current) t.1) next
            ∙ rw h.bad refl)))

  read_fails :
      (r : FileReader) (out : List ℕ)
      → IsUnreadable r
      → 0 < r.remaining
      → 0 < length out
      → read device r out ≡ done (err block_read_error, behind device r, out)
  unfolding read read_loop
  read_fails r [] h some room = absurd (omega arith)
  read_fails r (x ∷ out) h some room =
      let fills = refill_fails r h in
      let more : (r.remaining == 0) ≡ false = ==_ne r.remaining 0 (omega arith) in
      let wanted : (length (x ∷ out) == 0) ≡ false = ==_ne _ 0 (omega arith) in
      rw (more, wanted)
        (rw (lt→ltb 0 (length (x ∷ out)) room, lt→ltb 0 r.remaining some, read_loop)
          (rw (ap (λ t. t.0) fills) (ap (λ t. done (err block_read_error, t.1, x ∷ out)) fills)))

  read_loop_full :
      (fuel : ℕ) (r : FileReader) (out : List ℕ) (total : ℕ)
      → length out ≤ total
      → read_loop device fuel r out total ≡ done (ok total, r, out)
  unfolding read_loop
  read_loop_full zero r out total h = rw (full r out total h) refl
  read_loop_full (suc fuel) r out total h = rw (full r out total h, read_loop) refl

  -- The bytes at the start of a block of FFS.
  source_front :
      (r : FileReader) (n : ℕ)
      → r.fs_type ≡ ffs
      → r.offset_in_block ≡ 0
      → source_bytes r n ≡ take n r.buf
  unfolding data_offset slice
  source_front r n type start =
      let count : 0 + n - 0 ≡ n = omega arith in
      rw (type, start) (ap (λ (k : ℕ). take k r.buf) count)

  offset_ffs : (r : FileReader) → r.fs_type ≡ ffs → data_offset r ≡ 0
  unfolding data_offset
  offset_ffs r type = rw type refl

  to_read_front :
      (r : FileReader) (n : ℕ)
      → r.fs_type ≡ ffs
      → r.offset_in_block ≡ 0
      → n ≤ min 512 r.remaining
      → to_read r n ≡ n
  unfolding to_read current_block_data_size
  to_read_front r n type start h = rw (type, start) (omega arith)

  -- The round at the start of a block, with room for less.
  after_refill_front :
      (fuel : ℕ) (r : FileReader) (out : List ℕ)
      → r.fs_type ≡ ffs
      → r.offset_in_block ≡ 0
      → length r.buf ≡ 512
      → 0 < length out
      → length out ≤ min 512 r.remaining
      → after_refill device fuel r out 0
        ≡ done (ok (length out), copied r (length out), take (length out) r.buf)
  after_refill_front fuel r out type start size some room =
      let n = length out in
      let bytes = take n r.buf in
      let here : n - 0 ≡ n = omega arith in
      let count : to_read r (n - 0) ≡ n = ap (to_read r) here ∙ to_read_front r n type start room in
      let m = to_read r (n - 0) in
      let positive : (m == 0) ≡ false = ==_ne m 0 (omega arith) in
      let low : leb (data_offset r + r.offset_in_block + m) (length r.buf) ≡ true =
        ground (arith, offset_ffs r type) in
      let taken_all : length bytes ≡ n = omega (arith, length-take n r.buf) in
      let written : splice out 0 (source_bytes r n) ≡ bytes =
        ap (splice out 0) (source_front r n type start) ∙ splice_whole out bytes taken_all in
      let total : 0 + n ≡ n = omega arith in
      rw (positive, low, after_refill)
        (ap
            (λ (k : ℕ).
              read_loop device fuel (copied r k) (splice out 0 (source_bytes r k)) (0 + k))
            count
          ∙ ap (λ (o : List ℕ). read_loop device fuel (copied r n) o (0 + n)) written
          ∙ read_loop_full fuel (copied r n) bytes (0 + n) (omega arith)
          ∙ ap (λ (k : ℕ). done (ok k, copied r n, bytes)) total)

  first_round :
      (fuel : ℕ) (r : FileReader) (out : List ℕ) (now : FileReader)
      → 0 < length out
      → 0 < r.remaining
      → refill device r ≡ (ok tt, now)
      → read_loop device (suc fuel) r out 0 ≡ after_refill device fuel now out 0
  unfolding read_loop
  first_round fuel r out now room some filled =
      rw (lt→ltb 0 (length out) room, lt→ltb 0 r.remaining some, read_loop)
        (rw (ap (λ t. t.0) filled) (ap (λ t. after_refill device fuel t.1 out 0) filled))

  -- A read of no more than the block that comes next.
  read_block_front :
      (blocks : ℕ → List ℕ) (r : FileReader) (out : List ℕ) (p : ℕ) (ps : List ℕ)
      → r.fs_type ≡ ffs
      → AtBlock r
      → Pending device blocks r (p ∷ ps)
      → 0 < length out
      → length out ≤ min 512 r.remaining
      → (r' : FileReader) × (read device r out
          ≡ done (ok (length out), r', take (length out) (blocks p)))
  unfolding read
  read_block_front blocks r [] p ps type at pending some room = absurd (omega arith)
  read_block_front blocks r (x ∷ out) p ps type at pending some room =
      let next = Pending-Fetches device blocks r p ps type at pending in
      let more : (r.remaining == 0) ≡ false = ==_ne r.remaining 0 (omega arith) in
      let wanted : (length (x ∷ out) == 0) ≡ false = ==_ne _ 0 (omega arith) in
      let now = next.now in
      (
        copied now (length (x ∷ out)),
        rw (more, wanted)
            (first_round (length out) r (x ∷ out) now some (omega arith) next.filled
              ∙ after_refill_front (length out) now (x ∷ out) next.same_type next.start
                  (ap (λ (b : List ℕ). length b) next.buf ∙ next.size) some
                  (omega (arith, next.remaining))
              ∙ ap
                  (λ (b : List ℕ). done (
                    ok (length (x ∷ out)),
                    copied now (length (x ∷ out)),
                    take (length (x ∷ out)) b,
                  ))
                  next.buf),
      )

  -- Under FFS, where the next block begins, is listed in the table and cannot be read, and the block
  -- listed behind it always reads as the same bytes: a read fails and leaves the position as it is,
  -- and a second read, of no more than a block and of what remains, gives the bytes of the block
  -- behind, as if they stood at this position.
  pub read_leaves_gap :
      (blocks : ℕ → List ℕ) (r : FileReader) (out : List ℕ) (p : ℕ) (ps : List ℕ)
      → IsUnreadable r
      → Pending device blocks (behind device r) (p ∷ ps)
      → 0 < length out
      → length out ≤ min 512 r.remaining
      → (read device r out ≡ done (err block_read_error, behind device r, out))
        × (position (behind device r) ≡ position r)
        × ((r' : FileReader) × (read device (behind device r) out
              ≡ done (ok (length out), r', take (length out) (blocks p))))
  unfolding position data_block_size
  read_leaves_gap blocks r out p ps h pending some room = (
    read_fails r out h (omega arith) some,
    refl,
    read_block_front blocks (behind device r) out p ps h.fs_type h.at pending some room,
  )
