-- ===== src/File/Oversized.antt =====
-- A data block of OFS that claims more data than it can have: src/file.rs, `read`.
use affs_read.Prelude.{
  ℕ, suc, ◌+◌, ◌-◌, ◌<◌, ◌≡◌, refl, ◌∙◌, false, List, [], ◌∷◌, arith, length, leb, ◌==◌, ==_ne, min,
  lt→ltb,
}
use affs_read.Error.{ok}
use affs_read.Run.{panic}
use affs_read.Types.{BlockDevice, ofs, IsBytes}
use affs_read.Block.OfsData
use affs_read.Block.OfsData.{OfsDataBlock}
use affs_read.File.{
  FileReader, data_offset, current_block_data_size, to_read, refill, read_loop, read,
}
use affs_read.File.Round.{refill-Fetched}

-- The block in the buffer is of OFS, parses, and is at its start.
record OfsBlock (r : FileReader) (header : OfsDataBlock) : Type 0 where
  fs_type : r.fs_type ≡ ofs
  start : r.offset_in_block ≡ 0
  parsed : OfsData.parse r.buf ≡ ok header
  size : length r.buf ≡ 512

to_read-OfsBlock :
    (r : FileReader) (header : OfsDataBlock) (room : ℕ)
    → OfsBlock r header
    → to_read r room ≡ min (min header.data_size room) r.remaining
unfolding to_read current_block_data_size
to_read-OfsBlock r header room b = rw (b.fs_type, b.start) (rw b.parsed (omega arith))

offset-OfsBlock : (r : FileReader) (header : OfsDataBlock) → OfsBlock r header → data_offset r ≡ 24
unfolding data_offset
offset-OfsBlock r header b = rw b.fs_type refl

module _ (device : BlockDevice) where
  round_panics :
      (fuel : ℕ) (r : FileReader) (out : List ℕ)
      → 0 < r.remaining
      → 0 < length out
      → (refill device r).0 ≡ ok tt
      → 0 < to_read (refill device r).1 (length out - 0)
      → length (refill device r).1.buf
        < data_offset (refill device r).1
          + (refill device r).1.offset_in_block
          + to_read (refill device r).1 (length out - 0)
      → read_loop device (suc fuel) r out 0 ≡ panic
  unfolding read_loop
  round_panics fuel r out some room filled reads over =
      let now = (refill device r).1 in
      let n = to_read now (length out - 0) in
      let outside : leb (data_offset now + now.offset_in_block + n) (length now.buf) ≡ false =
        ground arith in
      rw (lt→ltb 0 (length out) room, lt→ltb 0 r.remaining some, read_loop)
        (rw (filled, read_loop) (rw (==_ne n 0 (omega arith)) (rw outside refl)))

  -- For a reader of OFS whose next block is fetched, parses and claims more than 488 bytes of data,
  -- where the file and the buffer have more than 488 bytes left, `read` panics.
  pub read-panics :
      (r : FileReader) (header : OfsDataBlock) (out : List ℕ)
      → r.fs_type ≡ ofs
      → IsBytes 512 r.buf
      → (refill device r).0 ≡ ok tt
      → (refill device r).1.offset_in_block ≡ 0
      → OfsData.parse (refill device r).1.buf ≡ ok header
      → 488 < header.data_size
      → 488 < r.remaining
      → 488 < length out
      → read device r out ≡ panic
  unfolding read
  read-panics r header [] type h filled start parsed large left room = absurd (omega arith)
  read-panics r header (x ∷ out) type h filled start parsed large left room =
      let now = (refill device r).1 in
      let kept = refill-Fetched device r h in
      let b : OfsBlock now header = record {
        fs_type = kept.same.fs_type ∙ type;
        start = start;
        parsed = parsed;
        size = kept.block.size;
      } in
      let n = to_read-OfsBlock now header (length (x ∷ out) - 0) b in
      let some : (r.remaining == 0) ≡ false = ground arith in
      let wanted : (length (x ∷ out) == 0) ≡ false = ground arith in
      rw (some, wanted)
        (round_panics (length out) r (x ∷ out) (omega arith) (omega arith) filled
          (omega (arith, n, kept.remaining))
          (omega (arith, n, offset-OfsBlock now header b, start, b.size, kept.remaining)))
