-- ===== src/File/Pending.antt =====
-- The bytes of the blocks that the pointer tables list: src/file.rs under FFS.
use affs_read.Prelude.{
  ℕ, ◌+◌, ◌-◌, ◌*◌, ◌≤◌, ◌<◌, ◌≡◌, ◌≢◌, refl, ap, ◌∙◌, true, false, List, [], ◌∷◌, inl, inr, arith,
  min, length, take, Bool-cases, ltb, leb, ◌==◌, ==_ne,
}
use affs_read.Error.{ok}
use affs_read.Types.{BlockDevice, ffs}
use affs_read.Block.FileExt
use affs_read.Block.FileExt.{FileExtBlock}
use affs_read.File.{
  FileReader, copied, data_offset, data_block_size, current_block_data_size, refill,
  get_next_data_block, get_next_ffs_block, load_extension, take_pointer, with_extension,
  accept_block,
}
use affs_read.File.Stream.{Rest, piece, in_block, Fits, Rest-at_end, front-Rest}
use affs_read.File.Fetch.{AtBlock, Stored, loaded, refill-loaded}
use affs_read.File.Listed.{pointer, contents, listed, extended, Pending}

accepts_ffs : (r : FileReader) (buf : List ℕ) → r.fs_type ≡ ffs → accept_block r.fs_type buf ≡ ok tt
unfolding accept_block
accepts_ffs r buf type = rw type refl

-- A block of FFS from its start on.
ffs_block :
    (r : FileReader)
    → r.fs_type ≡ ffs
    → r.offset_in_block ≡ 0
    → (in_block r ≡ min r.remaining 512) × Fits r × ((n : ℕ) → piece r n ≡ take n r.buf)
unfolding current_block_data_size data_offset
ffs_block r type start = (ground arith, ground arith, λ n. rw (type, start) refl)

full_block :
    (r : FileReader)
    → r.fs_type ≡ ffs
    → r.offset_in_block ≡ 0
    → 0 < r.remaining - in_block r
    → r.offset_in_block + in_block r ≡ data_block_size (copied r (in_block r))
unfolding data_block_size current_block_data_size
full_block r type start more = ground arith

module _ (device : BlockDevice) (blocks : ℕ → List ℕ) where
  pub taken :
      (r : FileReader)
      → r.index_in_current < r.blocks_in_current
      → r.index_in_current < 72
      → take_pointer r ≡ (
        ok (pointer r.data_blocks r.index_in_current),
        record r { index_in_current = r.index_in_current + 1 },
      )
  unfolding take_pointer
  taken r i k =
      let within : leb r.blocks_in_current r.index_in_current ≡ false = ground arith in
      let inside : ltb r.index_in_current 72 ≡ true = ground arith in rw (within, inside) refl

  pub next-taken :
      (r : FileReader)
      → r.fs_type ≡ ffs
      → r.index_in_current < r.blocks_in_current
      → get_next_data_block device r ≡ take_pointer r
  unfolding get_next_data_block get_next_ffs_block
  next-taken r type i =
      let within : leb r.blocks_in_current r.index_in_current ≡ false = ground arith in
      rw (type, within) refl

  load_extension-parsed :
      (r : FileReader) (next : FileExtBlock)
      → Stored device r.next_extension (blocks r.next_extension)
      → FileExt.parse (blocks r.next_extension) ≡ ok next
      → load_extension device r
        ≡ take_pointer (with_extension (record r { buf = blocks r.next_extension }) next)
  unfolding load_extension
  load_extension-parsed r next stored parsed =
      let answer = stored.answers r.buf in
      let buf = ap (λ t. t.0) answer in
      rw (ap (λ t. t.1) answer) (
        rw (ap FileExt.parse buf ∙ parsed)
          (ap (λ (t : List ℕ). take_pointer (with_extension (record r { buf = t }) next)) buf))

  next-ffs :
      (r : FileReader)
      → r.fs_type ≡ ffs
      → get_next_data_block device r ≡ get_next_ffs_block device r
  unfolding get_next_data_block
  next-ffs r type = ground arith

  next_ffs-extended :
      (r : FileReader)
      → r.blocks_in_current ≤ r.index_in_current
      → r.next_extension ≢ 0
      → get_next_ffs_block device r ≡ load_extension device r
  unfolding get_next_ffs_block
  next_ffs-extended r i p =
      let beyond : leb r.blocks_in_current r.index_in_current ≡ true = ground arith in
      rw beyond (rw (==_ne r.next_extension 0 p) refl)

  -- What a refill gives of the blocks that are still to be fetched.
  pub record Fetches (r : FileReader) (p : ℕ) (ps : List ℕ) : Type 0 where
    pub now : FileReader
    pub filled : refill device r ≡ (ok tt, now)
    pub buf : now.buf ≡ blocks p
    pub size : length (blocks p) ≡ 512
    pub start : now.offset_in_block ≡ 0
    pub same_type : now.fs_type ≡ ffs
    pub remaining : now.remaining ≡ r.remaining
    pub pending : Pending device blocks now ps

  pub Pending-Fetches :
      (r : FileReader) (p : ℕ) (ps : List ℕ)
      → r.fs_type ≡ ffs
      → AtBlock r
      → Pending device blocks r (p ∷ ps)
      → Fetches r p ps
  Pending-Fetches r p ps type at (listed i k here used stored rest) =
      let s = record r { index_in_current = r.index_in_current + 1 } in
      record {
        now = loaded (blocks p) s;
        filled =
            refill-loaded device blocks r s p stored at
              (next-taken r type i ∙ taken r i k ∙ ap (λ t. (ok t, s)) here) used
              (accepts_ffs s (blocks p) type);
        buf = refl;
        size = stored.size;
        start = refl;
        same_type = type;
        remaining = refl;
        pending = rest;
      }
  Pending-Fetches r p ps type at (extended next i e held parsed some here used stored rest) =
      let q = with_extension (record r { buf = blocks r.next_extension }) next in
      let s = record q { index_in_current = 1 } in
      record {
        now = loaded (blocks p) s;
        filled =
            refill-loaded device blocks r s p stored at
              (next-ffs r type
                ∙ next_ffs-extended r i e
                ∙ load_extension-parsed r next held parsed
                ∙ taken q some (omega arith)
                ∙ ap (λ t. (ok t, s)) here)
              used (accepts_ffs s (blocks p) type);
        buf = refl;
        size = stored.size;
        start = refl;
        same_type = type;
        remaining = refl;
        pending = rest;
      }

  -- For a reader of FFS whose next block begins, where the pointer tables from its place on, those
  -- of the extension blocks included, list blocks for the rest of the file, and the device always
  -- reads each of these blocks as the same 512 bytes: the bytes to come are the contents of these
  -- blocks in their order, up to the end of the file.
  pub Listed-Rest :
      (ps : List ℕ) (r : FileReader)
      → r.fs_type ≡ ffs
      → (0 < r.remaining → AtBlock r)
      → Pending device blocks r ps
      → r.remaining ≤ length ps * 512
      → Rest device r (take r.remaining (contents blocks ps))
  unfolding contents
  Listed-Rest [] r type at pending enough = Rest-at_end device r [] (omega arith)
  Listed-Rest (p ∷ ps) r type at pending enough = elim (Bool-cases (r.remaining == 0)) [
    | inl e ↦ Rest-at_end device r (contents blocks (p ∷ ps)) (ground arith)
    | inr more ↦
        let some : 0 < r.remaining = ground arith in
        let f = Pending-Fetches r p ps type (at some) pending in
        let shape = ffs_block f.now f.same_type f.start in
        front-Rest device r f.now (blocks p) (contents blocks ps) f.filled some f.remaining
          (omega (arith, f.size)) (omega (arith, shape.0, f.size))
          (shape.2 (in_block f.now) ∙ ap (take (in_block f.now)) f.buf) shape.1
          (Listed-Rest ps (copied f.now (in_block f.now)) f.same_type
            (λ q. inr (full_block f.now f.same_type f.start q)) f.pending
            (omega (arith, shape.0, f.remaining)))
  ]
