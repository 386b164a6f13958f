-- ===== src/File/Linked.antt =====
-- The data blocks of a file that are chained, each to the next: src/file.rs under OFS.
use affs_read.Prelude.{
  sym, ℕ, ◌+◌, ◌-◌, ◌≤◌, ◌<◌, ◌≡◌, ◌≢◌, refl, ap, ◌∙◌, true, List, [], ◌∷◌, ◌++◌, inl, inr, arith,
  min, length, take, drop, Bool-cases, ◌==◌, ==_ne, length-take, length-drop, length-append,
  take-take,
}
use affs_read.Error.{ok}
use affs_read.Types.{BlockDevice, ofs}
use affs_read.Block.OfsData
use affs_read.Block.OfsData.{OfsDataBlock}
use affs_read.File.{
  FileReader, copied, data_offset, data_block_size, current_block_data_size, refill,
  get_next_data_block, get_next_ofs_block, accept_block, ofs_size_or_zero,
}
use affs_read.File.Stream.{Rest, piece, in_block, Rest-at_end, front-Rest}
use affs_read.File.Fetch.{AtBlock, Stored, loaded, refill-loaded}

-- The data of a block: as many bytes behind the header as the header says.
unfoldable pub payload : List ℕ → List ℕ
payload block = take (ofs_size_or_zero (OfsData.parse block)) (OfsData.data_bytes block)

unfoldable pub payloads : (ℕ → List ℕ) → List ℕ → List ℕ
payloads blocks [] = []
payloads blocks (p ∷ ps) = payload (blocks p) ++ payloads blocks ps

-- The blocks of the chain that begins at a block: all of them, or some at the front. Only the last
-- may be less than full.
pub data Linked (device : BlockDevice) (blocks : ℕ → List ℕ) : ℕ → List ℕ → Type 0 where
  all_linked : {p : ℕ} → Linked device blocks p []
  linked :
      {p : ℕ} {ps : List ℕ} (header : OfsDataBlock)
      → p ≢ 0
      → Stored device p (blocks p)
      → OfsData.parse (blocks p) ≡ ok header
      → 0 < header.data_size
      → header.data_size ≤ 488
      → (0 < length ps → header.data_size ≡ 488)
      → Linked device blocks header.next_data ps
      → Linked device blocks p (p ∷ ps)

-- The block that the reader comes to is `p`.
pub data NextIs (r : FileReader) : ℕ → Type 0 where
  first : r.block_index ≡ 0 → NextIs r r.current_data_block
  next :
      (header : OfsDataBlock)
      → r.block_index ≢ 0
      → OfsData.parse r.buf ≡ ok header
      → NextIs r header.next_data

accepts_ofs :
    (r : FileReader) (buf : List ℕ) (header : OfsDataBlock)
    → r.fs_type ≡ ofs
    → OfsData.parse buf ≡ ok header
    → accept_block r.fs_type buf ≡ ok tt
unfolding accept_block
accepts_ofs r buf header type parsed = rw type (rw parsed refl)

length-payload :
    (block : List ℕ) (header : OfsDataBlock)
    → OfsData.parse block ≡ ok header
    → header.data_size ≤ 488
    → length block ≡ 512
    → length (payload block) ≡ header.data_size
unfolding payload OfsData.data_bytes
length-payload block header parsed fits size =
    ap (λ h. length (take (ofs_size_or_zero h) (drop 24 block))) parsed
    ∙ omega (arith, size, length-take header.data_size (drop 24 block), length-drop 24 block)

take-payload :
    (block : List ℕ) (header : OfsDataBlock) (n : ℕ)
    → OfsData.parse block ≡ ok header
    → n ≤ header.data_size
    → take n (payload block) ≡ take n (drop 24 block)
unfolding payload OfsData.data_bytes
take-payload block header n parsed less =
    ap (λ h. take n (take (ofs_size_or_zero h) (drop 24 block))) parsed
    ∙ take-take n header.data_size (drop 24 block) less

-- A block of OFS from its start on.
ofs_block :
    (r : FileReader) (header : OfsDataBlock)
    → r.fs_type ≡ ofs
    → r.offset_in_block ≡ 0
    → OfsData.parse r.buf ≡ ok header
    → (in_block r ≡ min header.data_size r.remaining)
      × (data_offset r + current_block_data_size r ≡ 24 + header.data_size)
      × ((n : ℕ) → piece r n ≡ take n (drop 24 r.buf))
unfolding current_block_data_size data_offset
ofs_block r header type start parsed = (
  rw (type, start) (rw parsed (omega arith)),
  rw type (rw parsed refl),
  λ n. rw (type, start) refl,
)

full_ofs_block :
    (r : FileReader)
    → r.fs_type ≡ ofs
    → r.offset_in_block ≡ 488
    → r.offset_in_block ≡ data_block_size r
unfolding data_block_size
full_ofs_block r type full = rw type full

module _ (blocks : ℕ → List ℕ) where
  some_blocks : (ps : List ℕ) → 0 < length (payloads blocks ps) → 0 < length ps
  unfolding payloads
  some_blocks [] h = h
  some_blocks (p ∷ ps) h = omega arith

module _ (device : BlockDevice) (blocks : ℕ → List ℕ) where
  next-ofs :
      (r : FileReader) → r.fs_type ≡ ofs → get_next_data_block device r ≡ get_next_ofs_block r
  unfolding get_next_data_block
  next-ofs r type = ground arith

  -- What a refill gives of the chain.
  record Follows (r : FileReader) (p : ℕ) : Type 0 where
    now : FileReader
    filled : refill device r ≡ (ok tt, now)
    buf : now.buf ≡ blocks p
    start : now.offset_in_block ≡ 0
    same_type : now.fs_type ≡ ofs
    remaining : now.remaining ≡ r.remaining
    begun : now.block_index ≢ 0

  Follows-loaded :
      (r s : FileReader) (p : ℕ) (header : OfsDataBlock)
      → r.fs_type ≡ ofs
      → AtBlock r
      → get_next_ofs_block r ≡ (ok p, s)
      → s.fs_type ≡ ofs
      → s.remaining ≡ r.remaining
      → p ≢ 0
      → Stored device p (blocks p)
      → OfsData.parse (blocks p) ≡ ok header
      → Follows r p
  Follows-loaded r s p header type at step kept same used stored parsed = record {
    now = loaded (blocks p) s;
    filled =
        refill-loaded device blocks r s p stored at (next-ofs r type ∙ step) used
          (accepts_ofs s (blocks p) header kept parsed);
    buf = refl;
    start = refl;
    same_type = kept;
    remaining = same;
    begun = omega arith;
  }

  NextIs-Follows :
      (r : FileReader) (p : ℕ) (header : OfsDataBlock)
      → r.fs_type ≡ ofs
      → AtBlock r
      → NextIs r p
      → p ≢ 0
      → Stored device p (blocks p)
      → OfsData.parse (blocks p) ≡ ok header
      → Follows r p
  unfolding get_next_ofs_block
  NextIs-Follows r p header type at (first e) used stored parsed =
      Follows-loaded r r r.current_data_block header type at
        (let none : (r.block_index == 0) ≡ true = ground arith in rw none refl) type refl used
        stored parsed
  NextIs-Follows r p header type at (next before some e) used stored parsed =
      Follows-loaded r (record r { current_data_block = before.next_data }) before.next_data header
        type at (rw (==_ne r.block_index 0 some) (rw e refl)) type refl used stored parsed

  -- For a reader of OFS whose next block begins and is the first of a chain of blocks that parse,
  -- full but for the last one, with data for the rest of the file, where the device always reads
  -- each of these blocks as the same 512 bytes: the bytes to come are the data of these blocks
  -- without their headers, up to the end of the file.
  pub Linked-Rest :
      (ps : List ℕ) (r : FileReader) {p : ℕ}
      → r.fs_type ≡ ofs
      → (0 < r.remaining → AtBlock r)
      → NextIs r p
      → Linked device blocks p ps
      → r.remaining ≤ length (payloads blocks ps)
      → Rest device r (take r.remaining (payloads blocks ps))
  unfolding payloads
  Linked-Rest [] r type at here chain enough = Rest-at_end device r [] (omega arith)
  Linked-Rest (p ∷ ps) r type at here (linked header used stored parsed some fits full more)
        enough =
      elim (Bool-cases (r.remaining == 0)) [
        | inl e ↦ Rest-at_end device r (payload (blocks p) ++ payloads blocks ps) (ground arith)
        | inr left ↦
            let f = NextIs-Follows r p header type (at (ground arith)) here used stored parsed in
            let now = f.now in
            let reads = ap OfsData.parse f.buf ∙ parsed in
            let shape = ofs_block now header f.same_type f.start reads in
            let long = length-payload (blocks p) header parsed fits stored.size in
            let enough_left : now.remaining - in_block now ≤ length (payloads blocks ps) = omega (
              arith,
              enough,
              length-append (payload (blocks p)) (payloads blocks ps),
              long,
              shape.0,
              f.remaining,
            ) in
            front-Rest device r now (payload (blocks p)) (payloads blocks ps) f.filled
              (ground arith) f.remaining (omega (arith, long, some)) (omega (arith, shape.0, long))
              (shape.2 (in_block now)
                ∙ ap (λ t. take (in_block now) (drop 24 t)) f.buf
                ∙ sym
                    (take-payload (blocks p) header (in_block now) parsed (omega (arith, shape.0))))
              (omega (arith, shape.1))
              (Linked-Rest ps (copied now (in_block now)) f.same_type
                (λ q. inr (
                  full_ofs_block (copied now (in_block now)) f.same_type (
                    omega (
                      arith,
                      f.start,
                      shape.0,
                      full (some_blocks blocks ps (omega (arith, q, enough_left, shape.0))),
                    ))))
                (next header f.begun reads) more enough_left)
      ]
