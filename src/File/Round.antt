-- ===== src/File/Round.antt =====
-- What fetching a data block changes in a reader, and what it keeps: src/file.rs.
use affs_read.Prelude.{ℕ, ◌<◌, ◌≡◌, ◌⊎◌, inl, inr, arith}
use affs_read.Error.{ok, Result-cases}
use affs_read.Types.{BlockDevice, IsBytes}
use affs_read.File.{
  FileReader, take_pointer, load_extension, get_next_ffs_block, get_next_data_block, fetch_block,
  read_next_data_block, refill, data_block_size,
}

-- The fields that only the constructors set.
pub record SameFile (r r' : FileReader) : Type 0 where
  pub fs_type : r'.fs_type ≡ r.fs_type
  pub header_block : r'.header_block ≡ r.header_block
  pub file_size : r'.file_size ≡ r.file_size
  pub initial_blocks : r'.initial_blocks_in_header ≡ r.initial_blocks_in_header
  pub initial_data : r'.initial_data_blocks ≡ r.initial_data_blocks
  pub initial_extension : r'.initial_extension ≡ r.initial_extension
  pub initial_first : r'.initial_first_data ≡ r.initial_first_data

-- `r'` is `r` after a data block was fetched, or after a part of the fetch that failed.
pub record Fetched (r r' : FileReader) : Type 0 where
  pub same : SameFile r r'
  pub remaining : r'.remaining ≡ r.remaining
  pub block : IsBytes 512 r'.buf
  pub offset : (r'.offset_in_block ≡ r.offset_in_block) ⊎ (r'.offset_in_block ≡ 0)

pub SameFile-trans : {r s t : FileReader} → SameFile r s → SameFile s t → SameFile r t
SameFile-trans p q = ground arith

Fetched-trans : {r s t : FileReader} → Fetched r s → Fetched s t → Fetched r t
Fetched-trans p q = record {
  same = SameFile-trans p.same q.same;
  remaining = ground arith;
  block = q.block;
  offset = ground arith;
}

take_pointer-Fetched : (r : FileReader) → IsBytes 512 r.buf → Fetched r (take_pointer r).1
unfolding take_pointer
take_pointer-Fetched r h = ground arith

module _ (device : BlockDevice) where
  load_extension-Fetched :
      (r : FileReader) → IsBytes 512 r.buf → Fetched r (load_extension device r).1
  unfolding load_extension
  load_extension-Fetched r h = ground (arith, device.read_block-IsBytes r.next_extension r.buf h)

  get_next_ffs_block-Fetched :
      (r : FileReader) → IsBytes 512 r.buf → Fetched r (get_next_ffs_block device r).1
  unfolding get_next_ffs_block
  get_next_ffs_block-Fetched r h =
      ground (arith, device.read_block-IsBytes r.next_extension r.buf h)

  get_next_data_block-Fetched :
      (r : FileReader) → IsBytes 512 r.buf → Fetched r (get_next_data_block device r).1
  unfolding get_next_data_block
  get_next_data_block-Fetched r h =
      ground (arith, device.read_block-IsBytes r.next_extension r.buf h)

  fetch_block-Fetched :
      (block : ℕ) (r : FileReader) → IsBytes 512 r.buf → Fetched r (fetch_block device block r).1
  unfolding fetch_block
  fetch_block-Fetched block r h = ground (arith, device.read_block-IsBytes block r.buf h)

  fetch_block-offset :
      (block : ℕ) (r : FileReader)
      → (fetch_block device block r).0 ≡ ok tt
      → (fetch_block device block r).1.offset_in_block ≡ 0
  unfolding fetch_block
  fetch_block-offset block r h = ground arith

  read_next_data_block-Fetched :
      (r : FileReader) → IsBytes 512 r.buf → Fetched r (read_next_data_block device r).1
  unfolding read_next_data_block
  read_next_data_block-Fetched r h =
      let got = get_next_data_block-Fetched r h in
      elim (Result-cases (get_next_data_block device r).0) [
        | inl (block, e) ↦
            let fetched = fetch_block-Fetched block (get_next_data_block device r).1 got.block in
            let both = Fetched-trans got fetched in ground arith
        | inr (e, q) ↦ ground arith
      ]

  -- Whatever a fetch does, it keeps the file, its position and a whole block buffer.
  pub refill-Fetched : (r : FileReader) → IsBytes 512 r.buf → Fetched r (refill device r).1
  unfolding refill
  refill-Fetched r h = ground (arith, read_next_data_block-Fetched r h)

  read_next_data_block-offset :
      (r : FileReader)
      → (read_next_data_block device r).0 ≡ ok tt
      → (read_next_data_block device r).1.offset_in_block ≡ 0
  unfolding read_next_data_block
  read_next_data_block-offset r h = elim (Result-cases (get_next_data_block device r).0) [
    | inl (block, e) ↦ ground (arith, fetch_block-offset block (get_next_data_block device r).1)
    | inr (e, q) ↦ ground arith
  ]

  -- After a refill that succeeded there is a byte of the block left.
  pub refill-offset-lt :
      (r : FileReader)
      → (refill device r).0 ≡ ok tt
      → (refill device r).1.offset_in_block < data_block_size r
  unfolding refill data_block_size
  refill-offset-lt r h = ground (arith, read_next_data_block-offset r)
