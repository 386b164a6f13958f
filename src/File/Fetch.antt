-- ===== src/File/Fetch.antt =====
-- The fetch of a data block from a device that answers each block with the same bytes: src/file.rs.
use affs_read.Prelude.{
  ℕ, ◌+◌, ◌≡◌, ◌≢◌, ap, ◌∙◌, true, List, length, arith, ◌==◌, ==_ne, leb, ◌||◌, ◌⊎◌,
}
use affs_read.Error.{ok}
use affs_read.Types.{BlockDevice}
use affs_read.File.{
  FileReader, data_block_size, refill, read_next_data_block, get_next_data_block, fetch_block,
  accept_block,
}

-- The next byte is not in the buffer.
abbrev pub AtBlock : FileReader → Type 0
AtBlock r = (r.offset_in_block ≡ 0) ⊎ (r.offset_in_block ≡ data_block_size r)

pub needs_block :
    (r : FileReader)
    → AtBlock r
    → (r.offset_in_block == 0 || leb (data_block_size r) r.offset_in_block) ≡ true
needs_block r at = ground arith

-- The reader when a block is in its buffer.
abbrev pub loaded : List ℕ → FileReader → FileReader
loaded buf r = record r { buf = buf; offset_in_block = 0; block_index = r.block_index + 1 }

-- Block `n` of the device always reads as these 512 bytes.
pub record Stored (device : BlockDevice) (n : ℕ) (bytes : List ℕ) : Type 0 where
  pub answers : (buf : List ℕ) → device.read_block n buf ≡ (bytes, true)
  pub size : length bytes ≡ 512

module _ (device : BlockDevice) (blocks : ℕ → List ℕ) where
  fetch_block-loaded :
      (n : ℕ) (r : FileReader)
      → Stored device n (blocks n)
      → accept_block r.fs_type (blocks n) ≡ ok tt
      → fetch_block device n r ≡ (ok tt, loaded (blocks n) r)
  unfolding fetch_block
  fetch_block-loaded n r stored accepted =
      let answer = stored.answers r.buf in
      let buf = ap (λ t. t.0) answer in
      rw (ap (λ t. t.1) answer) (
        rw (ap (accept_block r.fs_type) buf ∙ accepted)
          (ap (λ (t : List ℕ). (ok tt, loaded t r)) buf))

  -- A refill gives the block that the reader has come to, if that is one.
  pub refill-loaded :
      (r s : FileReader) (n : ℕ)
      → Stored device n (blocks n)
      → AtBlock r
      → get_next_data_block device r ≡ (ok n, s)
      → n ≢ 0
      → accept_block s.fs_type (blocks n) ≡ ok tt
      → refill device r ≡ (ok tt, loaded (blocks n) s)
  unfolding refill read_next_data_block
  refill-loaded r s n stored at next p accepted =
      rw (needs_block r at, refill)
        (rw (ap (λ t. t.0) next, read_next_data_block)
          (rw (==_ne _ _ p)
            (ap (λ t. fetch_block device n t.1) next ∙ fetch_block-loaded n s stored accepted)))
