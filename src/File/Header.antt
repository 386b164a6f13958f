-- ===== src/File/Header.antt =====
-- The file whose data blocks all stand in its header block: src/file.rs under FFS.
use affs_read.Prelude.{
  ℕ, zero, suc, ◌+◌, ◌*◌, ◌≤◌, ◌<◌, ◌≡◌, ◌≢◌, refl, ap, List, [], ◌∷◌, arith, min, length, take,
  ◌⊎◌,
}
use affs_read.Types.{BlockDevice, ffs}
use affs_read.File.{FileReader, data_block_size}
use affs_read.File.Stream.{Rest}
use affs_read.File.Fetch.{AtBlock, Stored}
use affs_read.File.Listed.{pointer, contents, Listed, all_listed, listed}
use affs_read.File.Pending.{Listed-Rest}

-- The `n` block numbers of a table from index i on.
unfoldable pub pointers : List ℕ → ℕ → ℕ → List ℕ
pointers table i zero = []
pointers table i (suc n) = pointer table i ∷ pointers table (i + 1) n

length-pointers : (table : List ℕ) (i n : ℕ) → length (pointers table i n) ≡ n
unfolding pointers
length-pointers table i zero = refl
length-pointers table i (suc n) = ap suc (length-pointers table (i + 1) n)

pointers-Listed :
    (device : BlockDevice) (blocks : ℕ → List ℕ) (table : List ℕ) (count ext n i : ℕ)
    → i + n ≤ min count 72
    → ((j : ℕ)
        → i ≤ j
        → j < i + n
        → (pointer table j ≢ 0) × Stored device (pointer table j) (blocks (pointer table j)))
    → Listed device blocks table count i ext (pointers table i n)
unfolding pointers
pointers-Listed device blocks table count ext zero i fits used = all_listed
pointers-Listed device blocks table count ext (suc n) i fits used =
    listed (omega arith) (omega arith) refl (used i (omega arith) (omega arith)).0
      (used i (omega arith) (omega arith)).1
      (pointers-Listed device blocks table count ext n (i + 1) (omega arith)
        (λ j lo hi. used j (omega arith) (omega arith)))

at_block :
    (r : FileReader)
    → r.fs_type ≡ ffs
    → (r.offset_in_block ≡ 0) ⊎ (r.offset_in_block ≡ 512)
    → AtBlock r
unfolding data_block_size
at_block r type at = ground arith

-- For a reader of FFS whose next block begins, where the header has `n` blocks more that hold the
-- rest of the file, all with a number that is not 0, and the device always reads each of them as
-- the same 512 bytes: the bytes to come are the contents of these blocks in the reverse order of
-- the table, up to the end of the file.
pub header-Rest :
    (device : BlockDevice) (blocks : ℕ → List ℕ)
    → (n : ℕ) (r : FileReader) → r.fs_type ≡ ffs
    → (0 < r.remaining → (r.offset_in_block ≡ 0) ⊎ (r.offset_in_block ≡ 512))
    → r.index_in_current + n ≤ min r.blocks_in_current 72
    → r.remaining ≤ n * 512
    → ((j : ℕ)
        → r.index_in_current ≤ j
        → j < r.index_in_current + n
        → (pointer r.data_blocks j ≢ 0)
          × Stored device (pointer r.data_blocks j) (blocks (pointer r.data_blocks j)))
    → Rest device r
        (take r.remaining (contents blocks (pointers r.data_blocks r.index_in_current n)))
header-Rest device blocks n r type at fits enough used =
    let ps = pointers r.data_blocks r.index_in_current n in
    Listed-Rest device blocks ps r type (λ p. at_block r type (at p))
      (pointers-Listed device blocks r.data_blocks r.blocks_in_current r.next_extension n
        r.index_in_current fits used)
      (omega (arith, length-pointers r.data_blocks r.index_in_current n))
