-- ===== src/File/Listed.antt =====
-- The data blocks that the pointer tables of a file list, in the header and in its extension
-- blocks: src/file.rs under FFS.
use affs_read.Prelude.{
  ℕ, ◌+◌, ◌-◌, ◌*◌, ◌≤◌, ◌<◌, ◌≡◌, ◌≢◌, refl, List, [], ◌∷◌, ◌++◌, arith, length, get_or,
  length-append, as_u32,
}
use affs_read.Error.{ok}
use affs_read.Types.{BlockDevice}
use affs_read.Block.FileExt
use affs_read.Block.FileExt.{FileExtBlock}
use affs_read.File.{FileReader}
use affs_read.File.Fetch.{Stored}

-- The number of data block i of a table, which is stored in reverse order.
abbrev pub pointer : List ℕ → ℕ → ℕ
pointer table i = get_or table (71 - i) 0

-- The contents of blocks, one after the other.
unfoldable pub contents : (ℕ → List ℕ) → List ℕ → List ℕ
contents blocks [] = []
contents blocks (p ∷ ps) = blocks p ++ contents blocks ps

-- The blocks that a table of `count` pointers lists from index i on, and those of the extension
-- blocks behind it: all of them, or some at the front.
pub data Listed (device : BlockDevice) (blocks : ℕ → List ℕ)
    : List ℕ → ℕ → ℕ → ℕ → List ℕ → Type 0 where
  all_listed : {table : List ℕ} {count i ext : ℕ} → Listed device blocks table count i ext []
  listed :
      {table : List ℕ} {count i ext p : ℕ} {ps : List ℕ}
      → i < count
      → i < 72
      → pointer table i ≡ p
      → p ≢ 0
      → Stored device p (blocks p)
      → Listed device blocks table count (i + 1) ext ps
      → Listed device blocks table count i ext (p ∷ ps)
  extended :
      {table : List ℕ} {count i ext p : ℕ} {ps : List ℕ} (next : FileExtBlock)
      → count ≤ i
      → ext ≢ 0
      → Stored device ext (blocks ext)
      → FileExt.parse (blocks ext) ≡ ok next
      → 0 < as_u32 next.high_seq
      → pointer next.data_blocks 0 ≡ p
      → p ≢ 0
      → Stored device p (blocks p)
      → Listed device blocks next.data_blocks (as_u32 next.high_seq) 1 next.extension ps
      → Listed device blocks table count i ext (p ∷ ps)

pub length-contents :
    (device : BlockDevice) (blocks : ℕ → List ℕ) (ps : List ℕ) {table : List ℕ} {count i ext : ℕ}
    → Listed device blocks table count i ext ps
    → length (contents blocks ps) ≡ length ps * 512
unfolding contents
length-contents device blocks [] all_listed = refl
length-contents device blocks (p ∷ ps) (listed _ _ _ _ stored rest) = omega (
  arith,
  length-append (blocks p) (contents blocks ps),
  stored.size,
  length-contents device blocks ps rest,
)
length-contents device blocks (p ∷ ps) (extended _ _ _ _ _ _ _ _ stored rest) = omega (
  arith,
  length-append (blocks p) (contents blocks ps),
  stored.size,
  length-contents device blocks ps rest,
)

-- The blocks that are still to be fetched.
abbrev pub Pending : BlockDevice → (ℕ → List ℕ) → FileReader → List ℕ → Type 0
Pending device blocks r ps =
    Listed device blocks r.data_blocks r.blocks_in_current r.index_in_current r.next_extension ps
