-- ===== src/Reader/Opens.antt =====
-- When `with_size` opens a disk, and what the reader then is: src/reader.rs, `with_size`.
use affs_read.Prelude.{ℕ, ◌/◌, ◌<◌, ◌≡◌, ◌≢◌, ◌⊎◌, true, ◌++◌, List, replicate}
use affs_read.Error.{ok}
use affs_read.Types.{BlockDevice}
use affs_read.Block.Boot
use affs_read.Block.Root
use affs_read.Block.Root.{RootBlock}
use affs_read.Block.Valid.{IsBoot, IsRoot}
use affs_read.Reader.{AffsReader}

-- The device answered the block with these bytes.
abbrev pub Answers : BlockDevice → ℕ → List ℕ → Type 0
Answers device block bytes = device.read_block block (replicate 512 0) ≡ (bytes, true)

-- The root block's number is that of the boot block, or the middle of the disk where that is 0.
abbrev pub IsPlaced : ℕ → ℕ → ℕ → Type 0
IsPlaced named total_blocks root_block =
    ((named ≡ 0) × (root_block ≡ total_blocks / 2)) ⊎ ((named ≢ 0) × (root_block ≡ named))

-- The reader's blocks are those of the disk, with their signature, types and sums, and its root
-- block is in range.
pub record Opened (device : BlockDevice) (total_blocks : ℕ) (r : AffsReader) : Type 0 where
  pub first : List ℕ
  pub second : List ℕ
  pub root_buf : List ℕ
  pub first_read : Answers device 0 first
  pub second_read : Answers device 1 second
  pub boot_valid : IsBoot (first ++ second)
  pub boot_parsed : Boot.parse (first ++ second) ≡ ok r.boot
  pub root_read : Answers device r.root_block root_buf
  pub root_valid : IsRoot root_buf
  pub root_parsed : Root.parse root_buf ≡ ok r.root
  pub placed : IsPlaced r.boot.root_block total_blocks r.root_block
  pub in_range : r.root_block < total_blocks
  pub sized : r.total_blocks ≡ total_blocks
