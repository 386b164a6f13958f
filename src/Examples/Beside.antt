-- ===== src/Examples/Beside.antt =====
-- The two directory iterators side by side, at a directory of one entry: src/varblock.rs and src/dir.rs.
use affs_read.Prelude.{ℕ, refl, false, List, ◌++◌, arith, replicate, length-replicate}
use affs_read.Types.{sector_device, IsBytes}
use affs_read.Block.Fields.{read_table}
use affs_read.Block.Ranges.{read_table-IsU32s}
use affs_read.Dir
use affs_read.Dir.Ranges.{new-IsDirIter}
use affs_read.Var.Dirs.{next, slots}
use affs_read.Var.Beside.{IsSteady, beside}
use affs_read.Var.Follows.{Follows, next-Follows, slots-Begins}
use affs_read.Examples.Data.{ending, longword, all_bytes, IsBytes-decided}

-- Slot 1 heads a chain.
abbrev table_block : List ℕ
table_block = replicate 28 0 ++ longword 882 ++ replicate 480 0

table_block-IsBytes : IsBytes 512 table_block
unfolding all_bytes
table_block-IsBytes = IsBytes-decided 512 table_block refl refl

ending-IsSteady : IsSteady ending
ending-IsSteady = record {
  same_result = λ block buf buf'. refl;
  same_bytes = λ block buf buf' good. refl;
}

next-Follows_example :
    Follows ending
      (slots table_block 72)
      (Dir.next ending 5 (Dir.new (read_table table_block 24 0 72) false))
      (next (sector_device ending) 5 (
        beside
          (Dir.new (read_table table_block 24 0 72) false)
          (slots table_block 72)
          (replicate 8192 0)))
unfolding Dir.new
next-Follows_example =
    next-Follows ending 5 (Dir.new (read_table table_block 24 0 72) false) (slots table_block 72)
      (replicate 8192 0) ending-IsSteady
      (new-IsDirIter (read_table table_block 24 0 72) false
        (read_table-IsU32s table_block table_block-IsBytes.bytes 24 72))
      (slots-Begins table_block) (omega (arith, length-replicate {A = ℕ} 8192 0))
