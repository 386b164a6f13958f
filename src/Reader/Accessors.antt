-- ===== src/Reader/Accessors.antt =====
-- The methods of `AffsReader` that give a field: src/reader.rs.
use affs_read.Prelude.{ℕ}
use affs_read.Reader.{AffsReader}

unfoldable pub root_block : AffsReader → ℕ
root_block r = r.root_block

unfoldable pub total_blocks : AffsReader → ℕ
total_blocks r = r.total_blocks
