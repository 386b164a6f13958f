-- ===== src/File/Accessors.antt =====
-- The methods of `FileReader` that give a field: src/file.rs.
use affs_read.Prelude.{ℕ}
use affs_read.File.{FileReader}

unfoldable pub size : FileReader → ℕ
size r = r.file_size

unfoldable pub header_block : FileReader → ℕ
header_block r = r.header_block

unfoldable pub remaining : FileReader → ℕ
remaining r = r.remaining
