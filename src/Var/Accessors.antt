-- ===== src/Var/Accessors.antt =====
-- The methods of `AffsReaderVar` that give a field: src/varblock.rs.
use affs_read.Prelude.{ℕ}
use affs_read.Types.{FsType, FsFlags}
use affs_read.Date.{AmigaDate}
use affs_read.Var.{AffsReaderVar}

unfoldable pub fs_type : AffsReaderVar → FsType
fs_type r = r.probed.fs_type

unfoldable pub fs_flags : AffsReaderVar → FsFlags
fs_flags r = r.probed.fs_flags

unfoldable pub root_block : AffsReaderVar → ℕ
root_block r = r.probed.root_block

unfoldable pub total_blocks : AffsReaderVar → ℕ
total_blocks r = r.total_blocks

unfoldable pub block_size : AffsReaderVar → ℕ
block_size r = r.probed.size

unfoldable pub log_blocksize : AffsReaderVar → ℕ
log_blocksize r = r.probed.log_blocksize

unfoldable pub creation_date : AffsReaderVar → AmigaDate
creation_date r = r.probed.creation_date

unfoldable pub last_modified : AffsReaderVar → AmigaDate
last_modified r = r.probed.last_modified

unfoldable pub hash_table_size : AffsReaderVar → ℕ
hash_table_size r = r.probed.hash_size
