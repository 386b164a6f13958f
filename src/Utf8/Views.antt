-- ===== src/Utf8/Views.antt =====
-- The methods that end in `_str`: src/dir.rs, src/reader.rs and src/varblock.rs.
use affs_read.Prelude.{List, ℕ, Option}
use affs_read.Dir
use affs_read.Dir.{DirEntry, entry_comment}
use affs_read.Reader
use affs_read.Reader.{AffsReader}
use affs_read.Var
use affs_read.Var.{AffsReaderVar}
use affs_read.Var.Dirs
use affs_read.Var.Dirs.{VarDirEntry}
use affs_read.Utf8.{Validator, from_utf8}

module _ (v : Validator) where
  unfoldable pub name_str : DirEntry → Option (List ℕ)
  name_str e = from_utf8 v (Dir.entry_name e)

  unfoldable pub comment_str : DirEntry → Option (List ℕ)
  comment_str e = from_utf8 v (entry_comment e)

  unfoldable pub disk_name_str : AffsReader → Option (List ℕ)
  disk_name_str r = from_utf8 v (Reader.disk_name r)

  unfoldable pub label_str : AffsReader → Option (List ℕ)
  label_str r = disk_name_str r

  unfoldable pub var_disk_name_str : AffsReaderVar → Option (List ℕ)
  var_disk_name_str r = from_utf8 v (Var.disk_name_bytes r)

  unfoldable pub var_label_str : AffsReaderVar → Option (List ℕ)
  var_label_str r = var_disk_name_str r

  unfoldable pub var_name_str : VarDirEntry → Option (List ℕ)
  var_name_str e = from_utf8 v (Dirs.entry_name e)
