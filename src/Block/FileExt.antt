-- ===== src/Block/FileExt.antt =====
-- src/block.rs, `FileExtBlock`: more pointers to the data blocks of a file.
use affs_read.Prelude.{ℕ, ◌-◌, List, ℤ, get_or, ltb, if◌then◌else◌}
use affs_read.Constants.{max_datablk, t_list}
use affs_read.Error.{Result, ok, ◌>>◌}
use affs_read.Checksum.{read_u32_be, read_i32_be}
use affs_read.Block.Fields.{read_table, check_header}

pub record FileExtBlock : Type 0 where
  pub block_type : ℤ
  pub header_key : ℕ
  pub high_seq : ℤ
  pub checksum : ℕ
  pub data_blocks : List ℕ
  pub parent : ℕ
  pub extension : ℕ
  pub sec_type : ℤ

unfoldable pub decode : List ℕ → FileExtBlock
decode buf = record {
  block_type = read_i32_be buf 0;
  header_key = read_u32_be buf 4;
  high_seq = read_i32_be buf 8;
  checksum = read_u32_be buf 20;
  data_blocks = read_table buf 24 0 max_datablk;
  parent = read_u32_be buf 0x1f4;
  extension = read_u32_be buf 0x1f8;
  sec_type = read_i32_be buf 0x1fc;
}

unfoldable pub parse : List ℕ → Result FileExtBlock
parse buf = do check_header buf t_list; ok (decode buf)

unfoldable pub data_block : FileExtBlock → ℕ → ℕ
data_block e index =
    if ltb index max_datablk then get_or e.data_blocks (max_datablk - 1 - index) 0 else 0
