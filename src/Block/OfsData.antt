-- ===== src/Block/OfsData.antt =====
-- src/block.rs, `OfsDataBlock`: the header of a data block under the Original File System.
use affs_read.Prelude.{ℕ, List, ℤ, drop}
use affs_read.Constants.{t_data}
use affs_read.Error.{Result, ok, ◌>>◌}
use affs_read.Checksum.{read_u32_be, read_i32_be}
use affs_read.Block.Fields.{check_header}

pub record OfsDataBlock : Type 0 where
  pub block_type : ℤ
  pub header_key : ℕ
  pub seq_num : ℕ
  pub data_size : ℕ
  pub next_data : ℕ
  pub checksum : ℕ

abbrev pub header_size : ℕ
header_size = 24

unfoldable pub decode : List ℕ → OfsDataBlock
decode buf = record {
  block_type = read_i32_be buf 0;
  header_key = read_u32_be buf 4;
  seq_num = read_u32_be buf 8;
  data_size = read_u32_be buf 12;
  next_data = read_u32_be buf 16;
  checksum = read_u32_be buf 20;
}

unfoldable pub parse : List ℕ → Result OfsDataBlock
parse buf = do check_header buf t_data; ok (decode buf)

-- The function `data`.
unfoldable pub data_bytes : List ℕ → List ℕ
data_bytes buf = drop header_size buf
