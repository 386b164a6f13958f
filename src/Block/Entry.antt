-- ===== src/Block/Entry.antt =====
-- src/block.rs, `EntryBlock`: a file header, a directory or a link.
use affs_read.Prelude.{ℕ, ◌-◌, Bool, List, Option, ◌||◌, ℤ, eq_ℤ, take, get_or, ltb, if◌then◌else◌}
use affs_read.Constants.{
  hash_table_size, max_datablk, max_name_len, max_comment_len, t_header, st_dir, st_ldir, st_file,
  st_lfile,
}
use affs_read.Error.{Result, ok, ◌>>◌}
use affs_read.Types.{EntryType, from_sec_type}
use affs_read.Checksum.{read_u32_be, read_i32_be}
use affs_read.Date.{AmigaDate}
use affs_read.Block.Fields.{read_table, read_string, string_len, check_header}

pub record EntryBlock : Type 0 where
  pub block_type : ℤ
  pub header_key : ℕ
  pub high_seq : ℤ
  pub first_data : ℕ
  pub checksum : ℕ
  pub hash_table : List ℕ
  pub access : ℕ
  pub byte_size : ℕ
  pub comment_len : ℕ
  pub comment : List ℕ
  pub date : AmigaDate
  pub name_len : ℕ
  pub name : List ℕ
  pub real_entry : ℕ
  pub next_link : ℕ
  pub next_same_hash : ℕ
  pub parent : ℕ
  pub extension : ℕ
  pub sec_type : ℤ

-- The block that `parse` makes of a buffer which passes its tests.
unfoldable pub decode : List ℕ → EntryBlock
decode buf = record {
  block_type = read_i32_be buf 0;
  header_key = read_u32_be buf 4;
  high_seq = read_i32_be buf 8;
  first_data = read_u32_be buf 16;
  checksum = read_u32_be buf 20;
  hash_table = read_table buf 24 0 hash_table_size;
  access = read_u32_be buf 0x140;
  byte_size = read_u32_be buf 0x144;
  comment_len = string_len buf 0x148 max_comment_len;
  comment = read_string buf 0x148 max_comment_len;
  date = record {
    days = read_i32_be buf 0x1a4;
    mins = read_i32_be buf 0x1a8;
    ticks = read_i32_be buf 0x1ac;
  };
  name_len = string_len buf 0x1b0 max_name_len;
  name = read_string buf 0x1b0 max_name_len;
  real_entry = read_u32_be buf 0x1d4;
  next_link = read_u32_be buf 0x1d8;
  next_same_hash = read_u32_be buf 0x1f0;
  parent = read_u32_be buf 0x1f4;
  extension = read_u32_be buf 0x1f8;
  sec_type = read_i32_be buf 0x1fc;
}

unfoldable pub parse : List ℕ → Result EntryBlock
parse buf = do check_header buf t_header; ok (decode buf)

-- The methods `name` and `comment`, beside the fields of those names.
unfoldable pub name_bytes : EntryBlock → List ℕ
name_bytes e = take e.name_len e.name

unfoldable pub comment_bytes : EntryBlock → List ℕ
comment_bytes e = take e.comment_len e.comment

unfoldable pub entry_type : EntryBlock → Option EntryType
entry_type e = from_sec_type e.sec_type

unfoldable pub is_dir : EntryBlock → Bool
is_dir e = eq_ℤ e.sec_type st_dir || eq_ℤ e.sec_type st_ldir

unfoldable pub is_file : EntryBlock → Bool
is_file e = eq_ℤ e.sec_type st_file || eq_ℤ e.sec_type st_lfile

-- Pointers to data blocks are stored in reverse order.
unfoldable pub data_block : EntryBlock → ℕ → ℕ
data_block e index =
    if ltb index max_datablk then get_or e.hash_table (max_datablk - 1 - index) 0 else 0
