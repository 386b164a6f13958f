-- ===== src/Block/Root.antt =====
-- src/block.rs, `RootBlock`.
use affs_read.Prelude.{ℕ, Bool, List, ℤ, eq_ℤ, take, ◌==◌}
use affs_read.Constants.{
  hash_table_size, bm_pages_root_size, max_name_len, t_header, st_root, bm_valid,
}
use affs_read.Error.{
  Result, ok, guard, invalid_block_type, invalid_sec_type, checksum_mismatch, ◌>>◌,
}
use affs_read.Checksum.{read_u32_be, read_i32_be, normal_sum}
use affs_read.Date.{AmigaDate}
use affs_read.Block.Fields.{read_table, read_string, string_len}

pub record RootBlock : Type 0 where
  pub block_type : ℤ
  pub hash_size : ℤ
  pub checksum : ℕ
  pub hash_table : List ℕ
  pub bm_flag : ℤ
  pub bm_pages : List ℕ
  pub bm_ext : ℕ
  pub creation_date : AmigaDate
  pub name_len : ℕ
  pub disk_name : List ℕ
  pub last_modified : AmigaDate
  pub extension : ℕ
  pub sec_type : ℤ

-- The field `hash_table_size` is called `hash_size` here.
unfoldable pub parse : List ℕ → Result RootBlock
parse buf = do
  let block_type = read_i32_be buf 0
  guard (eq_ℤ block_type t_header) invalid_block_type
  let sec_type = read_i32_be buf 508
  guard (eq_ℤ sec_type st_root) invalid_sec_type
  let checksum = read_u32_be buf 20
  guard (checksum == normal_sum buf 20) checksum_mismatch
  ok (record {
    block_type = block_type;
    hash_size = read_i32_be buf 12;
    checksum = checksum;
    hash_table = read_table buf 24 0 hash_table_size;
    bm_flag = read_i32_be buf 0x138;
    bm_pages = read_table buf 0x13c 0 bm_pages_root_size;
    bm_ext = read_u32_be buf 0x1a0;
    creation_date = record {
      days = read_i32_be buf 0x1a4;
      mins = read_i32_be buf 0x1a8;
      ticks = read_i32_be buf 0x1ac;
    };
    name_len = string_len buf 0x1b0 max_name_len;
    disk_name = read_string buf 0x1b0 max_name_len;
    last_modified = record {
      days = read_i32_be buf 0x1d8;
      mins = read_i32_be buf 0x1dc;
      ticks = read_i32_be buf 0x1e0;
    };
    extension = read_u32_be buf 0x1f8;
    sec_type = sec_type;
  })

unfoldable pub name : RootBlock → List ℕ
name r = take r.name_len r.disk_name

unfoldable pub bitmap_valid : RootBlock → Bool
bitmap_valid r = eq_ℤ r.bm_flag bm_valid
