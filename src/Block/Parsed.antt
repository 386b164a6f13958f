-- ===== src/Block/Parsed.antt =====
-- Blocks that a parser gives have fields in the range of their Rust types: src/block.rs.
use affs_read.Prelude.{ℕ, ◌≡◌, arith, List, IsI32, eq_ℤ, ◌==◌, ◌+◌}
use mathlib.Core.Path.{subst}
use affs_read.Constants.{
  t_header, t_list, t_data, st_root, hash_table_size, bm_pages_root_size, max_datablk, max_name_len,
  max_comment_len,
}
use affs_read.Error.{
  ok, guard, past_test, ok_injective, invalid_block_type, invalid_sec_type, checksum_mismatch,
}
use affs_read.Types.{IsBytes}
use affs_read.Checksum.{read_u32_be, read_i32_be, normal_sum}
use affs_read.Block.Ranges.{
  IsU32, IsU32s, IsString, IsDate, read_u32_be-IsU32, read_i32_be-IsI32, read_table-IsU32s,
  read_string-IsString,
}
use affs_read.Block.Fields.{check_header}
use affs_read.Block.Entry
use affs_read.Block.Entry.{EntryBlock}
use affs_read.Block.Root
use affs_read.Block.Root.{RootBlock}
use affs_read.Block.FileExt
use affs_read.Block.FileExt.{FileExtBlock}
use affs_read.Block.OfsData
use affs_read.Block.OfsData.{OfsDataBlock}

pub record IsEntryBlock (e : EntryBlock) : Type 0 where
  pub block_type : IsI32 e.block_type
  pub header_key : IsU32 e.header_key
  pub high_seq : IsI32 e.high_seq
  pub first_data : IsU32 e.first_data
  pub checksum : IsU32 e.checksum
  pub hash_table : IsU32s hash_table_size e.hash_table
  pub access : IsU32 e.access
  pub byte_size : IsU32 e.byte_size
  pub comment : IsString max_comment_len e.comment_len e.comment
  pub date : IsDate e.date
  pub name : IsString max_name_len e.name_len e.name
  pub real_entry : IsU32 e.real_entry
  pub next_link : IsU32 e.next_link
  pub next_same_hash : IsU32 e.next_same_hash
  pub parent : IsU32 e.parent
  pub extension : IsU32 e.extension
  pub sec_type : IsI32 e.sec_type

pub record IsRootBlock (r : RootBlock) : Type 0 where
  pub block_type : IsI32 r.block_type
  pub hash_size : IsI32 r.hash_size
  pub checksum : IsU32 r.checksum
  pub hash_table : IsU32s hash_table_size r.hash_table
  pub bm_flag : IsI32 r.bm_flag
  pub bm_pages : IsU32s bm_pages_root_size r.bm_pages
  pub bm_ext : IsU32 r.bm_ext
  pub creation_date : IsDate r.creation_date
  pub disk_name : IsString max_name_len r.name_len r.disk_name
  pub last_modified : IsDate r.last_modified
  pub extension : IsU32 r.extension
  pub sec_type : IsI32 r.sec_type

pub record IsFileExtBlock (e : FileExtBlock) : Type 0 where
  pub block_type : IsI32 e.block_type
  pub header_key : IsU32 e.header_key
  pub high_seq : IsI32 e.high_seq
  pub checksum : IsU32 e.checksum
  pub data_blocks : IsU32s max_datablk e.data_blocks
  pub parent : IsU32 e.parent
  pub extension : IsU32 e.extension
  pub sec_type : IsI32 e.sec_type

pub record IsOfsDataBlock (d : OfsDataBlock) : Type 0 where
  pub block_type : IsI32 d.block_type
  pub header_key : IsU32 d.header_key
  pub seq_num : IsU32 d.seq_num
  pub data_size : IsU32 d.data_size
  pub next_data : IsU32 d.next_data
  pub checksum : IsU32 d.checksum

module _ (buf : List ℕ) (block : IsBytes 512 buf) where
  abbrev u32 : (at : ℕ) → IsU32 (read_u32_be buf at)
  u32 at = read_u32_be-IsU32 buf block.bytes at

  abbrev i32 : (at : ℕ) → IsI32 (read_i32_be buf at)
  i32 at = read_i32_be-IsI32 buf block.bytes at

  abbrev date :
      (at : ℕ)
      → IsDate (record {
        days = read_i32_be buf at;
        mins = read_i32_be buf (at + 4);
        ticks = read_i32_be buf (at + 8);
      })
  date at = record { days = i32 at; mins = i32 (at + 4); ticks = i32 (at + 8) }

  decode-IsEntryBlock : IsEntryBlock (Entry.decode buf)
  unfolding Entry.decode
  decode-IsEntryBlock = record {
    block_type = i32 0;
    header_key = u32 4;
    high_seq = i32 8;
    first_data = u32 16;
    checksum = u32 20;
    hash_table = read_table-IsU32s buf block.bytes 24 hash_table_size;
    access = u32 0x140;
    byte_size = u32 0x144;
    comment =
        read_string-IsString buf block.bytes 0x148 max_comment_len (omega (arith, block.size));
    date = date 0x1a4;
    name = read_string-IsString buf block.bytes 0x1b0 max_name_len (omega (arith, block.size));
    real_entry = u32 0x1d4;
    next_link = u32 0x1d8;
    next_same_hash = u32 0x1f0;
    parent = u32 0x1f4;
    extension = u32 0x1f8;
    sec_type = i32 0x1fc;
  }

  parse-IsEntryBlock : (e : EntryBlock) → Entry.parse buf ≡ ok e → IsEntryBlock e
  unfolding Entry.parse
  parse-IsEntryBlock e parsed =
      subst IsEntryBlock (ok_injective (past_test (check_header buf t_header) parsed))
        decode-IsEntryBlock

  decode-IsFileExtBlock : IsFileExtBlock (FileExt.decode buf)
  unfolding FileExt.decode
  decode-IsFileExtBlock = record {
    block_type = i32 0;
    header_key = u32 4;
    high_seq = i32 8;
    checksum = u32 20;
    data_blocks = read_table-IsU32s buf block.bytes 24 max_datablk;
    parent = u32 0x1f4;
    extension = u32 0x1f8;
    sec_type = i32 0x1fc;
  }

  parse-IsFileExtBlock : (e : FileExtBlock) → FileExt.parse buf ≡ ok e → IsFileExtBlock e
  unfolding FileExt.parse
  parse-IsFileExtBlock e parsed =
      subst IsFileExtBlock (ok_injective (past_test (check_header buf t_list) parsed))
        decode-IsFileExtBlock

  decode-IsOfsDataBlock : IsOfsDataBlock (OfsData.decode buf)
  unfolding OfsData.decode
  decode-IsOfsDataBlock = record {
    block_type = i32 0;
    header_key = u32 4;
    seq_num = u32 8;
    data_size = u32 12;
    next_data = u32 16;
    checksum = u32 20;
  }

  parse-IsOfsDataBlock : (d : OfsDataBlock) → OfsData.parse buf ≡ ok d → IsOfsDataBlock d
  unfolding OfsData.parse
  parse-IsOfsDataBlock d parsed =
      subst IsOfsDataBlock (ok_injective (past_test (check_header buf t_data) parsed))
        decode-IsOfsDataBlock

  parse-IsRootBlock : (r : RootBlock) → Root.parse buf ≡ ok r → IsRootBlock r
  unfolding Root.parse
  parse-IsRootBlock r parsed =
      let header = guard (eq_ℤ (read_i32_be buf 0) t_header) invalid_block_type in
      let kind = guard (eq_ℤ (read_i32_be buf 508) st_root) invalid_sec_type in
      let sum = guard (read_u32_be buf 20 == normal_sum buf 20) checksum_mismatch in
      let same = ok_injective (past_test sum (past_test kind (past_test header parsed))) in
      subst IsRootBlock same (record {
        block_type = i32 0;
        hash_size = i32 12;
        checksum = u32 20;
        hash_table = read_table-IsU32s buf block.bytes 24 hash_table_size;
        bm_flag = i32 0x138;
        bm_pages = read_table-IsU32s buf block.bytes 0x13c bm_pages_root_size;
        bm_ext = u32 0x1a0;
        creation_date = date 0x1a4;
        disk_name =
            read_string-IsString buf block.bytes 0x1b0 max_name_len (omega (arith, block.size));
        last_modified = date 0x1d8;
        extension = u32 0x1f8;
        sec_type = i32 508;
      })

  -- Whichever parser takes a block of bytes, the block that it gives has all its fields in the
  -- range of their Rust types: 32-bit numbers, tables of so many of them, and strings that are no
  -- longer than their arrays.
  pub parse-InRange :
      ((e : EntryBlock) → Entry.parse buf ≡ ok e → IsEntryBlock e)
      × ((r : RootBlock) → Root.parse buf ≡ ok r → IsRootBlock r)
      × ((e : FileExtBlock) → FileExt.parse buf ≡ ok e → IsFileExtBlock e)
      × ((d : OfsDataBlock) → OfsData.parse buf ≡ ok d → IsOfsDataBlock d)
  parse-InRange =
      (parse-IsEntryBlock, parse-IsRootBlock, parse-IsFileExtBlock, parse-IsOfsDataBlock)
