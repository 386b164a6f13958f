-- ===== src/Examples/Large.antt =====
-- A data block that claims 500 bytes of data: src/file.rs under OFS.
use affs_read.Prelude.{
  ◌<◌, ℕ, ◌-◌, ◌*◌, ◌+◌, ◌^◌, ◌%◌, ◌≡◌, refl, true, List, ◌++◌, arith, replicate,
}
use affs_read.Error.{ok}
use affs_read.Run.{panic}
use affs_read.Types.{IsBytes, BlockDevice, ofs}
use affs_read.Checksum.{
  read_u32_be, read_i32_be, read_u32_be_slice, read_i32_be_slice, normal_sum, normal_sum_slice,
  normal_sum_slice_scalar, normal_loop,
}
use affs_read.Block.Fields.{check_header}
use affs_read.Block.OfsData
use affs_read.File.{
  FileReader, refill, read_next_data_block, get_next_data_block, get_next_ofs_block, fetch_block,
  accept_block, read,
}
use affs_read.File.Oversized.{read-panics}
use affs_read.Examples.Data.{longword, all_bytes, IsBytes-decided, replicate-IsBytes}

abbrev large_data : List ℕ
large_data =
    longword 8
    ++ longword 900
    ++ longword 1
    ++ longword 500
    ++ longword 0
    ++ longword (2 ^ 32 - (1409 + 122 * 0x07070707) % 2 ^ 32)
    ++ replicate 488 7

large_data-IsBytes : IsBytes 512 large_data
unfolding all_bytes
large_data-IsBytes = IsBytes-decided 512 large_data refl refl

abbrev large_disk : BlockDevice
large_disk = record {
  read_block = λ n buf. (large_data, true);
  read_block-IsBytes = λ n buf h. large_data-IsBytes;
}

abbrev at_large : FileReader
at_large = record {
  fs_type = ofs;
  header_block = 900;
  file_size = 600;
  remaining = 600;
  block_index = 0;
  initial_blocks_in_header = 0;
  blocks_in_current = 0;
  index_in_current = 0;
  initial_data_blocks = replicate 72 0;
  data_blocks = replicate 72 0;
  initial_extension = 0;
  next_extension = 0;
  initial_first_data = 911;
  current_data_block = 911;
  offset_in_block = 0;
  buf = replicate 512 0;
}

parsed : OfsData.parse large_data ≡ ok (OfsData.decode large_data)
unfolding OfsData.parse check_header read_i32_be read_u32_be normal_sum read_i32_be_slice
    read_u32_be_slice normal_sum_slice_scalar normal_sum_slice normal_loop
parsed = refl

fetched : (refill large_disk at_large).0 ≡ ok tt
unfolding refill read_next_data_block get_next_data_block get_next_ofs_block fetch_block
    accept_block OfsData.parse check_header read_i32_be read_u32_be normal_sum read_i32_be_slice
    read_u32_be_slice normal_sum_slice_scalar normal_sum_slice normal_loop
fetched = refl

start : (refill large_disk at_large).1.offset_in_block ≡ 0
unfolding refill read_next_data_block get_next_data_block get_next_ofs_block fetch_block
    accept_block OfsData.parse check_header read_i32_be read_u32_be normal_sum read_i32_be_slice
    read_u32_be_slice normal_sum_slice_scalar normal_sum_slice normal_loop
start = refl

reads : OfsData.parse (refill large_disk at_large).1.buf ≡ ok (OfsData.decode large_data)
unfolding refill read_next_data_block get_next_data_block get_next_ofs_block fetch_block
    accept_block OfsData.parse check_header read_i32_be read_u32_be normal_sum read_i32_be_slice
    read_u32_be_slice normal_sum_slice_scalar normal_sum_slice normal_loop
reads = refl

large : 488 < (OfsData.decode large_data).data_size
unfolding OfsData.decode read_u32_be read_u32_be_slice
large = omega arith

read-panics_example : read large_disk at_large (replicate 600 0) ≡ panic
read-panics_example =
    read-panics large_disk at_large (OfsData.decode large_data) (replicate 600 0) refl
      (replicate-IsBytes 512 0 (omega arith)) fetched start reads large (omega arith) (omega arith)
