-- ===== src/Examples/Sums.antt =====
-- The checksums, the date and the target of a link, at concrete inputs: src/checksum.rs, src/date.rs and
-- src/symlink.rs.
use affs_read.Prelude.{ℕ, ◌+◌, ◌-◌, ◌*◌, ◌%◌, ◌^◌, ◌<◌, ◌≡◌, ◌↔◌, List, pos, replicate, arith}
use affs_read.Checksum.{
  read_u32_be_slice, normal_sum_slice, normal_sum_slice_scalar, boot_sum, boot_sum_scalar,
  bitmap_sum_scalar,
}
use affs_read.Checksum.Sums.{word, sum_range, normal_sum_iff, boot_sum_iff}
use affs_read.Checksum.Simd.{normal_sum_slice_simd, boot_sum_simd, bitmap_sum_simd}
use affs_read.Checksum.Simd.Equal.{normal_sum_slice_simd-eq-scalar}
use affs_read.Checksum.Simd.Boot.{boot_sum_simd-eq-scalar, bitmap_sum_simd-eq-scalar}
use affs_read.Date.{AmigaDate, days_to_date, to_date_time, to_unix_timestamp}
use affs_read.Date.Calendar.{IsDateOf, days_to_date-IsDateOf}
use affs_read.Date.Timestamp.{to_unix_timestamp-to_date_time}
use affs_read.Examples.Data.{file_header, file_header-IsBytes, replicate-IsBytes}
use affs_read.Examples.Instances.{four_lanes, big_endian}

normal_sum_iff_example :
    (read_u32_be_slice (file_header 882) (4 * 5) ≡ normal_sum_slice (file_header 882) (4 * 5))
    ↔ (sum_range (word (file_header 882)) 0 128 % 2 ^ 32 ≡ 0)
normal_sum_iff_example = normal_sum_iff (file_header 882) 5 file_header-IsBytes.bytes (omega arith)

abbrev boot_block : List ℕ
boot_block = replicate 1024 7

boot_sum_iff_example :
    (read_u32_be_slice boot_block 4 ≡ boot_sum boot_block)
    ↔ (sum_range (word boot_block) 0 256 % 2 ^ 32 ≡ 2 ^ 32 - 1)
boot_sum_iff_example = boot_sum_iff boot_block (replicate-IsBytes 1024 7 (omega arith))

normal_sum_slice_simd_example :
    normal_sum_slice_simd four_lanes big_endian (file_header 882) 20
    ≡ normal_sum_slice_scalar (file_header 882) 20
normal_sum_slice_simd_example =
    normal_sum_slice_simd-eq-scalar four_lanes big_endian (file_header 882) 20

boot_sum_simd_example : boot_sum_simd four_lanes big_endian boot_block ≡ boot_sum_scalar boot_block
boot_sum_simd_example =
    boot_sum_simd-eq-scalar four_lanes big_endian boot_block
      (replicate-IsBytes 1024 7 (omega arith))

bitmap_sum_simd_example :
    bitmap_sum_simd four_lanes big_endian (file_header 882) ≡ bitmap_sum_scalar (file_header 882)
bitmap_sum_simd_example =
    bitmap_sum_simd-eq-scalar four_lanes big_endian (file_header 882) file_header-IsBytes

-- 1 March 1980.
days_to_date_example :
    let (year, month, day) = days_to_date (pos 790) in IsDateOf 790 year month day
days_to_date_example = days_to_date-IsDateOf 790 (omega arith)

abbrev evening : AmigaDate
evening = record { days = pos 790; mins = pos 1199; ticks = pos 2999 }

to_date_time_example :
    let t = to_date_time evening in
    (t.hour < 24)
    × (t.minute < 60)
    × (t.second < 60)
    × (to_unix_timestamp evening
        ≡ pos ((((790 + 2922) * 24 + t.hour) * 60 + t.minute) * 60 + t.second))
to_date_time_example = to_unix_timestamp-to_date_time 790 1199 2999 (omega arith) (omega arith)
