-- ===== src/Examples/Stored.antt =====
-- Two files as the blocks of a disk: one of FFS with an extension block, one of OFS.
use affs_read.Prelude.{
  ℕ, ◌+◌, ◌-◌, ◌*◌, ◌^◌, ◌%◌, ◌≡◌, refl, true, List, [], ◌∷◌, ◌++◌, arith, length, replicate, ◌==◌,
  if◌then◌else◌, Bool-cases, inl, inr, as_u32, ◌≤◌,
}
use affs_read.Error.{ok}
use affs_read.Types.{IsBytes, BlockDevice}
use affs_read.Checksum.{
  read_u32_be, read_i32_be, read_u32_be_slice, read_i32_be_slice, normal_sum, normal_sum_slice,
  normal_sum_slice_scalar, normal_loop,
}
use affs_read.Block.Fields.{read_table, check_header}
use affs_read.Block.Entry
use affs_read.Block.FileExt
use affs_read.Block.OfsData
use affs_read.File.Fetch.{Stored}
use affs_read.File.Listed.{Listed, all_listed, listed, extended}
use affs_read.File.Linked.{Linked, all_linked, linked, payload, payloads}
use affs_read.Examples.Data.{longword, all_bytes, IsBytes-decided, replicate-IsBytes}

-- 700 bytes: block 901 in the header, and block 902 in the extension block 903.
abbrev pub ffs_header : List ℕ
ffs_header =
    longword 2
    ++ replicate 4 0
    ++ longword 1
    ++ replicate 4 0
    ++ longword 901
    ++ longword (2 ^ 32 - 3405)
    ++ replicate 284 0
    ++ longword 901
    ++ replicate 12 0
    ++ longword 700
    ++ replicate 176 0
    ++ longword 903
    ++ longword (2 ^ 32 - 3)

abbrev pub ffs_extension : List ℕ
ffs_extension =
    longword 16
    ++ replicate 4 0
    ++ longword 1
    ++ replicate 8 0
    ++ longword (2 ^ 32 - 916)
    ++ replicate 284 0
    ++ longword 902
    ++ replicate 196 0
    ++ longword (2 ^ 32 - 3)

-- 500 bytes: 488 in block 911, and 12 in block 912.
abbrev pub ofs_header : List ℕ
ofs_header =
    longword 2
    ++ replicate 12 0
    ++ longword 911
    ++ longword (2 ^ 32 - 1410)
    ++ replicate 300 0
    ++ longword 500
    ++ replicate 180 0
    ++ longword (2 ^ 32 - 3)

abbrev pub full_data : List ℕ
full_data =
    longword 8
    ++ longword 900
    ++ longword 1
    ++ longword 488
    ++ longword 912
    ++ longword (2 ^ 32 - (2309 + 122 * 0x07070707) % 2 ^ 32)
    ++ replicate 488 7

abbrev pub last_data : List ℕ
last_data =
    longword 8
    ++ longword 900
    ++ longword 2
    ++ longword 12
    ++ longword 0
    ++ longword (2 ^ 32 - (922 + 3 * 0x09090909) % 2 ^ 32)
    ++ replicate 12 9
    ++ replicate 476 0

abbrev pub ffs_blocks : ℕ → List ℕ
ffs_blocks n =
    if n == 900 then ffs_header else if n == 903 then ffs_extension else replicate 512 (n % 256)

abbrev pub ofs_blocks : ℕ → List ℕ
ofs_blocks n =
    if n == 900
    then ofs_header
    else if n == 911
    then full_data
    else if n == 912
    then last_data
    else replicate 512 0

pub ffs_blocks-IsBytes : (n : ℕ) → IsBytes 512 (ffs_blocks n)
unfolding all_bytes
ffs_blocks-IsBytes n = elim (Bool-cases (n == 900)) [
  | inl header ↦ rw header (IsBytes-decided 512 ffs_header refl refl)
  | inr other ↦ rw other (elim (Bool-cases (n == 903)) [
    | inl extension ↦ rw extension (IsBytes-decided 512 ffs_extension refl refl)
    | inr content ↦ rw content (replicate-IsBytes 512 (n % 256) (omega arith))
  ])
]

pub ofs_blocks-IsBytes : (n : ℕ) → IsBytes 512 (ofs_blocks n)
unfolding all_bytes
ofs_blocks-IsBytes n = elim (Bool-cases (n == 900)) [
  | inl header ↦ rw header (IsBytes-decided 512 ofs_header refl refl)
  | inr other ↦ rw other (elim (Bool-cases (n == 911)) [
    | inl full ↦ rw full (IsBytes-decided 512 full_data refl refl)
    | inr content ↦ rw content (elim (Bool-cases (n == 912)) [
      | inl last ↦ rw last (IsBytes-decided 512 last_data refl refl)
      | inr free ↦ rw free (replicate-IsBytes 512 0 (omega arith))
    ])
  ])
]

abbrev pub ffs_disk : BlockDevice
ffs_disk = record {
  read_block = λ n buf. (ffs_blocks n, true);
  read_block-IsBytes = λ n buf h. ffs_blocks-IsBytes n;
}

abbrev pub ofs_disk : BlockDevice
ofs_disk = record {
  read_block = λ n buf. (ofs_blocks n, true);
  read_block-IsBytes = λ n buf h. ofs_blocks-IsBytes n;
}

pub ffs-Stored : (n : ℕ) → Stored ffs_disk n (ffs_blocks n)
ffs-Stored n = record { answers = λ buf. refl; size = (ffs_blocks-IsBytes n).size }

pub ofs-Stored : (n : ℕ) → Stored ofs_disk n (ofs_blocks n)
ofs-Stored n = record { answers = λ buf. refl; size = (ofs_blocks-IsBytes n).size }

pub ffs_header-parsed : Entry.parse ffs_header ≡ ok (Entry.decode ffs_header)
unfolding Entry.parse check_header read_i32_be read_u32_be normal_sum read_i32_be_slice
    read_u32_be_slice normal_sum_slice_scalar normal_sum_slice normal_loop
ffs_header-parsed = refl

pub ofs_header-parsed : Entry.parse ofs_header ≡ ok (Entry.decode ofs_header)
unfolding Entry.parse check_header read_i32_be read_u32_be normal_sum read_i32_be_slice
    read_u32_be_slice normal_sum_slice_scalar normal_sum_slice normal_loop
ofs_header-parsed = refl

pub ffs_header-file : Entry.is_file (Entry.decode ffs_header) ≡ true
unfolding Entry.is_file Entry.decode read_i32_be read_i32_be_slice read_u32_be_slice
ffs_header-file = refl

pub ofs_header-file : Entry.is_file (Entry.decode ofs_header) ≡ true
unfolding Entry.is_file Entry.decode read_i32_be read_i32_be_slice read_u32_be_slice
ofs_header-file = refl

extension-parsed : FileExt.parse ffs_extension ≡ ok (FileExt.decode ffs_extension)
unfolding FileExt.parse check_header read_i32_be read_u32_be normal_sum read_i32_be_slice
    read_u32_be_slice normal_sum_slice_scalar normal_sum_slice normal_loop
extension-parsed = refl

pub ffs-Listed :
    Listed ffs_disk ffs_blocks
      (Entry.decode ffs_header).hash_table
      (as_u32 (Entry.decode ffs_header).high_seq)
      0
      (Entry.decode ffs_header).extension
      (901 ∷ 902 ∷ [])
unfolding Entry.decode FileExt.decode read_table read_u32_be read_i32_be read_u32_be_slice
    read_i32_be_slice
ffs-Listed = listed (omega arith) (omega arith) refl (omega arith) (ffs-Stored 901) (
    extended (FileExt.decode ffs_extension) (omega arith) (omega arith) (ffs-Stored 903)
      extension-parsed (omega arith) refl (omega arith) (ffs-Stored 902) all_listed)

full-parsed : OfsData.parse full_data ≡ ok (OfsData.decode full_data)
unfolding OfsData.parse check_header read_i32_be read_u32_be normal_sum read_i32_be_slice
    read_u32_be_slice normal_sum_slice_scalar normal_sum_slice normal_loop
full-parsed = refl

last-parsed : OfsData.parse last_data ≡ ok (OfsData.decode last_data)
unfolding OfsData.parse check_header read_i32_be read_u32_be normal_sum read_i32_be_slice
    read_u32_be_slice normal_sum_slice_scalar normal_sum_slice normal_loop
last-parsed = refl

pub ofs-Linked : Linked ofs_disk ofs_blocks (Entry.decode ofs_header).first_data (911 ∷ 912 ∷ [])
unfolding Entry.decode OfsData.decode read_u32_be read_u32_be_slice
ofs-Linked =
    linked (OfsData.decode full_data) (omega arith) (ofs-Stored 911) full-parsed (omega arith)
      (omega arith) (λ more. refl)
      (linked (OfsData.decode last_data) (omega arith) (ofs-Stored 912) last-parsed (omega arith)
        (omega arith) (λ more. absurd (omega arith)) all_linked)

pub ofs-enough : (Entry.decode ofs_header).byte_size ≤ length (payloads ofs_blocks (911 ∷ 912 ∷ []))
unfolding Entry.decode OfsData.decode read_u32_be read_u32_be_slice payloads payload OfsData.parse
    OfsData.data_bytes check_header read_i32_be normal_sum read_i32_be_slice normal_sum_slice_scalar
    normal_sum_slice normal_loop
ofs-enough = omega arith
