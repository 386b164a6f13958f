-- ===== src/Examples/Good.antt =====
-- The devices of the tests of src/reader.rs and src/varblock.rs.
use affs_read.Prelude.{
  ℕ, ◌+◌, ◌-◌, ◌^◌, ◌%◌, refl, true, false, Bool, List, [], ◌∷◌, ◌++◌, arith, replicate, ◌==◌,
  if◌then◌else◌, Bool-cases, inl, inr,
}
use affs_read.Types.{IsBytes, BlockDevice, SectorDevice}
use affs_read.Examples.Data.{longword, all_bytes, IsBytes-decided, replicate-IsBytes}

-- `DummyDevice`
abbrev pub dummy_device : BlockDevice
dummy_device = record { read_block = λ n buf. (buf, false); read_block-IsBytes = λ n buf h. h }

-- `DummyGoodDevice`: the blocks that it writes.
abbrev pub good_boot : List ℕ
good_boot = b'D' ∷ b'O' ∷ b'S' ∷ 1 ∷ replicate 4 0 ++ longword 2 ++ replicate 500 0

abbrev pub good_root : List ℕ
good_root =
    longword 2
    ++ replicate 8 0
    ++ longword 4
    ++ replicate 4 0
    ++ longword (2 ^ 32 - (12 + 0x04746573 + 0x74000000) % 2 ^ 32)
    ++ longword 5
    ++ replicate 392 0
    ++ (4 ∷ b't' ∷ b'e' ∷ b's' ∷ b't' ∷ [])
    ++ replicate 83 0
    ++ longword 1

abbrev pub good_entry : List ℕ
good_entry =
    longword 2
    ++ replicate 320 0
    ++ longword 123
    ++ replicate 92 0
    ++ (4 ∷ b'f' ∷ b'i' ∷ b'l' ∷ b'e' ∷ [])
    ++ replicate 75 0
    ++ longword 2
    ++ replicate 4 0
    ++ longword (2 ^ 32 - 3)

-- A sector, and whether it is there. A sector that is not comes back as zeros.
abbrev pub good_sector : ℕ → List ℕ × Bool
good_sector sector =
    if sector == 0
    then (good_boot, true)
    else if sector == 1
    then (replicate 512 0, true)
    else if sector == 2
    then (good_root, true)
    else if sector == 5
    then (good_entry, true)
    else (replicate 512 0, false)

pub good_sector-IsBytes : (n : ℕ) → IsBytes 512 (good_sector n).0
unfolding all_bytes
good_sector-IsBytes n = elim (Bool-cases (n == 0)) [
  | inl boot ↦ rw boot (IsBytes-decided 512 good_boot refl refl)
  | inr behind ↦ rw behind (elim (Bool-cases (n == 1)) [
    | inl second ↦ rw second (replicate-IsBytes 512 0 (omega arith))
    | inr further ↦ rw further (elim (Bool-cases (n == 2)) [
      | inl root ↦ rw root (IsBytes-decided 512 good_root refl refl)
      | inr other ↦ rw other (elim (Bool-cases (n == 5)) [
        | inl entry ↦ rw entry (IsBytes-decided 512 good_entry refl refl)
        | inr none_there ↦ rw none_there (replicate-IsBytes 512 0 (omega arith))
      ])
    ])
  ])
]

-- `DummySectorDevice`
abbrev pub dummy_sector_device : SectorDevice
dummy_sector_device = record {
  read_sector = λ n buf. (buf, false);
  read_sector-IsBytes = λ n buf h. h;
}

unfoldable pub good_device : SectorDevice
good_device = record {
  read_sector = λ sector buf. good_sector sector;
  read_sector-IsBytes = λ sector buf h. good_sector-IsBytes sector;
}
