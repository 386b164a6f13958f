-- ===== src/Var/Agree.antt =====
-- The two readers on one entry block of 512 bytes: src/varblock.rs against src/block.rs and
-- src/dir.rs; and where the variable reader's table is too short.
use affs_read.Prelude.{
  ℕ, zero, suc, ◌+◌, ◌-◌, ◌^◌, ◌≤◌, ◌<◌, ◌≡◌, List, some, pos, arith, min, length, get_or, ltb,
  Option-cases, Bool-cases, ltb→lt, inl, inr, All, ==_eq,
}
use affs_read.Constants.{max_name_len}
use affs_read.Run.{panic}
use affs_read.Types.{SectorDevice, from_sec_type, IsBytes}
use affs_read.Checksum.{byte_at, read_u32_be, read_i32_be, read_i32_be_slice}
use affs_read.Checksum.Sums.{byte_at-lt}
use affs_read.Block.Entry
use affs_read.Block.Entry.{EntryBlock, decode}
use affs_read.Dir.{DirEntry, from_entry_block}
use affs_read.Var.Dirs.{VarDirEntry, VarDirIter, entry_of_kind, parse_entry, seek_slot, next}

-- What the variable reader has of an entry, against the other reader's `d`.
pub record Agrees (buf : List ℕ) (d : DirEntry) (v : VarDirEntry) : Type 0 where
  pub entry_type : v.entry_type ≡ d.entry_type
  pub block : v.block ≡ d.block
  pub parent : v.parent ≡ d.parent
  pub size : v.size ≡ d.size
  pub date : v.date ≡ d.date
  pub name_len : v.name_len ≡ min (byte_at buf 0x1a4) max_name_len

-- Of one buffer, at block size 512, the variable reader makes an entry where the other one does,
-- with the same type, block, parent, size and date. The length of its name is the first byte of
-- the date, cut to 30.
pub parse_entry-Agrees :
    (buf : List ℕ) (block : ℕ) (d : DirEntry)
    → from_entry_block block (decode buf) ≡ some d
    → (v : VarDirEntry) × (parse_entry buf 512 block ≡ some v) × Agrees buf d v
unfolding from_entry_block parse_entry decode Entry.entry_type read_i32_be read_u32_be
parse_entry-Agrees buf block d h = elim (Option-cases (from_sec_type (read_i32_be_slice buf 508))) [
  | inl untyped ↦ absurd (ground arith)
  | inr (kind, typed) ↦ (entry_of_kind buf 512 block kind, rw (typed, parse_entry), ground arith)
]

-- The first byte of a date before day 2 ^ 24 is 0.
date_byte :
    (buf : List ℕ) (at n : ℕ)
    → All (λ b. b < 256) buf
    → read_i32_be buf at ≡ pos n
    → n < 2 ^ 24
    → byte_at buf at ≡ 0
unfolding read_i32_be
date_byte buf at n h e lt = ground (
  arith,
  byte_at-lt buf at h,
  byte_at-lt buf (at + 1) h,
  byte_at-lt buf (at + 2) h,
  byte_at-lt buf (at + 3) h,
)

-- For a block of bytes whose date is one of the first 2 ^ 24 days from 1978 on, the variable reader
-- gives the entry an empty name, whatever its name is.
pub parse_entry_nameless :
    (buf : List ℕ) (block n : ℕ) (v : VarDirEntry)
    → IsBytes 512 buf
    → (decode buf).date.days ≡ pos n
    → n < 2 ^ 24
    → parse_entry buf 512 block ≡ some v
    → v.name_len ≡ 0
unfolding parse_entry decode
parse_entry_nameless buf block n v h e lt p = ground (arith, date_byte buf 0x1a4 n h.bytes e lt)

-- No slot of the array is used from the iterator's index on.
abbrev pub NoneLeft : VarDirIter → Type 0
NoneLeft it = (k : ℕ) → it.hash_index ≤ k → get_or it.hash_table k 0 ≡ 0

seek_slot_panics :
    (left : ℕ) (it : VarDirIter)
    → it.hash_index ≤ length it.hash_table
    → length it.hash_table < it.hash_index + left
    → NoneLeft it
    → seek_slot left it ≡ panic
unfolding seek_slot
seek_slot_panics zero it fits h none_left = absurd (omega arith)
seek_slot_panics (suc left) it fits h none_left =
    elim (Bool-cases (ltb it.hash_index (length it.hash_table))) [
      | inr outside ↦ rw (outside, seek_slot)
      | inl inside ↦
          rw (inside, ==_eq _ _ (none_left it.hash_index (omega arith)), seek_slot)
            (seek_slot_panics left (record it { hash_index = it.hash_index + 1 })
              (omega (arith, ltb→lt _ _ inside)) (omega arith) (λ k h. none_left k (omega arith)))
    ]

-- Where the iterator is between chains, no slot of its array is used from its index on, and the
-- table size read from the disk is larger than the array, the next step panics.
pub next_panics :
    (device : SectorDevice) (it : VarDirIter) (fuel : ℕ)
    → it.current_chain ≡ 0
    → it.hash_index ≤ length it.hash_table
    → length it.hash_table < it.hash_size
    → NoneLeft it
    → next device (suc fuel) it ≡ panic
unfolding next
next_panics device it fuel e fits large none_left =
    rw (==_eq _ _ e, next)
      (rw (seek_slot_panics (it.hash_size - it.hash_index) it fits (omega arith) none_left))
