-- ===== src/Dir/Ranges.antt =====
-- The Rust types of the iterator's state, as ranges of the numbers and lengths of the lists of src/dir.rs.
use affs_read.Prelude.{
  ℕ, zero, suc, ◌+◌, ◌<◌, ◌≤◌, ◌≡◌, Bool, true, false, if◌then◌else◌, List, some, arith, All-get_or,
  All-replicate, length-replicate, sym, get_or, eq_or, inl, inr, Option-cases,
}
use mathlib.Core.Path.{subst}
use affs_read.Constants.{hash_table_size}
use affs_read.Error.{AffsError, Result, ok, err, block_read_error}
use affs_read.Types.{BlockDevice, EntryType, IsBytes}
use affs_read.Block.Entry
use affs_read.Block.Entry.{EntryBlock}
use affs_read.Block.Ranges.{IsU32, IsU32s}
use affs_read.Block.Parsed.{IsEntryBlock, parse-InRange}
use affs_read.Dir.{DirEntry, DirIter, from_entry_block, entry_of_type, load_entry, seek_slot, new}
use affs_read.Dir.Walk.{stepped, past_slot, seek_slot_free, seek_slot_used}

pub record IsDirIter (it : DirIter) : Type 0 where
  pub hash_table : IsU32s hash_table_size it.hash_table
  pub hash_index : it.hash_index ≤ hash_table_size
  pub current_chain : IsU32 it.current_chain
  pub buf : IsBytes 512 it.buf

pub entry_kind :
    (block : ℕ) (entry : EntryBlock) (d : DirEntry)
    → from_entry_block block entry ≡ some d
    → (kind : EntryType) × (entry_of_type block entry kind ≡ d)
unfolding from_entry_block
entry_kind block entry d e = elim (Option-cases (Entry.entry_type entry)) [
  | inl untyped ↦ absurd (ground arith)
  | inr (kind, typed) ↦ (kind, ground arith)
]

-- A new iterator over a table in range is in range.
pub new-IsDirIter :
    (table : List ℕ) (intl : Bool) → IsU32s hash_table_size table → IsDirIter (new table intl)
unfolding new
new-IsDirIter table intl h = record {
  hash_table = h;
  hash_index = omega arith;
  current_chain = omega arith;
  buf = record {
    size = length-replicate {A = ℕ} 512 0;
    bytes = All-replicate (λ b. b < 256) 512 0 (omega arith);
  };
}

-- The search for a slot keeps the iterator in range.
pub seek_slot-IsDirIter :
    (left : ℕ) (it : DirIter)
    → it.hash_index + left ≤ hash_table_size
    → IsDirIter it
    → IsDirIter (seek_slot left it)
unfolding seek_slot
seek_slot-IsDirIter zero it inside h = h
seek_slot-IsDirIter (suc left) it inside h = elim (eq_or (get_or it.hash_table it.hash_index 0) 0) [
  | inl free ↦ subst IsDirIter (sym (seek_slot_free left it free)) (
      seek_slot-IsDirIter left (past_slot it) (omega arith) (record {
        hash_table = h.hash_table;
        hash_index = omega arith;
        current_chain = h.current_chain;
        buf = h.buf;
      }))
  | inr used ↦ subst IsDirIter (sym (seek_slot_used left it used)) (record {
    hash_table = h.hash_table;
    hash_index = omega arith;
    current_chain = All-get_or IsU32 it.hash_table it.hash_index 0 (omega arith) h.hash_table.each;
    buf = h.buf;
  })
]

-- A block is parsed where it was read.
parsed_where_read :
    (good : Bool) (failure : AffsError) {parsed : Result EntryBlock} {e : EntryBlock}
    → (if good then parsed else err failure) ≡ ok e
    → parsed ≡ ok e
parsed_where_read true failure h = h
parsed_where_read false failure h = absurd (ground arith)

module _ (device : BlockDevice) where
  load_entry-InRange :
      (block : ℕ) (buf : List ℕ) (e : EntryBlock)
      → IsBytes 512 buf
      → (load_entry device block buf).1 ≡ ok e
      → IsEntryBlock e
  unfolding load_entry
  load_entry-InRange block buf e h loaded =
      let (buf', good) = device.read_block block buf in
      (parse-InRange buf' (device.read_block-IsBytes block buf h)).0 e
        (parsed_where_read good block_read_error loaded)

  loaded-IsBytes :
      (block : ℕ) (buf : List ℕ) → IsBytes 512 buf → IsBytes 512 (load_entry device block buf).0
  unfolding load_entry
  loaded-IsBytes block buf h = device.read_block-IsBytes block buf h

  -- The step over a block of a chain keeps the iterator in range.
  pub stepped-IsDirIter :
      (it : DirIter) (block : EntryBlock)
      → IsDirIter it
      → (load_entry device it.current_chain it.buf).1 ≡ ok block
      → IsDirIter (stepped device it block)
  stepped-IsDirIter it block h loaded = record {
    hash_table = h.hash_table;
    hash_index = h.hash_index;
    current_chain = (load_entry-InRange it.current_chain it.buf block h.buf loaded).next_same_hash;
    buf = loaded-IsBytes it.current_chain it.buf h.buf;
  }
