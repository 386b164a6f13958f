-- ===== src/Var/Follows.antt =====
-- The iterator of the variable reader against that of the 512-byte reader, at blocks of 512 bytes:
-- src/varblock.rs, `VarDirIter::next`, against src/dir.rs, `DirIter::next`.
use affs_read.Prelude.{
  ℕ, zero, suc, ◌-◌, ◌≤◌, ◌≡◌, ◌≢◌, refl, sym, ap, ◌∙◌, List, Option, none, some, arith, length,
  get_or, eq_or, inl, inr, ==_eq, ==_ne, replicate, length-append, splice, length-splice,
  get_or-append_left, Option-cases, Bool-cases,
}
use mathlib.Core.Path.{subst}
use affs_read.Constants.{hash_table_size, t_header}
use affs_read.Error.{
  AffsError, Result, ok, err, block_read_error, Result-cases, past_test, ok_injective,
}
use affs_read.Run.{Run, done, out_of_fuel}
use affs_read.Types.{BlockDevice, sector_device}
use affs_read.Checksum.{read_i32_be}
use affs_read.Block.Entry
use affs_read.Block.Entry.{EntryBlock}
use affs_read.Block.Fields.{check_header, read_table, length-read_table}
use affs_read.Dir
use affs_read.Dir.{DirEntry, DirIter, from_entry_block, load_entry, zero_block}
use affs_read.Dir.Walk.{past_slot, stepped, seek_slot_free, seek_slot_used}
use affs_read.Dir.Ranges.{IsDirIter, seek_slot-IsDirIter, stepped-IsDirIter, entry_kind}
use affs_read.Var.{zero_sector}
use affs_read.Var.Dirs.{slots, VarDirEntry, VarDirIter, parse_entry, next}
use affs_read.Var.Agree.{Agrees, parse_entry-Agrees}
use affs_read.Var.Beside.{
  IsSteady, Begins, beside, seek_slot-beside, sector_at, load_entry-read, load_entry-unread,
  next-unread, next-given, next-passed, sector_size,
}

-- The parser reports a block that it refuses by another error than one that was not read.
parse_refuses :
    (buf : List ℕ) (failure : AffsError)
    → Entry.parse buf ≡ err failure
    → failure ≢ block_read_error
unfolding Entry.parse check_header
parse_refuses buf failure e same = ground arith

seek_slot_table : (left : ℕ) (it : DirIter) → (Dir.seek_slot left it).hash_table ≡ it.hash_table
unfolding Dir.seek_slot
seek_slot_table zero it = refl
seek_slot_table (suc left) it = elim (eq_or (get_or it.hash_table it.hash_index 0) 0) [
  | inl free ↦
      ap (λ (i : DirIter). i.hash_table) (seek_slot_free left it free)
      ∙ seek_slot_table left (past_slot it)
  | inr used ↦ ap (λ (i : DirIter). i.hash_table) (seek_slot_used left it used)
]

-- Of a sector that the 512-byte reader makes no entry of, the variable reader makes none.
parse_entry_untyped :
    (buf : List ℕ) (block : ℕ)
    → from_entry_block block (Entry.decode buf) ≡ none
    → parse_entry buf 512 block ≡ none
unfolding from_entry_block parse_entry Entry.decode Entry.entry_type read_i32_be
parse_entry_untyped buf block e = ground arith

parsed_decoded :
    (buf : List ℕ) (entry : EntryBlock)
    → Entry.parse buf ≡ ok entry
    → Entry.parse buf ≡ ok (Entry.decode buf)
unfolding Entry.parse
parsed_decoded buf entry e =
    e ∙ ap (λ (t : EntryBlock). ok t) (sym (ok_injective (past_test (check_header buf t_header) e)))

module _ (device : BlockDevice) where
  -- The two iterators, after a call of each at the same place: both give an entry, of the same
  -- block, and the entries agree; both end; both could not read the block; or both take more rounds
  -- than the fuel; and they are at the same place again. Of a block that was read and that the
  -- 512-byte reader refuses, nothing is said.
  pub data Follows (table : List ℕ)
      : Run (Option (Result DirEntry) × DirIter)
        → Run (Option (Result VarDirEntry) × VarDirIter)
        → Type 0 where
    both_give :
        (d : DirEntry) (v : VarDirEntry) (it : DirIter) (buf : List ℕ)
        → Agrees (sector_at device d.block) d v
        → 512 ≤ length buf
        → Follows table (done (some (ok d), it)) (done (some (ok v), beside it table buf))
    both_end :
        (it : DirIter) (buf : List ℕ)
        → Follows table (done (none, it)) (done (none, beside it table buf))
    both_fail :
        (it : DirIter) (buf : List ℕ)
        → 512 ≤ length buf
        → Follows table
            (done (some (err block_read_error), it))
            (done (some (err block_read_error), beside it table buf))
    refused :
        (failure : AffsError) (it : DirIter) (y : Run (Option (Result VarDirEntry) × VarDirIter))
        → failure ≢ block_read_error
        → Follows table (done (some (err failure), it)) y
    both_endless : Follows table out_of_fuel out_of_fuel

  -- On a device that answers by the block number alone, with an iterator in range, and the variable
  -- reader's iterator, for blocks of 512 bytes, at its place, over a table that begins with the same
  -- slots, and with a buffer of at least a block: a call of each gives an entry of the same block,
  -- with the same fields but for the name, or the end, or the error of the block read, or takes more
  -- rounds than the fuel, and leaves the one at the place of the other; unless the 512-byte reader
  -- refuses a block that was read.
  pub next-Follows :
      (fuel : ℕ) (it : DirIter) (table buf : List ℕ)
      → IsSteady device
      → IsDirIter it
      → Begins it.hash_table table
      → 512 ≤ length buf
      → Follows table
          (Dir.next device fuel it)
          (next (sector_device device) fuel (beside it table buf))
  unfolding Dir.next next
  next-Follows zero it table buf steady h same long = both_endless
  next-Follows (suc fuel) it table buf steady h same long = elim (eq_or it.current_chain 0) [
    | inl between ↦
        let left = hash_table_size - it.hash_index in
        let it' = Dir.seek_slot left it in
        let h' = seek_slot-IsDirIter left it (omega (arith, h.hash_index)) h in
        let same' = subst (λ (t : List ℕ). Begins t table) (sym (seek_slot_table left it)) same in
        let sought = seek_slot-beside table buf left it same (omega (arith, h.hash_index)) in
        elim (eq_or it'.current_chain 0) [
          | inl at_end ↦
              rw (==_eq _ _ between, Dir.next, next, sought, ==_eq _ _ at_end) (both_end it' buf)
          | inr found ↦
              rw (==_eq _ _ between, Dir.next, next, sought, ==_ne _ _ found)
                (next-Follows fuel it' table buf steady h' same' long)
        ]
    | inr chained ↦ elim (Bool-cases (device.read_block it.current_chain zero_sector).1) [
      | inr bad ↦
          let there = next-unread device steady it table buf chained h.current_chain fuel bad in
          let failed = load_entry-unread device steady it table buf bad in
          rw (there, ==_ne _ _ chained, failed, Dir.next)
            (both_fail (record it { buf = (load_entry device it.current_chain it.buf).0 }) buf long)
      | inl good ↦ elim (Result-cases (Entry.parse (sector_at device it.current_chain))) [
        | inr (failure, unparsed) ↦
            let failed = load_entry-read device steady it table buf good ∙ unparsed in
            rw (==_ne _ _ chained, failed, Dir.next)
              (refused failure (record it { buf = (load_entry device it.current_chain it.buf).0 }) _
                (parse_refuses _ failure unparsed))
        | inl (entry, parsed) ↦
            let sector = sector_at device it.current_chain in
            let block = Entry.decode sector in
            let loaded =
              load_entry-read device steady it table buf good
              ∙ parsed_decoded sector entry parsed in
            let size = sector_size device steady it table buf chained h.current_chain long good in
            let long' : 512 ≤ length (splice buf 0 sector) =
              omega (arith, length-splice buf 0 sector (omega (arith, size))) in
            elim (Option-cases (from_entry_block it.current_chain block)) [
              | inl untyped ↦
                  let there =
                    next-passed device steady it table buf chained h.current_chain long good fuel
                      (parse_entry_untyped sector it.current_chain untyped) in
                  rw (there, ==_ne _ _ chained, loaded, untyped, Dir.next)
                    (next-Follows fuel (stepped device it block) table (splice buf 0 sector) steady
                      (stepped-IsDirIter device it block h loaded) same long')
              | inr (d, typed) ↦
                  let (v, taken, agrees) = parse_entry-Agrees sector it.current_chain d typed in
                  let there =
                    next-given device steady it table buf chained h.current_chain long good fuel v
                      taken in
                  let place =
                    ap (λ (e : DirEntry). e.block) (entry_kind it.current_chain block d typed).1 in
                  rw (there, ==_ne _ _ chained, loaded, typed, Dir.next)
                    (both_give d v (stepped device it block) (splice buf 0 sector)
                      (subst (λ (n : ℕ). Agrees (sector_at device n) d v) place agrees) long')
            ]
      ]
    ]
  ]

-- The slots that the variable reader takes over from a block begin with those of its table.
pub slots-Begins :
    (buf : List ℕ) → Begins (read_table buf 24 0 hash_table_size) (slots buf hash_table_size)
unfolding slots
slots-Begins buf =
    let same = read_table buf 24 0 hash_table_size in
    let rest = replicate {A = ℕ} 184 0 in
    let size = length-read_table buf 24 0 hash_table_size in
    record {
      long = omega (arith, length-append same rest, size);
      slot = λ k h. get_or-append_left same rest k 0 (omega (arith, size));
    }
