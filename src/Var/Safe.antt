-- ===== src/Var/Safe.antt =====
-- The iterator of the variable reader stays in its table: src/varblock.rs, `VarDirIter::next`.
use affs_read.Prelude.{
  ℕ, zero, suc, ◌+◌, ◌-◌, ◌≤◌, ◌<◌, ◌≡◌, refl, true, false, List, Option, none, some, inl, inr,
  arith, length, get_or, ◌==◌, Bool-cases, Option-cases, ◌∙◌, lt→ltb, take, min, replicate,
  length-append, length-replicate,
}
use affs_read.Error.{Result, ok, err, Result-cases}
use affs_read.Run.{Run, done, panic, out_of_fuel}
use affs_read.Types.{SectorDevice}
use affs_read.Checksum.{read_u32_be_slice}
use affs_read.Block.Fields.{read_table, length-read_table}
use affs_read.Var.{AffsReaderVar}
use affs_read.Var.Dirs.{
  VarDirEntry, VarDirIter, iter_new, slots, seek_slot, load_block, parse_entry, next,
}

-- The table has as many slots as the iterator looks for, and it is not behind them.
pub record InTable (it : VarDirIter) : Type 0 where
  pub size : it.hash_size ≤ length it.hash_table
  pub index : it.hash_index ≤ length it.hash_table

-- The iterator went on over the same table.
pub record Onward (it it' : VarDirIter) : Type 0 where
  pub table : it'.hash_table ≡ it.hash_table
  pub same_size : it'.hash_size ≡ it.hash_size
  pub not_back : it.hash_index ≤ it'.hash_index
  pub in_table : InTable it'

data Seeks (it : VarDirIter) : Run VarDirIter → Type 0 where
  seeks : (it' : VarDirIter) → Onward it it' → Seeks it (done it')

-- The step gives an item or the end, and the iterator goes on, or the fuel was too little.
pub data Steps (it : VarDirIter) : Run (Option (Result VarDirEntry) × VarDirIter) → Type 0 where
  stepped :
      (item : Option (Result VarDirEntry)) (it' : VarDirIter)
      → Onward it it'
      → Steps it (done (item, it'))
  cut_off : Steps it out_of_fuel

Onward-trans : (a b c : VarDirIter) → Onward a b → Onward b c → Onward a c
Onward-trans a b c p q = record {
  table = q.table ∙ p.table;
  same_size = q.same_size ∙ p.same_size;
  not_back = omega (arith, p.not_back, q.not_back);
  in_table = q.in_table;
}

later-Seeks : (it it' : VarDirIter) (x : Run VarDirIter) → Onward it it' → Seeks it' x → Seeks it x
later-Seeks it it' x on (seeks it'' more) = seeks it'' (Onward-trans it it' it'' on more)

later-Steps :
    (it it' : VarDirIter) (x : Run (Option (Result VarDirEntry) × VarDirIter))
    → Onward it it'
    → Steps it' x
    → Steps it x
later-Steps it it' x on (stepped item it'' more) =
    stepped item it'' (Onward-trans it it' it'' on more)
later-Steps it it' x on cut_off = cut_off

-- One slot on, where there is one.
slot_on :
    (it : VarDirIter) (chain : ℕ)
    → InTable it
    → it.hash_index < length it.hash_table
    → Onward it (record it { hash_index = it.hash_index + 1; current_chain = chain })
slot_on it chain h inside = record {
  table = refl;
  same_size = refl;
  not_back = omega arith;
  in_table = record { size = h.size; index = omega arith };
}

seek_slot-Seeks :
    (left : ℕ) (it : VarDirIter)
    → InTable it
    → it.hash_index + left ≤ length it.hash_table
    → Seeks it (seek_slot left it)
unfolding seek_slot
seek_slot-Seeks zero it h inside =
    seeks it (record { table = refl; same_size = refl; not_back = omega arith; in_table = h })
seek_slot-Seeks (suc left) it h inside =
    let further = record it { hash_index = it.hash_index + 1 } in
    let block = get_or it.hash_table it.hash_index 0 in
    let on = slot_on it it.current_chain h (omega arith) in
    elim (Bool-cases (block == 0)) [
      | inl free ↦
          rw (lt→ltb it.hash_index (length it.hash_table) (omega arith), seek_slot)
            (rw free (
              later-Seeks it further (seek_slot left further) on
                (seek_slot-Seeks left further on.in_table (omega arith))))
      | inr used ↦
          rw (lt→ltb it.hash_index (length it.hash_table) (omega arith), seek_slot)
            (rw used (
              seeks (record it { hash_index = it.hash_index + 1; current_chain = block })
                (slot_on it block h (omega arith))))
    ]

Steps-sought :
    (it : VarDirIter) (x : Run VarDirIter)
    (further : VarDirIter → Run (Option (Result VarDirEntry) × VarDirIter))
    → Seeks it x
    → ((it' : VarDirIter) → InTable it' → Steps it' (further it'))
    → Steps it (elim x [
      | panic ↦ panic
      | out_of_fuel ↦ out_of_fuel
      | done it' ↦ elim (it'.current_chain == 0) [ true ↦ done (none, it') | false ↦ further it' ]
    ])
Steps-sought it x further (seeks it' on) rest = elim (Bool-cases (it'.current_chain == 0)) [
  | inl ended ↦ rw ended (stepped none it' on)
  | inr found ↦ rw found (later-Steps it it' (further it') on (rest it' on.in_table))
]

-- In the same slot.
same_slot :
    (it : VarDirIter) (chain : ℕ) (buf : List ℕ)
    → InTable it
    → Onward it (record it { current_chain = chain; buf = buf })
same_slot it chain buf h = record {
  table = refl;
  same_size = refl;
  not_back = omega arith;
  in_table = record { size = h.size; index = h.index };
}

module _ (device : SectorDevice) where
  -- Where the size of the table that was read from the disk is no more than the table has slots,
  -- `next` does not panic: it gives an item or the end of the iteration, with an iterator further
  -- on in the same table, to which the same applies, or the chain takes more rounds than the fuel.
  pub next-Steps : (fuel : ℕ) (it : VarDirIter) → InTable it → Steps it (next device fuel it)
  unfolding next load_block
  next-Steps zero it h = cut_off
  next-Steps (suc fuel) it h = elim (Bool-cases (it.current_chain == 0)) [
    | inl between ↦
        rw (between, next)
          (Steps-sought it (seek_slot (it.hash_size - it.hash_index) it) (next device fuel)
            (seek_slot-Seeks (it.hash_size - it.hash_index) it h (omega (arith, h.size, h.index)))
            (λ it' h'. next-Steps fuel it' h'))
    | inr chained ↦
        let it1 = (load_block device it).0 in
        let it2 = record it1 { current_chain = read_u32_be_slice it1.buf (it.size - 16) } in
        elim (Result-cases (load_block device it).1) [
          | inr (e, failed) ↦
              rw (chained, next)
                (rw failed (stepped (some (err e)) it1 (same_slot it it.current_chain it1.buf h)))
          | inl (_, loaded) ↦
              let on = same_slot it it2.current_chain it1.buf h in
              elim (Option-cases (parse_entry (take it.size it1.buf) it.size it.current_chain)) [
                | inr (entry, parsed) ↦
                    rw (chained, next) (rw loaded (rw parsed (stepped (some (ok entry)) it2 on)))
                | inl untyped ↦
                    rw (chained, next)
                      (rw loaded (
                        rw untyped (
                          later-Steps it it2 (next device fuel it2) on
                            (next-Steps fuel it2 on.in_table))))
              ]
        ]
  ]

-- The iterator of a volume whose table has 256 slots at most.
pub iter_new-InTable :
    (r : AffsReaderVar) (buf : List ℕ) → r.hash_size ≤ 256 → InTable (iter_new r buf)
unfolding iter_new slots
iter_new-InTable r buf h = record {
  size = omega (
    arith,
    length-append (read_table buf 24 0 (min r.hash_size 256))
        (replicate {A = ℕ} (256 - min r.hash_size 256) 0),
    length-read_table buf 24 0 (min r.hash_size 256),
    length-replicate {A = ℕ} (256 - min r.hash_size 256) 0,
  );
  index = omega arith;
}
