-- ===== src/Dir/Walk.antt =====
-- The iterator gives the entries of all chains, slot after slot. src/dir.rs, `DirIter::next`.
use affs_read.Prelude.{
  ℕ, zero, suc, ◌-◌, ◌≤◌, ◌≡◌, ◌≢◌, List, [], ◌∷◌, Option, none, some, arith, Option-cases, inl,
  inr, ==_ne, ==_eq, get_or, ◌+◌, eq_or, refl, sym, ap, ◌∙◌,
}
use affs_read.Constants.{hash_table_size}
use affs_read.Error.{Result, ok}
use affs_read.Run.{Run, done}
use affs_read.Types.{BlockDevice}
use affs_read.Block.Entry.{EntryBlock}
use affs_read.Dir.{DirEntry, DirIter, from_entry_block, load_entry, seek_slot, next}

-- The iterator once it has looked for a slot.
abbrev pub sought : DirIter → DirIter
sought it = seek_slot (hash_table_size - it.hash_index) it

-- The iterator behind the slot that it looks at.
abbrev pub past_slot : DirIter → DirIter
past_slot it = record it { hash_index = it.hash_index + 1 }

-- An empty slot is passed over.
pub seek_slot_free :
    (left : ℕ) (it : DirIter)
    → get_or it.hash_table it.hash_index 0 ≡ 0
    → seek_slot (suc left) it ≡ seek_slot left (past_slot it)
unfolding seek_slot
seek_slot_free left it e = rw (==_eq _ _ e, seek_slot) refl

-- A used slot gives its chain.
pub seek_slot_used :
    (left : ℕ) (it : DirIter)
    → get_or it.hash_table it.hash_index 0 ≢ 0
    → seek_slot (suc left) it ≡ record it {
      hash_index = it.hash_index + 1;
      current_chain = get_or it.hash_table it.hash_index 0;
    }
unfolding seek_slot
seek_slot_used left it ne = rw (==_ne _ _ ne, seek_slot) refl

-- A search for a slot that finds none comes to the end of the table.
seek_slot_end :
    (left : ℕ) (it : DirIter)
    → (seek_slot left it).current_chain ≡ 0
    → (seek_slot left it).hash_index ≡ it.hash_index + left
unfolding seek_slot
seek_slot_end zero it e = omega arith
seek_slot_end (suc left) it e = elim (eq_or (get_or it.hash_table it.hash_index 0) 0) [
  | inl free ↦
      let eq = seek_slot_free left it free in
      let e' = sym (ap (λ (i : DirIter). i.current_chain) eq) ∙ e in
      ap (λ (i : DirIter). i.hash_index) eq ∙ seek_slot_end left (past_slot it) e' ∙ omega arith
  | inr used ↦
      let eq = seek_slot_used left it used in
      absurd (used (sym (ap (λ (i : DirIter). i.current_chain) eq) ∙ e))
]

-- Then it finds none again.
sought_again :
    (it : DirIter) → (sought it).current_chain ≡ 0 → (sought (sought it)).current_chain ≡ 0
unfolding seek_slot
sought_again it e =
    let past = seek_slot_end (hash_table_size - it.hash_index) it e in
    let none_left : hash_table_size - (sought it).hash_index ≡ 0 = omega arith in
    rw (none_left, seek_slot) e

module _ (device : BlockDevice) where
  abbrev pub stepped : DirIter → EntryBlock → DirIter
  stepped it entry = record it {
    current_chain = entry.next_same_hash;
    buf = (load_entry device it.current_chain it.buf).0;
  }

  -- The entry blocks that are still to come, with their block numbers: those of the chain that
  -- the iterator is in, then those of the slots behind it.
  pub data Ahead : DirIter → List (ℕ × EntryBlock) → Type 0 where
    finished : {it : DirIter} → it.current_chain ≡ 0 → (sought it).current_chain ≡ 0 → Ahead it []
    slot :
        {it : DirIter} {es : List (ℕ × EntryBlock)}
        → it.current_chain ≡ 0
        → (sought it).current_chain ≢ 0
        → Ahead (sought it) es
        → Ahead it es
    link :
        {it : DirIter} {entry : EntryBlock} {es : List (ℕ × EntryBlock)}
        → it.current_chain ≢ 0
        → (load_entry device it.current_chain it.buf).1 ≡ ok entry
        → Ahead (stepped it entry) es
        → Ahead it ((it.current_chain, entry) ∷ es)

  -- The next item is the first block ahead that has a type, and the rest stays ahead.
  pub data Yields : List (ℕ × EntryBlock) → Run (Option (Result DirEntry) × DirIter) → Type 0 where
    item :
        (block : ℕ) (entry : EntryBlock) (d : DirEntry) (it' : DirIter) (es : List (ℕ × EntryBlock))
        → from_entry_block block entry ≡ some d
        → Ahead it' es
        → Yields ((block, entry) ∷ es) (done (some (ok d), it'))
    skipped :
        {block : ℕ} {entry : EntryBlock} {es : List (ℕ × EntryBlock)}
        {x : Run (Option (Result DirEntry) × DirIter)}
        → from_entry_block block entry ≡ none
        → Yields es x
        → Yields ((block, entry) ∷ es) x
    ended : (it' : DirIter) → Ahead it' [] → Yields [] (done (none, it'))

  -- The rounds that the loop of `next` may take.
  unfoldable pub rounds : {it : DirIter} {es : List (ℕ × EntryBlock)} → Ahead it es → ℕ
  rounds (finished e e') = 1
  rounds (slot e ne rest) = suc (rounds rest)
  rounds (link ne loaded rest) = suc (rounds rest)

  -- Where the blocks ahead load, and with fuel for the rounds, `next` gives the entry of the first block ahead that has a type,
  -- skipping those that have none, and leaves the blocks behind it ahead; where no block ahead
  -- has a type, it ends the iteration.
  pub next-Yields :
      (fuel : ℕ) (it : DirIter) (es : List (ℕ × EntryBlock)) (ahead : Ahead it es)
      → rounds ahead ≤ fuel
      → Yields es (next device fuel it)
  unfolding next rounds
  next-Yields zero it es (finished e e') enough = absurd (omega arith)
  next-Yields zero it es (slot e ne rest) enough = absurd (omega arith)
  next-Yields zero it es (link ne loaded rest) enough = absurd (omega arith)
  next-Yields (suc fuel) it es (finished e e') enough =
      rw (==_eq _ _ e, ==_eq _ _ e', next) (ended (sought it) (finished e' (sought_again it e')))
  next-Yields (suc fuel) it es (slot e ne rest) enough =
      rw (==_eq _ _ e, ==_ne _ _ ne, next) (next-Yields fuel (sought it) es rest (omega arith))
  next-Yields (suc fuel) it es (link {entry} {es = es'} ne loaded rest) enough =
      elim (Option-cases (from_entry_block it.current_chain entry)) [
        | inl untyped ↦
            rw (==_ne _ _ ne, loaded, untyped, next)
              (skipped untyped (next-Yields fuel (stepped it entry) es' rest (omega arith)))
        | inr (d, typed) ↦
            rw (==_ne _ _ ne, loaded, typed, next)
              (item it.current_chain entry d (stepped it entry) es' typed rest)
      ]
