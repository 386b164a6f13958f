-- ===== src/Dir/Listing.antt =====
-- What the calls of the iterator give, one after the other: src/dir.rs, `DirIter::next`.
use affs_read.Prelude.{
  ℕ, zero, suc, ◌+◌, ◌*◌, ◌≤◌, ◌≡◌, refl, ap, Bool, List, [], ◌∷◌, Option, none, some, arith,
  length,
}
use affs_read.Constants.{hash_table_size}
use affs_read.Error.{Result, ok}
use affs_read.Run.{Run, done}
use affs_read.Types.{BlockDevice}
use affs_read.Block.Entry.{EntryBlock}
use affs_read.Dir.{DirEntry, DirIter, from_entry_block, new, next}
use affs_read.Dir.Walk.{Ahead, Yields, next-Yields}
use affs_read.Dir.Stuck.{items, then_items}
use affs_read.Dir.Table.{IsTable, listing, new-Ahead, rounds_bound}

-- The entries of the blocks that have a type.
unfoldable pub typed : List (ℕ × EntryBlock) → List DirEntry
typed [] = []
typed ((block, entry) ∷ es) = elim (from_entry_block block entry) [
  | some d ↦ d ∷ typed es
  | none ↦ typed es
]

-- So many items of an iteration over entries, which ends and stays at its end.
unfoldable pub iterated : ℕ → List DirEntry → List (Option (Result DirEntry))
iterated zero ds = []
iterated (suc count) [] = none ∷ iterated count []
iterated (suc count) (d ∷ ds) = some (ok d) ∷ iterated count ds

module _ (device : BlockDevice) where
  -- What a call gives of the blocks ahead, and what it leaves.
  data Given : List (ℕ × EntryBlock) → Run (Option (Result DirEntry) × DirIter) → Type 0 where
    given :
        {es : List (ℕ × EntryBlock)} (item : Option (Result DirEntry)) (it' : DirIter)
        (es' : List (ℕ × EntryBlock))
        → Ahead device it' es'
        → length es' ≤ length es
        → ((count : ℕ) → iterated (suc count) (typed es) ≡ item ∷ iterated count (typed es'))
        → Given es (done (item, it'))

  Given-skipped :
      {block : ℕ} {entry : EntryBlock} {es : List (ℕ × EntryBlock)}
      {x : Run (Option (Result DirEntry) × DirIter)}
      → from_entry_block block entry ≡ none
      → Given es x
      → Given ((block, entry) ∷ es) x
  unfolding typed iterated
  Given-skipped untyped (given item it' es' ahead fewer eq) =
      given item it' es' ahead (omega arith) (λ count. rw (untyped, typed) (eq count))

  Yields-Given :
      {es : List (ℕ × EntryBlock)} {x : Run (Option (Result DirEntry) × DirIter)}
      → Yields device es x
      → Given es x
  unfolding typed iterated
  Yields-Given (Yields.item block entry d it' es is_typed ahead) =
      given (some (ok d)) it' es ahead (omega arith) (λ count. rw (is_typed, typed) refl)
  Yields-Given (Yields.skipped untyped rest) = Given-skipped untyped (Yields-Given rest)
  Yields-Given (Yields.ended it' ahead) = given none it' [] ahead (omega arith) (λ count. refl)

  items-Given :
      (fuel count : ℕ) (it : DirIter) {es : List (ℕ × EntryBlock)}
      {x : Run (Option (Result DirEntry) × DirIter)}
      → ((it' : DirIter) (es' : List (ℕ × EntryBlock))
          → Ahead device it' es'
          → length es' ≤ length es
          → items device fuel count it' ≡ done (iterated count (typed es')))
      → next device fuel it ≡ x
      → Given es x
      → items device fuel (suc count) it ≡ done (iterated (suc count) (typed es))
  unfolding items
  items-Given fuel count it behind call (given item it' es' ahead fewer eq) =
      rw (eq count, call, items) (ap (then_items item) (behind it' es' ahead fewer))

  -- Calls of the iterator, one after the other, give the entries of the blocks ahead that have a
  -- type, in their order, and `none` in each call behind the last.
  items-iterated :
      (fuel count : ℕ) (it : DirIter) (es : List (ℕ × EntryBlock))
      → Ahead device it es
      → 2 * length es + 1 ≤ fuel
      → items device fuel count it ≡ done (iterated count (typed es))
  unfolding items iterated
  items-iterated fuel zero it es ahead enough = refl
  items-iterated fuel (suc count) it es ahead enough =
      let bound = rounds_bound device ahead in
      let step = Yields-Given (next-Yields device fuel it es ahead (omega arith)) in
      let behind =
        λ (it' : DirIter) (es' : List (ℕ × EntryBlock)) (ahead' : Ahead device it' es')
            (fewer : length es' ≤ length es).
          items-iterated fuel count it' es' ahead' (omega arith) in
      items-Given fuel count it behind refl step

  -- Where each slot of a table heads a chain of blocks that load, and that ends, the calls of a new
  -- iterator over the table, each with fuel for two rounds for a block and one more, give the
  -- entries of the blocks that have a type, in the order of the slots and of the blocks in a chain,
  -- and then `none`, in each of any number of calls.
  pub items-listing :
      (fuel count : ℕ) (table : List ℕ) (intl : Bool) (chains : ℕ → List (ℕ × EntryBlock))
      → IsTable device table chains
      → 2 * length (listing chains 0 hash_table_size) + 1 ≤ fuel
      → items device fuel count (new table intl)
        ≡ done (iterated count (typed (listing chains 0 hash_table_size)))
  items-listing fuel count table intl chains is_table enough =
      items-iterated fuel count (new table intl) (listing chains 0 hash_table_size)
        (new-Ahead device table intl chains is_table) enough
