-- ===== src/Dir/Stuck.antt =====
-- The iterator at a block that cannot be read or parsed: src/dir.rs, `DirIter::next`.
use affs_read.Prelude.{
  ℕ, zero, suc, ◌≡◌, ◌≢◌, refl, ap, List, [], ◌∷◌, Option, some, replicate, ==_ne,
}
use affs_read.Error.{AffsError, Result, err}
use affs_read.Run.{Run, done, panic, out_of_fuel}
use affs_read.Types.{BlockDevice}
use affs_read.Dir.{DirEntry, DirIter, load_entry, next}

-- An item put before the items of the calls behind it.
abbrev pub then_items :
    Option (Result DirEntry)
    → Run (List (Option (Result DirEntry)))
    → Run (List (Option (Result DirEntry)))
then_items item (done items) = done (item ∷ items)
then_items item panic = panic
then_items item out_of_fuel = out_of_fuel

module _ (device : BlockDevice) where
  -- The items of `count` calls of `next`, one after the other.
  unfoldable pub items : ℕ → ℕ → DirIter → Run (List (Option (Result DirEntry)))
  items fuel zero it = done []
  items fuel (suc count) it = elim (next device fuel it) [
    | out_of_fuel ↦ out_of_fuel
    | panic ↦ panic
    | done (item, it') ↦ then_items item (items fuel count it')
  ]

  pub next-fails :
      (fuel : ℕ) (it : DirIter) (e : AffsError)
      → it.current_chain ≢ 0
      → (load_entry device it.current_chain it.buf).1 ≡ err e
      → next device (suc fuel) it
        ≡ done (some (err e), record it { buf = (load_entry device it.current_chain it.buf).0 })
  unfolding next
  next-fails fuel it e chained failed = rw (==_ne _ _ chained, next) (rw failed refl)

  -- Where the iterator has come to a block that always gives an error, every call from then on
  -- gives this error: the iteration neither ends nor goes on to another block.
  pub next-repeats :
      (fuel count : ℕ) (it : DirIter) (e : AffsError)
      → it.current_chain ≢ 0
      → ((buf : List ℕ) → (load_entry device it.current_chain buf).1 ≡ err e)
      → items (suc fuel) count it ≡ done (replicate count (some (err e)))
  unfolding items
  next-repeats fuel zero it e chained fails = refl
  next-repeats fuel (suc count) it e chained fails =
      let it' = record it { buf = (load_entry device it.current_chain it.buf).0 } in
      rw (next-fails fuel it e chained (fails it.buf), items)
        (ap (then_items (some (err e))) (next-repeats fuel count it' e chained fails))
