-- ===== src/Dir/Find.antt =====
-- The search for a name walks the chain of its hash, and gives the first entry of that name.
-- src/dir.rs, `DirIter::find`.
use affs_read.Prelude.{
  ℕ, zero, suc, ◌≤◌, ◌≡◌, ◌≢◌, Bool, false, List, [], ◌∷◌, arith, length, get_or, Bool-cases, ==_ne,
  not-ltb, if◌then◌else◌, inl, inr,
}
use affs_read.Constants.{max_name_len}
use affs_read.Error.{Result, ok, err, ok_or, entry_not_found, invalid_sec_type}
use affs_read.Run.{done, out_of_fuel}
use affs_read.Types.{BlockDevice}
use affs_read.Block.Entry.{EntryBlock, name_bytes}
use affs_read.Block.Names.{hash_name, names_equal}
use affs_read.Dir.{DirEntry, DirIter, from_entry_block, load_entry, find_loop, find}

module _ (device : BlockDevice) where
  -- The entry blocks of a hash chain, with their block numbers, as they are read one after the
  -- other into the buffer, from a block number to the 0 that ends the chain.
  pub data Chain : ℕ → List ℕ → List (ℕ × EntryBlock) → Type 0 where
    stop : {block : ℕ} {buf : List ℕ} → block ≡ 0 → Chain block buf []
    link :
        {block : ℕ} {buf : List ℕ} {entry : EntryBlock} {rest : List (ℕ × EntryBlock)}
        → block ≢ 0
        → (load_entry device block buf).1 ≡ ok entry
        → Chain entry.next_same_hash (load_entry device block buf).0 rest
        → Chain block buf ((block, entry) ∷ rest)

-- What a search over the entries of a chain is to give.
unfoldable pub first_named : Bool → List ℕ → List (ℕ × EntryBlock) → Result DirEntry
first_named intl name [] = err entry_not_found
first_named intl name ((block, entry) ∷ rest) =
    if names_equal (name_bytes entry) name intl
    then ok_or (from_entry_block block entry) invalid_sec_type
    else first_named intl name rest

module _ (device : BlockDevice) where
  find_loop-first_named :
      (intl : Bool) (name : List ℕ) (fuel : ℕ) {block : ℕ} {buf : List ℕ}
      {es : List (ℕ × EntryBlock)}
      → Chain device block buf es
      → length es ≤ fuel
      → find_loop device intl name fuel block buf ≡ done (first_named intl name es)
  unfolding find_loop first_named
  find_loop-first_named intl name zero (stop e) enough = rw e
  find_loop-first_named intl name (suc fuel) (stop e) enough = rw e
  find_loop-first_named intl name zero (link ne loaded rest) enough = absurd (omega arith)
  find_loop-first_named intl name (suc fuel) {block} (link {entry} ne loaded rest) enough =
      let tail = find_loop-first_named intl name fuel rest (omega arith) in
      elim (Bool-cases (names_equal (name_bytes entry) name intl)) [
        | inl found ↦ rw (==_ne block 0 ne, loaded, found, find_loop)
        | inr other ↦ rw (==_ne block 0 ne, loaded, other, find_loop) tail
      ]

  -- For a name of at most 30 bytes, and a chain that begins at the slot of the name's hash, ends,
  -- and has only blocks that load, `find`
  -- ends with as many rounds as the chain has blocks, and gives the first entry of the chain whose
  -- name is equal to the name, or `invalid_sec_type` if that has no type, or `entry_not_found` if
  -- no name of the chain is.
  pub find-first_named :
      (it : DirIter) (name : List ℕ) (es : List (ℕ × EntryBlock)) (fuel : ℕ)
      → length name ≤ max_name_len
      → Chain device (get_or it.hash_table (hash_name name it.intl) 0) it.buf es
      → length es ≤ fuel
      → find device fuel it name ≡ done (first_named it.intl name es)
  unfolding find
  find-first_named it name es fuel short chain enough =
      rw (not-ltb max_name_len (length name) short)
        (find_loop-first_named it.intl name fuel chain enough)

  -- Where a block's entry of another name says that it is followed by itself, and the device reads
  -- it so each time, the search at it takes any number of rounds.
  pub find_loop_endless :
      (intl : Bool) (name : List ℕ) (block : ℕ) (entry : EntryBlock)
      → block ≢ 0
      → ((buf : List ℕ) → (load_entry device block buf).1 ≡ ok entry)
      → entry.next_same_hash ≡ block
      → names_equal (name_bytes entry) name intl ≡ false
      → (fuel : ℕ) (buf : List ℕ) → find_loop device intl name fuel block buf ≡ out_of_fuel
  unfolding find_loop
  find_loop_endless intl name block entry ne loads self other zero buf =
      rw (==_ne block 0 ne, find_loop)
  find_loop_endless intl name block entry ne loads self other (suc fuel) buf =
      rw (==_ne block 0 ne, loads buf, other, self, find_loop)
        (find_loop_endless intl name block entry ne loads self other fuel _)
