-- ===== src/Dir/Lookup.antt =====
-- The search by hash against a search of all entries: src/dir.rs, `DirIter::find`.
use affs_read.Prelude.{
  Option, some, ℕ, zero, suc, ◌+◌, ◌≤◌, ◌<◌, ◌≡◌, ◌≢◌, refl, ap, sym, ◌∙◌, Bool, false, List, [],
  ◌∷◌, ◌++◌, arith, length, inl, inr, All, eq_or, Bool-cases,
}
use affs_read.Constants.{hash_table_size, max_name_len}
use affs_read.Error.{ok, ok_or, invalid_sec_type, err, entry_not_found}
use affs_read.Run.{done}
use affs_read.Types.{BlockDevice}
use affs_read.Block.Entry.{EntryBlock, name_bytes}
use affs_read.Block.Names.{hash_name, names_equal}
use affs_read.Block.Names.Laws.{hash_name-names_equal, names_equal-capitals}
use affs_read.Dir.{DirEntry, from_entry_block, new, find, zero_block}
use affs_read.Dir.Find.{first_named, find-first_named}
use affs_read.Dir.Table.{IsTable, listing}

module _ (intl : Bool) where
  -- The name of a block hashes to a slot.
  abbrev pub Hashes : ℕ → ℕ × EntryBlock → Type 0
  Hashes slot (block, entry) = hash_name (name_bytes entry) intl ≡ slot

  -- Each chain has only names of the hash of its slot.
  abbrev pub IsHashed : (ℕ → List (ℕ × EntryBlock)) → Type 0
  IsHashed chains = (slot : ℕ) → slot < hash_table_size → All (Hashes slot) (chains slot)

  module _ (name : List ℕ) where
    other_name :
        (entry : EntryBlock)
        → hash_name (name_bytes entry) intl ≢ hash_name name intl
        → names_equal (name_bytes entry) name intl ≡ false
    other_name entry ne = elim (Bool-cases (names_equal (name_bytes entry) name intl)) [
      | inl equal ↦ absurd (ne (hash_name-names_equal (name_bytes entry) name intl equal).0)
      | inr differs ↦ differs
    ]

    -- A search passes over the chain of another slot.
    first_named_skip :
        (slot : ℕ) (es rest : List (ℕ × EntryBlock))
        → slot ≢ hash_name name intl
        → All (Hashes slot) es
        → first_named intl name (es ++ rest) ≡ first_named intl name rest
    unfolding first_named
    first_named_skip slot [] rest ne hashed = refl
    first_named_skip slot ((block, entry) ∷ es) rest ne hashed =
        let differs = other_name entry (λ e. ne (sym hashed.0 ∙ e)) in
        rw (differs, first_named) (first_named_skip slot es rest ne hashed.1)

    first_named-append :
        (es rest : List (ℕ × EntryBlock))
        → first_named intl name rest ≡ err entry_not_found
        → first_named intl name (es ++ rest) ≡ first_named intl name es
    unfolding first_named
    first_named-append [] rest nothing = nothing
    first_named-append ((block, entry) ∷ es) rest nothing =
        elim (Bool-cases (names_equal (name_bytes entry) name intl)) [
          | inl equal ↦ rw (equal, first_named) refl
          | inr differs ↦ rw (differs, first_named) (first_named-append es rest nothing)
        ]

    module _ (chains : ℕ → List (ℕ × EntryBlock)) (hashed : IsHashed chains) where
      -- Behind the slot of its hash a name is not found.
      first_named_behind :
          (left slot : ℕ)
          → slot + left ≡ hash_table_size
          → hash_name name intl < slot
          → first_named intl name (listing chains slot left) ≡ err entry_not_found
      unfolding listing first_named
      first_named_behind zero slot total behind = refl
      first_named_behind (suc left) slot total behind =
          first_named_skip slot (chains slot) (listing chains (slot + 1) left)
            (λ e. absurd (omega arith)) (hashed slot (omega arith))
          ∙ first_named_behind left (slot + 1) (omega arith) (omega arith)

      first_named-listing :
          (left slot : ℕ)
          → slot + left ≡ hash_table_size
          → slot ≤ hash_name name intl
          → hash_name name intl < hash_table_size
          → first_named intl name (listing chains slot left)
            ≡ first_named intl name (chains (hash_name name intl))
      unfolding listing
      first_named-listing zero slot total before inside = absurd (omega arith)
      first_named-listing (suc left) slot total before inside =
          let behind = listing chains (slot + 1) left in
          elim (eq_or slot (hash_name name intl)) [
            | inl here ↦
                first_named-append (chains slot) behind
                  (first_named_behind left (slot + 1) (omega arith) (omega arith))
                ∙ ap (λ (n : ℕ). first_named intl name (chains n)) here
            | inr other ↦
                first_named_skip slot (chains slot) behind other (hashed slot (omega arith))
                ∙ first_named-listing left (slot + 1) (omega arith) (omega arith) inside
          ]

-- A search gives the first entry of its own name.
pub first_named_own :
    (intl : Bool) (before : List (ℕ × EntryBlock)) (block : ℕ) (entry : EntryBlock)
    (rest : List (ℕ × EntryBlock))
    → All (λ (b, e). names_equal (name_bytes e) (name_bytes entry) intl ≡ false) before
    → first_named intl (name_bytes entry) (before ++ ((block, entry) ∷ rest))
      ≡ ok_or (from_entry_block block entry) invalid_sec_type
unfolding first_named
first_named_own intl [] block entry rest others =
    let itself = (names_equal-capitals (name_bytes entry) (name_bytes entry) intl).1 refl in
    rw (itself, first_named) refl
first_named_own intl ((b, e) ∷ before) block entry rest others =
    rw (others.0, first_named) (first_named_own intl before block entry rest others.1)

module _ (device : BlockDevice) where
  -- Where each slot of a table heads a chain of blocks that load, and that ends, and the names of a chain hash to its slot, the search for a name of at most 30 bytes in a new iterator, with a round for each block of the chain of the name's hash, gives what a search of the listing of all chains gives.
  pub find-listing :
      (fuel : ℕ) (table : List ℕ) (intl : Bool) (name : List ℕ) (chains : ℕ → List (ℕ × EntryBlock))
      → IsTable device table chains
      → IsHashed intl chains
      → length name ≤ max_name_len
      → length (chains (hash_name name intl)) ≤ fuel
      → find device fuel (new table intl) name
        ≡ done (first_named intl name (listing chains 0 hash_table_size))
  unfolding new
  find-listing fuel table intl name chains is_table hashed short enough =
      let slot = hash_name name intl in
      let itself = (names_equal-capitals name name intl).1 refl in
      let inside = (hash_name-names_equal name name intl itself).1 in
      let one_chain =
        find-first_named device (new table intl) name (chains slot) fuel short
          (is_table.chain slot inside zero_block) enough in
      let all_chains =
        first_named-listing intl name chains hashed hash_table_size 0 refl (omega arith) inside in
      one_chain ∙ ap (λ r. done r) (sym all_chains)

  -- In such a table, the search for the name of a listed entry, of at most 30 bytes, that is not the
  -- name of an entry listed before it, gives that entry.
  pub find-listed :
      (fuel : ℕ) (table : List ℕ) (intl : Bool) (chains : ℕ → List (ℕ × EntryBlock))
      (before : List (ℕ × EntryBlock)) (block : ℕ) (entry : EntryBlock)
      (rest : List (ℕ × EntryBlock)) (d : DirEntry)
      → IsTable device table chains
      → IsHashed intl chains
      → listing chains 0 hash_table_size ≡ before ++ ((block, entry) ∷ rest)
      → All (λ (b, e). names_equal (name_bytes e) (name_bytes entry) intl ≡ false) before
      → from_entry_block block entry ≡ some d
      → length (name_bytes entry) ≤ max_name_len
      → length (chains (hash_name (name_bytes entry) intl)) ≤ fuel
      → find device fuel (new table intl) (name_bytes entry) ≡ done (ok d)
  find-listed fuel table intl chains before block entry rest d is_table hashed here others typed
        short enough =
      find-listing fuel table intl (name_bytes entry) chains is_table hashed short enough
      ∙ ap (λ es. done (first_named intl (name_bytes entry) es)) here
      ∙ ap (λ x. done x) (first_named_own intl before block entry rest others)
      ∙ ap (λ (o : Option DirEntry). done (ok_or o invalid_sec_type)) typed
