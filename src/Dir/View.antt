-- ===== src/Dir/View.antt =====
-- What a directory is for a search: names and entries, in no order. src/dir.rs, `DirIter::find`.
use affs_read.Prelude.{
  ℕ, ◌≤◌, ◌≡◌, refl, sym, ap, ap₂, ◌∙◌, Bool, true, false, List, [], ◌∷◌, Option, map, length, inl,
  inr, Bool-cases, if◌then◌else◌, arith,
}
use mathlib.Core.Logic.{∥∥₁_elim}
use mathlib.Core.Bool.{Bool-set}
use mathlib.Core.List.{mem-cons_self, Pairwise, Perm, Permᴰ}
use mathlib.Core.List.Permᴰ
use affs_read.Constants.{hash_table_size, max_name_len}
use affs_read.Error.{Result, err, ok_or, entry_not_found, invalid_sec_type}
use affs_read.Run.{done}
use affs_read.Types.{BlockDevice}
use affs_read.Block.Entry.{EntryBlock, name_bytes}
use affs_read.Block.Names.{hash_name, names_equal}
use affs_read.Block.Names.Laws.{names_equal-capitals}
use affs_read.Dir.{DirEntry, from_entry_block, new, find}
use affs_read.Dir.Find.{first_named}
use affs_read.Dir.Table.{IsTable, listing}
use affs_read.Dir.Lookup.{IsHashed, find-listing}

-- A name, and its entry where the block has a type.
abbrev pub Named : Type 0
Named = List ℕ × Option DirEntry

abbrev pub view : List (ℕ × EntryBlock) → List Named
view = map (λ (b, e). (name_bytes e, from_entry_block b e))

found-set : IsSet (Result DirEntry)
found-set = hlevel

module _ (intl : Bool) where
  -- Names that the file system tells apart.
  abbrev pub Differ : Named → Named → Type 0
  Differ x y = names_equal x.0 y.0 intl ≡ false

  pub Differ-prop : (x y : Named) → IsProp (Differ x y)
  Differ-prop x y = Bool-set _ _

  not_same : (x y : Named) → Differ x y → ¬ (names_equal x.0 y.0 intl ≡ true)
  not_same x y differ same = ground arith

  Differ-symm : (x y : Named) → Differ x y → Differ y x
  Differ-symm x y differ = elim (Bool-cases (names_equal y.0 x.0 intl)) [
    | inr away ↦ away
    | inl same ↦ absurd (
        not_same x y differ (
          (names_equal-capitals x.0 y.0 intl).1 (sym ((names_equal-capitals y.0 x.0 intl).0 same))))
  ]

  module _ (name : List ℕ) where
    -- One name looked at, before the others.
    abbrev looked : Named → Result DirEntry → Result DirEntry
    looked x behind = if names_equal x.0 name intl then ok_or x.1 invalid_sec_type else behind

    search : List Named → Result DirEntry
    search [] = err entry_not_found
    search (x ∷ xs) = looked x (search xs)

    first_named-search : (es : List (ℕ × EntryBlock)) → first_named intl name es ≡ search (view es)
    unfolding first_named search
    first_named-search [] = refl
    first_named-search ((block, entry) ∷ es) =
        ap (looked (name_bytes entry, from_entry_block block entry)) (first_named-search es)

    -- Names that differ may be looked at in either order.
    looked_swap :
        (x y : Named) (behind : Result DirEntry)
        → Differ x y
        → looked x (looked y behind) ≡ looked y (looked x behind)
    looked_swap x y behind differ = elim (Bool-cases (names_equal x.0 name intl)) [
      | inr other ↦ rw other refl
      | inl here ↦ elim (Bool-cases (names_equal y.0 name intl)) [
        | inr away ↦ rw (here, away) refl
        | inl both ↦ absurd (
            not_same x y differ (
              (names_equal-capitals x.0 y.0 intl).1 (
                (names_equal-capitals x.0 name intl).0 here
                ∙ sym ((names_equal-capitals y.0 name intl).0 both))))
      ]
    ]

    search_perm : {xs ys : List Named} → Permᴰ xs ys → Pairwise Differ xs → search xs ≡ search ys
    unfolding search
    search_perm Permᴰ.nil differ = refl
    search_perm (Permᴰ.cons e d) (Pairwise.cons others differ) = ap₂ looked e (search_perm d differ)
    search_perm (Permᴰ.swap {a} {b} {l = l} e f) (Pairwise.cons others differ) =
        looked_swap a b (search l) (others b mem-cons_self)
        ∙ ap₂ (λ (p q : Named). looked p (looked q (search l))) f e
    search_perm (Permᴰ.trans d d') differ =
        search_perm d differ ∙ search_perm d' (Permᴰ.pairwise Differ-prop Differ-symm d differ)

module _ (device device' : BlockDevice) where
  -- In two directories, on the same or on different devices, whose tables head chains of blocks that
  -- load, and that end, hashed by their names, with the same names and entries in any order and in
  -- any chains, no two names being equal for the file system: the search for a name of at most 30
  -- bytes gives the same in both, each with a round for each block of the chain of the name's hash.
  pub find-Perm :
      (fuel fuel' : ℕ) (table table' : List ℕ) (intl : Bool) (name : List ℕ)
      (chains chains' : ℕ → List (ℕ × EntryBlock))
      → IsTable device table chains
      → IsTable device' table' chains'
      → IsHashed intl chains
      → IsHashed intl chains'
      → Perm (view (listing chains 0 hash_table_size)) (view (listing chains' 0 hash_table_size))
      → Pairwise (Differ intl) (view (listing chains 0 hash_table_size))
      → length name ≤ max_name_len
      → length (chains (hash_name name intl)) ≤ fuel
      → length (chains' (hash_name name intl)) ≤ fuel'
      → find device fuel (new table intl) name ≡ find device' fuel' (new table' intl) name
  find-Perm fuel fuel' table table' intl name chains chains' is_table is_table' hashed hashed' perm
        differ short enough enough' =
      let es = listing chains 0 hash_table_size in
      let es' = listing chains' 0 hash_table_size in
      let same : search intl name (view es) ≡ search intl name (view es') =
        ∥∥₁_elim perm (found-set _ _) (λ d. search_perm intl name d differ) in
      find-listing device fuel table intl name chains is_table hashed short enough
      ∙ ap (λ (r : Result DirEntry). done r)
          (first_named-search intl name es ∙ same ∙ sym (first_named-search intl name es'))
      ∙ sym (find-listing device' fuel' table' intl name chains' is_table' hashed' short enough')
