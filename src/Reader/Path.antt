-- ===== src/Reader/Path.antt =====
-- The search along the components of a path: src/reader.rs, `find_path`.
use affs_read.Prelude.{
  ℕ, zero, suc, ◌+◌, ◌-◌, ◌≤◌, ◌<◌, ◌≡◌, refl, sym, ap, ap₂, ◌∙◌, List, [], ◌∷◌, Option, none, some,
  inl, inr, arith, ltb, ◌==◌, length, take, drop, slice, length-drop, length-slice, drop-drop,
  take_all, Option-cases, Bool-cases, not-ltb, ltb→lt, if◌then◌else◌,
}
use affs_read.Error.{Result, ok, err, ok_or, entry_not_found}
use affs_read.Run.{Run, done, panic, out_of_fuel}
use affs_read.Types
use affs_read.Types.{
  BlockDevice, EntryType, root, dir, file, hard_link_file, hard_link_dir, soft_link,
}
use affs_read.Symlink.{Memchr}
use affs_read.Dir
use affs_read.Dir.{DirEntry}
use affs_read.Reader.{AffsReader, found_dir, find_entry, component_end, path_loop, find_path}
use affs_read.Reader.Components.{
  parts, nonempty, components, cut-found, cut-whole, nothing_behind, nonempty_name, empty_name,
  nonempty-ap,
}

-- What a search gave, and how it goes on with an entry.
found_then :
    (x : Run (Result DirEntry)) (k k' : DirEntry → Run (Result DirEntry))
    → ((entry : DirEntry) → k entry ≡ k' entry)
    → elim x as (λ t. Run (Result DirEntry)) [
      | out_of_fuel ↦ out_of_fuel
      | panic ↦ panic
      | done found ↦ elim found as (λ t. Run (Result DirEntry)) [
        | err e ↦ done (err e)
        | ok entry ↦ k entry
      ]
    ]
      ≡ elim x as (λ t. Run (Result DirEntry)) [
        | out_of_fuel ↦ out_of_fuel
        | panic ↦ panic
        | done found ↦ elim found as (λ t. Run (Result DirEntry)) [
          | err e ↦ done (err e)
          | ok entry ↦ k' entry
        ]
      ]
found_then out_of_fuel k k' same = refl
found_then panic k k' same = refl
found_then (done (err e)) k k' same = refl
found_then (done (ok entry)) k k' same = same entry

-- Where the next name is looked up behind an entry: at its block, for a directory or a link to one,
-- and else in the directory where the entry was found.
pub place : EntryType → ℕ → ℕ → ℕ
place root block current = block
place dir block current = block
place hard_link_dir block current = block
place file block current = current
place hard_link_file block current = current
place soft_link block current = current

is_dir-place :
    (t : EntryType) (block current : ℕ)
    → (if Types.is_dir t then block else current) ≡ place t block current
unfolding Types.is_dir place
is_dir-place root block current = refl
is_dir-place dir block current = refl
is_dir-place hard_link_dir block current = refl
is_dir-place file block current = refl
is_dir-place hard_link_file block current = refl
is_dir-place soft_link block current = refl

found_dir-place :
    (device : BlockDevice) (current : ℕ) (entry : DirEntry)
    → found_dir device current entry ≡ place entry.entry_type entry.block current
unfolding Dir.is_dir
found_dir-place device current entry = is_dir-place entry.entry_type entry.block current

run_elim :
    (x : Run (Result DirEntry))
    → elim x as (λ t. Run (Result DirEntry)) [
      | out_of_fuel ↦ out_of_fuel
      | panic ↦ panic
      | done found ↦ elim found as (λ t. Run (Result DirEntry)) [
        | err e ↦ done (err e)
        | ok entry ↦ done (ok entry)
      ]
    ]
      ≡ x
run_elim out_of_fuel = refl
run_elim panic = refl
run_elim (done (err e)) = refl
run_elim (done (ok entry)) = refl

module _ (device : BlockDevice) (m : Memchr) where
  -- The part of the path that begins at `start`, and the names behind it.
  record PartAt (path : List ℕ) (start : ℕ) : Type 0 where
    not_before : start ≤ component_end device m path start
    inside : component_end device m path start ≤ length path
    names :
        nonempty (parts (drop start path))
        ≡ nonempty (
            slice path start (component_end device m path start)
            ∷ parts (drop (component_end device m path start + 1) path))

  -- Where the component ends, from what the search for a slash gave.
  ends_behind :
      (path : List ℕ) (start i : ℕ)
      → m.memchr b'/' (drop start path) ≡ some i
      → component_end device m path start ≡ start + i
  unfolding component_end
  ends_behind path start i found = rw (found, component_end) refl

  ends_last :
      (path : List ℕ) (start : ℕ)
      → m.memchr b'/' (drop start path) ≡ none
      → component_end device m path start ≡ length path
  unfolding component_end
  ends_last path start none_found = rw (none_found, component_end) refl

  path-PartAt : (path : List ℕ) (start : ℕ) → start < length path → PartAt path start
  unfolding slice nonempty
  path-PartAt path start h = elim (Option-cases (m.memchr b'/' (drop start path))) [
    | inl none_found ↦
        let e = ends_last path start none_found in
        let whole = cut-whole (drop start path) (m.memchr-none b'/' (drop start path) none_found) in
        record {
          not_before = omega arith;
          inside = omega arith;
          names =
              ap (λ t. nonempty (t.0 ∷ t.1)) whole
              ∙ ap (λ t. nonempty (t ∷ []))
                  (sym (
                    take_all (component_end device m path start - start) (drop start path)
                      (omega (arith, length-drop start path))))
              ∙ nonempty-ap (slice path start (component_end device m path start)) []
                  (parts (drop (component_end device m path start + 1) path))
                  (sym (nothing_behind (component_end device m path start + 1) path (omega arith)));
        }
    | inr (i, found) ↦
        let e = ends_behind path start i found in
        let (inside, here, before) = m.memchr-some b'/' (drop start path) i found in
        record {
          not_before = omega arith;
          inside = omega (arith, length-drop start path);
          names =
              ap (λ t. nonempty (t.0 ∷ t.1)) (cut-found (drop start path) i inside here before)
              ∙ ap₂ (λ (n : ℕ) t. nonempty (take n (drop start path) ∷ parts t)) (omega arith)
                  (drop-drop (suc i) start (component_end device m path start + 1) path
                    (omega arith));
        }
  ]

  -- The search along the names, each in the place that the last one gave.
  pub follow : ℕ → AffsReader → List (List ℕ) → ℕ → Option DirEntry → Run (Result DirEntry)
  follow chain_fuel r [] current final_entry = done (ok_or final_entry entry_not_found)
  follow chain_fuel r (name ∷ names) current final_entry =
      elim (find_entry device chain_fuel r current name) [
        | out_of_fuel ↦ out_of_fuel
        | panic ↦ panic
        | done found ↦ elim found [
          | err e ↦ done (err e)
          | ok entry ↦
              follow chain_fuel r names (place entry.entry_type entry.block current) (some entry)
        ]
      ]

  module _ (chain_fuel : ℕ) (r : AffsReader) (path : List ℕ) where
    path_loop-eq-follow :
        (fuel start current : ℕ) (final_entry : Option DirEntry)
        → length path - start ≤ fuel
        → path_loop device m chain_fuel fuel r path start current final_entry
          ≡ follow chain_fuel r (nonempty (parts (drop start path))) current final_entry
    unfolding path_loop follow
    path_loop-eq-follow zero start current final_entry enough =
        rw (not-ltb start (length path) (omega arith), nothing_behind start path (omega arith)) refl
    path_loop-eq-follow (suc fuel) start current final_entry enough =
        elim (Bool-cases (ltb start (length path))) [
          | inr ended ↦ rw (ended, path_loop) (rw (nothing_behind start path (ground arith)) refl)
          | inl going ↦
              let part = path-PartAt path start (ltb→lt start (length path) going) in
              let end_ = component_end device m path start in
              let size = length-slice path start end_ part.not_before part.inside in
              rw (going, path_loop)
                (rw part.names (elim (Bool-cases (end_ == start)) [
                  | inl empty ↦
                      let short : length (slice path start end_) ≡ 0 = ground (arith, size) in
                      rw (empty, path_loop)
                        (path_loop-eq-follow fuel (end_ + 1) current final_entry
                            (omega (arith, part.not_before))
                          ∙ ap (λ t. follow chain_fuel r t current final_entry)
                              (sym (
                                empty_name (slice path start end_) (parts (drop (end_ + 1) path))
                                  short)))
                  | inr named ↦
                      let long : 0 < length (slice path start end_) =
                        ground (arith, size, part.not_before) in
                      rw (named, path_loop)
                        (rw
                          (nonempty_name (slice path start end_) (parts (drop (end_ + 1) path))
                            long)
                          (found_then
                            (find_entry device chain_fuel r current (slice path start end_)) _ _
                            (λ entry.
                              path_loop-eq-follow fuel (end_ + 1) (found_dir device current entry)
                                (some entry) (omega (arith, part.not_before))
                              ∙ ap
                                  (λ t.
                                    follow chain_fuel r (nonempty (parts (drop (end_ + 1) path))) t
                                      (some entry))
                                  (found_dir-place device current entry))))
                ]))
        ]

    -- The search for a path is the search along its components from the root block on, where a
    -- name behind a directory or a link to one is looked up at the block of that entry, and a name
    -- behind any other entry in the directory where that entry was found. The fuel that the loop is
    -- given here, a round for each byte, is enough.
    pub find_path-eq-follow :
        find_path device m chain_fuel r path
        ≡ follow chain_fuel r (components path) r.root_block none
    unfolding find_path components
    find_path-eq-follow = path_loop-eq-follow (length path) 0 r.root_block none (omega arith)

    -- Where a path has two components, and the first one names a file of the root directory, the
    -- search gives what the search for the second one in the root directory gives.
    pub find_path-past_file :
        (first second : List ℕ) (entry : DirEntry)
        → components path ≡ first ∷ second ∷ []
        → find_entry device chain_fuel r r.root_block first ≡ done (ok entry)
        → entry.entry_type ≡ file
        → find_path device m chain_fuel r path ≡ find_entry device chain_fuel r r.root_block second
    unfolding follow place
    find_path-past_file first second entry two found typed =
        find_path-eq-follow
        ∙ rw (two, follow)
            (rw (found, follow)
              (rw (typed, place, follow)
                (run_elim (find_entry device chain_fuel r r.root_block second))))
