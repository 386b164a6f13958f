-- ===== src/Reader/Contents.antt =====
-- From a name in a directory to the bytes of the file: src/reader.rs, `find_entry` and `read_file`,
-- with `read_all` of src/file.rs.
use affs_read.Prelude.{
  ℕ, ◌*◌, ◌≤◌, ◌≡◌, refl, sym, ap, ◌∙◌, Bool, true, false, List, ◌∷◌, ◌++◌, some, All, arith,
  length, take, drop, take_all, as_u32,
}
use mathlib.Core.Path.{subst}
use affs_read.Constants.{hash_table_size, max_name_len}
use affs_read.Error.{Result, ok}
use affs_read.Run.{done}
use affs_read.Types.{BlockDevice, FsType, ofs, ffs}
use affs_read.Block.Entry
use affs_read.Block.Entry.{EntryBlock, name_bytes}
use affs_read.Block.Names.{hash_name, names_equal}
use affs_read.Dir
use affs_read.Dir.{DirEntry, from_entry_block}
use affs_read.Dir.Ranges.{entry_kind}
use affs_read.Dir.Table.{IsTable, listing}
use affs_read.Dir.Lookup.{IsHashed, find-listed}
use affs_read.File
use affs_read.File.{FileReader, position}
use affs_read.File.Fetch.{Stored}
use affs_read.File.Listed.{Listed, contents}
use affs_read.File.Linked.{Linked, payloads}
use affs_read.File.Holds.{Holds}
use affs_read.File.Entire.{ReadsAll, too_small, all_read, read_all-ReadsAll, remaining-position}
use affs_read.File.Whole.{Outcome, read_all}
use affs_read.File.Starts.{Starts, starts, new_ffs-Starts, new_ofs-Starts}
use affs_read.Reader.{AffsReader, fs_type, read_dir, find_entry, read_file}

-- The header of a file leads to these bytes: under FFS by the tables, under OFS by the chain of its
-- data blocks.
pub data IsFileOf (device : BlockDevice) (blocks : ℕ → List ℕ) (entry : EntryBlock)
    : FsType → List ℕ → Type 0 where
  by_tables :
      (ps : List ℕ)
      → Listed device blocks entry.hash_table (as_u32 entry.high_seq) 0 entry.extension ps
      → entry.byte_size ≤ length ps * 512
      → IsFileOf device blocks entry ffs (take entry.byte_size (contents blocks ps))
  by_chain :
      (ps : List ℕ)
      → Linked device blocks entry.first_data ps
      → entry.byte_size ≤ length (payloads blocks ps)
      → IsFileOf device blocks entry ofs (take entry.byte_size (payloads blocks ps))

-- All of a file's bytes came out.
pub data GivesAll (bytes : List ℕ) : Outcome ℕ → Type 0 where
  gives_all : (r : FileReader) → GivesAll bytes (done (ok (length bytes), r, bytes))

module _ (device : BlockDevice) where
  -- A directory has a table of chains, hashed by the names, in which the entry is the first of its name.
  pub record IsFirst (r : AffsReader) (dir_block block : ℕ) (entry : EntryBlock) : Type 0 where
    pub table : List ℕ
    pub intl : Bool
    pub chains : ℕ → List (ℕ × EntryBlock)
    pub before : List (ℕ × EntryBlock)
    pub rest : List (ℕ × EntryBlock)
    pub opened : read_dir device r dir_block ≡ ok (Dir.new table intl)
    pub is_table : IsTable device table chains
    pub hashed : IsHashed intl chains
    pub here : listing chains 0 hash_table_size ≡ before ++ ((block, entry) ∷ rest)
    pub others : All (λ (b, e). names_equal (name_bytes e) (name_bytes entry) intl ≡ false) before
    pub short : length (name_bytes entry) ≤ max_name_len

  find_entry-IsFirst :
      (fuel : ℕ) (r : AffsReader) (dir_block block : ℕ) (entry : EntryBlock) (d : DirEntry)
      (h : IsFirst r dir_block block entry)
      → from_entry_block block entry ≡ some d
      → length (h.chains (hash_name (name_bytes entry) h.intl)) ≤ fuel
      → find_entry device fuel r dir_block (name_bytes entry) ≡ done (ok d)
  unfolding find_entry
  find_entry-IsFirst fuel r dir_block block entry d h typed enough =
      rw (h.opened, find_entry)
        (find-listed device fuel h.table h.intl h.chains h.before block entry h.rest d h.is_table
          h.hashed h.here h.others typed h.short enough)

  Starts-IsFileOf :
      (blocks : ℕ → List ℕ) (n : ℕ) (entry : EntryBlock) {type : FsType} {bytes : List ℕ}
      → IsFileOf device blocks entry type bytes
      → Stored device n (blocks n)
      → Entry.parse (blocks n) ≡ ok entry
      → Entry.is_file entry ≡ true
      → Starts device bytes (File.new device type n)
  Starts-IsFileOf blocks n entry (by_tables ps table enough) stored parsed file =
      (new_ffs-Starts device blocks n entry ps stored parsed file table enough).0
  Starts-IsFileOf blocks n entry (by_chain ps chain enough) stored parsed file =
      (new_ofs-Starts device blocks n entry ps stored parsed file chain enough).0

  -- From the start of a file, `read_all` into a buffer of the size of the file gives its bytes.
  read_all-GivesAll :
      (r : FileReader) (out bytes : List ℕ)
      → position r ≡ 0
      → Holds device r bytes
      → length out ≡ length bytes
      → {x : Outcome ℕ} → ReadsAll device r out bytes x
      → GivesAll bytes x
  read_all-GivesAll r out bytes start h room (too_small small) =
      let left = remaining-position device r bytes h in absurd (omega (arith, h.size))
  read_all-GivesAll r out bytes start h room (all_read n r' out' count kept given moved h') =
      let left = remaining-position device r bytes h in
      let whole : n ≡ length bytes = omega (arith, h.size) in
      let same : out' ≡ bytes =
        sym (take_all n out' (omega arith)) ∙ given ∙ ap (λ (k : ℕ). drop k bytes) start in
      subst (λ (k : ℕ). GivesAll bytes (done (ok k, r', out'))) (sym whole)
        (subst (λ (o : List ℕ). GivesAll bytes (done (ok (length bytes), r', o))) (sym same)
          (gives_all r'))

  -- The constructor gave a reader, at the start of the file.
  record Opens (bytes : List ℕ) (x : Result FileReader) : Type 0 where
    reader : FileReader
    opened : x ≡ ok reader
    start : position reader ≡ 0
    holds : Holds device reader bytes

  Starts-Opens : {bytes : List ℕ} {x : Result FileReader} → Starts device bytes x → Opens bytes x
  Starts-Opens (starts r start h) = record { reader = r; opened = refl; start = start; holds = h }

  -- In a directory whose table heads chains of blocks that load, and that end, hashed by their names,
  -- for a file's entry that is the first of its name, of at most 30 bytes, where the device always
  -- reads its header as the same bytes, which parse, and the header leads to the bytes of the file:
  -- the search for the name gives the entry, with the number of the header; `read_file` of this block
  -- gives a reader; and `read_all` of it, into a buffer of the size of the file, gives all its bytes.
  pub find_entry-GivesAll :
      (blocks : ℕ → List ℕ) (fuel : ℕ) (r : AffsReader) (dir_block block : ℕ) (entry : EntryBlock)
      (d : DirEntry) (bytes out : List ℕ) (first : IsFirst r dir_block block entry)
      → from_entry_block block entry ≡ some d
      → length (first.chains (hash_name (name_bytes entry) first.intl)) ≤ fuel
      → Stored device block (blocks block)
      → Entry.parse (blocks block) ≡ ok entry
      → Entry.is_file entry ≡ true
      → IsFileOf device blocks entry (fs_type r) bytes
      → length out ≡ length bytes
      → (find_entry device fuel r dir_block (name_bytes entry) ≡ done (ok d))
        × ((reader : FileReader) × (read_file device r d.block ≡ ok reader)
            × GivesAll bytes (read_all device reader out))
  unfolding read_file
  find_entry-GivesAll blocks fuel r dir_block block entry d bytes out first typed enough stored
        parsed file of_file room =
      let opens = Starts-Opens (Starts-IsFileOf blocks block entry of_file stored parsed file) in
      let number = ap (λ (e : DirEntry). e.block) (entry_kind block entry d typed).1 in
      (
        find_entry-IsFirst fuel r dir_block block entry d first typed enough,
        (
          opens.reader,
          ap (File.new device (fs_type r)) (sym number) ∙ opens.opened,
          read_all-GivesAll opens.reader out bytes opens.start opens.holds room
              (read_all-ReadsAll device opens.reader out bytes opens.holds),
        ),
      )
