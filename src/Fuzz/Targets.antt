-- ===== src/Fuzz/Targets.antt =====
-- The targets that call one layer each: fuzz/fuzz_targets/fuzz_blocks.rs, fuzz_checksum.rs and
-- fuzz_names.rs. A target gives here the results that it drops.
use affs_read.Prelude.{
  ℕ, ◌/◌, ◌<◌, ◌≡◌, refl, ap₂, Bool, true, false, List, [], ◌∷◌, Option, some, none, map, arith,
  length, take, drop, leb, ◌==◌, if◌then◌else◌, All, All-take, length-take, leb→le,
}
use mathlib.Core.Path.{subst}
use affs_read.Constants.{hash_table_size}
use affs_read.Error.{Result, ok}
use affs_read.Types.{IsBytes}
use affs_read.Checksum.{normal_sum, boot_sum, bitmap_sum}
use affs_read.Block.Boot
use affs_read.Block.Boot.{BootBlock}
use affs_read.Block.Root
use affs_read.Block.Root.{RootBlock}
use affs_read.Block.Entry
use affs_read.Block.Entry.{EntryBlock}
use affs_read.Block.FileExt
use affs_read.Block.FileExt.{FileExtBlock}
use affs_read.Block.OfsData
use affs_read.Block.OfsData.{OfsDataBlock}
use affs_read.Block.Names.{hash_name, names_equal}
use affs_read.Block.Names.Laws.{names_equal-capitals, hash_name-names_equal}
use affs_read.Block.Parsed.{
  IsEntryBlock, IsRootBlock, IsFileExtBlock, IsOfsDataBlock, parse-InRange,
}

pub record ParsedBlocks : Type 0 where
  pub root : Result RootBlock
  pub entry : Result EntryBlock
  pub file_ext : Result FileExtBlock
  pub ofs_data : Result OfsDataBlock

abbrev parsed_blocks : List ℕ → ParsedBlocks
parsed_blocks block_buf = record {
  root = Root.parse block_buf;
  entry = Entry.parse block_buf;
  file_ext = FileExt.parse block_buf;
  ofs_data = OfsData.parse block_buf;
}

pub fuzz_blocks : List ℕ → Option (Result BootBlock) × Option ParsedBlocks
fuzz_blocks input = (
  if leb 1024 (length input) then some (Boot.parse (take 1024 input)) else none,
  if leb 512 (length input) then some (parsed_blocks (take 512 input)) else none,
)

abbrev pub fuzz_checksum : List ℕ → Option (List ℕ × ℕ) × Option ℕ
fuzz_checksum input =
    let block_buf = take 512 input in
    let offsets = 0 ∷ 4 ∷ 8 ∷ 12 ∷ 16 ∷ 20 ∷ 24 ∷ 508 ∷ [] in
    let sums : List ℕ × ℕ = (map (normal_sum block_buf) offsets, bitmap_sum block_buf) in
    (
      if leb 512 (length input) then some sums else none,
      if leb 1024 (length input) then some (boot_sum (take 1024 input)) else none,
    )

pub record NameResults : Type 0 where
  pub hashes : List ℕ
  pub compared : List Bool

-- A name is compared with the other, and with itself.
abbrev name_results : List ℕ → List ℕ → NameResults
name_results name1 name2 = record {
  hashes =
      hash_name name1 false
      ∷ hash_name name1 true
      ∷ hash_name name2 false
      ∷ hash_name name2 true
      ∷ [];
  compared =
      names_equal name1 name2 false
      ∷ names_equal name1 name2 true
      ∷ names_equal name1 name1 false
      ∷ names_equal name1 name1 true
      ∷ [];
}

pub fuzz_names : List ℕ → Option NameResults
fuzz_names input =
    let mid = length input / 2 in
    if length input == 0 then none else some (name_results (take mid input) (drop mid input))

where_some {ℓ} :
    {A : Type ℓ} (b : Bool) {x y : A} → (if b then some x else none) ≡ some y → (b ≡ true) × (x ≡ y)
where_some true e = (refl, ground arith)
where_some false e = absurd (ground arith)

where_none {ℓ} : {A : Type ℓ} (b : Bool) {x y : A} → (if b then none else some x) ≡ some y → x ≡ y
where_none true e = absurd (ground arith)
where_none false e = ground arith

hash_in_table : (name : List ℕ) (intl : Bool) → hash_name name intl < hash_table_size
hash_in_table name intl =
    (hash_name-names_equal name name intl ((names_equal-capitals name name intl).1 refl)).1

-- What the targets find of names that are not empty: all hashes are slots, and a name is equal to
-- itself.
fuzz_names_sound :
    (input : List ℕ) (results : NameResults)
    → fuzz_names input ≡ some results
    → All (λ hash. hash < hash_table_size) results.hashes
      × (drop 2 results.compared ≡ true ∷ true ∷ [])
unfolding fuzz_names
fuzz_names_sound input results e =
    let mid = length input / 2 in
    let name1 = take mid input in
    let name2 = drop mid input in
    let itself = λ (intl : Bool). (names_equal-capitals name1 name1 intl).1 refl in
    subst
      (λ (r : NameResults).
        All (λ hash. hash < hash_table_size) r.hashes × (drop 2 r.compared ≡ true ∷ true ∷ []))
      (where_none (length input == 0) e)
      (
        (
          hash_in_table name1 false,
          (hash_in_table name1 true, (hash_in_table name2 false, (hash_in_table name2 true, tt))),
        ),
        ap₂ (λ (a b : Bool). a ∷ b ∷ []) (itself false) (itself true),
      )

-- Whatever a parser makes of the input has its fields in the range of their types.
fuzz_blocks_sound :
    (input : List ℕ) (blocks : ParsedBlocks)
    → All (λ b. b < 256) input
    → (fuzz_blocks input).1 ≡ some blocks
    → ((e : EntryBlock) → blocks.entry ≡ ok e → IsEntryBlock e)
      × ((r : RootBlock) → blocks.root ≡ ok r → IsRootBlock r)
      × ((e : FileExtBlock) → blocks.file_ext ≡ ok e → IsFileExtBlock e)
      × ((d : OfsDataBlock) → blocks.ofs_data ≡ ok d → IsOfsDataBlock d)
unfolding fuzz_blocks
fuzz_blocks_sound input blocks h e =
    let (long, same) = where_some (leb 512 (length input)) e in
    let block : IsBytes 512 (take 512 input) = record {
      size = omega (arith, length-take 512 input, leb→le 512 (length input) long);
      bytes = All-take (λ b. b < 256) 512 input h;
    } in
    subst
      (λ (p : ParsedBlocks).
        ((e : EntryBlock) → p.entry ≡ ok e → IsEntryBlock e)
        × ((r : RootBlock) → p.root ≡ ok r → IsRootBlock r)
        × ((e : FileExtBlock) → p.file_ext ≡ ok e → IsFileExtBlock e)
        × ((d : OfsDataBlock) → p.ofs_data ≡ ok d → IsOfsDataBlock d))
      same (parse-InRange (take 512 input) block)
