-- ===== src/Examples/Tables.antt =====
-- A directory of one entry: src/dir.rs.
use affs_read.Prelude.{
  ℕ, ◌+◌, ◌-◌, ◌<◌, ◌≡◌, refl, some, Bool, false, true, List, [], ◌∷◌, ◌++◌, arith, eq_or, ==_iff,
  ==_eq, ==_ne, get_or, replicate, passes_below, at-passes_below, if◌then◌else◌, inl, inr, ◌==◌,
  sym, ◌∙◌, ◌*◌, ◌≤◌, length, slice, splice,
}
use affs_read.Constants.{hash_table_size}
use affs_read.Run.{done}
use affs_read.Error.{ok}
use affs_read.Types.{BlockDevice, file, from_sec_type}
use affs_read.Checksum.{read_i32_be, read_i32_be_slice, read_u32_be_slice}
use affs_read.Block.Entry
use affs_read.Block.Entry.{EntryBlock, decode, name_bytes}
use affs_read.Block.Fields.{read_string}
use affs_read.Block.Names.{hash_name, hash_loop, ascii_to_upper}
use affs_read.Dir.{from_entry_block, entry_of_type, new, find}
use affs_read.Dir.Find.{Chain, first_named}
use affs_read.Dir.Stuck.{items}
use affs_read.Dir.Table.{IsTable, listing}
use affs_read.Dir.Listing.{typed, iterated, items-listing}
use affs_read.Dir.Lookup.{find-listed, IsHashed, find-listing}
use affs_read.Examples.Data.{file_header, hello, ending}
use affs_read.Examples.Blocks.{loads_ending, last_chain, only_entry}

-- The slot of the name `hello`.
abbrev hello_at : ℕ
hello_at = 1

pub hello_hash : hash_name hello false ≡ hello_at
unfolding hash_name hash_loop ascii_to_upper
hello_hash = refl

entry_hash : hash_name (name_bytes (decode (file_header 0))) false ≡ hello_at
unfolding hash_name hash_loop ascii_to_upper name_bytes decode read_string slice splice
entry_hash = refl

abbrev one_used : List ℕ
one_used = replicate hello_at 0 ++ (882 ∷ replicate (71 - hello_at) 0)

abbrev one_chain : ℕ → List (ℕ × EntryBlock)
one_chain slot = if slot == hello_at then only_entry else []

slot_table : passes_below (λ s. get_or one_used s 0 == (if s == hello_at then 882 else 0)) 72 ≡ true
unfolding passes_below
slot_table = refl

slot_value :
    (slot : ℕ)
    → slot < hash_table_size
    → get_or one_used slot 0 ≡ (if slot == hello_at then 882 else 0)
slot_value slot h = (==_iff _ _).0 (at-passes_below _ 72 slot h slot_table)

-- A table with one slot that is used.
pub single-IsTable :
    (device : BlockDevice) (table : List ℕ) (used block : ℕ) (es : List (ℕ × EntryBlock))
    → ((slot : ℕ)
        → slot < hash_table_size
        → get_or table slot 0 ≡ (if slot == used then block else 0))
    → ((buf : List ℕ) → Chain device block buf es)
    → IsTable device table (λ slot. if slot == used then es else [])
single-IsTable device table used block es values chain = record {
  chain = λ slot h buf. elim (eq_or slot used) [
    | inl e ↦ rw (values slot h, ==_eq slot used e) (chain buf)
    | inr ne ↦ rw (values slot h, ==_ne slot used ne) (Chain.stop refl)
  ];
}

pub single-IsHashed :
    (intl : Bool) (used block : ℕ) (entry : EntryBlock)
    → hash_name (name_bytes entry) intl ≡ used
    → IsHashed intl (λ slot. if slot == used then (block, entry) ∷ [] else [])
single-IsHashed intl used block entry hashed slot h = elim (eq_or slot used) [
  | inl e ↦ rw (==_eq slot used e) (hashed ∙ sym e, tt)
  | inr ne ↦ rw (==_ne slot used ne) tt
]

one-IsTable : IsTable ending one_used one_chain
one-IsTable =
    single-IsTable ending one_used hello_at 882 only_entry slot_value
      (λ buf. Chain.link (omega arith) (loads_ending buf) (Chain.stop last_chain))

one-IsHashed : IsHashed false one_chain
one-IsHashed = single-IsHashed false hello_at 882 (decode (file_header 0)) entry_hash

-- The listing of the table has the one block.
one_block : 2 * length (listing one_chain 0 hash_table_size) + 1 ≤ 3
unfolding listing
one_block = omega arith

one_each : length (one_chain (hash_name hello false)) ≤ 1
one_each = rw hello_hash (omega arith)

items_example :
    items ending 3 4 (new one_used false)
    ≡ done (iterated 4 (typed (listing one_chain 0 hash_table_size)))
items_example = items-listing ending 3 4 one_used false one_chain one-IsTable one_block

lookup_example :
    find ending 1 (new one_used false) hello
    ≡ done (first_named false hello (listing one_chain 0 hash_table_size))
lookup_example =
    find-listing ending 1 one_used false hello one_chain one-IsTable one-IsHashed (omega arith)
      one_each

hello_typed :
    from_entry_block 882 (decode (file_header 0))
    ≡ some (entry_of_type 882 (decode (file_header 0)) file)
unfolding from_entry_block Entry.entry_type decode from_sec_type read_i32_be read_i32_be_slice
    read_u32_be_slice
hello_typed = refl

hello_size : length (name_bytes (decode (file_header 0))) ≡ 5
unfolding name_bytes decode read_string slice splice
hello_size = refl

listed_here : listing one_chain 0 hash_table_size ≡ only_entry
unfolding listing
listed_here = refl

listed_example :
    find ending 1 (new one_used false) (name_bytes (decode (file_header 0)))
    ≡ done (ok (entry_of_type 882 (decode (file_header 0)) file))
listed_example =
    find-listed ending 1 one_used false one_chain [] 882 (decode (file_header 0)) []
      (entry_of_type 882 (decode (file_header 0)) file) one-IsTable one-IsHashed listed_here tt
      hello_typed (omega (arith, hello_size)) (rw entry_hash (omega arith))
