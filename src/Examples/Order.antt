-- ===== src/Examples/Order.antt =====
-- A directory of two entries of one chain, in either order: src/dir.rs.
use affs_read.Prelude.{
  ℕ, ◌-◌, ◌%◌, ◌+◌, ◌^◌, ◌≡◌, ◌≤◌, refl, true, false, List, [], ◌∷◌, ◌++◌, some, arith, get_or,
  length, replicate, ==_iff, ==_eq, ==_ne, eq_or, sym, ◌==◌, passes_below, at-passes_below,
  if◌then◌else◌, slice, splice, inl, inr, Bool-cases,
}
use mathlib.Core.List.{Pairwise, Perm, Pairwise-pair}
use mathlib.Core.List.Perm
use affs_read.Constants.{hash_table_size}
use affs_read.Types.{BlockDevice, IsBytes, file, from_sec_type}
use affs_read.Checksum.{
  read_u32_be, read_i32_be, read_u32_be_slice, read_i32_be_slice, normal_sum, normal_sum_slice,
  normal_sum_slice_scalar, normal_loop,
}
use affs_read.Block.Fields.{read_string, check_header, read_table}
use affs_read.Block.Entry
use affs_read.Block.Entry.{EntryBlock, decode, name_bytes}
use affs_read.Block.Names.{hash_name, hash_loop, ascii_to_upper, names_equal}
use affs_read.Dir.{from_entry_block, entry_of_type, load_entry, new, find, copy_padded}
use affs_read.Dir.Find.{Chain}
use affs_read.Dir.Table.{IsTable, listing}
use affs_read.Dir.Lookup.{IsHashed}
use affs_read.Dir.View.{Differ-prop, Named, Differ, view, find-Perm}
use affs_read.Examples.Data.{longword, all_bytes, IsBytes-decided, hello}
use affs_read.Examples.Tables.{single-IsTable, hello_hash}

-- A name of the same hash as `hello`.
abbrev headb : List ℕ
headb = b'h' ∷ b'e' ∷ b'a' ∷ b'd' ∷ b'b' ∷ []

abbrev header_of : List ℕ → ℕ → ℕ → List ℕ
header_of name words chained =
    longword 2
    ++ replicate 16 0
    ++ longword (2 ^ 32 - (2 + words + 3000 + chained + (2 ^ 32 - 3)) % 2 ^ 32)
    ++ replicate 0x18c 0
    ++ longword 3000
    ++ replicate 8 0
    ++ (5 ∷ name)
    ++ replicate 58 0
    ++ longword chained
    ++ replicate 8 0
    ++ longword (2 ^ 32 - 3)

abbrev hello_header : ℕ → List ℕ
hello_header chained = header_of hello (0x0568656c + 0x6c6f0000) chained

abbrev headb_header : ℕ → List ℕ
headb_header chained = header_of headb (0x05686561 + 0x64620000) chained

-- `hello` is in block 882 and `headb` in the others.
abbrev holds : List ℕ → List ℕ → ℕ → List ℕ
holds first second n = if n == 882 then first else second

holds-IsBytes :
    (first second : List ℕ)
    → IsBytes 512 first
    → IsBytes 512 second
    → (n : ℕ) → IsBytes 512 (holds first second n)
holds-IsBytes first second h g n = elim (Bool-cases (n == 882)) [ inl e ↦ rw e h | inr e ↦ rw e g ]

abbrev pair_device : (first second : List ℕ) → IsBytes 512 first → IsBytes 512 second → BlockDevice
pair_device first second h g = record {
  read_block = λ n buf. (holds first second n, true);
  read_block-IsBytes = λ n buf p. holds-IsBytes first second h g n;
}

hello_883-IsBytes : IsBytes 512 (hello_header 883)
unfolding all_bytes
hello_883-IsBytes = IsBytes-decided 512 (hello_header 883) refl refl

hello_0-IsBytes : IsBytes 512 (hello_header 0)
unfolding all_bytes
hello_0-IsBytes = IsBytes-decided 512 (hello_header 0) refl refl

headb_882-IsBytes : IsBytes 512 (headb_header 882)
unfolding all_bytes
headb_882-IsBytes = IsBytes-decided 512 (headb_header 882) refl refl

headb_0-IsBytes : IsBytes 512 (headb_header 0)
unfolding all_bytes
headb_0-IsBytes = IsBytes-decided 512 (headb_header 0) refl refl

abbrev hello_first : BlockDevice
hello_first = pair_device (hello_header 883) (headb_header 0) hello_883-IsBytes headb_0-IsBytes

abbrev headb_first : BlockDevice
headb_first = pair_device (hello_header 0) (headb_header 882) hello_0-IsBytes headb_882-IsBytes

abbrev hello_chain : List (ℕ × EntryBlock)
hello_chain = (882, decode (hello_header 883)) ∷ (883, decode (headb_header 0)) ∷ []

abbrev headb_chain : List (ℕ × EntryBlock)
headb_chain = (883, decode (headb_header 882)) ∷ (882, decode (hello_header 0)) ∷ []

hello-Chain : (buf : List ℕ) → Chain hello_first 882 buf hello_chain
unfolding load_entry Entry.parse check_header read_i32_be read_u32_be normal_sum read_i32_be_slice
    read_u32_be_slice normal_sum_slice_scalar normal_sum_slice normal_loop decode
hello-Chain buf = Chain.link (omega arith) refl (Chain.link (omega arith) refl (Chain.stop refl))

headb-Chain : (buf : List ℕ) → Chain headb_first 883 buf headb_chain
unfolding load_entry Entry.parse check_header read_i32_be read_u32_be normal_sum read_i32_be_slice
    read_u32_be_slice normal_sum_slice_scalar normal_sum_slice normal_loop decode
headb-Chain buf = Chain.link (omega arith) refl (Chain.link (omega arith) refl (Chain.stop refl))

-- Slot 1 heads the chain.
abbrev slots : ℕ → List ℕ
slots block = 0 ∷ block ∷ replicate 70 0

abbrev chains : List (ℕ × EntryBlock) → ℕ → List (ℕ × EntryBlock)
chains es slot = if slot == 1 then es else []

hello_slots : passes_below (λ s. get_or (slots 882) s 0 == (if s == 1 then 882 else 0)) 72 ≡ true
unfolding passes_below
hello_slots = refl

headb_slots : passes_below (λ s. get_or (slots 883) s 0 == (if s == 1 then 883 else 0)) 72 ≡ true
unfolding passes_below
headb_slots = refl

hello-IsTable : IsTable hello_first (slots 882) (chains hello_chain)
hello-IsTable =
    single-IsTable hello_first (slots 882) 1 882 hello_chain
      (λ slot h. (==_iff _ _).0 (at-passes_below _ 72 slot h hello_slots)) hello-Chain

headb-IsTable : IsTable headb_first (slots 883) (chains headb_chain)
headb-IsTable =
    single-IsTable headb_first (slots 883) 1 883 headb_chain
      (λ slot h. (==_iff _ _).0 (at-passes_below _ 72 slot h headb_slots)) headb-Chain

hello-IsHashed : IsHashed false (chains hello_chain)
unfolding hash_name hash_loop ascii_to_upper name_bytes decode read_string slice splice
hello-IsHashed slot h = elim (eq_or slot 1) [
  | inl e ↦ rw (==_eq slot 1 e) (sym e, (sym e, tt))
  | inr ne ↦ rw (==_ne slot 1 ne) tt
]

headb-IsHashed : IsHashed false (chains headb_chain)
unfolding hash_name hash_loop ascii_to_upper name_bytes decode read_string slice splice
headb-IsHashed slot h = elim (eq_or slot 1) [
  | inl e ↦ rw (==_eq slot 1 e) (sym e, (sym e, tt))
  | inr ne ↦ rw (==_ne slot 1 ne) tt
]

abbrev hello_named : Named
hello_named = (hello, some (entry_of_type 882 (decode (hello_header 0)) file))

abbrev headb_named : Named
headb_named = (headb, some (entry_of_type 883 (decode (headb_header 0)) file))

hello_view : view (listing (chains hello_chain) 0 hash_table_size) ≡ hello_named ∷ headb_named ∷ []
unfolding listing from_entry_block Entry.entry_type decode from_sec_type read_i32_be read_u32_be
    read_i32_be_slice read_u32_be_slice name_bytes read_string slice splice copy_padded read_table
hello_view = refl

headb_view : view (listing (chains headb_chain) 0 hash_table_size) ≡ headb_named ∷ hello_named ∷ []
unfolding listing from_entry_block Entry.entry_type decode from_sec_type read_i32_be read_u32_be
    read_i32_be_slice read_u32_be_slice name_bytes read_string slice splice copy_padded read_table
headb_view = refl

swapped :
    Perm
      (view (listing (chains hello_chain) 0 hash_table_size))
      (view (listing (chains headb_chain) 0 hash_table_size))
swapped = rw (hello_view, headb_view) (Perm.swap headb_named hello_named [])

told_apart : Pairwise (Differ false) (view (listing (chains hello_chain) 0 hash_table_size))
unfolding names_equal ascii_to_upper
told_apart = rw hello_view ((Pairwise-pair (Differ-prop false)).1 refl)

hello_fuel : length (chains hello_chain (hash_name hello false)) ≤ 2
hello_fuel = rw hello_hash (omega arith)

headb_fuel : length (chains headb_chain (hash_name hello false)) ≤ 2
headb_fuel = rw hello_hash (omega arith)

find-Perm_example :
    find hello_first 2 (new (slots 882) false) hello
    ≡ find headb_first 2 (new (slots 883) false) hello
find-Perm_example =
    find-Perm hello_first headb_first 2 2 (slots 882) (slots 883) false hello (chains hello_chain)
      (chains headb_chain) hello-IsTable headb-IsTable hello-IsHashed headb-IsHashed swapped
      told_apart (omega arith) hello_fuel headb_fuel
