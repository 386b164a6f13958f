-- ===== src/Dir.antt =====
-- src/dir.rs: entries of a directory, the search for a name, and the iterator.
pub mod Find
pub mod Walk
pub mod Stuck
pub mod Table
pub mod Listing
pub mod Lookup
pub mod View
pub mod Ranges
use affs_read.Prelude.{
  ℕ, zero, suc, ◌+◌, ◌-◌, Bool, true, false, List, [], ◌∷◌, Option, none, some, min, ltb, ◌==◌,
  if◌then◌else◌, length, get_or, take, replicate, slice, splice, not,
}
use affs_read.Constants.{hash_table_size, max_name_len, max_comment_len, block_size}
use affs_read.Error.{
  AffsError, Result, ok, err, ok_or, block_read_error, name_too_long, entry_not_found,
  invalid_sec_type,
}
use affs_read.Run.{Run, done, out_of_fuel}
use affs_read.Types
use affs_read.Types.{BlockDevice, EntryType, soft_link, Access}
use affs_read.Date.{AmigaDate}
use affs_read.Block.Entry
use affs_read.Block.Entry.{EntryBlock, name_bytes}
use affs_read.Block.Names.{hash_name, names_equal}

pub record DirEntry : Type 0 where
  pub name : List ℕ
  pub name_len : ℕ
  pub entry_type : EntryType
  pub block : ℕ
  pub parent : ℕ
  pub size : ℕ
  pub access : Access
  pub date : AmigaDate
  pub real_entry : ℕ
  pub comment : List ℕ
  pub comment_len : ℕ

-- `let mut a = [0u8; max]; a[..len].copy_from_slice(&src[..len]);`
unfoldable pub copy_padded : ℕ → ℕ → List ℕ → List ℕ
copy_padded max len src = splice (replicate max 0) 0 (take len src)

abbrev pub entry_of_type : ℕ → EntryBlock → EntryType → DirEntry
entry_of_type block_num entry kind = record {
  name = copy_padded max_name_len (min entry.name_len max_name_len) entry.name;
  name_len = min entry.name_len max_name_len;
  entry_type = kind;
  block = block_num;
  parent = entry.parent;
  size = entry.byte_size;
  access = record { raw = entry.access };
  date = entry.date;
  real_entry = entry.real_entry;
  comment = copy_padded max_comment_len (min entry.comment_len max_comment_len) entry.comment;
  comment_len = min entry.comment_len max_comment_len;
}

unfoldable pub from_entry_block : ℕ → EntryBlock → Option DirEntry
from_entry_block block_num entry = elim (Entry.entry_type entry) [
  | none ↦ none
  | some kind ↦ some (entry_of_type block_num entry kind)
]

-- The methods `name` and `comment`, beside the fields of those names.
unfoldable pub entry_name : DirEntry → List ℕ
entry_name e = take e.name_len e.name

unfoldable pub entry_comment : DirEntry → List ℕ
entry_comment e = take e.comment_len e.comment

unfoldable pub is_dir : DirEntry → Bool
is_dir e = Types.is_dir e.entry_type

unfoldable pub is_file : DirEntry → Bool
is_file e = Types.is_file e.entry_type

unfoldable pub is_symlink : DirEntry → Bool
is_symlink e = elim e.entry_type [ soft_link ↦ true | _ ↦ false ]

pub record DirIter : Type 0 where
  pub hash_table : List ℕ
  pub hash_index : ℕ
  pub current_chain : ℕ
  pub intl : Bool
  pub buf : List ℕ

abbrev pub zero_block : List ℕ
zero_block = replicate block_size 0

unfoldable pub new : List ℕ → Bool → DirIter
new hash_table intl = record {
  hash_table = hash_table;
  hash_index = 0;
  current_chain = 0;
  intl = intl;
  buf = zero_block;
}

-- `while self.hash_index < HASH_TABLE_SIZE`, with the rounds that are left.
unfoldable pub seek_slot : ℕ → DirIter → DirIter
seek_slot zero it = it
seek_slot (suc left) it =
    let block = get_or it.hash_table it.hash_index 0 in
    let later = seek_slot left (record it { hash_index = it.hash_index + 1 }) in
    if block == 0
    then later
    else record it { hash_index = it.hash_index + 1; current_chain = block }

module _ (device : BlockDevice) where
  -- `device.read_block(block, &mut buf)`, then `EntryBlock::parse(&buf)`.
  unfoldable pub load_entry : ℕ → List ℕ → List ℕ × Result EntryBlock
  load_entry block buf =
      let (buf', good) = device.read_block block buf in
      (buf', if good then Entry.parse buf' else err block_read_error)

  -- The loop `while block != 0` of `find`.
  unfoldable pub find_loop : Bool → List ℕ → ℕ → ℕ → List ℕ → Run (Result DirEntry)
  find_loop intl name zero block buf =
      if block == 0 then done (err entry_not_found) else out_of_fuel
  find_loop intl name (suc fuel) block buf = elim (block == 0) [
    | true ↦ done (err entry_not_found)
    | false ↦
        let (buf', loaded) = load_entry block buf in
        elim loaded [
          | err e ↦ done (err e)
          | ok entry ↦ elim (names_equal (name_bytes entry) name intl) [
            | true ↦ done (ok_or (from_entry_block block entry) invalid_sec_type)
            | false ↦ find_loop intl name fuel entry.next_same_hash buf'
          ]
        ]
  ]

  unfoldable pub find : ℕ → DirIter → List ℕ → Run (Result DirEntry)
  find fuel it name =
      if ltb max_name_len (length name)
      then done (err name_too_long)
      else find_loop it.intl name fuel (get_or it.hash_table (hash_name name it.intl) 0) it.buf

  -- `next`: gives the item, and the iterator after it.
  unfoldable pub next : ℕ → DirIter → Run (Option (Result DirEntry) × DirIter)
  next zero it = out_of_fuel
  next (suc fuel) it = elim (it.current_chain == 0) [
    | true ↦
        let it' = seek_slot (hash_table_size - it.hash_index) it in
        elim (it'.current_chain == 0) [ true ↦ done (none, it') | false ↦ next fuel it' ]
    | false ↦
        let (buf', loaded) = load_entry it.current_chain it.buf in
        elim loaded [
          | err e ↦ done (some (err e), record it { buf = buf' })
          | ok entry ↦
              let it' = record it { current_chain = entry.next_same_hash; buf = buf' } in
              elim (from_entry_block it.current_chain entry) [
                | some dir_entry ↦ done (some (ok dir_entry), it')
                | none ↦ next fuel it'
              ]
        ]
  ]
