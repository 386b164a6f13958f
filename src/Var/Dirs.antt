-- ===== src/Var/Dirs.antt =====
-- src/varblock.rs: directories under a variable block size.
use affs_read.Prelude.{
  ℕ, zero, suc, ◌+◌, ◌-◌, ◌*◌, ◌^◌, Bool, true, false, List, ◌++◌, Option, none, some, ◌||◌, eq_ℤ,
  min, ltb, ◌==◌, if◌then◌else◌, length, replicate, take, get_or,
}
use affs_read.Constants.{symlink_offset, max_name_len, t_header, st_dir, st_ldir}
use affs_read.Error.{Result, ok, err, guard, invalid_block_type, not_a_directory, ◌>>=◌, ◌>>◌}
use affs_read.Run.{Run, done, panic, out_of_fuel}
use affs_read.Types
use affs_read.Types.{SectorDevice, EntryType, from_sec_type, soft_link}
use affs_read.Checksum.{read_u32_be_slice, read_i32_be_slice}
use affs_read.Date.{AmigaDate}
use affs_read.Block.Fields.{read_table, read_string, string_len}
use affs_read.Var.{
  AffsReaderVar, name_offset, date_offset, size_offset, date_at, max_block_size, zero_sector,
  sectors_loop, fetch,
}

pub record VarDirEntry : Type 0 where
  pub name : List ℕ
  pub name_len : ℕ
  pub entry_type : EntryType
  pub block : ℕ
  pub parent : ℕ
  pub size : ℕ
  pub date : AmigaDate

unfoldable pub entry_name : VarDirEntry → List ℕ
entry_name e = take e.name_len e.name

unfoldable pub is_dir : VarDirEntry → Bool
is_dir e = Types.is_dir e.entry_type

unfoldable pub is_file : VarDirEntry → Bool
is_file e = Types.is_file e.entry_type

unfoldable pub is_symlink : VarDirEntry → Bool
is_symlink e = elim e.entry_type [ soft_link ↦ true | _ ↦ false ]

pub record VarDirIter : Type 0 where
  pub hash_table : List ℕ
  pub hash_size : ℕ
  pub hash_index : ℕ
  pub current_chain : ℕ
  pub log_blocksize : ℕ
  pub size : ℕ
  pub buf : List ℕ

-- The first 256 slots of the table at most; the rest of the array stays 0.
unfoldable pub slots : List ℕ → ℕ → List ℕ
slots buf ht_size =
    read_table buf symlink_offset 0 (min ht_size 256) ++ replicate (256 - min ht_size 256) 0

unfoldable pub iter_new : AffsReaderVar → List ℕ → VarDirIter
iter_new r buf = record {
  hash_table = slots buf r.hash_size;
  hash_size = r.hash_size;
  hash_index = 0;
  current_chain = 0;
  log_blocksize = r.log_blocksize;
  size = r.size;
  buf = replicate max_block_size 0;
}

abbrev pub entry_of_kind : List ℕ → ℕ → ℕ → EntryType → VarDirEntry
entry_of_kind buf size block kind = record {
  name = read_string buf (name_offset size) max_name_len;
  name_len = string_len buf (name_offset size) max_name_len;
  entry_type = kind;
  block = block;
  parent = read_u32_be_slice buf (size - 12);
  size = read_u32_be_slice buf (size_offset size);
  date = date_at buf (date_offset size);
}

-- `parse_entry` of a buffer at a block size.
unfoldable pub parse_entry : List ℕ → ℕ → ℕ → Option VarDirEntry
parse_entry buf size block = elim (from_sec_type (read_i32_be_slice buf (size - 4))) [
  | none ↦ none
  | some kind ↦ some (entry_of_kind buf size block kind)
]

-- `while self.hash_index < self.hash_table_size`, with the rounds that are left. The array has 256
-- slots: an index behind them panics.
unfoldable pub seek_slot : ℕ → VarDirIter → Run VarDirIter
seek_slot zero it = done it
seek_slot (suc left) it =
    let block = get_or it.hash_table it.hash_index 0 in
    let later = seek_slot left (record it { hash_index = it.hash_index + 1 }) in
    let here =
      if block == 0
      then later
      else done (record it { hash_index = it.hash_index + 1; current_chain = block }) in
    if ltb it.hash_index (length it.hash_table) then here else panic

module _ (device : SectorDevice) where
  unfoldable pub read_root_dir : AffsReaderVar → Result VarDirIter
  read_root_dir r = do buf ← fetch device r r.root_block; ok (iter_new r buf)

  unfoldable pub read_dir : AffsReaderVar → ℕ → Result VarDirIter
  read_dir r block = if block == r.root_block then read_root_dir r else do
    buf ← fetch device r block
    guard (eq_ℤ (read_i32_be_slice buf 0) t_header) invalid_block_type
    let sec_type = read_i32_be_slice buf (r.size - 4)
    guard (eq_ℤ sec_type st_dir || eq_ℤ sec_type st_ldir) not_a_directory
    ok (iter_new r buf)

  -- The iterator's own `read_block_into`.
  unfoldable pub load_block : VarDirIter → VarDirIter × Result (Unit {0})
  load_block it =
      let (buf', loaded) =
        sectors_loop device (2 ^ it.log_blocksize) 0 (it.current_chain * 2 ^ it.log_blocksize)
          zero_sector it.buf in
      (record it { buf = buf' }, loaded)

  -- `next`: gives the item, and the iterator after it.
  unfoldable pub next : ℕ → VarDirIter → Run (Option (Result VarDirEntry) × VarDirIter)
  next zero it = out_of_fuel
  next (suc fuel) it = elim (it.current_chain == 0) [
    | true ↦ elim (seek_slot (it.hash_size - it.hash_index) it) [
      | panic ↦ panic
      | out_of_fuel ↦ out_of_fuel
      | done it' ↦ elim (it'.current_chain == 0) [ true ↦ done (none, it') | false ↦ next fuel it' ]
    ]
    | false ↦
        let (it1, loaded) = load_block it in
        elim loaded [
          | err e ↦ done (some (err e), it1)
          | ok _ ↦
              let it2 = record it1 { current_chain = read_u32_be_slice it1.buf (it.size - 16) } in
              elim (parse_entry (take it.size it1.buf) it.size it.current_chain) [
                | some entry ↦ done (some (ok entry), it2)
                | none ↦ next fuel it2
              ]
        ]
  ]
