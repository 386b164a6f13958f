-- ===== src/Reader.antt =====
-- src/reader.rs: `AffsReader`, the file system of a device with 512-byte blocks.
pub mod Opens
pub mod Components
pub mod Path
pub mod Accessors
pub mod Contents
use affs_read.Prelude.{
  ℕ, zero, suc, ◌+◌, ◌/◌, Bool, true, false, List, ◌++◌, Option, none, some, ℤ, min, ltb, leb, ◌==◌,
  if◌then◌else◌, not, length, replicate, slice, drop,
}
use affs_read.Constants.{floppy_dd_sectors, floppy_hd_sectors, max_name_len, max_comment_len}
use affs_read.Error.{
  Result, ok, err, guard, ok_or, block_read_error, block_out_of_range, not_a_directory,
  not_a_symlink, entry_not_found, ◌>>=◌, ◌>>◌,
}
use affs_read.Run.{Run, done, panic, out_of_fuel}
use affs_read.Types.{BlockDevice, EntryType, root, soft_link, FsType, FsFlags}
use affs_read.Date.{AmigaDate, to_unix_timestamp}
use affs_read.Block.Boot
use affs_read.Block.Boot.{BootBlock}
use affs_read.Block.Root
use affs_read.Block.Root.{RootBlock}
use affs_read.Block.Entry
use affs_read.Block.Entry.{EntryBlock}
use affs_read.Symlink.{Memchr, read_symlink_target}
use affs_read.Dir
use affs_read.Dir.{DirEntry, DirIter, zero_block, copy_padded}
use affs_read.File
use affs_read.File.{FileReader}

-- The device is a parameter of the methods.
pub record AffsReader : Type 0 where
  pub boot : BootBlock
  pub root : RootBlock
  pub root_block : ℕ
  pub total_blocks : ℕ

unfoldable pub fs_type : AffsReader → FsType
fs_type r = Boot.fs_type r.boot

unfoldable pub fs_flags : AffsReader → FsFlags
fs_flags r = Boot.fs_flags r.boot

unfoldable pub is_intl : AffsReader → Bool
is_intl r = (Boot.fs_flags r.boot).intl

unfoldable pub disk_name : AffsReader → List ℕ
disk_name r = Root.name r.root

unfoldable pub label : AffsReader → List ℕ
label r = disk_name r

unfoldable pub creation_date : AffsReader → AmigaDate
creation_date r = r.root.creation_date

unfoldable pub last_modified : AffsReader → AmigaDate
last_modified r = r.root.last_modified

unfoldable pub root_hash_table : AffsReader → List ℕ
root_hash_table r = r.root.hash_table

unfoldable pub mtime : AffsReader → ℤ
mtime r = to_unix_timestamp r.root.last_modified

unfoldable pub bitmap_valid : AffsReader → Bool
bitmap_valid r = Root.bitmap_valid r.root

unfoldable pub from_root : RootBlock → ℕ → DirEntry
from_root r block = record {
  name = copy_padded max_name_len (min r.name_len max_name_len) r.disk_name;
  name_len = min r.name_len max_name_len;
  entry_type = root;
  block = block;
  parent = 0;
  size = 0;
  access = record { raw = 0 };
  date = r.last_modified;
  real_entry = 0;
  comment = replicate max_comment_len 0;
  comment_len = 0;
}

unfoldable pub root_entry : AffsReader → DirEntry
root_entry r = from_root r.root r.root_block

unfoldable pub read_root_dir : AffsReader → DirIter
read_root_dir r = Dir.new r.root.hash_table (is_intl r)

-- The root block's number: that of the boot block, or the middle of the disk.
abbrev pub root_position : BootBlock → ℕ → ℕ
root_position boot total_blocks = if boot.root_block == 0 then total_blocks / 2 else boot.root_block

module _ (device : BlockDevice) where
  -- `device.read_block(block, &mut buf).map_err(|()| AffsError::BlockReadError)?` on a new buffer.
  unfoldable pub fetch : ℕ → Result (List ℕ)
  fetch block =
      let (buf, good) = device.read_block block zero_block in
      if good then ok buf else err block_read_error

  unfoldable pub with_size : ℕ → Result AffsReader
  with_size total_blocks = do
    first ← fetch 0
    second ← fetch 1
    boot ← Boot.parse (first ++ second)
    let root_block = root_position boot total_blocks
    guard (not (leb total_blocks root_block)) block_out_of_range
    root_buf ← fetch root_block
    parsed ← Root.parse root_buf
    ok (record { boot = boot; root = parsed; root_block = root_block; total_blocks = total_blocks })

  unfoldable pub new : Result AffsReader
  new = with_size floppy_dd_sectors

  unfoldable pub new_hd : Result AffsReader
  new_hd = with_size floppy_hd_sectors

  unfoldable pub read_entry : ℕ → Result EntryBlock
  read_entry block = do buf ← fetch block; Entry.parse buf

  unfoldable pub read_dir : AffsReader → ℕ → Result DirIter
  read_dir r block = if block == r.root_block then ok (read_root_dir r) else do
    entry ← read_entry block
    guard (Entry.is_dir entry) not_a_directory
    ok (Dir.new entry.hash_table (is_intl r))

  -- The fuel bounds the blocks of a hash chain.
  unfoldable pub find_entry : ℕ → AffsReader → ℕ → List ℕ → Run (Result DirEntry)
  find_entry fuel r dir_block name = elim (read_dir r dir_block) [
    | err e ↦ done (err e)
    | ok it ↦ Dir.find device fuel it name
  ]

  unfoldable pub read_file : AffsReader → ℕ → Result FileReader
  read_file r block = File.new device (fs_type r) block

  abbrev pub found_dir : ℕ → DirEntry → ℕ
  found_dir current entry = if Dir.is_dir entry then entry.block else current

  module _ (m : Memchr) where
    abbrev pub is_soft_link : Option EntryType → Bool
    is_soft_link (some soft_link) = true
    is_soft_link _ = false

    unfoldable pub read_symlink : ℕ → List ℕ → Result (List ℕ × ℕ)
    read_symlink block out = do
      buf ← fetch block
      entry ← Entry.parse buf
      guard (is_soft_link (Entry.entry_type entry)) not_a_symlink
      ok (read_symlink_target m buf out)

    unfoldable pub read_symlink_entry : DirEntry → List ℕ → Result (List ℕ × ℕ)
    read_symlink_entry entry out =
        if Dir.is_symlink entry then read_symlink entry.block out else err not_a_symlink

    -- The end of the component that begins at `start`: the next `/`, or the end of the path.
    unfoldable pub component_end : List ℕ → ℕ → ℕ
    component_end path start = elim (m.memchr b'/' (drop start path)) [
      | some position ↦ start + position
      | none ↦ length path
    ]

    -- The loop of `find_path`: each round but an empty component's looks one name up.
    unfoldable pub path_loop :
        ℕ → ℕ → AffsReader → List ℕ → ℕ → ℕ → Option DirEntry → Run (Result DirEntry)
    path_loop chain_fuel zero r path start current final_entry =
        if ltb start (length path) then out_of_fuel else done (ok_or final_entry entry_not_found)
    path_loop chain_fuel (suc fuel) r path start current final_entry =
        elim (ltb start (length path)) [
          | false ↦ done (ok_or final_entry entry_not_found)
          | true ↦
              let end_ = component_end path start in
              elim (end_ == start) [
                | true ↦ path_loop chain_fuel fuel r path (end_ + 1) current final_entry
                | false ↦ elim (find_entry chain_fuel r current (slice path start end_)) [
                  | out_of_fuel ↦ out_of_fuel
                  | panic ↦ panic
                  | done found ↦ elim found [
                    | err e ↦ done (err e)
                    | ok entry ↦
                        path_loop chain_fuel fuel r path (end_ + 1) (found_dir current entry)
                          (some entry)
                  ]
                ]
              ]
        ]

    unfoldable pub find_path : ℕ → AffsReader → List ℕ → Run (Result DirEntry)
    find_path chain_fuel r path = path_loop chain_fuel (length path) r path 0 r.root_block none
