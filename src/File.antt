-- ===== src/File.antt =====
-- src/file.rs: the streaming file reader. A method gives its result and the reader after it, also
-- where it fails, since what it changed before an error stays changed.
pub mod Round
pub mod Accessors
pub mod Ends
pub mod Loop
pub mod Whole
pub mod Position
pub mod All
pub mod Stream
pub mod Delivers
pub mod Content
pub mod Holds
pub mod Moves
pub mod Entire
pub mod Fetch
pub mod Listed
pub mod Pending
pub mod Gap
pub mod Linked
pub mod Oversized
pub mod Starts
pub mod Header
use affs_read.Prelude.{
  ℕ, zero, suc, ◌+◌, ◌-◌, ◌*◌, ◌%◌, ◌^◌, Bool, true, false, not, List, [], ◌∷◌, ◌&&◌, ◌||◌, as_u32,
  min, ltb, leb, ◌==◌, if◌then◌else◌, length, get_or, replicate, slice, splice,
}
use affs_read.Constants.{block_size, max_datablk, ofs_data_size, ffs_data_size}
use affs_read.Error.{
  AffsError, Result, ok, err, guard, block_read_error, end_of_file, not_a_file, buffer_too_small,
  ◌>>=◌, ◌>>◌,
}
use affs_read.Run.{Run, done, panic, out_of_fuel}
use affs_read.Types.{BlockDevice, FsType, ofs, ffs}
use affs_read.Block.Entry
use affs_read.Block.Entry.{EntryBlock}
use affs_read.Block.FileExt
use affs_read.Block.FileExt.{FileExtBlock}
use affs_read.Block.OfsData
use affs_read.Block.OfsData.{OfsDataBlock, header_size}

-- The field `fs_type` never changes, and `device` is a parameter of the methods.
pub record FileReader : Type 0 where
  pub fs_type : FsType
  pub header_block : ℕ
  pub file_size : ℕ
  pub remaining : ℕ
  pub block_index : ℕ
  pub initial_blocks_in_header : ℕ
  pub blocks_in_current : ℕ
  pub index_in_current : ℕ
  pub initial_data_blocks : List ℕ
  pub data_blocks : List ℕ
  pub initial_extension : ℕ
  pub next_extension : ℕ
  pub initial_first_data : ℕ
  pub current_data_block : ℕ
  pub offset_in_block : ℕ
  pub buf : List ℕ

-- The reader that both constructors build; `buf` is their block buffer.
abbrev pub start_of : FsType → ℕ → EntryBlock → List ℕ → FileReader
start_of fs_type header_block entry buf = record {
  fs_type = fs_type;
  header_block = header_block;
  file_size = entry.byte_size;
  remaining = entry.byte_size;
  block_index = 0;
  initial_blocks_in_header = as_u32 entry.high_seq;
  blocks_in_current = as_u32 entry.high_seq;
  index_in_current = 0;
  initial_data_blocks = entry.hash_table;
  data_blocks = entry.hash_table;
  initial_extension = entry.extension;
  next_extension = entry.extension;
  initial_first_data = entry.first_data;
  current_data_block = entry.first_data;
  offset_in_block = 0;
  buf = buf;
}

unfoldable pub from_entry : FsType → ℕ → EntryBlock → Result FileReader
from_entry fs_type header_block entry = do
  guard (Entry.is_file entry) not_a_file
  ok (start_of fs_type header_block entry (replicate block_size 0))

unfoldable pub is_eof : FileReader → Bool
is_eof r = r.remaining == 0

unfoldable pub position : FileReader → ℕ
position r = r.file_size - r.remaining

unfoldable pub reset : FileReader → FileReader
reset r = record r {
  remaining = r.file_size;
  block_index = 0;
  blocks_in_current = r.initial_blocks_in_header;
  index_in_current = 0;
  data_blocks = r.initial_data_blocks;
  next_extension = r.initial_extension;
  current_data_block = r.initial_first_data;
  offset_in_block = 0;
}

unfoldable pub data_block_size : FileReader → ℕ
data_block_size r = elim r.fs_type [ ofs ↦ ofs_data_size | ffs ↦ ffs_data_size ]

unfoldable pub data_offset : FileReader → ℕ
data_offset r = elim r.fs_type [ ofs ↦ header_size | ffs ↦ 0 ]

-- `OfsDataBlock::parse(&self.buf).ok()`, with 0 for `None`.
abbrev pub ofs_size_or_zero : Result OfsDataBlock → ℕ
ofs_size_or_zero (ok header) = header.data_size
ofs_size_or_zero (err e) = 0

unfoldable pub current_block_data_size : FileReader → ℕ
current_block_data_size r = elim r.fs_type [
  | ofs ↦ ofs_size_or_zero (OfsData.parse r.buf)
  | ffs ↦ min (r.remaining + r.offset_in_block) ffs_data_size
]

-- Follows the linked list: the buffer has the previous data block.
unfoldable pub get_next_ofs_block : FileReader → Result ℕ × FileReader
get_next_ofs_block r =
    if r.block_index == 0 then (ok r.current_data_block, r) else elim (OfsData.parse r.buf) [
      | err e ↦ (err e, r)
      | ok header ↦ (ok header.next_data, record r { current_data_block = header.next_data })
    ]

-- The second test of `index_in_current`, and the pointer, stored in reverse order.
unfoldable pub take_pointer : FileReader → Result ℕ × FileReader
take_pointer r = if leb r.blocks_in_current r.index_in_current then (ok 0, r) else (
  ok (
      if ltb r.index_in_current max_datablk
      then get_or r.data_blocks (max_datablk - 1 - r.index_in_current) 0
      else 0),
  record r { index_in_current = r.index_in_current + 1 },
)

abbrev pub with_extension : FileReader → FileExtBlock → FileReader
with_extension r ext = record r {
  data_blocks = ext.data_blocks;
  blocks_in_current = as_u32 ext.high_seq;
  next_extension = ext.extension;
  index_in_current = 0;
}

-- Under OFS the block must parse as a data block.
unfoldable pub accept_block : FsType → List ℕ → Result (Unit {0})
accept_block ofs buf = do _ ← OfsData.parse buf; ok tt
accept_block ffs buf = ok tt

-- `available.min(out.len() - total_read).min(self.remaining as usize)`
unfoldable pub to_read : FileReader → ℕ → ℕ
unfolding current_block_data_size
to_read r room = min (min (current_block_data_size r - r.offset_in_block) room) r.remaining

abbrev pub copied : FileReader → ℕ → FileReader
copied r n = record r { offset_in_block = r.offset_in_block + n; remaining = r.remaining - n }

-- `&self.buf[start..start + n]`
abbrev pub source_bytes : FileReader → ℕ → List ℕ
source_bytes r n =
    slice r.buf (data_offset r + r.offset_in_block) (data_offset r + r.offset_in_block + n)

module _ (device : BlockDevice) where
  unfoldable pub new : FsType → ℕ → Result FileReader
  new fs_type header_block =
      let (buf, good) = device.read_block header_block (replicate block_size 0) in
      do
        guard good block_read_error
        entry ← Entry.parse buf
        guard (Entry.is_file entry) not_a_file
        ok (start_of fs_type header_block entry buf)

  unfoldable pub load_extension : FileReader → Result ℕ × FileReader
  unfolding take_pointer
  load_extension r =
      let (buf', good) = device.read_block r.next_extension r.buf in
      let r' = record r { buf = buf' } in
      if good
      then elim (FileExt.parse buf') [
        | err e ↦ (err e, r')
        | ok ext ↦ take_pointer (with_extension r' ext)
      ]
      else (err block_read_error, r')

  unfoldable pub get_next_ffs_block : FileReader → Result ℕ × FileReader
  unfolding load_extension
  get_next_ffs_block r =
      if leb r.blocks_in_current r.index_in_current
      then if r.next_extension == 0 then (ok 0, r) else load_extension r
      else take_pointer r

  unfoldable pub get_next_data_block : FileReader → Result ℕ × FileReader
  unfolding get_next_ofs_block get_next_ffs_block
  get_next_data_block r = elim r.fs_type [ ofs ↦ get_next_ofs_block r | ffs ↦ get_next_ffs_block r ]

  unfoldable pub fetch_block : ℕ → FileReader → Result (Unit {0}) × FileReader
  unfolding accept_block
  fetch_block block r =
      let (buf', good) = device.read_block block r.buf in
      let r' = record r { buf = buf' } in
      if good
      then elim (accept_block r.fs_type buf') [
        | err e ↦ (err e, r')
        | ok _ ↦ (ok tt, record r' { offset_in_block = 0; block_index = r.block_index + 1 })
      ]
      else (err block_read_error, r')

  unfoldable pub read_next_data_block : FileReader → Result (Unit {0}) × FileReader
  read_next_data_block r =
      let (next, r') = get_next_data_block r in
      elim next [
        | err e ↦ (err e, r')
        | ok block ↦ if block == 0 then (err end_of_file, r') else fetch_block block r'
      ]

  -- The start of a round of `read`: a new data block, where one is needed.
  unfoldable pub refill : FileReader → Result (Unit {0}) × FileReader
  refill r =
      if r.offset_in_block == 0 || leb (data_block_size r) r.offset_in_block
      then read_next_data_block r
      else (ok tt, r)

  -- `while total_read < out.len() && self.remaining > 0`, on fuel. A slice that leaves the block
  -- buffer panics.
  unfoldable pub read_loop : ℕ → FileReader → List ℕ → ℕ → Run (Result ℕ × FileReader × List ℕ)
  read_loop zero r out total =
      if ltb total (length out) && ltb 0 r.remaining then out_of_fuel else done (ok total, r, out)
  read_loop (suc fuel) r out total = elim (ltb total (length out) && ltb 0 r.remaining) [
    | false ↦ done (ok total, r, out)
    | true ↦
        let (filled, r') = refill r in
        elim filled [
          | err e ↦ done (err e, r', out)
          | ok _ ↦
              let n = to_read r' (length out - total) in
              elim (n == 0) [
                | true ↦ done (ok total, r', out)
                | false ↦ elim (leb (data_offset r' + r'.offset_in_block + n) (length r'.buf)) [
                  | false ↦ panic
                  | true ↦
                      read_loop fuel (copied r' n) (splice out total (source_bytes r' n))
                        (total + n)
                ]
              ]
        ]
  ]

  -- Each round but the last reads a byte or more, so the length of the output is fuel enough.
  unfoldable pub read : FileReader → List ℕ → Run (Result ℕ × FileReader × List ℕ)
  read r out =
      if r.remaining == 0 || length out == 0
      then done (ok 0, r, out)
      else read_loop (length out) r out 0
