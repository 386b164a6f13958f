-- ===== src/Lib.antt =====
-- affs-read: reading the Amiga Fast File System from disk images.
--
-- A `BlockDevice` (src/types.rs) is what the library reads from. `AffsReader` (src/reader.rs)
-- opens a device: it parses the boot block and the root block, hands out the iterators and
-- searches of directories (src/dir.rs) and the readers of files (src/file.rs), and looks up paths
-- and soft links (src/symlink.rs). All of them read blocks of 512 bytes and parse them
-- (src/block.rs), which checks the type and the checksum (src/checksum.rs). `AffsReaderVar`
-- (src/varblock.rs) does the same for volumes with blocks of 512 to 8192 bytes, by code of its own.
--
-- The files:
--   Prelude: lists and slices, the integers of fixed width, tests, tables over bytes.
--   Constants, Error, Types: src/constants.rs, src/error.rs, src/types.rs.
--   Run: returned, panicked, or out of fuel.
--   Checksum: src/checksum.rs; Checksum/Simd is the code under the feature `simd`.
--   Date: src/date.rs.
--   Block: src/block.rs, a child for each block kind, and Names for hashes and comparisons; Valid
--     and Accepts say which blocks are taken, Ranges and Parsed have the ranges of the Rust types.
--   Symlink: src/symlink.rs. Dir: src/dir.rs, with the walk over a directory (Walk), the search
--     (Find) and the iterator at a bad block (Stuck); Table has a hash table as the list of its
--     chains, Listing and Lookup the iterator and the search over it, View what remains of it in no
--     order, and Ranges the range of the iterator's state.
--   File: src/file.rs; File/Whole has `read_all` and `seek`. Stream says what bytes a reader still
--     has to give, Pending and Linked give them from the blocks of a file under FFS and OFS, and
--     Holds, Moves, Entire and Starts have a reader as its file's bytes and a position. Gap has the
--     reader behind a block that could not be read.
--   Reader: src/reader.rs; Reader/Path has paths as their components, and Contents goes from a name
--     in a directory to the bytes of its file.
--   Var: src/varblock.rs; Var/Dirs has its directories, Var/Probes what the probe finds or
--     why it finds nothing, and Valid which blocks it takes; Beside
--     and Follows have its directory iterator next to that of the 512-byte reader.
--   Utf8: src/utf8.rs; Utf8/Views has the methods that end in `_str`.
--   Fuzz: fuzz/fuzz_targets/fuzz_read.rs, with a disk image as a device; Targets has the others.
--   Examples: concrete devices and blocks, and the theorems at them.
--   Units: the unit tests that stand beside the code in src/.
-- A definition has the name of the function or type that it models. A parser's part behind its
-- tests is called `decode`, a loop is called after its function or by what it seeks.
--
-- How the program is modelled. Bytes, `u8` to `u64` and `usize` are natural numbers, and a sum or
-- a cast that can wrap is taken modulo a power of two; `i32` and `i64` are integers. A buffer is
-- the list of its bytes. A method that changes its object gives the object after the call along
-- with the result, also where it fails, and a function that writes to a buffer gives the buffer
-- back. An index or a slice out of range is `panic`, where the code does not rule it out. The device
-- is a function of the block number and the buffer; it always answers the same, and may leave
-- anything in the buffer when it fails.
--
-- Fuel. Loops over a range carry the rounds that are left. The loop of `read` runs on the length
-- of the output, that of `read_all` on the bytes that remain, that of `seek` on the bytes to skip,
-- that of `find_path` on the length of the path, those of `days_to_date` on the days and the table
-- of months: each round uses one of them up. The loops along hash chains have no bound in the
-- source, so the caller chooses their fuel; so does the caller of the fuzz target.
--
-- Parameters. The crates `wide` (four lanes of `u32`), `bytemuck` (the cast of bytes to longwords),
-- `memchr` and `simdutf8` (or `core::str::from_utf8`) are records of functions with the laws that
-- their documentation gives.
--
-- Not modelled: the re-exports of src/lib.rs, benches and tests/; the debug assertions of
-- `normal_sum_slice`, which its callers keep; the wrap of a file's block count `block_index` behind
-- 2 ^ 32 blocks; and, in the iterator of src/varblock.rs, slices of
-- the buffer out of range, which no block size that `probe` gives leads to.
pub mod Prelude
pub mod Constants
pub mod Error
pub mod Types
pub mod Checksum
pub mod Date
pub mod Block
pub mod Run
pub mod Symlink
pub mod Dir
pub mod File
pub mod Reader
pub mod Var
pub mod Utf8
pub mod Fuzz
pub mod Examples
pub mod Units
