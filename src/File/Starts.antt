-- ===== src/File/Starts.antt =====
-- The readers that the constructors give of a file on a device: src/file.rs.
use affs_read.Prelude.{
  as_u32, ℕ, ◌*◌, ◌≤◌, ◌≡◌, refl, ap, ◌∙◌, true, List, arith, length, take, drop, replicate,
  length-take, sym, inl,
}
use affs_read.Error.{Result, ok}
use affs_read.Types.{BlockDevice, IsBytes, FsType, ofs, ffs}
use affs_read.Block.Entry
use affs_read.Block.Entry.{EntryBlock}
use affs_read.File.{FileReader, start_of, position, reset, data_offset, new, from_entry}
use affs_read.File.Ends.{IsValid}
use affs_read.File.Stream.{Rest, Rest-eq}
use affs_read.File.Fetch.{Stored}
use affs_read.File.Listed.{contents, Listed, length-contents}
use affs_read.File.Pending.{Listed-Rest}
use affs_read.File.Linked.{payloads, Linked, first, Linked-Rest}
use affs_read.File.Holds.{Holds}

zeros-IsBytes : IsBytes 512 (replicate 512 0)
zeros-IsBytes = record { size = refl; bytes = ground arith }

-- The constructor gave a reader at the start of a file of these bytes.
pub data Starts (device : BlockDevice) (bytes : List ℕ) : Result FileReader → Type 0 where
  starts : (r : FileReader) → position r ≡ 0 → Holds device r bytes → Starts device bytes (ok r)

module _ (device : BlockDevice) (fs_type : FsType) (n : ℕ) (entry : EntryBlock) (bytes : List ℕ)
    (size : length bytes ≡ entry.byte_size)
    (rest : (buf : List ℕ)
      → IsBytes 512 buf
      → Rest device (start_of fs_type n entry buf) bytes) where
  at_start : (buf : List ℕ) → position (start_of fs_type n entry buf) ≡ 0
  unfolding position
  at_start buf = omega arith

  start-IsValid : (buf : List ℕ) → IsBytes 512 buf → IsValid (start_of fs_type n entry buf)
  unfolding data_offset
  start-IsValid buf b = record { within = omega arith; block = b; fits = ground arith }

  start-Holds : (buf : List ℕ) → IsBytes 512 buf → Holds device (start_of fs_type n entry buf) bytes
  unfolding reset
  start-Holds buf b = record {
    valid = start-IsValid buf b;
    size = size;
    now = Rest-eq device refl (ap (λ k. drop k bytes) (sym (at_start buf))) (rest buf b);
    again = rest;
  }

  from_entry-Starts : Entry.is_file entry ≡ true → Starts device bytes (from_entry fs_type n entry)
  unfolding from_entry
  from_entry-Starts file = rw file (
      starts (start_of fs_type n entry (replicate 512 0)) (at_start (replicate 512 0))
        (start-Holds (replicate 512 0) zeros-IsBytes))

  new-Starts :
      (device.read_block n (replicate 512 0)).1 ≡ true
      → Entry.parse (device.read_block n (replicate 512 0)).0 ≡ ok entry
      → Entry.is_file entry ≡ true
      → Starts device bytes (new device fs_type n)
  unfolding new
  new-Starts good parsed file =
      let buf = (device.read_block n (replicate 512 0)).0 in
      rw (good, new)
        (rw parsed (
          rw file (
            starts (start_of fs_type n entry buf) (at_start buf)
              (start-Holds buf (device.read_block-IsBytes n (replicate 512 0) zeros-IsBytes)))))

module _ (device : BlockDevice) (blocks : ℕ → List ℕ) where
  begins :
      (fs_type : FsType) (n : ℕ) (entry : EntryBlock) (bytes : List ℕ)
      → length bytes ≡ entry.byte_size
      → ((buf : List ℕ) → IsBytes 512 buf → Rest device (start_of fs_type n entry buf) bytes)
      → Stored device n (blocks n)
      → Entry.parse (blocks n) ≡ ok entry
      → Entry.is_file entry ≡ true
      → Starts device bytes (new device fs_type n)
        × Starts device bytes (from_entry fs_type n entry)
  begins fs_type n entry bytes long rest stored parsed file = (
    new-Starts device fs_type n entry bytes long rest
        (ap (λ t. t.1) (stored.answers (replicate 512 0)))
        (ap (λ t. Entry.parse t.0) (stored.answers (replicate 512 0)) ∙ parsed) file,
    from_entry-Starts device fs_type n entry bytes long rest file,
  )

  -- Under FFS, where the header of a file parses and its tables, those of the extension blocks
  -- included, list blocks for its size, and the device always reads each of these blocks as the
  -- same 512 bytes: both constructors give a reader at the start of the file whose bytes are the
  -- contents of these blocks in their order, up to the size.
  pub new_ffs-Starts :
      (n : ℕ) (entry : EntryBlock) (ps : List ℕ)
      → Stored device n (blocks n)
      → Entry.parse (blocks n) ≡ ok entry
      → Entry.is_file entry ≡ true
      → Listed device blocks entry.hash_table (as_u32 entry.high_seq) 0 entry.extension ps
      → entry.byte_size ≤ length ps * 512
      → Starts device (take entry.byte_size (contents blocks ps)) (new device ffs n)
        × Starts device (take entry.byte_size (contents blocks ps)) (from_entry ffs n entry)
  new_ffs-Starts n entry ps stored parsed file table enough =
      begins ffs n entry (take entry.byte_size (contents blocks ps))
        (omega (
          arith,
          length-take entry.byte_size (contents blocks ps),
          length-contents device blocks ps table,
        ))
        (λ buf b.
          Listed-Rest device blocks ps (start_of ffs n entry buf) refl (λ some. inl refl) table
            enough)
        stored parsed file

  -- Under OFS, where the header of a file parses and its first data block begins a chain of blocks
  -- that parse, full but for the last one, with data for its size, and the device always reads
  -- each of these blocks as the same 512 bytes: both constructors give a reader at the start of
  -- the file whose bytes are the data of these blocks in their order, up to the size.
  pub new_ofs-Starts :
      (n : ℕ) (entry : EntryBlock) (ps : List ℕ)
      → Stored device n (blocks n)
      → Entry.parse (blocks n) ≡ ok entry
      → Entry.is_file entry ≡ true
      → Linked device blocks entry.first_data ps
      → entry.byte_size ≤ length (payloads blocks ps)
      → Starts device (take entry.byte_size (payloads blocks ps)) (new device ofs n)
        × Starts device (take entry.byte_size (payloads blocks ps)) (from_entry ofs n entry)
  new_ofs-Starts n entry ps stored parsed file chain enough =
      begins ofs n entry (take entry.byte_size (payloads blocks ps))
        (omega (arith, length-take entry.byte_size (payloads blocks ps)))
        (λ buf b.
          Linked-Rest device blocks ps (start_of ofs n entry buf) refl (λ some. inl refl)
            (first refl) chain enough)
        stored parsed file
