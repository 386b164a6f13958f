-- ===== src/Examples/Files.antt =====
-- The file reader at concrete inputs: src/file.rs.
use affs_read.Prelude.{
  length, ◌≡◌, ℕ, zero, suc, ◌+◌, ◌%◌, ◌≤◌, ◌<◌, ◌≢◌, refl, List, [], ◌∷◌, ◌++◌, inl, arith, take,
  replicate,
}
use affs_read.Types.{ffs, IsBytes}
use affs_read.File.{FileReader, data_offset, read, reset, position}
use affs_read.File.Ends.{IsValid, ReadEnds}
use affs_read.File.Loop.{read-ReadEnds}
use affs_read.File.Stream.{Rest}
use affs_read.File.Fetch.{Stored}
use affs_read.File.Listed.{pointer, contents}
use affs_read.File.Header.{pointers, header-Rest}
use affs_read.File.Holds.{Holds, restarted, Reads, read-Reads}
use affs_read.File.Moves.{Arrives, seek-Arrives}
use affs_read.File.Entire.{ReadsAll, read_all-ReadsAll}
use affs_read.File.Whole.{seek, read_all}
use affs_read.File.All.{ReadAllEnds, read_all-ReadAllEnds}
use affs_read.File.Position.{SeekEnds, seek-SeekEnds}
use affs_read.Examples.Data.{numbered, replicate-IsBytes}

-- A file of 700 bytes under FFS, in the blocks 901 and 902, at its start.
abbrev pub two_blocks : FileReader
two_blocks = record {
  fs_type = ffs;
  header_block = 900;
  file_size = 700;
  remaining = 700;
  block_index = 0;
  initial_blocks_in_header = 2;
  blocks_in_current = 2;
  index_in_current = 0;
  initial_data_blocks = replicate 70 0 ++ (902 ∷ 901 ∷ []);
  data_blocks = replicate 70 0 ++ (902 ∷ 901 ∷ []);
  initial_extension = 0;
  next_extension = 0;
  initial_first_data = 901;
  current_data_block = 901;
  offset_in_block = 0;
  buf = replicate 512 0;
}

two_blocks-IsValid : IsValid two_blocks
unfolding data_offset
two_blocks-IsValid = record {
  within = omega arith;
  block = replicate-IsBytes 512 0 (omega arith);
  fits = omega arith;
}

read_example : ReadEnds two_blocks (replicate 600 0) 0 (read numbered two_blocks (replicate 600 0))
read_example = read-ReadEnds numbered two_blocks (replicate 600 0) two_blocks-IsValid

seek_example : SeekEnds two_blocks 650 (seek numbered two_blocks 650)
seek_example = seek-SeekEnds numbered two_blocks 650 two_blocks-IsValid

read_all_example :
    ReadAllEnds two_blocks (replicate 700 0) 0 (read_all numbered two_blocks (replicate 700 0))
read_all_example = read_all-ReadAllEnds numbered two_blocks (replicate 700 0) two_blocks-IsValid

abbrev pub contents_of : ℕ → List ℕ
contents_of n = replicate 512 (n % 256)

two_pointers :
    (j : ℕ)
    → 0 ≤ j
    → j < 0 + 2
    → (pointer two_blocks.data_blocks j ≢ 0)
      × Stored numbered
          (pointer two_blocks.data_blocks j)
          (contents_of (pointer two_blocks.data_blocks j))
two_pointers zero lo hi = (omega arith, record { answers = λ buf. refl; size = refl })
two_pointers (suc zero) lo hi = (omega arith, record { answers = λ buf. refl; size = refl })
two_pointers (suc (suc j)) lo hi = absurd (omega arith)

abbrev content : List ℕ
content = take 700 (contents contents_of (pointers two_blocks.data_blocks 0 2))

two_blocks-Rest : Rest numbered two_blocks content
two_blocks-Rest =
    header-Rest numbered contents_of 2 two_blocks refl (λ p. inl refl) (omega arith) (omega arith)
      two_pointers

length-content : length content ≡ 700
unfolding contents pointers
length-content = refl

again_example : (buf : List ℕ) → IsBytes 512 buf → Rest numbered (restarted two_blocks buf) content
unfolding reset
again_example buf h =
    header-Rest numbered contents_of 2 (restarted two_blocks buf) refl (λ p. inl refl) (omega arith)
      (omega arith) two_pointers

two_blocks-Holds : Holds numbered two_blocks content
unfolding position
two_blocks-Holds = record {
  valid = two_blocks-IsValid;
  size = length-content;
  now = two_blocks-Rest;
  again = again_example;
}

read-Reads_example :
    Reads numbered two_blocks (replicate 600 0) content (read numbered two_blocks (replicate 600 0))
read-Reads_example = read-Reads numbered two_blocks (replicate 600 0) content two_blocks-Holds

seek-Arrives_example : Arrives numbered 650 content (seek numbered two_blocks 650)
seek-Arrives_example = seek-Arrives numbered two_blocks 650 content two_blocks-Holds (omega arith)

read_all-ReadsAll_example :
    ReadsAll numbered two_blocks
      (replicate 700 0)
      content
      (read_all numbered two_blocks (replicate 700 0))
read_all-ReadsAll_example =
    read_all-ReadsAll numbered two_blocks (replicate 700 0) content two_blocks-Holds
