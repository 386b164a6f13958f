-- ===== src/Examples/Gap.antt =====
-- A file whose first block cannot be read: src/file.rs.
use affs_read.Prelude.{
  ℕ, ◌≡◌, ◌%◌, refl, inl, Bool, true, false, List, [], ◌∷◌, arith, take, replicate, ◌==◌,
}
use affs_read.Error.{ok, err, block_read_error}
use affs_read.Run.{done}
use affs_read.Types.{BlockDevice, IsBytes}
use affs_read.File.{FileReader, read, position}
use affs_read.File.Listed.{Pending, listed, all_listed}
use affs_read.File.Gap.{IsUnreadable, behind, read_leaves_gap}
use affs_read.Examples.Data.{replicate-IsBytes}
use affs_read.Examples.Files.{two_blocks, contents_of}

-- An answer: none at the block that is bad.
answer : Bool → ℕ → List ℕ → List ℕ × Bool
answer true block buf = (buf, false)
answer false block buf = (contents_of block, true)

answer-IsBytes :
    (bad : Bool) (block : ℕ) (buf : List ℕ) → IsBytes 512 buf → IsBytes 512 (answer bad block buf).0
unfolding answer
answer-IsBytes true block buf h = h
answer-IsBytes false block buf h = replicate-IsBytes 512 (block % 256) (omega arith)

abbrev holed : BlockDevice
holed = record {
  read_block = λ block buf. answer (block == 901) block buf;
  read_block-IsBytes = λ block buf h. answer-IsBytes (block == 901) block buf h;
}

first-IsUnreadable : IsUnreadable holed two_blocks
unfolding answer
first-IsUnreadable = record {
  fs_type = refl;
  at = inl refl;
  listed = omega arith;
  inside = omega arith;
  used = omega arith;
  bad = refl;
}

second-Pending : Pending holed contents_of (behind holed two_blocks) (902 ∷ [])
unfolding answer
second-Pending =
    listed (omega arith) (omega arith) refl (omega arith)
      (record { answers = λ buf. refl; size = refl }) all_listed

gap_example :
    (read holed two_blocks (replicate 100 0)
      ≡ done (err block_read_error, behind holed two_blocks, replicate 100 0))
    × (position (behind holed two_blocks) ≡ position two_blocks)
    × ((r' : FileReader) × (read holed (behind holed two_blocks) (replicate 100 0)
          ≡ done (ok 100, r', take 100 (contents_of 902))))
gap_example =
    read_leaves_gap holed contents_of two_blocks (replicate 100 0) 902 [] first-IsUnreadable
      second-Pending (omega arith) (omega arith)
