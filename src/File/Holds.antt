-- ===== src/File/Holds.antt =====
-- A reader as its file's bytes and a position in them: src/file.rs.
use affs_read.Prelude.{
  ℕ, ◌+◌, ◌-◌, ◌≡◌, ap, ◌∙◌, List, arith, min, length, take, drop, length-drop, drop-drop,
}
use mathlib.Core.Path.{subst}
use affs_read.Error.{Result, ok}
use affs_read.Run.{Run, done}
use affs_read.Types.{BlockDevice, IsBytes}
use affs_read.File.{FileReader, position, reset, read}
use affs_read.File.Round.{SameFile}
use affs_read.File.Ends.{IsValid, ReadEnds, returned}
use affs_read.File.Loop.{read-ReadEnds}
use affs_read.File.Stream.{Rest}
use affs_read.File.Delivers.{Delivers, delivered}
use affs_read.File.Content.{read-Delivers}

-- The reader started over, with a buffer.
abbrev pub restarted : FileReader → List ℕ → FileReader
restarted r buf = record (reset r) { buf = buf }

-- Readers of one file are the same when they start over.
restarted-SameFile :
    (r r' : FileReader) (buf : List ℕ) → SameFile r r' → restarted r buf ≡ restarted r' buf
unfolding reset
restarted-SameFile r r' buf same = ground arith

position_after :
    (r r' : FileReader) (n : ℕ)
    → IsValid r
    → SameFile r r'
    → n + r'.remaining ≡ r.remaining
    → position r' ≡ position r + n
unfolding position
position_after r r' n v same sum = omega (arith, v.within, same.file_size)

module _ (device : BlockDevice) where
  -- The reader is at its position in a file of these bytes, from the start or where it is.
  pub record Holds (r : FileReader) (bytes : List ℕ) : Type 0 where
    pub valid : IsValid r
    pub size : length bytes ≡ r.file_size
    pub now : Rest device r (drop (position r) bytes)
    pub again : (buf : List ℕ) → IsBytes 512 buf → Rest device (restarted r buf) bytes

  -- What a read of `out` gives of a file.
  pub data Reads (r : FileReader) (out bytes : List ℕ)
      : Run (Result ℕ × FileReader × List ℕ) → Type 0 where
    reads :
        (n : ℕ) (r' : FileReader) (out' : List ℕ)
        → n ≡ min (length out) (r.file_size - position r)
        → length out' ≡ length out
        → take n out' ≡ take n (drop (position r) bytes)
        → position r' ≡ position r + n
        → Holds r' bytes
        → Reads r out bytes (done (ok n, r', out'))

  Reads-both :
      (r : FileReader) (out bytes : List ℕ) {x : Run (Result ℕ × FileReader × List ℕ)}
      → Holds r bytes
      → Delivers device out 0 (drop (position r) bytes) x
      → ReadEnds r out 0 x
      → Reads r out bytes x
  Reads-both r out bytes h (delivered k n r' out' count total size given rest)
        (returned _ _ _ a lo hi sum all) =
      let moved = position_after r r' n h.valid a.same (omega (arith, sum)) in
      reads n r' out' (omega (arith, h.size, length-drop (position r) bytes)) size
        (given ∙ ap (λ t. take t (drop (position r) bytes)) (omega arith)) moved
        (record {
          valid = a.valid;
          size = omega (arith, h.size, a.same.file_size);
          now =
              subst (Rest device r')
                (drop-drop k (position r) (position r') bytes (omega (arith, moved))) rest;
          again = λ buf b.
              subst (λ t. Rest device t bytes) (restarted-SameFile r r' buf a.same) (h.again buf b);
        })

  -- For a reader that is at its position in a file of `bytes`, `read` returns: the bytes from the
  -- position on, as many as there is room for or as the file has, stand at the start of the
  -- buffer, the position has moved behind them, and the reader is at it in the same file.
  pub read-Reads :
      (r : FileReader) (out bytes : List ℕ) → Holds r bytes → Reads r out bytes (read device r out)
  read-Reads r out bytes h =
      Reads-both r out bytes h (read-Delivers device r out (drop (position r) bytes) h.valid h.now)
        (read-ReadEnds device r out h.valid)
