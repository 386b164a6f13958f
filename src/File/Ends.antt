-- ===== src/File/Ends.antt =====
-- How a call of `read` can end, and what one copy of bytes does: src/file.rs.
use affs_read.Prelude.{
  ℕ, ◌+◌, ◌-◌, ◌≤◌, ◌<◌, ◌≡◌, sym, ap, ◌∙◌, true, false, List, ◌⊎◌, ◌&&◌, arith, length, take, ltb,
  splice, length-splice, length-slice, take-splice, take-take,
}
use affs_read.Error.{AffsError, Result, ok, err}
use affs_read.Run.{Run, done, panic}
use affs_read.Types.{ofs, ffs, IsBytes}
use affs_read.File.{FileReader, data_offset, current_block_data_size, to_read, copied, source_bytes}
use affs_read.File.Round.{SameFile}

pub record IsValid (r : FileReader) : Type 0 where
  pub within : r.remaining ≤ r.file_size
  pub block : IsBytes 512 r.buf
  pub fits : data_offset r + r.offset_in_block ≤ 512

-- `r'` and `out'` are left by a loop that began at `total` bytes of `out`.
pub record Advanced (r r' : FileReader) (out out' : List ℕ) (total : ℕ) : Type 0 where
  pub valid : IsValid r'
  pub same : SameFile r r'
  pub fewer : r'.remaining ≤ r.remaining
  pub same_length : length out' ≡ length out
  pub kept : take total out' ≡ take total out

-- The ends of `read`. A panic is possible only under OFS.
pub data ReadEnds (r : FileReader) (out : List ℕ) (total : ℕ)
    : Run (Result ℕ × FileReader × List ℕ) → Type 0 where
  returned :
      (n : ℕ) (r' : FileReader) (out' : List ℕ)
      → Advanced r r' out out' total
      → total ≤ n
      → n ≤ length out
      → n + r'.remaining ≡ total + r.remaining
      → (r.fs_type ≡ ffs → (n ≡ length out) ⊎ (r'.remaining ≡ 0))
      → ReadEnds r out total (done (ok n, r', out'))
  failed :
      (e : AffsError) (r' : FileReader) (out' : List ℕ)
      → Advanced r r' out out' total
      → ReadEnds r out total (done (err e, r', out'))
  panicked : r.fs_type ≡ ofs → ReadEnds r out total panic

pub to_read-le :
    (r : FileReader) (room : ℕ)
    → (to_read r room ≤ room)
      × (to_read r room ≤ r.remaining)
      × (to_read r room ≤ current_block_data_size r - r.offset_in_block)
unfolding to_read
to_read-le r room = omega arith

take_prefix : (k n : ℕ) (xs ys : List ℕ) → k ≤ n → take n xs ≡ take n ys → take k xs ≡ take k ys
take_prefix k n xs ys h e = sym (take-take k n xs h) ∙ ap (take k) e ∙ take-take k n ys h

-- One round's copy of `n` bytes.
module _ (r : FileReader) (out : List ℕ) (total n : ℕ) (v : IsValid r)
    (room : total + n ≤ length out) (left : n ≤ r.remaining)
    (inside : data_offset r + r.offset_in_block + n ≤ 512) where
  abbrev pub written : List ℕ
  written = splice out total (source_bytes r n)

  pub length-source_bytes : length (source_bytes r n) ≡ n
  length-source_bytes =
      length-slice r.buf (data_offset r + r.offset_in_block) _ (omega arith)
        (omega (arith, v.block.size))
      ∙ omega arith

  pub copied-IsValid : IsValid (copied r n)
  unfolding data_offset
  copied-IsValid = record {
    within = omega (arith, v.within);
    block = v.block;
    fits = omega (arith, inside);
  }

  pub length-written : length written ≡ length out
  length-written = length-splice out total (source_bytes r n) (omega (arith, length-source_bytes))

  pub Advanced-copied :
      {r' : FileReader} {out' : List ℕ}
      → Advanced (copied r n) r' written out' (total + n)
      → Advanced r r' out out' total
  Advanced-copied {out'} a = record {
    valid = a.valid;
    same = ground arith;
    fewer = omega (arith, a.fewer);
    same_length = a.same_length ∙ length-written;
    kept =
        take_prefix total (total + n) out' written (omega arith) a.kept
        ∙ take-splice total out total (source_bytes r n) (omega arith) (omega arith);
  }

pub lt_of_test :
    (r : FileReader) (out : List ℕ) (total : ℕ)
    → (ltb total (length out) && ltb 0 r.remaining) ≡ true
    → total < length out
lt_of_test r out total h = ground arith

pub pos_of_test :
    (r : FileReader) (out : List ℕ) (total : ℕ)
    → (ltb total (length out) && ltb 0 r.remaining) ≡ true
    → 0 < r.remaining
pos_of_test r out total h = ground arith

pub full :
    (r : FileReader) (out : List ℕ) (total : ℕ)
    → length out ≤ total
    → (ltb total (length out) && ltb 0 r.remaining) ≡ false
full r out total h = ground arith
