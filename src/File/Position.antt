-- ===== src/File/Position.antt =====
-- Where `read_all` and `seek` leave the reader: src/file.rs.
use affs_read.Prelude.{
  ℕ, zero, suc, ◌+◌, ◌-◌, ◌≤◌, ◌<◌, ◌≡◌, refl, sym, ◌∙◌, true, false, List, inl, inr, arith, min,
  length, take, replicate, ltb, ◌==◌, splice, length-splice, length-take, Bool-cases,
}
use affs_read.Error.{AffsError, Result, ok, err, end_of_file}
use affs_read.Run.{Run, done, panic}
use affs_read.Types.{BlockDevice, ofs}
use affs_read.File.{FileReader, data_offset, position, reset}
use affs_read.File.Round.{SameFile, SameFile-trans}
use affs_read.File.Ends.{IsValid, ReadEnds, returned, failed, panicked}
use affs_read.File.Loop.{read-ReadEnds}
use affs_read.File.Whole.{Outcome, after, within_buffer, read_first, skip_loop, seek, rewound}

-- The ends of `seek` to `target` bytes: there, in an error, or, under OFS only, in a panic.
pub data SeekEnds (r : FileReader) (target : ℕ) : Outcome (Unit {0}) → Type 0 where
  arrived :
      (r' : FileReader) (discard : List ℕ)
      → IsValid r'
      → SameFile r r'
      → position r' ≡ target
      → SeekEnds r target (done (ok tt, r', discard))
  halted :
      (e : AffsError) (r' : FileReader) (discard : List ℕ)
      → IsValid r'
      → SameFile r r'
      → SeekEnds r target (done (err e, r', discard))
  crashed : r.fs_type ≡ ofs → SeekEnds r target panic

pub reset-IsValid : (r : FileReader) → IsValid r → IsValid (reset r)
unfolding reset data_offset
reset-IsValid r v = ground (arith, v.block)

position-read :
    (r r' : FileReader) (n : ℕ)
    → IsValid r
    → SameFile r r'
    → n + r'.remaining ≡ r.remaining
    → position r' ≡ position r + n
unfolding position
position-read r r' n v same sum = omega (arith, v.within, same.file_size)

-- The ends of a seek that goes on from a later state.
SeekEnds-later :
    (r r' : FileReader) (target target' : ℕ) {x : Outcome (Unit {0})}
    → SameFile r r'
    → target' ≡ target
    → SeekEnds r' target' x
    → SeekEnds r target x
SeekEnds-later r r' target target' same e (arrived r'' discard v s p) =
    arrived r'' discard v (SameFile-trans same s) (p ∙ e)
SeekEnds-later r r' target target' same e (halted q r'' discard v s) =
    halted q r'' discard v (SameFile-trans same s)
SeekEnds-later r r' target target' same e (crashed p) = crashed (sym same.fs_type ∙ p)

pub SameFile-refl : (r : FileReader) → SameFile r r
SameFile-refl r = ground arith

module _ (device : BlockDevice) where
  -- The rest of the loop after a read, whichever way that ended.
  skip_step :
      (fuel : ℕ) (r : FileReader) (discard part : List ℕ) (to_skip : ℕ)
      {x : Run (Result ℕ × FileReader × List ℕ)}
      → IsValid r
      → length part ≤ to_skip
      → length part ≤ length discard
      → ReadEnds r part 0 x
      → ((r' : FileReader) (discard' : List ℕ) (n : ℕ)
          → IsValid r'
          → length discard' ≡ length discard
          → 0 < n
          → n ≤ to_skip
          → SeekEnds r'
              (position r' + (to_skip - n))
              (skip_loop device fuel r' discard' (to_skip - n)))
      → SeekEnds r (position r + to_skip) (
          after (within_buffer discard 0 x) λ n r' discard'. elim (n == 0) [
            | true ↦ done (err end_of_file, r', discard')
            | false ↦ skip_loop device fuel r' discard' (to_skip - n)
          ])
  skip_step fuel r discard part to_skip v small fits (returned n r' out' a lo hi sum all) rest =
      elim (Bool-cases (n == 0)) [
        | inl none ↦ rw (none, after) (halted end_of_file r' (splice discard 0 out') a.valid a.same)
        | inr some ↦
            rw (some, after)
              (SeekEnds-later r r' (position r + to_skip) (position r' + (to_skip - n)) a.same
                (omega (arith, position-read r r' n v a.same (omega (arith, sum)), below))
                (rest r' (splice discard 0 out') n a.valid kept_length (ground arith) below))
      ]
    where
      below : n ≤ to_skip
      below = omega (arith, hi, small)

      kept_length : length (splice discard 0 out') ≡ length discard
      kept_length = length-splice discard 0 out' (omega (arith, a.same_length, fits))
  skip_step fuel r discard part to_skip v small fits (failed e r' out' a) rest =
      halted e r' (splice discard 0 out') a.valid a.same
  skip_step fuel r discard part to_skip v small fits (panicked p) rest = crashed p

  skip_loop-SeekEnds :
      (fuel : ℕ) (r : FileReader) (discard : List ℕ) (to_skip : ℕ)
      → IsValid r
      → length discard ≡ 512
      → to_skip ≤ fuel
      → SeekEnds r (position r + to_skip) (skip_loop device fuel r discard to_skip)
  unfolding skip_loop read_first
  skip_loop-SeekEnds zero r discard to_skip v size enough =
      let e : to_skip ≡ 0 = omega arith in
      rw e (arrived r discard v (SameFile-refl r) (omega arith))
  skip_loop-SeekEnds (suc fuel) r discard to_skip v size enough = elim (Bool-cases (to_skip == 0)) [
    | inl there ↦ rw (there, skip_loop) (arrived r discard v (SameFile-refl r) (ground arith))
    | inr more ↦
        rw (more, skip_loop)
          (skip_step fuel r discard (take (min to_skip 512) discard) to_skip v
            (omega (arith, length-take (min to_skip 512) discard))
            (omega (arith, length-take (min to_skip 512) discard))
            (read-ReadEnds device r (take (min to_skip 512) discard) v)
            (λ r' discard' n v' size' pos below.
              skip_loop-SeekEnds fuel r' discard' (to_skip - n) v' (size' ∙ size) (omega arith)))
  ]

  rewound-IsValid : (r : FileReader) (target : ℕ) → IsValid r → IsValid (rewound r target)
  rewound-IsValid r target v = elim (Bool-cases (ltb target (position r))) [
    | inl back ↦ rw back (reset-IsValid r v)
    | inr on ↦ rw on v
  ]

  rewound-SameFile : (r : FileReader) (target : ℕ) → SameFile r (rewound r target)
  unfolding reset
  rewound-SameFile r target = ground arith

  pub position-rewound : (r : FileReader) (target : ℕ) → position (rewound r target) ≤ target
  unfolding reset position
  position-rewound r target = ground arith

  -- From a valid reader, `seek` ends: at the position asked for, with the reader valid and of the
  -- same file; in an error, with the reader valid and of the same file; or, under OFS only, in a
  -- panic.
  pub seek-SeekEnds :
      (r : FileReader) (target : ℕ) → IsValid r → SeekEnds r target (seek device r target)
  unfolding seek
  seek-SeekEnds r target v = elim (Bool-cases (ltb r.file_size target)) [
    | inl outside ↦ rw (outside, seek) (halted end_of_file r (replicate 512 0) v (SameFile-refl r))
    | inr inside ↦
        rw (inside, seek)
          (elim (Bool-cases (target == position r)) [
            | inl there ↦ rw there (arrived r (replicate 512 0) v (SameFile-refl r) (ground arith))
            | inr away ↦ rw away (
                SeekEnds-later r (rewound r target) target
                  (position (rewound r target) + (target - position (rewound r target)))
                  (rewound-SameFile r target) (omega (arith, position-rewound r target))
                  (skip_loop-SeekEnds (target - position (rewound r target)) (rewound r target)
                    (replicate 512 0) (target - position (rewound r target))
                    (rewound-IsValid r target v) refl (omega arith)))
          ])
  ]
