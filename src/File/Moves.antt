-- ===== src/File/Moves.antt =====
-- `seek` and `reset` of a reader that is at a position in its file: src/file.rs.
use affs_read.Prelude.{
  ℕ, zero, suc, ◌+◌, ◌-◌, ◌≤◌, ◌<◌, ◌≡◌, refl, ap, ◌∙◌, true, false, List, inl, inr, arith, min,
  length, take, drop, length-take, splice, length-splice, ◌==◌, ltb, ==_ne, Bool-cases, replicate,
}
use mathlib.Core.Path.{subst}
use affs_read.Error.{Result, ok, err, end_of_file}
use affs_read.Run.{Run, done}
use affs_read.Types.{BlockDevice}
use affs_read.File.{FileReader, position, reset}
use affs_read.File.Whole.{Outcome, after, within_buffer, rewound, read_first, skip_loop, seek}
use affs_read.File.Position.{reset-IsValid, position-rewound}
use affs_read.File.Stream.{Rest}
use affs_read.File.Holds.{Holds, Reads, reads, read-Reads}

module _ (device : BlockDevice) where
  -- The reader has come to `target` in its file.
  pub data Arrives (target : ℕ) (bytes : List ℕ) : Outcome (Unit {0}) → Type 0 where
    arrives :
        (r' : FileReader) (discard : List ℕ)
        → position r' ≡ target
        → Holds device r' bytes
        → Arrives target bytes (done (ok tt, r', discard))

  position-within : (r : FileReader) → position r ≤ r.file_size
  unfolding position
  position-within r = omega arith

  reset-Holds :
      (r : FileReader) (bytes : List ℕ) → Holds device r bytes → Holds device (reset r) bytes
  unfolding reset position
  reset-Holds r bytes h = record {
    valid = reset-IsValid r h.valid;
    size = h.size;
    now =
        let start : 0 ≡ r.file_size - r.file_size = omega arith in
        subst (Rest device (reset r)) (ap (λ (t : ℕ). drop t bytes) start)
          (h.again r.buf h.valid.block);
    again = h.again;
  }

  skip_step :
      (fuel : ℕ) (r : FileReader) (discard part bytes : List ℕ) (to_skip : ℕ)
      {x : Run (Result ℕ × FileReader × List ℕ)}
      → 0 < to_skip
      → length part ≡ min to_skip 512
      → length discard ≡ 512
      → position r + to_skip ≤ r.file_size
      → Reads device r part bytes x
      → ((r' : FileReader) (discard' : List ℕ) (n : ℕ)
          → Holds device r' bytes
          → length discard' ≡ 512
          → 0 < n
          → n ≤ to_skip
          → position r' ≡ position r + n
          → Arrives (position r + to_skip) bytes (skip_loop device fuel r' discard' (to_skip - n)))
      → Arrives (position r + to_skip) bytes (
          after (within_buffer discard 0 x) λ n r' discard'. elim (n == 0) [
            | true ↦ done (err end_of_file, r', discard')
            | false ↦ skip_loop device fuel r' discard' (to_skip - n)
          ])
  skip_step fuel r discard part bytes to_skip more some size inside
        (reads n r' out' count kept given moved h) rest =
      rw (==_ne n 0 (omega arith), after)
        (rest r' (splice discard 0 out') n h (length-splice discard 0 out' (omega arith) ∙ size)
          (omega arith) (omega arith) moved)

  skip_loop-Arrives :
      (fuel : ℕ) (r : FileReader) (discard bytes : List ℕ) (to_skip : ℕ)
      → Holds device r bytes
      → length discard ≡ 512
      → to_skip ≤ fuel
      → position r + to_skip ≤ r.file_size
      → Arrives (position r + to_skip) bytes (skip_loop device fuel r discard to_skip)
  unfolding skip_loop read_first
  skip_loop-Arrives zero r discard bytes to_skip h size enough inside =
      let e : to_skip ≡ 0 = omega arith in rw e (arrives r discard (omega arith) h)
  skip_loop-Arrives (suc fuel) r discard bytes to_skip h size enough inside =
      elim (Bool-cases (to_skip == 0)) [
        | inl there ↦ rw (there, skip_loop) (arrives r discard (ground arith) h)
        | inr more ↦
            rw (more, skip_loop)
              (skip_step fuel r discard (take (min to_skip 512) discard) bytes to_skip
                (ground arith) (omega (arith, length-take (min to_skip 512) discard)) size inside
                (read-Reads device r (take (min to_skip 512) discard) bytes h)
                (λ r' discard' n h' size' pos below moved.
                  subst (λ t. Arrives t bytes (skip_loop device fuel r' discard' (to_skip - n)))
                    (omega arith)
                    (skip_loop-Arrives fuel r' discard' bytes (to_skip - n) h' size' (omega arith)
                      (omega (arith, h.size, h'.size)))))
      ]

  rewound-Holds :
      (r : FileReader) (target : ℕ) (bytes : List ℕ)
      → Holds device r bytes
      → Holds device (rewound r target) bytes
  rewound-Holds r target bytes h = elim (Bool-cases (ltb target (position r))) [
    | inl back ↦ rw back (reset-Holds r bytes h)
    | inr on ↦ rw on h
  ]

  -- For a reader that is at its position in a file of `bytes`, and a target within the file,
  -- `seek` succeeds, and leaves the reader at the target in the same file.
  pub seek-Arrives :
      (r : FileReader) (target : ℕ) (bytes : List ℕ)
      → Holds device r bytes
      → target ≤ r.file_size
      → Arrives target bytes (seek device r target)
  unfolding seek
  seek-Arrives r target bytes h inside =
      let start = rewound r target in
      let behind = position-rewound device r target in
      let within : ltb r.file_size target ≡ false = ground arith in
      rw (within, seek)
        (elim (Bool-cases (target == position r)) [
          | inl there ↦ rw there (arrives r (replicate 512 0) (ground arith) h)
          | inr away ↦ rw away (
              subst
                (λ t. Arrives t bytes (
                  skip_loop device (target - position start) start (replicate 512 0)
                    (target - position start)))
                (omega arith)
                (skip_loop-Arrives (target - position start) start (replicate 512 0) bytes
                  (target - position start) (rewound-Holds r target bytes h) refl (omega arith)
                  (omega (arith, h.size, (rewound-Holds r target bytes h).size))))
        ])
