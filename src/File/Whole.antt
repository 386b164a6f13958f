-- ===== src/File/Whole.antt =====
-- src/file.rs: `read_all` and `seek`, which call `read` until they have what they want.
use affs_read.Prelude.{
  ℕ, zero, suc, ◌+◌, ◌-◌, true, false, List, min, ltb, ◌==◌, if◌then◌else◌, length, take, drop,
  replicate, splice,
}
use affs_read.Error.{Result, ok, err, end_of_file, buffer_too_small}
use affs_read.Run.{Run, done, panic, out_of_fuel}
use affs_read.Types.{BlockDevice}
use affs_read.File.{FileReader, position, reset, read}

-- A method's outcome: its result, the reader and the buffer.
abbrev pub Outcome {ℓ} : Type ℓ → Type ℓ
Outcome A = Run (Result A × FileReader × List ℕ)

-- `self.method()?`, and then the rest.
abbrev pub after {ℓ} :
    {A B : Type ℓ} → Outcome A → (A → FileReader → List ℕ → Outcome B) → Outcome B
after (done (ok a, r, out)) rest = rest a r out
after (done (err e, r, out)) rest = done (err e, r, out)
after panic rest = panic
after out_of_fuel rest = out_of_fuel

-- What a call on `&mut out[start..]`, or on a part that begins there, leaves in `out`.
abbrev pub within_buffer : List ℕ → ℕ → Outcome ℕ → Outcome ℕ
within_buffer out start (done (n, r, part)) = done (n, r, splice out start part)
within_buffer out start panic = panic
within_buffer out start out_of_fuel = out_of_fuel

-- For a seek backwards the reader starts over.
abbrev pub rewound : FileReader → ℕ → FileReader
rewound r target = if ltb target (position r) then reset r else r

module _ (device : BlockDevice) where
  -- `self.read(&mut out[start..])`
  unfoldable pub read_from : FileReader → List ℕ → ℕ → Outcome ℕ
  read_from r out start = within_buffer out start (read device r (drop start out))

  unfoldable pub read_all_loop : ℕ → FileReader → List ℕ → ℕ → Outcome ℕ
  read_all_loop zero r out total = if r.remaining == 0 then done (ok total, r, out) else out_of_fuel
  read_all_loop (suc fuel) r out total = elim (r.remaining == 0) [
    | true ↦ done (ok total, r, out)
    | false ↦ after (read_from r out total) λ n r' out'. elim (n == 0) [
      | true ↦ done (ok total, r', out')
      | false ↦ read_all_loop fuel r' out' (total + n)
    ]
  ]

  unfoldable pub read_all : FileReader → List ℕ → Outcome ℕ
  read_all r out =
      if ltb (length out) r.remaining
      then done (err buffer_too_small, r, out)
      else read_all_loop r.remaining r out 0

  -- `self.read(&mut discard[..k])`
  unfoldable pub read_first : FileReader → List ℕ → ℕ → Outcome ℕ
  read_first r discard k = within_buffer discard 0 (read device r (take k discard))

  -- The loop of `seek`; the buffer is `discard`.
  unfoldable pub skip_loop : ℕ → FileReader → List ℕ → ℕ → Outcome (Unit {0})
  skip_loop zero r discard to_skip = if to_skip == 0 then done (ok tt, r, discard) else out_of_fuel
  skip_loop (suc fuel) r discard to_skip = elim (to_skip == 0) [
    | true ↦ done (ok tt, r, discard)
    | false ↦ after (read_first r discard (min to_skip 512)) λ n r' discard'. elim (n == 0) [
      | true ↦ done (err end_of_file, r', discard')
      | false ↦ skip_loop fuel r' discard' (to_skip - n)
    ]
  ]

  unfoldable pub seek : FileReader → ℕ → Outcome (Unit {0})
  seek r target =
      if ltb r.file_size target
      then done (err end_of_file, r, replicate 512 0)
      else if target == position r
      then done (ok tt, r, replicate 512 0)
      else skip_loop (target - position (rewound r target)) (rewound r target) (replicate 512 0)
          (target - position (rewound r target))
