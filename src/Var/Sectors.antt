-- ===== src/Var/Sectors.antt =====
-- What `read_sectors` leaves in its buffer: src/varblock.rs.
use affs_read.Prelude.{
  false, ℕ, zero, suc, ◌+◌, ◌-◌, ◌*◌, ◌/◌, ◌≤◌, ◌<◌, ◌≡◌, refl, sym, ap, ap₂, ◌∙◌, Bool, true, List,
  ◌++◌, inl, inr, arith, length, take, drop, slice, splice, length-splice, take-splice,
  take-splice_end, drop-take, drop-append_left, length-take, All-replicate, Bool-cases, take-take,
  ◌==◌, drop_all,
}
use mathlib.Core.Path.{subst}
use affs_read.Error.{AffsError, Result, ok, err, block_read_error}
use affs_read.Types.{SectorDevice, IsBytes}
use affs_read.Var.{sectors_loop, read_sectors, zero_sector}

-- The device answered the sector with these bytes.
pub record Answered (device : SectorDevice) (sector : ℕ) (bytes : List ℕ) : Type 0 where
  pub before : List ℕ
  pub answer : device.read_sector sector before ≡ (bytes, true)

-- The device failed on one of the `count` sectors from `start` on.
pub record Failed (device : SectorDevice) (start count : ℕ) : Type 0 where
  pub index : ℕ
  pub inside : index < count
  pub before : List ℕ
  pub answer : (device.read_sector (start + index) before).1 ≡ false

-- `ys`, written at `start`, stand there as long as nothing before their end changes.
written :
    (xs xs' : List ℕ) (start : ℕ) (ys : List ℕ)
    → start + length ys ≤ length xs
    → take (start + length ys) xs' ≡ take (start + length ys) (splice xs start ys)
    → slice xs' start (start + length ys) ≡ ys
unfolding slice
written xs xs' start ys h same =
    let size : start + length ys - start ≡ length ys = omega arith in
    let front : length (take start xs) ≡ start = omega (arith, length-take start xs) in
    ap (λ n. take n (drop start xs')) size
    ∙ sym (drop-take start (length ys) (start + length ys) xs' refl)
    ∙ ap (drop start) (same ∙ take-splice_end xs start ys h)
    ∙ drop-append_left start (take start xs) ys (omega (arith, front))
    ∙ ap (λ t. t ++ ys) (drop_all start (take start xs) (omega (arith, front)))

pub zero_sector-IsBytes : IsBytes 512 zero_sector
zero_sector-IsBytes = record {
  size = refl;
  bytes = All-replicate (λ b. b < 256) 512 0 (omega arith);
}

module _ (device : SectorDevice) where
  -- What the loop over the sectors from index i on has done to the buffer.
  data Filled (start i left : ℕ) (buf : List ℕ) : List ℕ × Result (Unit {0}) → Type 0 where
    filled :
        (buf' : List ℕ)
        → length buf' ≡ length buf
        → take (i * 512) buf' ≡ take (i * 512) buf
        → ((j : ℕ)
            → i ≤ j
            → j < i + left
            → Answered device (start + j) (slice buf' (j * 512) (j * 512 + 512)))
        → Filled start i left buf (buf', ok tt)
    failed :
        (buf' : List ℕ)
        → length buf' ≡ length buf
        → Failed device start (i + left)
        → Filled start i left buf (buf', err block_read_error)

  Filled-step :
      (start i left : ℕ) (sector_buf buf : List ℕ) (x : List ℕ × Result (Unit {0}))
      → (device.read_sector (start + i) sector_buf).1 ≡ true
      → length (device.read_sector (start + i) sector_buf).0 ≡ 512
      → (i + suc left) * 512 ≤ length buf
      → Filled start
          (i + 1)
          left
          (splice buf (i * 512) (device.read_sector (start + i) sector_buf).0)
          x
      → Filled start i (suc left) buf x
  Filled-step start i left sector_buf buf x good size fits (failed buf' same why) =
      failed buf'
        (same
          ∙ length-splice buf (i * 512) (device.read_sector (start + i) sector_buf).0
              (omega (arith, size)))
        (record {
          index = why.index;
          inside = omega (arith, why.inside);
          before = why.before;
          answer = why.answer;
        })
  Filled-step start i left sector_buf buf x good size fits (filled buf' same kept rest) =
      let sector = (device.read_sector (start + i) sector_buf).0 in
      let written_buf = splice buf (i * 512) sector in
      let end_ : i * 512 + length sector ≡ (i + 1) * 512 = omega (arith, size) in
      let here : slice buf' (i * 512) (i * 512 + length sector) ≡ sector =
        written buf buf' (i * 512) sector (omega (arith, size))
          (ap (λ n. take n buf') end_ ∙ kept ∙ ap (λ n. take n written_buf) (sym end_)) in
      let first : Answered device (start + i) (slice buf' (i * 512) (i * 512 + 512)) = record {
        before = sector_buf;
        answer =
            ap₂ (λ (t : List ℕ) (b : Bool). (t, b))
              (sym here ∙ ap (λ n. slice buf' (i * 512) (i * 512 + n)) size) good;
      } in
      filled buf' (same ∙ length-splice buf (i * 512) sector (omega (arith, size)))
        (sym (take-take (i * 512) ((i + 1) * 512) buf' (omega arith))
          ∙ ap (take (i * 512)) kept
          ∙ take-take (i * 512) ((i + 1) * 512) written_buf (omega arith)
          ∙ take-splice (i * 512) buf (i * 512) sector (omega arith) (omega arith))
        (λ j lo hi. elim (Bool-cases (j == i)) [
          | inl e ↦
              subst (λ k. Answered device (start + k) (slice buf' (k * 512) (k * 512 + 512)))
                (ground arith) first
          | inr ne ↦ rest j (ground arith) (omega arith)
        ])

  sectors_loop-Filled :
      (left i start : ℕ) (sector_buf buf : List ℕ)
      → IsBytes 512 sector_buf
      → (i + left) * 512 ≤ length buf
      → Filled start i left buf (sectors_loop device left i start sector_buf buf)
  unfolding sectors_loop
  sectors_loop-Filled zero i start sector_buf buf h fits =
      filled buf refl refl (λ j lo hi. absurd (omega arith))
  sectors_loop-Filled (suc left) i start sector_buf buf h fits =
      let sector = (device.read_sector (start + i) sector_buf).0 in
      let held = device.read_sector-IsBytes (start + i) sector_buf h in
      elim (Bool-cases (device.read_sector (start + i) sector_buf).1) [
        | inr bad ↦
            rw (bad, sectors_loop)
              (failed buf refl
                (record { index = i; inside = omega arith; before = sector_buf; answer = bad }))
        | inl good ↦
            rw (good, sectors_loop)
              (Filled-step start i left sector_buf buf _ good held.size fits (
                sectors_loop-Filled left (i + 1) start sector (splice buf (i * 512) sector) held (
                  omega (
                    arith,
                    held.size,
                    length-splice buf (i * 512) sector (omega (arith, held.size)),
                  ))))
      ]

  read-Filled :
      (start len : ℕ) (buf : List ℕ)
      → len ≤ length buf
      → Filled start 0 (len / 512) buf (read_sectors device start len buf)
  unfolding read_sectors
  read-Filled start len buf fits =
      sectors_loop-Filled (len / 512) 0 start zero_sector buf zero_sector-IsBytes (omega arith)

  -- The buffer has, sector by sector, what the device answered for the sectors from `start` on, as
  -- many as fill `len` bytes.
  abbrev pub IsRead : ℕ → ℕ → List ℕ → Type 0
  IsRead start len buf =
      (j : ℕ) → j < len / 512 → Answered device (start + j) (slice buf (j * 512) (j * 512 + 512))

  Filled-Answered :
      (start count : ℕ) (buf : List ℕ) (x : List ℕ × Result (Unit {0}))
      → Filled start 0 count buf x
      → x.1 ≡ ok tt
      → (j : ℕ) → j < count
      → Answered device (start + j) (slice x.0 (j * 512) (j * 512 + 512))
  Filled-Answered start count buf x (filled buf' same kept each) e j h =
      each j (omega arith) (omega arith)
  Filled-Answered start count buf x (failed buf' same why) e j h = absurd (ground arith)

  length-Filled :
      (start count : ℕ) (buf : List ℕ) (x : List ℕ × Result (Unit {0}))
      → Filled start 0 count buf x
      → length x.0 ≡ length buf
  length-Filled start count buf x (filled buf' same kept each) = same
  length-Filled start count buf x (failed buf' same why) = same

  Filled-Failed :
      (start count : ℕ) (buf : List ℕ) (x : List ℕ × Result (Unit {0})) (failure : AffsError)
      → Filled start 0 count buf x
      → x.1 ≡ err failure
      → Failed device start count
  Filled-Failed start count buf x failure (filled buf' same kept each) e = absurd (ground arith)
  Filled-Failed start count buf x failure (failed buf' same why) e = record {
    index = why.index;
    inside = omega (arith, why.inside);
    before = why.before;
    answer = why.answer;
  }

  pub read_sectors-Failed :
      (start len : ℕ) (buf : List ℕ) (failure : AffsError)
      → len ≤ length buf
      → (read_sectors device start len buf).1 ≡ err failure
      → Failed device start (len / 512)
  read_sectors-Failed start len buf failure fits e =
      Filled-Failed start (len / 512) buf _ failure (read-Filled start len buf fits) e

  pub read_sectors-IsRead :
      (start len : ℕ) (buf : List ℕ)
      → len ≤ length buf
      → (read_sectors device start len buf).1 ≡ ok tt
      → IsRead start len (read_sectors device start len buf).0
  read_sectors-IsRead start len buf fits e =
      Filled-Answered start (len / 512) buf _ (read-Filled start len buf fits) e

  pub length-read_sectors :
      (start len : ℕ) (buf : List ℕ)
      → len ≤ length buf
      → length (read_sectors device start len buf).0 ≡ length buf
  length-read_sectors start len buf fits =
      length-Filled start (len / 512) buf _ (read-Filled start len buf fits)
