-- ===== src/Var/Probes.antt =====
-- What the probe has read and checked of the disk: src/varblock.rs, `probe` and `new`.
use affs_read.Prelude.{
  Bool, ◌∙◌, length, ℕ, zero, suc, ◌+◌, ◌-◌, ◌*◌, ◌/◌, ◌%◌, ◌^◌, ◌≤◌, ◌<◌, ◌≡◌, refl, true, false,
  not, List, Option, none, some, inl, inr, arith, replicate, Bool-cases, bit_and, ◌==◌, min, sym,
  eq_or,
}
use mathlib.Core.Path.{subst}
use affs_read.Error.{Result, ok, err, invalid_dos_type, Result-cases, ◌>>=◌}
use affs_read.Types.{SectorDevice, from_dos_type, ffs}
use affs_read.Checksum.{byte_at, read_u32_be_slice, read_i32_be_slice}
use affs_read.Block.Fields.{read_string}
use affs_read.Var.Sectors.{
  Failed, IsRead, read_sectors-IsRead, read_sectors-Failed, length-read_sectors,
}
use affs_read.Var.Valid.{IsFfsBoot, IsRootOf, is_boot_block_iff, is_root_block_iff}
use affs_read.Var.{
  ProbeResult, AffsReaderVar, probe_result, is_root_block, is_boot_block, read_sectors, size_loop,
  boot_loop, probe, new, max_block_size,
}

-- The volume that a root block of `size` bytes describes, with the FFS flags of the boot block's
-- fourth byte. The name and the creation date both stand at 92 bytes from the end.
pub volume : List ℕ → List ℕ → ℕ → ProbeResult
volume boot buf log_blocksize =
    let size = 512 * 2 ^ log_blocksize in
    record {
      fs_type = ffs;
      fs_flags = record {
        intl = not (bit_and (byte_at boot 3) 2 == 0);
        dircache = not (bit_and (byte_at boot 3) 4 == 0);
      };
      root_block = read_u32_be_slice boot 8;
      log_blocksize = log_blocksize;
      size = size;
      hash_size = read_u32_be_slice buf 12;
      disk_name = read_string buf (size - 92) 30;
      disk_name_len = min (byte_at buf (size - 92)) 30;
      creation_date = record {
        days = read_i32_be_slice buf (size - 92);
        mins = read_i32_be_slice buf (size - 88);
        ticks = read_i32_be_slice buf (size - 84);
      };
      last_modified = record {
        days = read_i32_be_slice buf (size - 40);
        mins = read_i32_be_slice buf (size - 36);
        ticks = read_i32_be_slice buf (size - 32);
      };
    }

-- Why there is no root block of a size at a number: a sector of it failed, or it was read and is
-- none.
pub data NoRoot (device : SectorDevice) (root_block log_blocksize : ℕ) : Type 0 where
  no_sector :
      Failed device (root_block * 2 ^ log_blocksize) (2 ^ log_blocksize)
      → NoRoot device root_block log_blocksize
  no_root :
      (buf : List ℕ)
      → IsRead device (root_block * 2 ^ log_blocksize) (512 * 2 ^ log_blocksize) buf
      → ¬ IsRootOf (512 * 2 ^ log_blocksize) buf
      → NoRoot device root_block log_blocksize

-- Why there is no volume whose boot block begins at a sector: one of the two sectors failed, or
-- they are no boot block, or the boot block has a root block of no size.
pub data NoVolume (device : SectorDevice) (boot_sector : ℕ) : Type 0 where
  no_sectors : Failed device boot_sector 2 → NoVolume device boot_sector
  no_boot :
      (boot : List ℕ)
      → IsRead device boot_sector 1024 boot
      → ¬ IsFfsBoot boot
      → NoVolume device boot_sector
  no_size :
      (boot : List ℕ)
      → IsRead device boot_sector 1024 boot
      → IsFfsBoot boot
      → ((k : ℕ) → k ≤ 4 → NoRoot device (read_u32_be_slice boot 8) k)
      → NoVolume device boot_sector

-- The root block was read at the smallest size at which there is one.
pub record RootRead (device : SectorDevice) (boot : List ℕ) (p : ProbeResult) : Type 0 where
  pub log_blocksize : ℕ
  pub size_known : log_blocksize ≤ 4
  pub smaller : (k : ℕ) → k < log_blocksize → NoRoot device (read_u32_be_slice boot 8) k
  pub buf : List ℕ
  pub root_read :
      IsRead device (read_u32_be_slice boot 8 * 2 ^ log_blocksize) (512 * 2 ^ log_blocksize) buf
  pub root_valid : IsRootOf (512 * 2 ^ log_blocksize) buf
  pub found : p ≡ volume boot buf log_blocksize

-- A boot block was read at sector 0, or at sector 1 where there is no volume at sector 0, with the
-- root block that it names.
pub record Probed (device : SectorDevice) (p : ProbeResult) : Type 0 where
  pub boot_sector : ℕ
  pub in_range : boot_sector ≤ 1
  pub earlier : (s : ℕ) → s < boot_sector → NoVolume device s
  pub boot : List ℕ
  pub boot_read : IsRead device boot_sector 1024 boot
  pub boot_valid : IsFfsBoot boot
  pub root_found : RootRead device boot p

-- The block sizes are at least a sector, and at most the size of the buffer.
size_bounds : (k : ℕ) → k ≤ 4 → (512 ≤ 512 * 2 ^ k) × (512 * 2 ^ k ≤ 8192)
size_bounds zero h = omega arith
size_bounds (suc zero) h = omega arith
size_bounds (suc (suc zero)) h = omega arith
size_bounds (suc (suc (suc zero))) h = omega arith
size_bounds (suc (suc (suc (suc zero)))) h = omega arith
size_bounds (suc (suc (suc (suc (suc k))))) h = absurd (omega arith)

same_volume :
    (boot buf : List ℕ) (k : ℕ)
    → k ≤ 4
    → probe_result buf (from_dos_type (byte_at boot 3)) (read_u32_be_slice boot 8) k
      ≡ volume boot buf k
unfolding probe_result volume from_dos_type
same_volume boot buf k h =
    let b = size_bounds k h in
    let name : 512 * 2 ^ k - 200 + 108 ≡ 512 * 2 ^ k - 92 = omega (arith, b) in
    let date : 512 * 2 ^ k - 200 + 420 - 312 ≡ 512 * 2 ^ k - 92 = omega (arith, b) in
    let mins : 512 * 2 ^ k - 92 + 4 ≡ 512 * 2 ^ k - 88 = omega (arith, b) in
    let ticks : 512 * 2 ^ k - 92 + 8 ≡ 512 * 2 ^ k - 84 = omega (arith, b) in
    let date' : 512 * 2 ^ k - 200 + 472 - 312 ≡ 512 * 2 ^ k - 40 = omega (arith, b) in
    let mins' : 512 * 2 ^ k - 40 + 4 ≡ 512 * 2 ^ k - 36 = omega (arith, b) in
    let ticks' : 512 * 2 ^ k - 40 + 8 ≡ 512 * 2 ^ k - 32 = omega (arith, b) in
    rw (probe_result, volume, name, date, mins, ticks, date', mins', ticks') refl

not_both : {b : Bool} → b ≡ false → ¬ (b ≡ true)
not_both f t = absurd (ground arith)

-- One more number, to those below a bound.
one_more : (P : ℕ → Type 0) (n : ℕ) → ((k : ℕ) → k < n → P k) → P n → (k : ℕ) → k < n + 1 → P k
one_more P n below here k h = elim (eq_or k n) [
  | inl e ↦ subst P (sym e) here
  | inr ne ↦ below k (omega arith)
]

module _ (device : SectorDevice) where
  -- What the loop over the sizes gives: its buffer, and what it found.
  data Sized (boot : List ℕ) : List ℕ × Option ProbeResult → Type 0 where
    sized : (buf : List ℕ) (p : ProbeResult) → RootRead device boot p → Sized boot (buf, some p)
    unsized :
        (buf : List ℕ)
        → length buf ≡ 8192
        → ((k : ℕ) → k ≤ 4 → NoRoot device (read_u32_be_slice boot 8) k)
        → Sized boot (buf, none)

  data Probes : Result ProbeResult → Type 0 where
    probed : (p : ProbeResult) → Probed device p → Probes (ok p)
    unknown : ((s : ℕ) → s ≤ 1 → NoVolume device s) → Probes (err invalid_dos_type)

  -- How `new` ends.
  pub data Mounts (total_sectors : ℕ) : Result AffsReaderVar → Type 0 where
    mounted :
        (r : AffsReaderVar)
        → Probed device r.probed
        → r.total_blocks ≡ total_sectors / 2 ^ r.probed.log_blocksize % 2 ^ 32
        → Mounts total_sectors (ok r)
    refused : ((s : ℕ) → s ≤ 1 → NoVolume device s) → Mounts total_sectors (err invalid_dos_type)

  size_loop-Sized :
      (left log_blocksize : ℕ) (boot buf : List ℕ)
      → log_blocksize + left ≡ 5
      → length buf ≡ 8192
      → ((k : ℕ) → k < log_blocksize → NoRoot device (read_u32_be_slice boot 8) k)
      → Sized boot (
          size_loop device left log_blocksize
            (from_dos_type (byte_at boot 3))
            (read_u32_be_slice boot 8)
            buf)
  unfolding size_loop
  size_loop-Sized zero log_blocksize boot buf e room smaller =
      unsized buf room (λ k h. smaller k (omega arith))
  size_loop-Sized (suc left) log_blocksize boot buf e room smaller =
      let root_block = read_u32_be_slice boot 8 in
      let size = 512 * 2 ^ log_blocksize in
      let start = root_block * 2 ^ log_blocksize in
      let sectors = read_sectors device start size buf in
      let fits : size ≤ length buf = omega (arith, room, size_bounds log_blocksize (omega arith)) in
      let room' = length-read_sectors device start size buf fits ∙ room in
      let tested = is_root_block_iff size sectors.0 (omega (arith, fits, room, room')) in
      let later = λ (none_here : NoRoot device root_block log_blocksize).
        size_loop-Sized left (log_blocksize + 1) boot sectors.0 (omega arith) room'
          (one_more (NoRoot device root_block) log_blocksize smaller none_here) in
      elim (Result-cases sectors.1) [
        | inr (failure, failed) ↦
            rw (failed, size_loop)
              (later (
                no_sector (
                  let all : size / 512 ≡ 2 ^ log_blocksize = omega arith in
                  subst (λ n. Failed device start n) all
                    (read_sectors-Failed device start size buf failure fits failed))))
        | inl (_, loaded) ↦
            let is_read = read_sectors-IsRead device start size buf fits loaded in
            elim (Bool-cases (is_root_block sectors.0 size)) [
              | inr other ↦
                  rw (loaded, size_loop)
                    (rw other (
                      later (no_root sectors.0 is_read (λ valid. not_both other (tested.1 valid)))))
              | inl checked ↦
                  rw (loaded, size_loop)
                    (rw checked (
                      sized sectors.0 _ (record {
                        log_blocksize = log_blocksize;
                        size_known = omega arith;
                        smaller = smaller;
                        buf = sectors.0;
                        root_read = is_read;
                        root_valid = tested.0 checked;
                        found = same_volume boot sectors.0 log_blocksize (omega arith);
                      })))
            ]
      ]

  found_or_later :
      (boot : List ℕ) (x : List ℕ × Option ProbeResult) (later : List ℕ → Result ProbeResult)
      → Sized boot x
      → ((p : ProbeResult) → RootRead device boot p → Probed device p)
      → ((buf : List ℕ)
          → length buf ≡ 8192
          → ((k : ℕ) → k ≤ 4 → NoRoot device (read_u32_be_slice boot 8) k)
          → Probes (later buf))
      → Probes (elim x.1 [ some result ↦ ok result | none ↦ later x.0 ])
  found_or_later boot x later (sized buf p root) at_size rest = probed p (at_size p root)
  found_or_later boot x later (unsized buf room none_there) at_size rest = rest buf room none_there

  boot_loop-Probes :
      (left boot_sector : ℕ) (buf : List ℕ)
      → boot_sector + left ≡ 2
      → length buf ≡ 8192
      → ((s : ℕ) → s < boot_sector → NoVolume device s)
      → Probes (boot_loop device left boot_sector buf)
  unfolding boot_loop
  boot_loop-Probes zero boot_sector buf e room earlier = unknown (λ s h. earlier s (omega arith))
  boot_loop-Probes (suc left) boot_sector buf e room earlier =
      let sectors = read_sectors device boot_sector 1024 buf in
      let boot = sectors.0 in
      let fits : 1024 ≤ length buf = omega arith in
      let room' = length-read_sectors device boot_sector 1024 buf fits ∙ room in
      let tested = is_boot_block_iff boot in
      let later =
        λ (buf' : List ℕ) (same : length buf' ≡ 8192) (none_here : NoVolume device boot_sector).
          boot_loop-Probes left (boot_sector + 1) buf' (omega arith) same
            (one_more (NoVolume device) boot_sector earlier none_here) in
      elim (Result-cases sectors.1) [
        | inr (failure, failed) ↦
            rw (failed, boot_loop)
              (later boot room'
                (no_sectors (read_sectors-Failed device boot_sector 1024 buf failure fits failed)))
        | inl (_, loaded) ↦
            let is_read = read_sectors-IsRead device boot_sector 1024 buf fits loaded in
            elim (Bool-cases (is_boot_block boot)) [
              | inr other ↦
                  rw (loaded, boot_loop)
                    (rw other (
                      later boot room'
                        (no_boot boot is_read (λ valid. not_both other (tested.1 valid)))))
              | inl checked ↦
                  rw (loaded, boot_loop)
                    (rw checked (
                      found_or_later boot
                        (size_loop device 5 0 (from_dos_type (byte_at boot 3))
                          (read_u32_be_slice boot 8) boot)
                        (boot_loop device left (boot_sector + 1))
                        (size_loop-Sized 5 0 boot boot refl room' (λ k h. absurd (omega arith)))
                        (λ p root. record {
                          boot_sector = boot_sector;
                          in_range = omega arith;
                          earlier = earlier;
                          boot = boot;
                          boot_read = is_read;
                          boot_valid = tested.0 checked;
                          root_found = root;
                        })
                        (λ buf' room'' none_there.
                          later buf' room'' (no_size boot is_read (tested.0 checked) none_there))))
            ]
      ]

  Probes-mounted :
      (total_sectors : ℕ) (probing : Result ProbeResult)
      → Probes probing
      → Mounts total_sectors (do
        result ← probing
        ok (record {
          probed = result;
          total_blocks = total_sectors / 2 ^ result.log_blocksize % 2 ^ 32;
        }))
  Probes-mounted total_sectors probing (probed p checks) = mounted _ checks refl
  Probes-mounted total_sectors probing (unknown none_there) = refused none_there

  -- `new` gives a reader of the volume at sector 0, or else of that at sector 1, or refuses the disk
  -- with an invalid DOS type, with the reason why there is no volume at either. A volume has, as the
  -- device answered sector by sector: two sectors that begin with `DOS`, have the flag of FFS, and
  -- no boot code or the complement of the plain sum of their longwords; and, at the smallest of
  -- the sizes of 512 to 8192 bytes, a root block of the types, with a table size other than 0 and
  -- the negated plain sum of its longwords, at the number in longword 2 of the boot block. The
  -- fields of the reader stand at their offsets in these blocks, and its count of blocks is that
  -- of the sectors at this size, cut to 32 bits. A reason is a sector that failed or that was read
  -- and is not such a block.
  pub new-Mounts : (total_sectors : ℕ) → Mounts total_sectors (new device total_sectors)
  unfolding new probe
  new-Mounts total_sectors =
      Probes-mounted total_sectors (probe device)
        (boot_loop-Probes 2 0 (replicate max_block_size 0) refl refl (λ s h. absurd (omega arith)))
