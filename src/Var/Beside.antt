-- ===== src/Var/Beside.antt =====
-- The loads of the variable reader's iterator where it stands beside one of the 512-byte reader, at
-- blocks of 512 bytes: src/varblock.rs, `VarDirIter::read_block_into` and `next`.
use affs_read.Prelude.{
  ℕ, zero, suc, ◌+◌, ◌-◌, ◌*◌, ◌%◌, ◌^◌, ◌≤◌, ◌<◌, ◌≡◌, ◌≢◌, refl, ap, ◌∙◌, true, false, List,
  Option, none, some, arith, length, get_or, eq_or, inl, inr, ==_eq, ==_ne, lt→ltb, take, drop,
  splice, take-append_left, take_all, get_or-append_left,
}
use affs_read.Constants.{hash_table_size}
use affs_read.Error.{Result, ok, err, block_read_error}
use affs_read.Run.{Run, done}
use affs_read.Types.{BlockDevice, sector_device}
use affs_read.Checksum.{read_u32_be_slice, read_u32_be}
use affs_read.Block.Entry
use affs_read.Block.Entry.{EntryBlock}
use affs_read.Dir
use affs_read.Dir.{DirEntry, DirIter, from_entry_block, load_entry, zero_block}
use affs_read.Dir.Walk.{past_slot, stepped}
use affs_read.Var.{sectors_loop, zero_sector}
use affs_read.Var.Dirs.{VarDirEntry, VarDirIter, seek_slot, load_block, parse_entry, next}
use affs_read.Var.Sectors.{zero_sector-IsBytes}

-- The device answers a read by the number of the block alone.
pub record IsSteady (device : BlockDevice) : Type 0 where
  pub same_result :
      (block : ℕ) (buf buf' : List ℕ)
      → (device.read_block block buf).1 ≡ (device.read_block block buf').1
  pub same_bytes :
      (block : ℕ) (buf buf' : List ℕ)
      → (device.read_block block buf).1 ≡ true
      → (device.read_block block buf).0 ≡ (device.read_block block buf').0

-- The variable reader's iterator at the place of another one, over its own table and buffer.
abbrev pub beside : DirIter → List ℕ → List ℕ → VarDirIter
beside it table buf = record {
  hash_table = table;
  hash_size = hash_table_size;
  hash_index = it.hash_index;
  current_chain = it.current_chain;
  log_blocksize = 0;
  size = 512;
  buf = buf;
}

-- A table of the variable reader begins with the slots of another table.
pub record Begins (slots table : List ℕ) : Type 0 where
  pub long : hash_table_size ≤ length table
  pub slot : (k : ℕ) → k < hash_table_size → get_or table k 0 ≡ get_or slots k 0

pub seek_slot-beside :
    (table buf : List ℕ) (left : ℕ) (it : DirIter)
    → Begins it.hash_table table
    → it.hash_index + left ≤ hash_table_size
    → seek_slot left (beside it table buf) ≡ done (beside (Dir.seek_slot left it) table buf)
unfolding seek_slot Dir.seek_slot
seek_slot-beside table buf zero it same inside = refl
seek_slot-beside table buf (suc left) it same inside =
    let there = lt→ltb it.hash_index (length table) (omega (arith, same.long)) in
    let slot = same.slot it.hash_index (omega arith) in
    elim (eq_or (get_or it.hash_table it.hash_index 0) 0) [
      | inl free ↦
          rw (there, slot, ==_eq _ _ free, seek_slot, Dir.seek_slot)
            (seek_slot-beside table buf left (past_slot it) same (omega arith))
      | inr used ↦ rw (there, slot, ==_ne _ _ used, seek_slot, Dir.seek_slot) refl
    ]

module _ (device : BlockDevice) where
  abbrev pub sector_at : ℕ → List ℕ
  sector_at block = (device.read_block block zero_sector).0

  -- The read of one sector, into its place at the start of the buffer.
  one_sector_read :
      (block : ℕ) (buf : List ℕ)
      → block < 2 ^ 32
      → (device.read_block block zero_sector).1 ≡ true
      → sectors_loop (sector_device device) 1 0 (block * 1) zero_sector buf
        ≡ (splice buf 0 (sector_at block), ok tt)
  unfolding sectors_loop sector_device
  one_sector_read block buf small good =
      let number : (block * 1 + 0) % 2 ^ 32 ≡ block = omega arith in
      rw (number, good, sectors_loop) refl

  one_sector_unread :
      (block : ℕ) (buf : List ℕ)
      → block < 2 ^ 32
      → (device.read_block block zero_sector).1 ≡ false
      → sectors_loop (sector_device device) 1 0 (block * 1) zero_sector buf
        ≡ (buf, err block_read_error)
  unfolding sectors_loop sector_device
  one_sector_unread block buf small bad =
      let number : (block * 1 + 0) % 2 ^ 32 ≡ block = omega arith in
      rw (number, bad, sectors_loop) refl

  -- What a call does once it has loaded the block of a chain.
  abbrev after_load :
      ℕ
      → VarDirIter
      → VarDirIter × Result (Unit {0})
      → Run (Option (Result VarDirEntry) × VarDirIter)
  after_load fuel it (it1, loaded) = elim loaded [
    | err e ↦ done (some (err e), it1)
    | ok _ ↦
        let it2 = record it1 { current_chain = read_u32_be_slice it1.buf (it.size - 16) } in
        elim (parse_entry (take it.size it1.buf) it.size it.current_chain) [
          | some entry ↦ done (some (ok entry), it2)
          | none ↦ next (sector_device device) fuel it2
        ]
  ]

  next-after_load :
      (fuel : ℕ) (it : VarDirIter)
      → it.current_chain ≢ 0
      → next (sector_device device) (suc fuel) it
        ≡ after_load fuel it (load_block (sector_device device) it)
  unfolding next
  next-after_load fuel it chained = rw (==_ne _ _ chained, next) refl

  -- The loads of the two, at the same block.
  module _ (steady : IsSteady device) (it : DirIter) (table buf : List ℕ) where
    abbrev pub sector : List ℕ
    sector = sector_at it.current_chain

    load_block-read :
        it.current_chain < 2 ^ 32
        → (device.read_block it.current_chain zero_sector).1 ≡ true
        → load_block (sector_device device) (beside it table buf)
          ≡ (beside it table (splice buf 0 sector), ok tt)
    unfolding load_block
    load_block-read small good =
        ap (λ (x : List ℕ × Result (Unit {0})). (beside it table x.0, x.1))
          (one_sector_read it.current_chain buf small good)

    load_block-unread :
        it.current_chain < 2 ^ 32
        → (device.read_block it.current_chain zero_sector).1 ≡ false
        → load_block (sector_device device) (beside it table buf)
          ≡ (beside it table buf, err block_read_error)
    unfolding load_block
    load_block-unread small bad =
        ap (λ (x : List ℕ × Result (Unit {0})). (beside it table x.0, x.1))
          (one_sector_unread it.current_chain buf small bad)

    -- Where the block is read, the loaded entry is that of the sector.
    pub load_entry-read :
        (device.read_block it.current_chain zero_sector).1 ≡ true
        → (load_entry device it.current_chain it.buf).1 ≡ Entry.parse sector
    unfolding load_entry
    load_entry-read good =
        let good' = steady.same_result it.current_chain it.buf zero_sector ∙ good in
        rw (good', load_entry)
          (ap Entry.parse (steady.same_bytes it.current_chain it.buf zero_sector good'))

    pub load_entry-unread :
        (device.read_block it.current_chain zero_sector).1 ≡ false
        → (load_entry device it.current_chain it.buf).1 ≡ err block_read_error
    unfolding load_entry
    load_entry-unread bad =
        let bad' = steady.same_result it.current_chain it.buf zero_sector ∙ bad in
        rw (bad', load_entry) refl

    module _ (chained : it.current_chain ≢ 0) (small : it.current_chain < 2 ^ 32) where
      pub next-unread :
          (fuel : ℕ)
          → (device.read_block it.current_chain zero_sector).1 ≡ false
          → next (sector_device device) (suc fuel) (beside it table buf)
            ≡ done (some (err block_read_error), beside it table buf)
      next-unread fuel bad =
          next-after_load fuel (beside it table buf) chained
          ∙ ap (after_load fuel (beside it table buf)) (load_block-unread small bad)

      module _ (long : 512 ≤ length buf)
          (good : (device.read_block it.current_chain zero_sector).1 ≡ true) where
        pub sector_size : length sector ≡ 512
        sector_size =
            (device.read_block-IsBytes it.current_chain zero_sector zero_sector-IsBytes).size

        sector_back : take 512 (splice buf 0 sector) ≡ sector
        unfolding splice
        sector_back =
            take-append_left 512 sector (drop (0 + length sector) buf) (omega (arith, sector_size))
            ∙ take_all 512 sector (omega (arith, sector_size))

        link_back :
            read_u32_be_slice (splice buf 0 sector) 496 ≡ (Entry.decode sector).next_same_hash
        unfolding splice read_u32_be_slice Entry.decode read_u32_be
        link_back =
            let s = sector_size in
            let rest = drop (0 + length sector) buf in
            let byte = λ (i : ℕ) (h : i < 512). get_or-append_left sector rest i 0 (omega arith) in
            rw
              (
                byte 496 (omega arith),
                byte 497 (omega arith),
                byte 498 (omega arith),
                byte 499 (omega arith),
              )
              refl

        pub next-given :
            (fuel : ℕ) (v : VarDirEntry)
            → parse_entry sector 512 it.current_chain ≡ some v
            → next (sector_device device) (suc fuel) (beside it table buf)
              ≡ done (
                some (ok v),
                beside (stepped device it (Entry.decode sector)) table (splice buf 0 sector),
              )
        next-given fuel v parsed =
            next-after_load fuel (beside it table buf) chained
            ∙ ap (after_load fuel (beside it table buf)) (load_block-read small good)
            ∙ rw (sector_back, parsed, link_back, after_load) refl

        pub next-passed :
            (fuel : ℕ)
            → parse_entry sector 512 it.current_chain ≡ none
            → next (sector_device device) (suc fuel) (beside it table buf)
              ≡ next
                  (sector_device device)
                  fuel
                  (beside (stepped device it (Entry.decode sector)) table (splice buf 0 sector))
        next-passed fuel untyped =
            next-after_load fuel (beside it table buf) chained
            ∙ ap (after_load fuel (beside it table buf)) (load_block-read small good)
            ∙ rw (sector_back, untyped, link_back, after_load) refl
