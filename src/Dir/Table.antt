-- ===== src/Dir/Table.antt =====
-- A hash table as the list of its chains: src/dir.rs, `DirIter::new` and the slots that `next` goes
-- through.
use affs_read.Prelude.{
  ℕ, zero, suc, ◌+◌, ◌-◌, ◌*◌, ◌≤◌, ◌<◌, ◌≡◌, refl, ap, sym, ◌∙◌, Bool, List, [], ◌++◌, arith,
  length, get_or, eq_or, inl, inr,
}
use mathlib.Core.Path.{subst}
use affs_read.Constants.{hash_table_size}
use affs_read.Types.{BlockDevice}
use affs_read.Block.Entry.{EntryBlock}
use affs_read.Dir.{DirIter, new, seek_slot, zero_block}
use affs_read.Dir.Find.{Chain}
use affs_read.Dir.Walk.{Ahead, rounds, sought, seek_slot_free, seek_slot_used}

-- The entry blocks of the chains of a run of slots, one chain after the other.
unfoldable pub listing : (ℕ → List (ℕ × EntryBlock)) → ℕ → ℕ → List (ℕ × EntryBlock)
listing chains slot zero = []
listing chains slot (suc left) = chains slot ++ listing chains (slot + 1) left

module _ (device : BlockDevice) where
  -- Each slot of a table heads a chain, whatever the buffer has before.
  pub record IsTable (table : List ℕ) (chains : ℕ → List (ℕ × EntryBlock)) : Type 0 where
    pub chain :
        (slot : ℕ)
        → slot < hash_table_size
        → (buf : List ℕ) → Chain device (get_or table slot 0) buf (chains slot)

  empty-Chain :
      {block : ℕ} {buf : List ℕ} {es : List (ℕ × EntryBlock)}
      → Chain device block buf es
      → block ≡ 0
      → es ≡ []
  empty-Chain (Chain.stop e) e' = refl
  empty-Chain (Chain.link ne loaded rest) e' = absurd (ne e')

  -- Iterators that come to the same slot have the same blocks ahead.
  same_sought :
      {it it' : DirIter} {es : List (ℕ × EntryBlock)}
      → it.current_chain ≡ 0
      → it'.current_chain ≡ 0
      → sought it ≡ sought it'
      → Ahead device it es
      → Ahead device it' es
  same_sought e e' same (Ahead.finished f f') =
      Ahead.finished e' (sym (ap (λ (i : DirIter). i.current_chain) same) ∙ f')
  same_sought {it} {it'} e e' same (Ahead.slot {es = es} f used rest) =
      Ahead.slot e' (λ z. used (ap (λ (i : DirIter). i.current_chain) same ∙ z))
        (subst (λ (i : DirIter). Ahead device i es) same rest)
  same_sought e e' same (Ahead.link ne loaded rest) = absurd (ne e)

  -- A slot that heads a chain is followed by a block of the chain, so that a walk takes at most two rounds for a block.
  pub rounds_bound :
      {it : DirIter} {es : List (ℕ × EntryBlock)} (ahead : Ahead device it es)
      → rounds device ahead ≤ 2 * length es + 1
  unfolding rounds
  rounds_bound (Ahead.finished e e') = omega arith
  rounds_bound (Ahead.slot e used (Ahead.finished f f')) = absurd (used f)
  rounds_bound (Ahead.slot e used (Ahead.slot f ne rest)) = absurd (used f)
  rounds_bound (Ahead.slot e used (Ahead.link ne loaded rest)) =
      let tail = rounds_bound rest in omega arith
  rounds_bound (Ahead.link ne loaded rest) = let tail = rounds_bound rest in omega arith

  module _ (table : List ℕ) (intl : Bool) where
    abbrev iter_at : ℕ → ℕ → List ℕ → DirIter
    iter_at slot block buf = record {
      hash_table = table;
      hash_index = slot;
      current_chain = block;
      intl = intl;
      buf = buf;
    }

    -- The blocks of a chain are ahead, and behind them what its end has ahead.
    Chain-Ahead :
        (slot : ℕ) (rest : List (ℕ × EntryBlock))
        → ((buf : List ℕ) → Ahead device (iter_at slot 0 buf) rest)
        → {block : ℕ} {buf : List ℕ} {es : List (ℕ × EntryBlock)} → Chain device block buf es
        → Ahead device (iter_at slot block buf) (es ++ rest)
    Chain-Ahead slot rest behind {buf = buf} (Chain.stop e) = rw e (behind buf)
    Chain-Ahead slot rest behind (Chain.link ne loaded chain) =
        Ahead.link ne loaded (Chain-Ahead slot rest behind chain)

    -- The slots that are left at a slot.
    sought_at :
        (left slot : ℕ) (buf : List ℕ)
        → slot + left ≡ hash_table_size
        → sought (iter_at slot 0 buf) ≡ seek_slot left (iter_at slot 0 buf)
    sought_at left slot buf total =
        let count : hash_table_size - slot ≡ left = omega arith in
        ap (λ (n : ℕ). seek_slot n (iter_at slot 0 buf)) count

    module _ (chains : ℕ → List (ℕ × EntryBlock)) (is_table : IsTable table chains) where
      slots-Ahead :
          (left slot : ℕ) (buf : List ℕ)
          → slot + left ≡ hash_table_size
          → Ahead device (iter_at slot 0 buf) (listing chains slot left)
      unfolding listing seek_slot
      slots-Ahead zero slot buf total =
          let at_end = sought_at 0 slot buf total in
          Ahead.finished refl (ap (λ (i : DirIter). i.current_chain) at_end)
      slots-Ahead (suc left) slot buf total = elim (eq_or (get_or table slot 0) 0) [
        | inl free ↦
            let past =
              sought_at (suc left) slot buf total
              ∙ seek_slot_free left (iter_at slot 0 buf) free
              ∙ sym (sought_at left (slot + 1) buf (omega arith)) in
            let empty = empty-Chain (is_table.chain slot (omega arith) buf) free in
            rw empty
              (same_sought refl refl (sym past) (slots-Ahead left (slot + 1) buf (omega arith)))
        | inr used ↦
            let there =
              sought_at (suc left) slot buf total ∙ seek_slot_used left (iter_at slot 0 buf) used in
            let behind = λ (b : List ℕ). slots-Ahead left (slot + 1) b (omega arith) in
            let chain = is_table.chain slot (omega arith) buf in
            Ahead.slot refl (λ z. used (sym (ap (λ (i : DirIter). i.current_chain) there) ∙ z))
              (subst (λ (i : DirIter). Ahead device i (listing chains slot (suc left))) (sym there)
                (Chain-Ahead (slot + 1) (listing chains (slot + 1) left) behind chain))
      ]

      -- A new iterator over the table has the blocks of all slots ahead.
      pub new-Ahead : Ahead device (new table intl) (listing chains 0 hash_table_size)
      unfolding new
      new-Ahead = slots-Ahead hash_table_size 0 zero_block refl
