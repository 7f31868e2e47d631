-- ===== src/Array/Insert.antt =====
-- block_array_inl.h, `insert` and `compact`, run by thread `tid` while the array is not yet visible to
-- others. `f` says what a new block's memory holds, `garbage` what the temporary array of pivots does.
use klsm.Base.{
  ℕ, zero, suc, ◌+◌, ◌-◌, ◌/◌, max, ltb, ◌==◌, Bool, Option, none, some, List, [], ◌∷◌,
  if◌then◌else◌, set, take, sub64,
}
use klsm.Block
use klsm.Block.{Block, Store, capacity, merge_at}
use klsm.Storage.{Fresh}
use klsm.Pool.{Pointer}
use klsm.Pivots.{nth_ix_in, count, max_blocks}
use klsm.Pivots.Resize.{grow, shrink}
use klsm.Base.State.{pure, lift, ◌>>=◌, ◌>>◌}
use klsm.Array.{
  BlockArray, M, deref, write, alloc, nth, block_set, block_insert, remove_null_blocks,
}

-- An assertion.
abbrev pub check : Bool → M (Unit {0})
check b = lift (if b then some tt else none)

module _ (f : Fresh) (s : Store) (tid rlx : ℕ) (garbage : List ℕ) where
  -- The first loop of `insert`, with the rounds left: the index of the first smaller block.
  unfoldable pub find_place : BlockArray → ℕ → ℕ → ℕ → M ℕ
  find_place a cap i zero = pure i
  find_place a cap i (suc left) = do
    q ← lift (nth a i)
    b ← deref q
    if ltb (capacity b) cap then pure i else find_place a cap (i + 1) left

  -- One merge of the second loop: `q` with the block `r` at index `i`.
  unfoldable pub merge_with : BlockArray → ℕ → Pointer → Pointer → M (Pointer × BlockArray)
  unfolding deref write alloc
  merge_with a i q r = do
    b ← deref q
    c ← deref r
    m ← alloc f tid (b.power_of_2 + 1)
    dst ← deref m
    write m (merge_at s dst b b.first c (nth_ix_in a.pivots 0 i))
    pure (m, record a { blocks = set a.blocks i none })

  -- The second loop, from index `i` down: the index where it ends, the block and the array.
  unfoldable pub merge_loop : BlockArray → ℕ → Pointer → M (ℕ × Pointer × BlockArray)
  unfolding deref merge_with
  merge_loop a zero q = pure (0, q, a)
  merge_loop a (suc i) q = elim (nth a i) [
    | none ↦ merge_loop a i q
    | some r ↦ do
      b ← deref q
      c ← deref r
      if ltb (capacity b) (capacity c) then pure (suc i, q, a) else (do
        check (capacity c == capacity b)
        (q', a') ← merge_with a i q r
        merge_loop a' i q')
  ]

  -- The body of the first loop of `compact`.
  unfoldable pub shrink_at : BlockArray → ℕ → M BlockArray
  unfolding deref write alloc block_set
  shrink_at a i = elim (nth a i) [
    | none ↦ pure a
    | some q ↦ do
      b ← deref q
      if ltb (sub64 b.last (nth_ix_in a.pivots 0 i)) (capacity b / 2)
          then (do
            m ← alloc f tid (b.power_of_2 - 1)
            dst ← deref m
            write m (Block.copy s dst b)
            block_set s rlx a i m)
          else pure a
  ]

  unfoldable pub shrink_blocks : BlockArray → ℕ → ℕ → M BlockArray
  unfolding shrink_at
  shrink_blocks a i zero = pure a
  shrink_blocks a i (suc left) = do a' ← shrink_at a i; shrink_blocks a' (i + 1) left

  -- The body of the second loop of `compact`: the blocks at `i` and `i + 1`.
  unfoldable pub merge_pair : BlockArray → ℕ → M BlockArray
  unfolding deref write alloc block_set
  merge_pair a i = do
    q ← lift (nth a i)
    r ← lift (nth a (i + 1))
    big ← deref q
    small ← deref r
    if ltb small.power_of_2 big.power_of_2 then pure a else (do
      m ← alloc f tid (max big.power_of_2 small.power_of_2 + 1)
      dst ← deref m
      write m (merge_at s dst big (nth_ix_in a.pivots 0 i) small (nth_ix_in a.pivots 0 (i + 1)))
      block_set s rlx (record a { blocks = set a.blocks (i + 1) none }) i m)

  -- From index `i - 1` down to 0.
  unfoldable pub merge_pairs : BlockArray → ℕ → M BlockArray
  unfolding merge_pair
  merge_pairs a zero = pure a
  merge_pairs a (suc i) = do a' ← merge_pair a i; merge_pairs a' i

  unfoldable pub compact : BlockArray → M BlockArray
  unfolding remove_null_blocks shrink_blocks merge_pairs
  compact a = do
    let b = remove_null_blocks a
    c ← shrink_blocks b 0 b.size
    d ← merge_pairs c (c.size - 1)
    pure (remove_null_blocks d)

  -- The blocks that `m_blocks` points to, and their write-back after `shrink` moved their starts.
  unfoldable pub deref_all : List (Option Pointer) → M (List Block)
  unfolding deref
  deref_all [] = pure []
  deref_all (q ∷ qs) = do p ← lift q; b ← deref p; bs ← deref_all qs; pure (b ∷ bs)

  unfoldable pub write_all : List (Option Pointer) → List Block → M (Unit {0})
  unfolding write
  write_all (some q ∷ qs) (b ∷ bs) = do write q b; write_all qs bs
  write_all _ _ = pure tt

  -- What `insert` does once the block is in place: compaction and new pivots.
  unfoldable pub finish : BlockArray → M BlockArray
  unfolding compact deref_all write_all
  finish a = do
    b ← compact (record a { size = a.size + 1 })
    blocks ← deref_all (take b.size b.blocks)
    let n = (count b.pivots b.size).0
    let p = (count b.pivots b.size).1
    if ltb (rlx + 1) n
        then (do
          r ← lift (shrink s tid rlx garbage blocks p)
          write_all (take b.size b.blocks) r.1
          pure (record b { pivots = r.2 }))
        else if ltb n (rlx / 2)
        then (do r ← lift (grow s rlx garbage n blocks p); pure (record b { pivots = r.1 }))
        else pure (record b { pivots = p })

  unfoldable pub insert : BlockArray → Pointer → M BlockArray
  unfolding find_place merge_loop block_insert block_set finish
  insert a q = if a.size == 0 then (do a' ← block_set s rlx a 0 q; finish a') else (do
    b ← deref q
    i ← find_place a (capacity b) 0 a.size
    check (ltb i max_blocks)
    (j, m, a') ← merge_loop a i q
    a'' ← block_insert s rlx a' j m
    finish a'')
