-- ===== src/Dist/Peek.antt =====
-- dist_lsm_local_inl.h, `peek`, `safe_peek`, `spy` and `delete_min`.
use klsm.Base.{
  ℕ, zero, suc, ◌+◌, ◌-◌, ◌/◌, ◌%◌, ltb, leb, ◌==◌, Bool, true, false, ◌&&◌, not, Option, none,
  some, if◌then◌else◌,
}
use klsm.Item.{Taken}
use klsm.Block
use klsm.Block.{Block, BlockItem, BlockPtr, Store, capacity, size, taken, set_unused, take_item}
use klsm.Rng.{draw}
use klsm.Base.State.{pure, ◌>>=◌, ◌>>◌}
use klsm.Dist.{
  Env, M, items, lsm, put_head, put_tail, put_best, load, store, update, with_next, with_prev,
  get_block, link_after,
}

-- `i->peek()`.
unfoldable pub peek_block : {X : Type 0} → Env X → BlockPtr → M X (Option BlockItem)
unfolding load store
peek_block e i = do
  s ← items
  b ← load i
  store i (Block.peek s e.tid b).1
  pure (Block.peek s e.tid b).0

abbrev same_ptr : BlockPtr → Option BlockPtr → Bool
same_ptr p none = false
same_ptr p (some q) = (p.0 == q.0) && (p.1 == q.1)

-- The pointer back from `next`, or the tail of the list.
unfoldable pub link_before : {X : Type 0} → Option BlockPtr → Option BlockPtr → M X (Unit {0})
unfolding update
link_before (some o) p = update (with_prev p) o
link_before none p = put_tail p

-- An empty block leaves the list. The source compares the block with the tail and the head; a null
-- pointer behind a block that is not the tail, or in front of one that is not the head, is a fault.
unfoldable pub unlink : {X : Type 0} → BlockPtr → M X (Unit {0})
unfolding load update
unlink i = do
  b ← load i
  l ← lsm
  if same_ptr i l.tail
      then put_tail b.prev
      else (elim b.next [ none ↦ (λ w. none) | some n ↦ update (with_prev b.prev) n ])
  l' ← lsm
  if same_ptr i l'.head
      then put_head b.next
      else (elim b.prev [ none ↦ (λ w. none) | some p ↦ update (with_next b.next) p ])
  update set_unused i

-- The block that replaces `i`: half its size, or merged with the next one of that size.
unfoldable pub shrink : {X : Type 0} → Env X → BlockPtr → M X BlockPtr
unfolding load store update get_block
shrink e i = do
  b ← load i
  n ← get_block e (b.power_of_2 - 1)
  fresh ← load n
  old ← load i
  s ← items
  let small = with_prev old.prev (with_next old.next (Block.copy s fresh old))
  store n small
  elim old.next [
    | none ↦ pure n
    | some x ↦ do
      y ← load x
      if capacity small == capacity y
          then (do
            m ← get_block e (small.power_of_2 + 1)
            dst ← load m
            y' ← load x
            store m (with_prev small.prev (with_next y'.next (Block.merge s dst small y')))
            update set_unused n
            pure m)
          else pure n
  ]

-- The bookkeeping loop: the replaced blocks, from `j` up to `stop`, are set unused.
unfoldable pub free_until : {X : Type 0} → ℕ → Option BlockPtr → Option BlockPtr → M X (Unit {0})
unfolding load update
free_until zero j stop = λ w. none
free_until (suc fuel) none stop = pure tt
free_until (suc fuel) (some j) stop =
    if same_ptr j stop
    then pure tt
    else (do b ← load j; update set_unused j; free_until fuel b.next stop)

-- One round of the inner loop for a block that holds something.
unfoldable pub replace : {X : Type 0} → Env X → ℕ → BlockPtr → M X BlockPtr
unfolding shrink load link_before link_after free_until
replace e fuel i = do
  n ← shrink e i
  b ← load n
  link_before b.next (some n)
  link_after b.prev (some n)
  free_until fuel (some i) b.next
  pure n

-- How the inner loop leaves: by `return`, or with a block that is full enough and its candidate.
pub data Settled : Type 0 where
  returned : Settled
  settled : BlockPtr → Option BlockItem → Settled

unfoldable pub settle : {X : Type 0} → Env X → ℕ → BlockPtr → Option BlockItem → M X Settled
unfolding load unlink replace peek_block
settle e zero i candidate = λ w. none
settle e (suc fuel) i candidate = do
  b ← load i
  if leb (size b) (capacity b / 2)
      then (if size b == 0
          then (do unlink i; pure returned)
          else (do n ← replace e fuel i; c ← peek_block e n; settle e fuel n c))
      else pure (settled i candidate)

-- `best` after a block's candidate was seen.
abbrev pub better : Option BlockItem → Option BlockItem → Option BlockItem
better none candidate = candidate
better (some b) none = some b
better (some b) (some c) = if ltb c.key b.key then some c else some b

-- The outer loop; `none` for the second part tells that `peek` returned from inside.
unfoldable pub scan :
    {X : Type 0} → Env X → ℕ → Option BlockPtr → Option BlockItem → M X (Option BlockItem × Bool)
unfolding peek_block settle load
scan e zero i best = λ w. none
scan e (suc fuel) none best = pure (best, true)
scan e (suc fuel) (some i) best = do
  c ← peek_block e i
  r ← settle e fuel i c
  elim r [
    | returned ↦ pure (best, false)
    | settled j d ↦ do b ← load j; scan e fuel b.next (better best d)
  ]

-- The end of `peek`: the spied block, and the cache.
unfoldable pub finish_peek : {X : Type 0} → Env X → Option BlockItem → M X (Option BlockItem)
unfolding peek_block
finish_peek e (some b) = do put_best (some b); pure (some b)
finish_peek e none = do
  l ← lsm
  best ← elim l.spied [ none ↦ pure none | some q ↦ peek_block e q ]
  put_best best
  pure best

abbrev pub is_live : Store → Option BlockItem → Bool
is_live s none = false
is_live s (some c) = not (taken s c)

unfoldable pub peek : {X : Type 0} → Env X → ℕ → Option BlockItem → M X (Option BlockItem)
unfolding scan finish_peek
peek e fuel best = do
  s ← items
  l ← lsm
  if is_live s l.cached_best then pure l.cached_best else (do
    (b, complete) ← scan e fuel l.head best
    if complete then finish_peek e b else pure b)

-- `safe_peek`, which other threads may call: the loop from a block on.
unfoldable pub safe_loop :
    {X : Type 0} → Env X → ℕ → Option BlockPtr → Option BlockItem → M X (Option BlockItem)
unfolding peek_block load
safe_loop e zero i best = λ w. none
safe_loop e (suc fuel) none best = pure best
safe_loop e (suc fuel) (some i) best = do
  c ← peek_block e i
  b ← load i
  safe_loop e fuel b.next (better best c)

unfoldable pub safe_peek : {X : Type 0} → Env X → ℕ → Option BlockItem → M X (Option BlockItem)
unfolding safe_loop
safe_peek e fuel best = do l ← lsm; safe_loop e fuel l.head best

-- `spy(victim)`: the victim's head block, if it has one, is an argument, since the victim is
-- another thread's LSM.
unfoldable pub spy : {X : Type 0} → Env X → Option Block → M X ℕ
unfolding peek_block load store update get_block
spy e victim_head = do
  l ← lsm
  elim l.tail [
    | some t ↦ pure 0
    | none ↦ do
      it ← elim l.spied [ none ↦ pure none | some q ↦ peek_block e q ]
      elim it [
        | some c ↦ pure 0
        | none ↦ elim victim_head [
          | none ↦ pure 0
          | some v ↦ do
            n ← get_block e v.power_of_2
            fresh ← load n
            s ← items
            store n (Block.copy s fresh v)
            b ← load n
            elim l.spied [ none ↦ pure tt | some q ↦ update set_unused q ]
            (λ w. some (tt, record w { lsm = record (w.lsm) { spied = some n } }))
            pure (size b)
        ]
      ]
  ]

-- `spy(parent)`: the head block of a random other thread's LSM, out of `num_threads`.
unfoldable pub spy_random : {X : Type 0} → Env X → ℕ → (ℕ → Option Block) → M X ℕ
unfolding spy
spy_random e num_threads head_of = if ltb num_threads 2 then pure 0 else (do
  l ← lsm
  (λ w. some (tt, record w { lsm = record (w.lsm) { gen = (draw l.gen).1 } }))
  let pick = (draw l.gen).0 % (num_threads - 1)
  spy e (head_of (if leb e.tid pick then pick + 1 else pick)))

-- `take` of the item that was found.
unfoldable pub take_best : {X : Type 0} → BlockItem → M X Taken
take_best c w =
    let t = take_item w.items c in
    some (t, record w { items = λ q. if q == c.item then t.left else w.items q })

-- `delete_min`: `none` for false without a `take`.
unfoldable pub delete_min : {X : Type 0} → Env X → ℕ → ℕ → (ℕ → Option Block) → M X (Option Taken)
unfolding peek spy_random take_best
delete_min e fuel num_threads head_of = do
  first ← peek e fuel none
  best ← elim first [
    | some c ↦ pure (some c)
    | none ↦ do
      n ← spy_random e num_threads head_of
      if ltb 0 n then peek e fuel none else pure none
  ]
  elim best [ none ↦ pure none | some c ↦ do t ← take_best c; pure (some t) ]
