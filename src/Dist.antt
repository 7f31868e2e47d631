-- ===== src/Dist.antt =====
-- dist_lsm/dist_lsm_local.h and dist_lsm_local_inl.h: one thread's LSM, a doubly linked list of
-- sorted blocks of falling capacity. Blocks live in the thread's block storage and are reached
-- through pointers; the list is in their `next` and `prev` fields, as in the source.
-- `none` of the monad is a read through a null pointer, or fuel that ran out.
pub mod Peek
pub mod Keeps
pub mod Cache
use klsm.Base.{
  ℕ, zero, suc, ◌+◌, ◌/◌, ltb, leb, ◌==◌, Bool, true, false, ◌||◌, not, Option, none, some, List,
  [], ◌∷◌, if◌then◌else◌, add64,
}
use klsm.Base.State.{Step, ◌>>=◌, ◌>>◌, pure}
use klsm.Item
use klsm.Item.{Item}
use klsm.Block
use klsm.Block.{Block, BlockItem, BlockPtr, Store, capacity, size, taken, set_unused}
use klsm.Storage
use klsm.Storage.{Storage, Fresh}
use klsm.Alloc
use klsm.Alloc.{Allocator, allocator}
use klsm.Rng.{Rng}

-- `dist_lsm_local`; its tail is the smallest block.
pub record DistLocal : Type 0 where
  pub head : Option BlockPtr
  pub tail : Option BlockPtr
  pub spied : Option BlockPtr
  pub block_storage : Storage
  pub item_allocator : Allocator
  pub cached_best : Option BlockItem
  pub gen : Rng

-- The items of all threads, the LSM of this one, and the state of the shared LSM, which is the
-- caller's.
pub record World (X : Type 0) : Type 0 where
  pub items : Store
  pub lsm : DistLocal
  pub shared : X

abbrev pub M : Type 0 → Type 0 → Type 0
M X A = Step (World X) A

-- What the program leaves open: the thread and the memory of its new blocks, the relaxation, where
-- the allocator's items lie, and how a block is inserted into the shared LSM, if one is given.
pub record Env (X : Type 0) : Type 0 where
  pub fresh : Fresh
  pub tid : ℕ
  pub rlx : ℕ
  pub at : ℕ → ℕ
  pub slsm : Option (Store → Block → X → Option X)

abbrev pub blocks_per_level : ℕ
blocks_per_level = 4

abbrev pub items_per_chunk : ℕ
items_per_chunk = 1024

-- What the constructor leaves.
unfoldable pub dist_local : Rng → DistLocal
dist_local gen = record {
  head = none;
  tail = none;
  spied = none;
  block_storage = record { blocks = [] };
  item_allocator = allocator items_per_chunk (λ p. true);
  cached_best = none;
  gen = gen;
}

abbrev pub items : {X : Type 0} → M X Store
items w = some (w.items, w)

abbrev pub lsm : {X : Type 0} → M X DistLocal
lsm w = some (w.lsm, w)

abbrev pub put : {X : Type 0} → DistLocal → M X (Unit {0})
put l w = some (tt, record w { lsm = l })

abbrev pub put_head : {X : Type 0} → Option BlockPtr → M X (Unit {0})
put_head p w = some (tt, record w { lsm = record (w.lsm) { head = p } })

abbrev pub put_tail : {X : Type 0} → Option BlockPtr → M X (Unit {0})
put_tail p w = some (tt, record w { lsm = record (w.lsm) { tail = p } })

abbrev pub put_best : {X : Type 0} → Option BlockItem → M X (Unit {0})
put_best c w = some (tt, record w { lsm = record (w.lsm) { cached_best = c } })

unfoldable pub load : {X : Type 0} → BlockPtr → M X Block
load p w = elim (Storage.load w.lsm.block_storage p) [ none ↦ none | some b ↦ some (b, w) ]

unfoldable pub store : {X : Type 0} → BlockPtr → Block → M X (Unit {0})
store p b w = some (
  tt,
  record w { lsm = record (w.lsm) { block_storage = Storage.store w.lsm.block_storage p b } },
)

unfoldable pub update : {X : Type 0} → (Block → Block) → BlockPtr → M X (Unit {0})
unfolding load store
update g p = do b ← load p; store p (g b)

abbrev pub with_next : Option BlockPtr → Block → Block
with_next p b = record b { next = p }

abbrev pub with_prev : Option BlockPtr → Block → Block
with_prev p b = record b { prev = p }

unfoldable pub get_block : {X : Type 0} → Env X → ℕ → M X BlockPtr
get_block e i w = elim (Storage.get_block e.fresh blocks_per_level w.lsm.block_storage i) [
  | none ↦ none
  | some (p, st) ↦ some (p, record w { lsm = record (w.lsm) { block_storage = st } })
]

-- The body of the first loop of `merge_insert`: the merged block.
unfoldable pub merge_step : {X : Type 0} → Env X → BlockPtr → BlockPtr → M X BlockPtr
unfolding load store update get_block
merge_step e insert_block other = do
  b ← load insert_block
  c ← load other
  m ←
      get_block e
        (if leb (add64 (size b) (size c)) (capacity b) then b.power_of_2 else b.power_of_2 + 1)
  dst ← load m
  lhs ← load insert_block
  rhs ← load other
  s ← items
  store m (Block.merge s dst lhs rhs)
  update set_unused insert_block
  pure m

-- The loop: the block to insert, the block in front of it, and the last block that was merged.
unfoldable pub merge_loop :
    {X : Type 0}
    → Env X
    → ℕ
    → BlockPtr
    → Option BlockPtr
    → Option BlockPtr
    → M X (BlockPtr × Option BlockPtr × Option BlockPtr)
unfolding merge_step load
merge_loop e zero b other del = λ w. none
merge_loop e (suc fuel) b none del = pure (b, none, del)
merge_loop e (suc fuel) b (some o) del = do
  x ← load b
  y ← load o
  if capacity x == capacity y
      then (do m ← merge_step e b o; o' ← load o; merge_loop e fuel m o'.prev (some o))
      else pure (b, some o, del)

-- The last loop: the merged blocks are set unused, following `next`.
unfoldable pub free_loop : {X : Type 0} → ℕ → Option BlockPtr → M X (Unit {0})
unfolding load update
free_loop zero d = λ w. none
free_loop (suc fuel) none = pure tt
free_loop (suc fuel) (some d) = do b ← load d; update set_unused d; free_loop fuel b.next

-- The pointer to what follows `other`, or the head of the list if there is none.
unfoldable pub link_after : {X : Type 0} → Option BlockPtr → Option BlockPtr → M X (Unit {0})
unfolding update
link_after (some o) p = update (with_next p) o
link_after none p = put_head p

-- The insertion of a block into the shared LSM.
abbrev pub hand_over : {X : Type 0} → (Store → Block → X → Option X) → Block → M X (Unit {0})
hand_over insert x w = elim (insert w.items x w.shared) [
  | none ↦ none
  | some y ↦ some (tt, record w { shared = y })
]

-- The block goes to the shared LSM, which copies it.
unfoldable pub publish :
    {X : Type 0} → (Store → Block → X → Option X) → BlockPtr → Option BlockPtr → M X (Unit {0})
unfolding load update link_after
publish insert b other = do
  x ← load b
  hand_over insert x
  update set_unused b
  link_after other none
  put_tail other

-- The block goes to the end of the list.
unfoldable pub append : {X : Type 0} → BlockPtr → Option BlockPtr → M X (Unit {0})
unfolding update link_after
append b other = do update (with_prev other) b; link_after other (some b); put_tail (some b)

unfoldable pub merge_insert : {X : Type 0} → Env X → ℕ → BlockPtr → M X (Unit {0})
unfolding merge_loop free_loop publish append load
merge_insert e fuel new_block = do
  l ← lsm
  (b, other, del) ← merge_loop e fuel new_block l.tail none
  x ← load b
  elim e.slsm [
    | none ↦ append b other
    | some insert ↦
        if leb ((e.rlx + 1) / 2) (size x) then publish insert b other else append b other
  ]
  free_loop fuel del

-- The cached best item after an insertion of `it`.
unfoldable pub cache_after_insert : Store → ℕ → ℕ → Option BlockItem → Option BlockItem
cache_after_insert s it version none =
    some (record { key = (s it).key; item = it; version = version })
cache_after_insert s it version (some c) =
    if ltb (s it).key c.key
    then some (record { key = (s it).key; item = it; version = version })
    else if taken s c
    then none
    else some c

-- The private `insert`.
unfoldable pub insert_item : {X : Type 0} → Env X → ℕ → ℕ → ℕ → M X (Unit {0})
unfolding merge_insert cache_after_insert get_block load store
insert_item e fuel it version = do
  s ← items
  l ← lsm
  put_best (cache_after_insert s it version l.cached_best)
  n ← get_block e 0
  b ← load n
  store n (Block.insert s b it version)
  merge_insert e fuel n

-- `insert(key, val, slsm)`.
unfoldable pub insert : {X : Type 0} → Env X → ℕ → ℕ → ℕ → M X (Unit {0})
unfolding insert_item
insert e fuel key val w =
    let l = w.lsm in
    elim (Alloc.acquire items_per_chunk (λ p. Item.reuse (w.items (e.at p)))
      (l.item_allocator.amortized + 2) l.item_allocator) [
        | none ↦ none
        | some (p, a) ↦ elim (Item.initialize (w.items (e.at p)) key val) [
          | none ↦ none
          | some it ↦ insert_item e fuel (e.at p) it.version (record w {
            items = λ q. if q == e.at p then it else w.items q;
            lsm = record l { item_allocator = a };
          })
        ]
      ]
