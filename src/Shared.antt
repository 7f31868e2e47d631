-- ===== src/Shared.antt =====
-- shared_lsm/shared_lsm_local.h and shared_lsm_local_inl.h: what a thread does on the shared LSM while
-- no other thread takes a step. Protocol has the accesses of threads interleaved.
-- Arrays lie at addresses, and the global pointer has an array's version packed into it. `none` is a
-- read through a null pointer, an assertion that fails, or fuel that ran out.
pub mod Rounds
pub mod Turns
use klsm.Base.{
  ℕ, zero, suc, ◌+◌, ◌%◌, ◌==◌, Bool, true, false, ◌&&◌, not, Option, none, some, List,
  if◌then◌else◌, take,
}
use klsm.Base.State.{Step, ◌>>=◌, ◌>>◌, pure, lift}
use klsm.Item
use klsm.Item.{Taken}
use klsm.Block
use klsm.Block.{Block, BlockItem, Store, taken, take_item}
use klsm.Storage.{Fresh}
use klsm.Alloc
use klsm.Alloc.{Allocator, allocator}
use klsm.Rng.{Rng}
use klsm.Pool
use klsm.Pool.{Pointer}
use klsm.Array
use klsm.Array.{
  BlockArray, Pools, block_array, update_pool, deref, write, alloc, copy_from, increment_version,
}
use klsm.Array.Insert
use klsm.Array.Insert.{deref_all}
use klsm.Array.Peek
use klsm.Packed
use klsm.Packed.{default_alignment}

-- What belongs to the thread, but for its block pool and its two arrays.
pub record SharedLocal : Type 0 where
  pub cached_best : Option BlockItem
  pub item_pool : Allocator
  pub array_copy : BlockArray

-- `pointer` is the global one; `arrays` are what lies at an address, `pools` those of all threads.
pub record SharedLsm : Type 0 where
  pub pointer : ℕ
  pub arrays : ℕ → BlockArray
  pub pools : Pools
  pub own : SharedLocal

-- What the program leaves open: memory of new blocks, the thread, the relaxation, what the temporary
-- array of pivots holds, where items and the thread's two arrays lie.
pub record SharedEnv : Type 0 where
  pub fresh : Fresh
  pub tid : ℕ
  pub rlx : ℕ
  pub garbage : List ℕ
  pub at : ℕ → ℕ
  pub odds : ℕ
  pub evens : ℕ

abbrev pub items_per_chunk : ℕ
items_per_chunk = 1024

-- What the constructor leaves, with a generator for the array.
unfoldable pub shared_local : Rng → SharedLocal
shared_local gen = record {
  cached_best = none;
  item_pool = allocator items_per_chunk (λ p. true);
  array_copy = block_array gen;
}

abbrev pub M : Type 0 → Type 0
M A = Step SharedLsm A

abbrev state : M SharedLsm
state w = some (w, w)

abbrev on_pools : {A : Type 0} → Array.M A → M A
on_pools step w = elim (step w.pools) [
  | none ↦ none
  | some (a, h) ↦ some (a, record w { pools = h })
]

abbrev put_array : ℕ → BlockArray → M (Unit {0})
put_array p a w = some (tt, record w { arrays = λ q. if q == p then a else w.arrays q })

abbrev put_pool : ℕ → Pool.Pool → M (Unit {0})
put_pool tid p w = some (tt, record w { pools = update_pool w.pools tid p })

abbrev pub version_at : SharedLsm → ℕ → ℕ
version_at w p = (w.arrays p).version

-- `global_array.version()`.
abbrev pub global_version : SharedLsm → ℕ
global_version w = version_at w (Packed.unpacked_ptr default_alignment w.pointer)

-- `local_array_copy_is_fresh`.
unfoldable pub is_fresh : SharedLsm → Bool
is_fresh w = w.own.array_copy.version == global_version w

-- `m_local_array_copy.copy_from` of the array at an address.
abbrev pub refreshed : SharedLsm → ℕ → SharedLsm
refreshed w p = record w {
  own = record (w.own) { array_copy = copy_from w.own.array_copy (w.arrays p) };
}

-- The loop of `refresh_local_array_copy`: the packed pointer and the version that were observed.
unfoldable pub refresh_loop : ℕ → M (ℕ × ℕ)
refresh_loop zero w = none
refresh_loop (suc fuel) w =
    let p = Packed.unpacked_ptr default_alignment w.pointer in
    let v = version_at w p in
    elim (Packed.matches default_alignment w.pointer v) [
      | false ↦ refresh_loop fuel w
      | true ↦
          elim ((global_version (refreshed w p) == v)
            && (v == (refreshed w p).own.array_copy.version)) [
              | false ↦ refresh_loop fuel (refreshed w p)
              | true ↦ some ((w.pointer, v), refreshed w p)
            ]
    ]

unfoldable pub refresh_local_array_copy : ℕ → M (ℕ × ℕ)
refresh_local_array_copy fuel w =
    let rest = refresh_loop fuel w in
    if is_fresh w then some ((w.pointer, global_version w), w) else rest

-- The new version of the array, at address `p`: a copy with the block inserted.
unfoldable pub next_array : SharedEnv → Store → ℕ → Pointer → M BlockArray
next_array e s p q = do
  w ← state
  let a = increment_version (copy_from (w.arrays p) w.own.array_copy)
  b ← on_pools (Array.Insert.insert e.fresh s e.tid e.rlx e.garbage a q)
  put_array p b
  pure b

-- `compare_exchange_strong`: whether the new array is the global one now.
unfoldable pub exchange : ℕ → ℕ → M Bool
exchange expected p w =
    elim (Packed.compare_exchange_strong default_alignment (version_at w) w.pointer expected p) [
      | none ↦ none
      | some (done, seen, pointer) ↦ some (done, record w { pointer = pointer })
    ]

-- The new array is published if the version is still the observed one and the exchange succeeds.
unfoldable pub try_publish : SharedEnv → ℕ → ℕ → ℕ → BlockArray → M Bool
try_publish e packed version p a = do
  w ← state
  done ← (if version == global_version w then exchange packed p else pure false)
  if done
      then (do
        v ← state
        put_pool e.tid
            (Pool.free_local (Pool.publish e.tid a.version (take a.size a.blocks) (v.pools e.tid)))
        pure true)
      else pure false

-- The loop of `insert_block`.
unfoldable pub insert_loop : SharedEnv → Store → ℕ → ℕ → Pointer → M (Unit {0})
insert_loop e s fuel zero q = λ w. none
insert_loop e s fuel (suc rounds) q = do
  (packed, version) ← refresh_local_array_copy fuel
  let p = if version % 2 == 1 then e.evens else e.odds
  a ← next_array e s p q
  done ← try_publish e packed version p a
  elim done [
    | true ↦ pure tt
    | false ↦ do
      w ← state
      put_pool e.tid (Pool.free_local_except (w.pools e.tid) (some q.index))
      insert_loop e s fuel rounds q
  ]

-- `insert_block`, whose block must be one of the thread's pool.
unfoldable pub insert_block : SharedEnv → Store → ℕ → ℕ → Pointer → M (Unit {0})
insert_block e s fuel rounds q = do
  w ← state
  elim (Pool.contains e.tid (w.pools e.tid) q) [
    | true ↦ insert_loop e s fuel rounds q
    | false ↦ (λ v. none)
  ]

-- `insert(b, global_array)`, for a block of another LSM, which is copied.
unfoldable pub insert_copy : SharedEnv → Store → ℕ → ℕ → Block → M (Unit {0})
insert_copy e s fuel rounds b = do
  q ← on_pools (alloc e.fresh e.tid b.power_of_2)
  c ← on_pools (deref q)
  on_pools (write q (Block.copy s c b))
  insert_block e s fuel rounds q

-- `insert(key, val, global_array)`: the items after it.
unfoldable pub insert : SharedEnv → Store → ℕ → ℕ → ℕ → ℕ → M Store
insert e s fuel rounds key val = do
  w ← state
  (p, pool) ← lift (
      Alloc.acquire items_per_chunk (λ p. Item.reuse (s (e.at p))) (w.own.item_pool.amortized + 2)
        w.own.item_pool)
  (λ v. some (tt, record v { own = record (v.own) { item_pool = pool } }))
  it ← lift (Item.initialize (s (e.at p)) key val)
  let s' : Store = λ x. if x == e.at p then it else s x
  q ← on_pools (alloc e.fresh e.tid 1)
  b ← on_pools (deref q)
  on_pools (write q (Block.insert s' b (e.at p) it.version))
  insert_block e s' fuel rounds q
  pure s'

abbrev is_live : Store → Option BlockItem → Bool
is_live s none = false
is_live s (some c) = not (taken s c)

-- The loop of `peek`.
unfoldable pub peek_loop : SharedEnv → Store → ℕ → ℕ → M (Option BlockItem)
peek_loop e s fuel zero = λ w. none
peek_loop e s fuel (suc rounds) = do
  (packed, version) ← refresh_local_array_copy fuel
  w ← state
  let a = w.own.array_copy
  bs ← on_pools (deref_all e.fresh s e.tid e.rlx e.garbage (take a.size a.blocks))
  (best, a') ← lift (Array.Peek.peek s e.rlx e.garbage bs fuel a)
  (λ v. some (tt, record v { own = record (v.own) { cached_best = best; array_copy = a' } }))
  v ← state
  elim (global_version v == version) [ true ↦ pure best | false ↦ peek_loop e s fuel rounds ]

unfoldable pub peek : SharedEnv → Store → ℕ → ℕ → M (Option BlockItem)
peek e s fuel rounds = do
  w ← state
  if is_fresh w && is_live s w.own.cached_best
      then pure w.own.cached_best
      else peek_loop e s fuel rounds

-- `delete_min`: the item with what `take` reports and leaves, or `none` for false without a `take`.
unfoldable pub delete_min : SharedEnv → Store → ℕ → ℕ → M (Option (BlockItem × Taken))
delete_min e s fuel rounds = do
  best ← peek e s fuel rounds
  pure (elim best [ none ↦ none | some c ↦ some (c, take_item s c) ])
