-- ===== src/Multi.antt =====
-- multi_lsm/multi_lsm.h and multi_lsm_inl.h: `C` local LSMs for each thread, on which a thread inserts
-- at random; `delete_min` takes the better item of one of them and of any thread's.
-- The operations of one thread, while no other thread takes a step. `none` is an assertion that fails,
-- a read through a null pointer, or fuel that ran out.
pub mod Own
use klsm.Base.{
  ℕ, ◌+◌, ◌*◌, ◌%◌, ltb, ◌==◌, Bool, true, false, not, Option, none, some, if◌then◌else◌,
}
use klsm.Base.State.{Step, ◌>>=◌, ◌>>◌, pure}
use klsm.Item.{Taken}
use klsm.Block.{Block, BlockItem, Store}
use klsm.Storage
use klsm.Storage.{Fresh}
use klsm.Dist
use klsm.Dist.{World, DistLocal, dist_local, Env}
use klsm.Dist.Peek
use klsm.Dist.Peek.{spy, safe_peek, take_best}
use klsm.Rng.{Rng, draw}

-- `queues` is `m_dist`, and `gen` the thread's generator.
pub record MultiLsm : Type 0 where
  pub items : Store
  pub queues : ℕ → DistLocal
  pub gen : Rng

-- `per_thread` is `C`; `fresh` and `at` say where a queue's new blocks and items lie.
pub record MultiEnv : Type 0 where
  pub per_thread : ℕ
  pub num_threads : ℕ
  pub tid : ℕ
  pub fresh : ℕ → Fresh
  pub at : ℕ → ℕ → ℕ

abbrev pub num_queues : MultiEnv → ℕ
num_queues e = e.num_threads * e.per_thread

abbrev pub dummy_relaxation : ℕ
dummy_relaxation = 1048576

-- What the constructor leaves, with a generator for each queue and the thread's.
unfoldable pub multi_lsm : Store → (ℕ → Rng) → Rng → MultiLsm
unfolding dist_local
multi_lsm items gens gen = record { items = items; queues = λ i. dist_local (gens i); gen = gen }

abbrev pub M : Type 0 → Type 0
M A = Step MultiLsm A

-- The queue at an index as a thread-local LSM without a shared one.
abbrev pub queue_env : MultiEnv → ℕ → Env (Unit {0})
queue_env e i = record {
  fresh = e.fresh i;
  tid = e.tid;
  rlx = dummy_relaxation;
  at = e.at i;
  slsm = none;
}

abbrev pub world : MultiLsm → ℕ → World (Unit {0})
world m i = record { items = m.items; lsm = m.queues i; shared = tt }

abbrev pub with_queue : MultiLsm → ℕ → World (Unit {0}) → MultiLsm
with_queue m i w = record m { items = w.items; queues = λ j. if j == i then w.lsm else m.queues j }

-- An operation of the queue at an index.
unfoldable pub on_queue : {A : Type 0} → ℕ → Dist.M (Unit {0}) A → M A
on_queue i step m = elim (step (world m i)) [
  | none ↦ none
  | some (a, w) ↦ some (a, with_queue m i w)
]

unfoldable pub random : M ℕ
random m = some ((draw m.gen).0, record m { gen = (draw m.gen).1 })

unfoldable pub random_local_queue : MultiEnv → M ℕ
unfolding random
random_local_queue e = do
  r ← random
  let ix = e.per_thread * e.tid + r % e.per_thread
  if ltb ix (num_queues e) then pure ix else (λ m. none)

unfoldable pub random_queue : MultiEnv → M ℕ
unfolding random
random_queue e = do r ← random; pure (r % num_queues e)

abbrev pub is_empty : ℕ → M Bool
is_empty i m = some (elim (m.queues i).head [ none ↦ true | some p ↦ false ], m)

unfoldable pub insert : MultiEnv → ℕ → ℕ → ℕ → M (Unit {0})
unfolding random_local_queue on_queue
insert e fuel key val = do
  q ← random_local_queue e
  on_queue q (Dist.insert (queue_env e q) fuel key val)

-- The first block of a queue, which `spy` copies.
abbrev pub head_of : ℕ → M (Option Block)
head_of i m = elim (m.queues i).head [
  | none ↦ some (none, m)
  | some p ↦ elim (Storage.load (m.queues i).block_storage p) [
    | none ↦ none
    | some b ↦ some (some b, m)
  ]
]

-- `q1->spy(random_queue())`.
unfoldable pub spy_any : MultiEnv → ℕ → M ℕ
unfolding random_queue on_queue
spy_any e q = do v ← random_queue e; b ← head_of v; on_queue q (spy (queue_env e q) b)

abbrev pub take_from : ℕ → BlockItem → M (Option Taken)
take_from q c = do t ← on_queue q (take_best c); pure (some t)

-- `delete_min`: `none` for false without a `take`.
unfoldable pub delete_min : MultiEnv → ℕ → M (Option Taken)
unfolding random_local_queue random_queue on_queue spy_any
delete_min e fuel = do
  q ← random_local_queue e
  x ← is_empty q
  q1 ← (if x then random_local_queue e else pure q)
  r ← random_queue e
  y ← is_empty r
  q2 ← (if y then random_queue e else pure r)
  it1 ← on_queue q1 (Peek.peek (queue_env e q1) fuel none)
  it2 ← on_queue q2 (safe_peek (queue_env e q2) fuel none)
  elim it1 [
    | none ↦ elim it2 [
      | none ↦ do spy_any e q1; pure none
      | some c2 ↦ do spy_any e q1; take_from q2 c2
    ]
    | some c1 ↦ elim it2 [
      | none ↦ take_from q1 c1
      | some c2 ↦ if ltb c1.key c2.key then take_from q1 c1 else take_from q2 c2
    ]
  ]
