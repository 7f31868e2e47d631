-- ===== src/Multi/Own.antt =====
-- multi_lsm_inl.h: a thread inserts into its own queues only.
use native.Mathlib.Nat.{mod-lt, mul-le-mul_left, mul_comm, mul-suc}
use mathlib.Core.Option.{some-injective}
use klsm.Rng.{draw}
use klsm.Base.{
  subst, ℕ, suc, ◌+◌, ◌*◌, ◌%◌, ◌<◌, ◌≤◌, ◌≡◌, ◌≢◌, refl, sym, ap, ◌∙◌, arith, ltb, ◌==◌, true,
  false, Bool-cases, some, Option-cases, inl, inr,
}
use klsm.Base.State.{◌>>=◌}
use klsm.Dist
use klsm.Dist.{World}
use klsm.Multi.{
  MultiLsm, MultiEnv, num_queues, with_queue, world, on_queue, random, random_local_queue,
  queue_env, insert,
}

-- The queues of the thread.
abbrev pub IsOwn : MultiEnv → ℕ → Type 0
IsOwn e j = (e.per_thread * e.tid ≤ j) × (j < e.per_thread * e.tid + e.per_thread)

on_queue-other :
    {A : Type 0} (i j : ℕ) (step : Dist.M (Unit {0}) A) (m m' : MultiLsm) (a : A)
    → on_queue i step m ≡ some (a, m')
    → j ≢ i
    → m'.queues j ≡ m.queues j
unfolding on_queue
on_queue-other i j step m m' a h n = elim (Option-cases (step (world m i))) [
  | inl e ↦ absurd (cc (rw (e, on_queue) at h))
  | inr ((b, w), e) ↦
      let done = some-injective _ _ (rw (e, on_queue) at h) in
      let same : with_queue m i w ≡ m' = ap (λ r. r.1) done in
      let differ : (j == i) ≡ false = ground arith in
      ap (λ x. x.queues j) (sym same) ∙ rw differ refl
]

random_local_queue-IsOwn :
    (e : MultiEnv)
    → 0 < e.per_thread
    → (m m' : MultiLsm) (i : ℕ) → random_local_queue e m ≡ some (i, m')
    → IsOwn e i × (m'.queues ≡ m.queues)
unfolding random_local_queue random
random_local_queue-IsOwn e pos m m' i h =
    let r = (draw m.gen).0 in
    let ix = e.per_thread * e.tid + r % e.per_thread in
    elim (Bool-cases (ltb ix (num_queues e))) [
      | inr out ↦ absurd (cc (rw (out, random_local_queue) at h))
      | inl fits ↦
          let done = some-injective _ _ (rw (fits, random_local_queue) at h) in
          let index : ix ≡ i = ap (λ x. x.0) done in
          let state : record m { gen = (draw m.gen).1 } ≡ m' = ap (λ x. x.1) done in
          ((omega arith, omega (arith, mod-lt r pos)), ap (λ x. x.queues) (sym state))
    ]

-- `insert` of a thread leaves every queue of the other threads as it was.
pub insert-own :
    (e : MultiEnv)
    → 0 < e.per_thread
    → (fuel key val j : ℕ) (m m' : MultiLsm) → insert e fuel key val m ≡ some (tt, m')
    → (IsOwn e j → ⊥)
    → m'.queues j ≡ m.queues j
unfolding insert
insert-own e pos fuel key val j m m' h other = elim (Option-cases (random_local_queue e m)) [
  | inl none_drawn ↦ absurd (cc (rw (none_drawn, ◌>>=◌) at h))
  | inr ((i, v), drawn) ↦
      let (own, same) = random_local_queue-IsOwn e pos m v i drawn in
      on_queue-other i j (Dist.insert (queue_env e i) fuel key val) v m' tt (rw (drawn, ◌>>=◌) at h)
        (λ k. other (subst (IsOwn e) (sym k) own))
      ∙ ap (λ f. f j) same
]

-- If the thread's identifier is below the number of threads and there are queues, the random choice
-- of a local queue returns one of the thread's, within the array, and changes no queue.
pub random_local_queue_lem :
    (e : MultiEnv)
    → 0 < e.per_thread
    → e.tid < e.num_threads
    → (m : MultiLsm)
    → (i : ℕ) × (m' : MultiLsm) × (random_local_queue e m ≡ some (i, m'))
      × IsOwn e i
      × (i < num_queues e)
      × (m'.queues ≡ m.queues)
unfolding random_local_queue random
random_local_queue_lem e pos known m =
    let r = (draw m.gen).0 in
    let ix = e.per_thread * e.tid + r % e.per_thread in
    let room : e.per_thread * suc e.tid ≤ e.per_thread * e.num_threads =
      mul-le-mul_left e.per_thread known in
    let inside : ix < num_queues e = omega (
      arith,
      room,
      mod-lt r pos,
      mul_comm e.num_threads e.per_thread,
      mul-suc e.per_thread e.tid,
    ) in
    let fits : ltb ix (num_queues e) ≡ true = ground arith in
    (
      ix,
      record m { gen = (draw m.gen).1 },
      rw (random_local_queue, fits) refl,
      (omega arith, omega (arith, mod-lt r pos)),
      inside,
      refl,
    )
