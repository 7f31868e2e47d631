-- ===== src/Shared/Rounds.antt =====
-- `shared_lsm_local`: while no other thread takes a step, its loops end in their first round.
use native.Mathlib.Nat.{mod-le}
use klsm.Base.{
  ℕ, suc, ◌+◌, ◌-◌, ◌%◌, ◌==◌, ◌≡◌, ◌≢◌, refl, sym, ap, subst, ◌∙◌, arith, true, false, ◌&&◌, some,
  if◌then◌else◌, Bool-cases, inl, inr, take,
}
use klsm.Base.State.{◌>>=◌}
use klsm.Block.{Store}
use klsm.Pool
use klsm.Pool.{Pointer}
use klsm.Array.{BlockArray, Pools, update_pool, copy_from, increment_version}
use klsm.Array.Insert
use klsm.Seq.Store.{eq_self}
use klsm.Packed
use klsm.Packed.{default_alignment, low, unpacked_ptr, matches}
use klsm.Packed.Laws.{compare_exchange_strong_lem}
use klsm.Shared.{
  SharedLsm, SharedEnv, version_at, global_version, is_fresh, refreshed, refresh_loop,
  refresh_local_array_copy, next_array, exchange, try_publish, insert_loop, insert_block,
}

-- The global pointer leads to the array at an aligned address and matches its version.
pub record Points (w : SharedLsm) (p : ℕ) : Type 0 where
  pub aligned : p % default_alignment ≡ 0
  pub place : unpacked_ptr default_alignment w.pointer ≡ p
  pub fits : matches default_alignment w.pointer (version_at w p) ≡ true

-- The thread's copy is as new as the global array.
abbrev pub synced : SharedLsm → ℕ → SharedLsm
synced w p = if is_fresh w then w else refreshed w p

fresh-version : (w : SharedLsm) → is_fresh w ≡ true → w.own.array_copy.version ≡ global_version w
unfolding is_fresh
fresh-version w e = ground arith

copied-version : (a b : BlockArray) → (copy_from a b).version ≡ b.version
unfolding copy_from
copied-version a b = refl

settled :
    (w : SharedLsm) (u : ℕ)
    → (version_at w u == version_at w u) ≡ true
    → ((version_at w u == version_at w u)
        && (version_at w u == (refreshed w u).own.array_copy.version))
      ≡ true
unfolding copy_from
settled w u e = rw e refl

module _ {w : SharedLsm} {p : ℕ} (points : Points w p) where
  pub version-same : global_version w ≡ version_at w p
  version-same = ap (version_at w) points.place

  pub pointer-eq : w.pointer ≡ p + low default_alignment (version_at w p)
  unfolding unpacked_ptr matches
  pointer-eq =
      let place : w.pointer - w.pointer % default_alignment ≡ p = points.place in
      let fits : (w.pointer % default_alignment == version_at w p % default_alignment) ≡ true =
        points.fits in
      let same : w.pointer % default_alignment ≡ version_at w p % default_alignment =
        ground arith in
      omega (arith, mod-le w.pointer default_alignment)

  loop-eq :
      (fuel : ℕ) → refresh_loop (suc fuel) w ≡ some ((w.pointer, version_at w p), refreshed w p)
  unfolding refresh_loop copy_from
  loop-eq fuel =
      let u = unpacked_ptr default_alignment w.pointer in
      let fits : matches default_alignment w.pointer (version_at w u) ≡ true =
        subst (λ a. matches default_alignment w.pointer (version_at w a) ≡ true) (sym points.place)
          points.fits in
      rw (refresh_loop, fits)
        (rw (settled w u (eq_self (version_at w u)))
          (ap (λ a. some ((w.pointer, version_at w a), refreshed w a)) points.place))

  pub refresh-eq :
      (fuel : ℕ)
      → refresh_local_array_copy (suc fuel) w ≡ some ((w.pointer, version_at w p), synced w p)
  unfolding refresh_local_array_copy
  refresh-eq fuel = elim (Bool-cases (is_fresh w)) [
    | inl e ↦ rw e (ap (λ v. some ((w.pointer, v), w)) version-same)
    | inr e ↦ rw e (loop-eq fuel)
  ]

  pub synced-version : (synced w p).own.array_copy.version ≡ version_at w p
  synced-version = elim (Bool-cases (is_fresh w)) [
    | inl e ↦ rw e (fresh-version w e ∙ version-same)
    | inr e ↦ rw e (copied-version w.own.array_copy (w.arrays p))
  ]

  synced-pools : (synced w p).pools ≡ w.pools
  synced-pools = elim (Bool-cases (is_fresh w)) [ inl e ↦ rw e refl | inr e ↦ rw e refl ]

-- The array that the thread's next version is written to.
abbrev pub next_place : SharedEnv → ℕ → ℕ
next_place e version = if version % 2 == 1 then e.evens else e.odds

-- The array that is written, with the state of the pools: what `Array.Insert.insert` makes of the copy.
abbrev pub Inserts : SharedEnv → Store → Pointer → SharedLsm → ℕ → BlockArray → Pools → Type 0
Inserts e s q w n b h =
    klsm.Array.Insert.insert e.fresh s e.tid e.rlx e.garbage
      (increment_version (copy_from (w.arrays n) w.own.array_copy)) q w.pools
    ≡ some (b, h)

abbrev pub written : SharedLsm → ℕ → BlockArray → Pools → SharedLsm
written w n b h = record w { arrays = λ x. if x == n then b else w.arrays x; pools = h }

next_array-eq :
    (e : SharedEnv) (s : Store) (n : ℕ) (q : Pointer) (w : SharedLsm) (b : BlockArray) (h : Pools)
    → Inserts e s q w n b h
    → next_array e s n q w ≡ some (b, written w n b h)
unfolding next_array
next_array-eq e s n q w b h made = rw (◌>>=◌, made) refl

-- After an exchange: the array is published, and the thread's other blocks are free again.
abbrev pub published : SharedEnv → SharedLsm → ℕ → BlockArray → SharedLsm
published e v x b = record v {
  pointer = x;
  pools =
      update_pool v.pools e.tid
        (Pool.free_local (Pool.publish e.tid b.version (take b.size b.blocks) (v.pools e.tid)));
}

try_publish-eq :
    (e : SharedEnv) (v : SharedLsm) (packed version n x : ℕ) (b : BlockArray)
    → (version == global_version v) ≡ true
    → exchange packed n v ≡ some (true, record v { pointer = x })
    → try_publish e packed version n b v ≡ some (true, published e v x b)
unfolding try_publish
try_publish-eq e v packed version n x b same run = rw (◌>>=◌, same) (rw (◌>>=◌, run) refl)

version-written :
    (w : SharedLsm) (n p : ℕ) (b : BlockArray) (h : Pools)
    → (p == n) ≡ false
    → version_at (written w n b h) p ≡ version_at w p
version-written w n p b h differ = rw (version_at, differ) refl

exchange-run :
    (expected n x : ℕ) (v : SharedLsm)
    → Packed.compare_exchange_strong default_alignment (version_at v) v.pointer expected n
      ≡ some (true, expected, x)
    → exchange expected n v ≡ some (true, record v { pointer = x })
unfolding exchange
exchange-run expected n x v done = rw (exchange, done) refl

module _ (e : SharedEnv) (s : Store) (q : Pointer) {w : SharedLsm} {p : ℕ} (points : Points w p)
    (b : BlockArray) (h : Pools) where
  abbrev n : ℕ
  n = next_place e (version_at w p)

  abbrev v : SharedLsm
  v = written (synced w p) n b h

  synced-pointer : v.pointer ≡ w.pointer
  synced-pointer = elim (Bool-cases (is_fresh w)) [ inl e ↦ rw e refl | inr e ↦ rw e refl ]

  synced-arrays : (synced w p).arrays ≡ w.arrays
  synced-arrays = elim (Bool-cases (is_fresh w)) [ inl e ↦ rw e refl | inr e ↦ rw e refl ]

  module _ (aligned : n % default_alignment ≡ 0) (apart : p ≢ n) where
    at_new : v.arrays n ≡ b
    at_new = rw (eq_self n) refl

    at_old : version_at v p ≡ version_at w p
    at_old =
        let differ : (p == n) ≡ false = ground arith in
        version-written (synced w p) n p b h differ ∙ ap (λ f. (f p).version) synced-arrays

    exchange-eq :
        (x : ℕ) × (exchange w.pointer n v ≡ some (true, record v { pointer = x }))
        × Points (record v { pointer = x }) n
    exchange-eq =
        let u = version_at w p in
        let (x, run, place, fits) =
          compare_exchange_strong_lem default_alignment (omega arith) (version_at v) p u p u n
            points.aligned points.aligned aligned in
        let here : Packed.compare_exchange_strong default_alignment (version_at v)
              (p + low default_alignment u) (p + low default_alignment u) n
            ≡ some (true, p + low default_alignment u, x) =
          run ∙ rw (eq_self p, eq_self (u % default_alignment)) refl in
        let done : Packed.compare_exchange_strong default_alignment (version_at v) v.pointer
              w.pointer n
            ≡ some (true, w.pointer, x) =
          subst
            (λ o.
              Packed.compare_exchange_strong default_alignment (version_at v) o w.pointer n
              ≡ some (true, w.pointer, x))
            (sym synced-pointer)
            (subst
              (λ o.
                Packed.compare_exchange_strong default_alignment (version_at v) o o n
                ≡ some (true, o, x))
              (sym (pointer-eq points)) here) in
        (
          x,
          exchange-run w.pointer n x v done,
          record { aligned = aligned; place = place; fits = fits },
        )

    -- If the global pointer leads to an aligned array and matches its version, the block is of the
    -- thread's pool, the thread's next array is aligned and not the global one, and the block's
    -- insertion into the copy gives the array `b`, then `insert_block`, while no other thread takes
    -- a step, returns in its first round, also if it is given more: the global pointer leads to the
    -- thread's next array and matches its version, and this array is `b`.
    pub insert_block_lem :
        Pool.contains e.tid (w.pools e.tid) q ≡ true
        → Inserts e s q (synced w p) n b h
        → (fuel rounds : ℕ)
        → (w' : SharedLsm) × (insert_block e s (suc fuel) (suc rounds) q w ≡ some (tt, w'))
          × Points w' n
          × (w'.arrays n ≡ b)
    unfolding insert_block insert_loop
    insert_block_lem owned made fuel rounds =
        let (x, run, at) = exchange-eq in
        let now : global_version v ≡ version_at w p =
          ap (λ o. version_at v (unpacked_ptr default_alignment o)) synced-pointer
          ∙ ap (version_at v) points.place
          ∙ at_old in
        let same : (version_at w p == global_version v) ≡ true =
          rw now (eq_self (version_at w p)) in
        (
          published e v x b,
          rw (◌>>=◌, owned)
              (rw (◌>>=◌, refresh-eq points fuel)
                (rw (◌>>=◌, next_array-eq e s n q (synced w p) b h made)
                  (rw (◌>>=◌, try_publish-eq e v w.pointer (version_at w p) n x b same run) refl))),
          record { aligned = aligned; place = at.place; fits = at.fits },
          at_new,
        )
