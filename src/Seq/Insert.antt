-- ===== src/Seq/Insert.antt =====
-- `LSM::insert`: the new key joins the values that the list holds.
use klsm.Base.{
  ◌≤◌, ◌⊎◌, inl, inr, Bool-cases, leb, Perm, ℕ, ◌<◌, ◌^◌, ◌≡◌, refl, sym, ap, subst, ◌∙◌, arith,
  List, [], ◌∷◌, none, some, length, suc,
}
use klsm.Base.State.{◌>>=◌, lift}
use klsm.Seq.{Ptr, SeqBlock}
use klsm.Seq.Lsm.{Lsm, lsm, store, insert, insert_loop, insert_between, unused_block}
use klsm.Seq.Filling.{singleton, put-eq, singleton-Holds}
use klsm.Seq.Store.{at, load-eq, update_self, update_other, IsPool, Handed, unused_block_lem}
use klsm.Seq.Pool.{stored_at, Handed-IsPool, Handed-apart, filled-IsPool}
use klsm.Seq.Chain.{
  IsTop, Node, IsChain, IsIn, IsLsm, all_values, chain-same, chain-once, length-chain,
}
use klsm.Seq.Loop.{insert_loop_lem}
use klsm.Seq.Round.{IsLoop, seconds}
use klsm.Seq.Link.{link_lem}

-- A new LSM satisfies the invariant.
pub lsm-IsLsm : (unset : ℕ → ℕ → SeqBlock) → IsLsm (lsm unset) []
unfolding lsm
lsm-IsLsm unset = record {
  pool = record {
    bounded = omega arith;
    sized = λ p h. absurd (omega arith);
    idle = λ p h. absurd (omega arith);
    in_use = λ p b. absurd b;
    allocated = λ p b. absurd b;
  };
  chain = refl;
  top = inl (omega arith);
}

module _ (key : ℕ) {w : Lsm} {ns : List Node} (inv : IsLsm w ns) {n : Ptr} {w' : Lsm}
    (got : Handed 0 w n w') where
  -- The state in which the new key is in a block of its own.
  abbrev ready : Lsm
  ready = stored_at w' n (singleton (at w'.blocks n) key)

  pool' : IsPool w' (λ p. IsIn p ns)
  pool' = Handed-IsPool inv.pool got

  inside : n.0 < w'.levels
  inside = omega (arith, got.level, got.inside)

  single : (at w'.blocks n).capacity ≡ 1
  single = omega (arith, pool'.sized n inside, ap (λ i. 2 ^ i) got.level)

  at_n : at ready.blocks n ≡ singleton (at w'.blocks n) key
  at_n = update_self w'.blocks n (singleton (at w'.blocks n) key)

  absent : IsIn n ns → ⊥
  absent = Handed-apart inv.pool got

  same : (q : Ptr) → IsIn q ns → at ready.blocks q ≡ at w.blocks q
  same q i =
      update_other w'.blocks n q (singleton (at w'.blocks n) key)
        (λ e. absent (subst (λ q. IsIn q ns) e i))
      ∙ got.same q (inv.pool.allocated q i)

  top_ready : IsTop w'.levels (λ q. (q ≡ n) ⊎ IsIn q ns)
  top_ready = elim inv.top [
    | inl few ↦ inl (omega (arith, got.bound))
    | inr (q, b, e) ↦ elim (Bool-cases (leb w.levels 2)) [
      | inl few ↦ inl (let l : w.levels ≤ 2 = ground arith in omega (arith, got.bound))
      | inr many ↦
          inr
            (q, inr b, (let l : 2 < w.levels = ground arith in omega (arith, got.bound, got.more)))
    ]
  ]

  ready-IsLoop : IsLoop n.0 ready n (key ∷ []) ns
  ready-IsLoop = record {
    pool =
        filled-IsPool pool' n inside (singleton (at w'.blocks n) key) (pool'.sized n inside) refl;
    full = record {
      holds = rw at_n (singleton-Holds got.idle single key);
      half = rw at_n (omega (arith, single));
    };
    prev = none;
    chain =
        subst (λ o. IsChain ready.blocks n.0 none o ns) (sym got.head)
          (subst (λ k. IsChain ready.blocks k none w.head ns) (sym got.level)
            (chain-same w.blocks ready.blocks 0 none w.head ns same inv.chain));
    apart = absent;
    top = top_ready;
  }

  insert-run :
      (unset fuel : ℕ) {m : Ptr} {v : Lsm}
      → unused_block unset 1 w ≡ some (n, w')
      → insert_loop unset fuel n ready ≡ some (m, v)
      → insert unset fuel key w ≡ insert_between m none v.head v
  unfolding insert store
  insert-run unset fuel e f =
      rw (◌>>=◌, e)
        (rw (◌>>=◌, load-eq w' n inside)
          (rw (◌>>=◌, lift, put-eq got.idle single key) (rw (◌>>=◌, f) refl)))

once : {w : Lsm} {ns : List Node} → IsLsm w ns → IsIn (0, 0) ns → IsIn (0, 1) ns → ⊥
once {w} {ns} inv a b =
    let k = seconds (chain-once w.blocks 0 none w.head ns (0, 0) (0, 1) inv.chain a b refl) in
    absurd (omega arith)

-- With more fuel than levels and fewer than 2^30 keys, the new one included, `insert` returns, the
-- invariant holds again, and the list then holds the new key and what it held.
pub insert_lem :
    (unset fuel key : ℕ) {w : Lsm} {ns : List Node}
    → IsLsm w ns
    → w.levels < fuel
    → suc (length (all_values ns)) < 2 ^ 30
    → (w' : Lsm) × (ms : List Node) × (insert unset fuel key w ≡ some (tt, w'))
      × IsLsm w' ms
      × Perm (all_values ms) (key ∷ all_values ns)
insert_lem unset fuel key {w} {ns} inv enough few =
    let (n, w1, e, got) =
      unused_block_lem unset inv.pool 0 (omega arith) (omega arith) (once inv) in
    let short =
      length-chain w.blocks 0 w.levels none w.head ns (omega arith) inv.chain inv.pool.allocated in
    let (m, v, us, ms, f, loop, perm) =
      insert_loop_lem unset fuel (ready key inv got) n (key ∷ []) ns (omega arith) (omega arith)
        (ready-IsLoop key inv got) in
    let (w', g, inv') = link_lem v m us ms loop (omega arith) in
    (
      w',
      record { ptr = m; values = us } ∷ ms,
      insert-run key inv got unset fuel e f ∙ g,
      inv',
      perm,
    )
