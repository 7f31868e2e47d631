-- ===== src/Seq/Close.antt =====
-- `LSM::delete_min`, its end: the last level is deleted if the block that was shrunk was in it.
use klsm.Base.{
  ℕ, suc, ◌-◌, ◌≤◌, ◌≡◌, refl, sym, ap, subst, arith, true, ◌||◌, List, [], ◌∷◌, ◌++◌, Option, none,
  some, inl, inr, ◌⊎◌,
}
use klsm.Base.State.{◌>>=◌, pure}
use klsm.Seq.{Ptr, SeqBlock}
use klsm.Seq.Lsm.{Lsm, M, prune_last_block}
use klsm.Seq.Store.{at, load-eq, IsPool}
use klsm.Seq.Chain.{Node, IsChain, IsIn, IsLsm, IsTop}
use klsm.Seq.Splice.{IsIn-back, IsIn-front, IsIn-split, chain-below, chain-tail}
use klsm.Seq.Chain.{map-IsTop}
use klsm.Seq.Link.{first_ptr}

abbrev pub close : Option Ptr → M (Unit {0})
close next = elim next [ none ↦ prune_last_block | some x ↦ pure tt ]

-- Of which level the last block is.
pub last-top :
    {w : Lsm} (pre : List Node) (c : Node)
    → IsLsm w (pre ++ (c ∷ []))
    → w.levels ≡ suc c.ptr.0 ⊎ (w.levels ≤ 2)
last-top {w} pre c inv =
    let inside = inv.pool.allocated c.ptr (IsIn-back pre (c ∷ []) c.ptr (inl refl)) in
    elim inv.top [
      | inl few ↦ inr few
      | inr (q, b, e) ↦ elim (IsIn-split pre (c ∷ []) q b) [
        | inl i ↦
            let l = chain-below w.blocks 0 none w.head pre c [] q inv.chain i in
            absurd (omega arith)
        | inr i ↦ elim i [
          | inl f ↦ let z : q.0 ≡ c.ptr.0 = ap (λ x. x.0) f in inl (omega arith)
          | inr x ↦ absurd x
        ]
      ]
    ]

-- If the block is not the last, a block in front of it or behind it is of the last level.
pub inner-top :
    {w : Lsm} (pre : List Node) (c z : Node) (zs : List Node)
    → IsLsm w (pre ++ (c ∷ (z ∷ zs)))
    → IsTop w.levels (λ q. IsIn q pre ⊎ IsIn q (z ∷ zs))
inner-top {w} pre c z zs inv =
    let inside = inv.pool.allocated z.ptr (IsIn-back pre (c ∷ (z ∷ zs)) z.ptr (inr (inl refl))) in
    let tail = chain-tail w.blocks 0 none w.head pre c (z ∷ zs) inv.chain in
    elim inv.top [
      | inl few ↦ inl few
      | inr (q, b, e) ↦ elim (IsIn-split pre (c ∷ (z ∷ zs)) q b) [
        | inl i ↦ inr (q, inl i, e)
        | inr i ↦ elim i [
          | inl f ↦ let k : q.0 ≡ c.ptr.0 = ap (λ x. x.0) f in absurd (omega (arith, tail.2))
          | inr j ↦ inr (q, inr j, e)
        ]
      ]
    ]

either_used :
    (f : ℕ → ℕ → SeqBlock) (p : Ptr)
    → (p.1 ≡ 0) ⊎ (p.1 ≡ 1)
    → (at f p).used ≡ true
    → ((f p.0 0).used || (f p.0 1).used) ≡ true
either_used f p (inl e) u =
    let k : (f p.0 0).used ≡ true = subst (λ j. (f p.0 j).used ≡ true) e u in rw k refl
either_used f p (inr e) u =
    let k : (f p.0 1).used ≡ true = subst (λ j. (f p.0 j).used ≡ true) e u in ground arith

module _ (u : Lsm) (pre : List Node) (x : Node) (which : (x.ptr.1 ≡ 0) ⊎ (x.ptr.1 ≡ 1)) where
  abbrev pruned : Lsm
  pruned = record u { levels = u.levels - 1 }

  prune-run :
      u.levels ≡ suc (suc x.ptr.0)
      → (at u.blocks x.ptr).used ≡ true
      → prune_last_block u ≡ some (tt, pruned)
  unfolding prune_last_block
  prune-run e b =
      let k : u.levels - 2 ≡ x.ptr.0 = omega arith in
      rw k (
        rw (◌>>=◌, load-eq u (x.ptr.0, 0) (omega arith))
          (rw (◌>>=◌, load-eq u (x.ptr.0, 1) (omega arith))
            (rw (either_used u.blocks x.ptr which b) refl)))

  -- The block is the last one and the level behind it is deleted.
  pub close-last :
      u.levels ≡ suc (suc x.ptr.0)
      → IsPool u (λ q. IsIn q (pre ++ (x ∷ [])))
      → IsChain u.blocks 0 none u.head (pre ++ (x ∷ []))
      → (v : Lsm) × (close none u ≡ some (tt, v)) × IsLsm v (pre ++ (x ∷ []))
  close-last e pool chain = (
    pruned,
    prune-run e (pool.in_use x.ptr (IsIn-back pre (x ∷ []) x.ptr (inl refl))),
    record {
      pool = record {
        bounded = omega (arith, pool.bounded);
        sized = λ p k. pool.sized p (omega arith);
        idle = λ p k. pool.idle p (omega arith);
        in_use = pool.in_use;
        allocated = λ p i. elim (IsIn-split pre (x ∷ []) p i) [
          | inl j ↦ omega (arith, chain-below u.blocks 0 none u.head pre x [] p chain j)
          | inr j ↦ elim j [
            | inl f ↦ (let z : p.0 ≡ x.ptr.0 = ap (λ x. x.0) f in omega arith)
            | inr y ↦ absurd y
          ]
        ];
      };
      chain = chain;
      top = inr (x.ptr, IsIn-back pre (x ∷ []) x.ptr (inl refl), omega arith);
    },
  )

-- A block of the level below takes the place of one in a list: the invariant holds at the end.
pub close_lem :
    {w : Lsm} (pre : List Node) (c : Node) (post : List Node)
    → IsLsm w (pre ++ (c ∷ post))
    → (u : Lsm) (x : Node) → u.levels ≡ w.levels
    → c.ptr.0 ≡ suc x.ptr.0
    → (x.ptr.1 ≡ 0) ⊎ (x.ptr.1 ≡ 1)
    → IsPool u (λ q. IsIn q (pre ++ (x ∷ post)))
    → IsChain u.blocks 0 none u.head (pre ++ (x ∷ post))
    → (v : Lsm) × (close (first_ptr post) u ≡ some (tt, v)) × IsLsm v (pre ++ (x ∷ post))
close_lem {w} pre c [] inv u x e level which pool chain =
    let inside = inv.pool.allocated c.ptr (IsIn-back pre (c ∷ []) c.ptr (inl refl)) in
    let top = last-top pre c inv in
    close-last u pre x which (elim top [ inl t ↦ omega arith | inr few ↦ omega arith ]) pool chain
close_lem {w} pre c (z ∷ zs) inv u x e level which pool chain = (
  u,
  refl,
  record {
    pool = pool;
    chain = chain;
    top =
        subst (λ n. IsTop n (λ q. IsIn q (pre ++ (x ∷ (z ∷ zs))))) (sym e)
          (map-IsTop
            (λ q b. elim b [
              | inl i ↦ IsIn-front pre (x ∷ (z ∷ zs)) q i
              | inr j ↦ IsIn-back pre (x ∷ (z ∷ zs)) q (inr j)
            ])
            (inner-top pre c z zs inv));
  },
)
