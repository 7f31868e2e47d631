-- ===== src/Seq/Round.antt =====
-- `LSM::insert`, a round of its loop: it merges two blocks of one level, or ends the loop.
use mathlib.Core.List.Perm
use mathlib.Core.List.{perm_append_comm}
use klsm.Base.{
  power_injective, power-lt, length-append, ◌+◌, ℕ, suc, ◌<◌, ◌*◌, ◌≤◌, ◌^◌, ◌≡◌, ◌≢◌, refl, sym,
  ap, subst, ◌∙◌, true, false, arith, List, ◌∷◌, ◌++◌, Option, some, length, inl, inr, ◌⊎◌, ◌==◌,
  ltb, Bool-cases, Perm, append_assoc,
}
use klsm.Base.State.{◌>>=◌}
use klsm.Seq.{Ptr}
use klsm.Seq.Lsm.{Lsm, unused_block, insert_loop}
use klsm.Seq.Window.{merge_values, merge_values-perm, length-merge_values}
use klsm.Seq.Store.{at, load-eq, eq_self, IsPool, Handed}
use klsm.Seq.Pool.{map-IsPool, Handed-apart}
use klsm.Seq.Merging.{
  final, final-IsPool, final-new, final-next, final-other, new-Holds, merge_blocks-run,
}
use klsm.Seq.Chain.{
  IsTop, Node, IsFull, IsChain, IsIn, all_values, chain-level, chain-same, chain-once,
}

-- The state in the loop: a block in front of the list, that may be of the level of the list's first.
pub record IsLoop (k : ℕ) (w : Lsm) (p : Ptr) (vs : List ℕ) (ns : List Node) : Type 0 where
  pub pool : IsPool w (λ q. (q ≡ p) ⊎ IsIn q ns)
  pub full : IsFull w.blocks (record { ptr = p; values = vs })
  pub prev : Option Ptr
  pub chain : IsChain w.blocks k prev w.head ns
  pub apart : IsIn p ns → ⊥
  pub top : IsTop w.levels (λ q. (q ≡ p) ⊎ IsIn q ns)

pub seconds : {p q : Ptr} → p ≡ q → p.1 ≡ q.1
seconds e = ap (λ x. x.1) e

module _ {w : Lsm} {p : Ptr} {vs : List ℕ} {h : Node} {ns : List Node}
    (loop : IsLoop p.0 w p vs (h ∷ ns)) where
  size_h : (at w.blocks h.ptr).capacity ≡ 2 ^ h.ptr.0
  size_h = loop.pool.sized h.ptr (loop.pool.allocated h.ptr (inr (inl refl)))

  size_p : (at w.blocks p).capacity ≡ 2 ^ p.0
  size_p = loop.pool.sized p (loop.pool.allocated p (inl refl))

  pub equal_level :
      ((at w.blocks h.ptr).capacity == (at w.blocks p).capacity) ≡ true → p.0 ≡ h.ptr.0
  equal_level e =
      let c : (at w.blocks h.ptr).capacity ≡ (at w.blocks p).capacity = ground arith in
      omega (
        arith,
        loop.chain.2,
        power_injective p.0 h.ptr.0 loop.chain.2 (sym size_p ∙ sym c ∙ size_h),
      )

  equal_size : p.0 ≡ h.ptr.0 → ((at w.blocks h.ptr).capacity == (at w.blocks p).capacity) ≡ true
  equal_size level =
      let e : (at w.blocks h.ptr).capacity ≡ (at w.blocks p).capacity =
        size_h ∙ sym (size_p ∙ ap (λ i. 2 ^ i) level) in
      rw e (eq_self (at w.blocks p).capacity)

  -- The round that leaves the loop.
  module _ (differ : ((at w.blocks h.ptr).capacity == (at w.blocks p).capacity) ≡ false) where
    higher : suc p.0 ≤ h.ptr.0
    higher = elim (Bool-cases (ltb p.0 h.ptr.0)) [
      | inl l ↦ ground arith
      | inr l ↦
          let level : p.0 ≡ h.ptr.0 = let c = loop.chain.2 in ground arith in
          let k = equal_size level in absurd (cc)
    ]

    pub stop-run : (unset fuel : ℕ) → insert_loop unset (suc fuel) p w ≡ some (p, w)
    unfolding insert_loop
    stop-run unset fuel =
        simp (◌>>=◌, loop.chain.0)
          (rw (◌>>=◌, load-eq w h.ptr (loop.pool.allocated h.ptr (inr (inl refl))))
            (rw (◌>>=◌, load-eq w p (loop.pool.allocated p (inl refl))) (rw differ refl)))

    pub stopped : IsLoop (suc p.0) w p vs (h ∷ ns)
    stopped = record {
      pool = loop.pool;
      full = loop.full;
      prev = loop.prev;
      chain = (loop.chain.0, loop.chain.1, higher, loop.chain.3, loop.chain.4);
      apart = loop.apart;
      top = loop.top;
    }

-- One round that merges.
module _ (unset : ℕ) {w : Lsm} {p : Ptr} {vs : List ℕ} {h : Node} {ns : List Node}
    (loop : IsLoop p.0 w p vs (h ∷ ns)) (level : p.0 ≡ h.ptr.0) where
  abbrev Busy : Ptr → Type 0
  Busy q = (q ≡ p) ⊎ IsIn q (h ∷ ns)

  pub apart_h : h.ptr ≢ p
  apart_h e = loop.apart (inl (sym e))

  rest : IsChain w.blocks (suc h.ptr.0) (some h.ptr) (at w.blocks h.ptr).next ns
  rest = loop.chain.4

  not_high : (q : Ptr) → h.ptr.0 < q.0 → Busy q → IsIn q ns
  not_high q e (inl i) = let l : q.0 ≡ p.0 = ap (λ x. x.0) i in absurd (omega arith)
  not_high q e (inr (inl i)) = let l : q.0 ≡ h.ptr.0 = ap (λ x. x.0) i in absurd (omega arith)
  not_high q e (inr (inr i)) = i

  pub once : Busy (suc h.ptr.0, 0) → Busy (suc h.ptr.0, 1) → ⊥
  once a b =
      let e =
        chain-once w.blocks (suc h.ptr.0) (some h.ptr) (at w.blocks h.ptr).next ns (suc h.ptr.0, 0)
          (suc h.ptr.0, 1) rest (not_high _ (omega arith) a) (not_high _ (omega arith) b) refl in
      let k = seconds e in absurd (omega arith)

  -- Both blocks are at least half full: with fewer than 2^30 values, the next level is below 31.
  pub next_low : length vs + length (all_values (h ∷ ns)) < 2 ^ 30 → suc h.ptr.0 < 31
  next_low few =
      let total : length (all_values (h ∷ ns)) ≡ length h.values + length (all_values ns) =
        length-append h.values (all_values ns) in
      let below : 2 ^ h.ptr.0 < 2 ^ 30 = omega (
        arith,
        loop.full.half,
        loop.chain.1.half,
        loop.pool.sized h.ptr (loop.pool.allocated h.ptr (inr (inl refl))),
        loop.pool.sized p (loop.pool.allocated p (inl refl)),
        ap (λ i. 2 ^ i) level,
      ) in
      elim (Bool-cases (ltb h.ptr.0 30)) [
        | inl e ↦ ground arith
        | inr e ↦ elim (Bool-cases (30 == h.ptr.0)) [
          | inl s ↦
              absurd (let same : 30 ≡ h.ptr.0 = ground arith in omega (arith, ap (λ i. 2 ^ i) same))
          | inr d ↦ absurd (omega (arith, power-lt 30 h.ptr.0 (ground arith)))
        ]
      ]

  pub fewer :
      length vs + length (all_values (h ∷ ns)) < 2 ^ 30
      → length (merge_values h.values vs) + length (all_values ns) < 2 ^ 30
  fewer few = omega (arith, length-append h.values (all_values ns), length-merge_values h.values vs)

  module _ {m : Ptr} {w' : Lsm} (got : Handed (suc h.ptr.0) w m w') where
    abbrev pub after : Lsm
    after =
        final loop.pool (inr (inl refl)) (inl refl) apart_h level loop.chain.1.holds loop.full.holds
          got

    level_m : m.0 ≡ suc h.ptr.0
    level_m = got.level

    to : (q : Ptr) → (((q ≡ m) ⊎ Busy q) × (q ≢ h.ptr)) × (q ≢ p) → (q ≡ m) ⊎ IsIn q ns
    to q ((inl e, a), b) = inl e
    to q ((inr (inl e), a), b) = absurd (b e)
    to q ((inr (inr (inl e)), a), b) = absurd (a e)
    to q ((inr (inr (inr i)), a), b) = inr i

    not_first : (q : Ptr) → IsIn q ns → q ≢ h.ptr
    not_first q i e =
        let k =
          chain-level w.blocks (suc h.ptr.0) (some h.ptr) (at w.blocks h.ptr).next ns q rest i in
        let l : q.0 ≡ h.ptr.0 = ap (λ x. x.0) e in absurd (omega arith)

    not_new : (q : Ptr) → IsIn q ns → q ≢ p
    not_new q i e = loop.apart (inr (subst (λ q. IsIn q ns) e i))

    fresh_level : (q : Ptr) → q.0 ≡ h.ptr.0 → m ≢ q
    fresh_level q e n = let l : m.0 ≡ q.0 = ap (λ x. x.0) n in absurd (omega (arith, level_m))

    from : (q : Ptr) → (q ≡ m) ⊎ IsIn q ns → (((q ≡ m) ⊎ Busy q) × (q ≢ h.ptr)) × (q ≢ p)
    from q (inl e) =
        ((inl e, λ a. fresh_level h.ptr refl (sym e ∙ a)), λ b. fresh_level p level (sym e ∙ b))
    from q (inr i) = ((inr (inr (inr i)), not_first q i), not_new q i)

    final_pool : IsPool after (λ q. (((q ≡ m) ⊎ Busy q) × (q ≢ h.ptr)) × (q ≢ p))
    final_pool =
        final-IsPool loop.pool (inr (inl refl)) (inl refl) apart_h level loop.chain.1.holds
          loop.full.holds got

    size_new : (at after.blocks m).capacity ≡ 2 * 2 ^ h.ptr.0
    size_new =
        omega
          (arith, final_pool.sized m (omega (arith, level_m, got.inside)), ap (λ i. 2 ^ i) level_m)

    half_new : (at after.blocks m).capacity ≤ 2 * length (merge_values h.values vs)
    half_new = omega (
      arith,
      size_new,
      length-merge_values h.values vs,
      loop.full.half,
      loop.chain.1.half,
      loop.pool.sized h.ptr (loop.pool.allocated h.ptr (inr (inl refl))),
      loop.pool.sized p (loop.pool.allocated p (inl refl)),
      ap (λ i. 2 ^ i) level,
    )

    -- The last level has the new block, or is as it was and above the level of the two.
    top_after : IsTop w'.levels (λ q. (q ≡ m) ⊎ IsIn q ns)
    top_after = elim (Bool-cases (w'.levels == suc (suc h.ptr.0))) [
      | inl e ↦
          let l : w'.levels ≡ suc (suc h.ptr.0) = ground arith in
          inr (m, inl refl, omega (arith, level_m))
      | inr e ↦
          let l : w'.levels ≢ suc (suc h.ptr.0) = λ k. ground arith in
          let high : suc (suc h.ptr.0) < w'.levels = omega (arith, got.inside) in
          let still : w'.levels ≡ w.levels = omega (arith, got.bound, got.more) in
          elim loop.top [
            | inl few ↦ inl (omega arith)
            | inr (q, b, at_top) ↦ inr (q, inr (not_high q (omega arith) b), omega arith)
          ]
    ]

    pub next-IsLoop :
        IsLoop m.0
          (record after { head = (at w.blocks h.ptr).next })
          m
          (merge_values h.values vs)
          ns
    next-IsLoop = record {
      pool = map-IsPool (at w.blocks h.ptr).next to from final_pool;
      full = record {
        holds =
            rw
              (final-new loop.pool (inr (inl refl)) (inl refl) apart_h level loop.chain.1.holds
                loop.full.holds got)
              (new-Holds loop.pool (inr (inl refl)) (inl refl) apart_h level loop.chain.1.holds
                loop.full.holds got);
        half = half_new;
      };
      prev = some h.ptr;
      chain =
          subst (λ k. IsChain after.blocks k (some h.ptr) (at w.blocks h.ptr).next ns) (sym level_m)
            (chain-same w.blocks after.blocks (suc h.ptr.0) (some h.ptr) (at w.blocks h.ptr).next ns
              (λ q i.
                final-other loop.pool (inr (inl refl)) (inl refl) apart_h level loop.chain.1.holds
                  loop.full.holds got q (inr (inr i)) (not_first q i) (not_new q i))
              rest);
      apart = λ i. Handed-apart loop.pool got (inr (inr i));
      top = top_after;
    }

    pub next_perm : Perm (merge_values h.values vs ++ all_values ns) (vs ++ all_values (h ∷ ns))
    next_perm = rw (← append_assoc vs h.values (all_values ns)) (
        Perm.append_right (all_values ns)
          (Perm.trans (merge_values-perm h.values vs) (perm_append_comm h.values vs)))

    pub round-run :
        (fuel : ℕ)
        → unused_block unset (2 ^ suc h.ptr.0) w ≡ some (m, w')
        → insert_loop unset (suc fuel) p w
          ≡ insert_loop unset fuel m (record after { head = (at w.blocks h.ptr).next })
    unfolding insert_loop
    round-run fuel e =
        simp (◌>>=◌, loop.chain.0)
          (rw (◌>>=◌, load-eq w h.ptr (loop.pool.allocated h.ptr (inr (inl refl))))
            (rw (◌>>=◌, load-eq w p (loop.pool.allocated p (inl refl)))
              (rw (equal_size loop level) (
                rw
                  (
                    ◌>>=◌,
                    merge_blocks-run loop.pool (inr (inl refl)) (inl refl) apart_h level
                        loop.chain.1.holds loop.full.holds got unset e,
                  )
                  (rw
                    (
                      ◌>>=◌,
                      load-eq after h.ptr
                          (omega (arith, got.more, loop.pool.allocated h.ptr (inr (inl refl)))),
                    )
                    (ap (λ o. insert_loop unset fuel m (record after { head = o }))
                      (final-next loop.pool (inr (inl refl)) (inl refl) apart_h level
                        loop.chain.1.holds loop.full.holds got)))))))
