-- ===== src/Seq/Unlink.antt =====
-- `LSM::delete_min`, the branch in which the first block of the list becomes empty and leaves it.
use mathlib.Core.List.Perm
use klsm.Base.{
  exponent-lt, ℕ, suc, ◌<◌, ◌≡◌, ◌≢◌, refl, sym, ap, subst, ◌∙◌, arith, true, List, [], ◌∷◌, Option,
  none, some, length, inl, inr, ◌==◌,
}
use klsm.Base.State.{◌>>=◌}
use klsm.Seq
use klsm.Seq.{Ptr, SeqBlock}
use klsm.Seq.Lsm.{Lsm, with_prev, store, unlink_head, is_head}
use klsm.Seq.Window.{stored-window}
use klsm.Seq.Blocks.{Holds, IsIdle, released, released-IsIdle}
use klsm.Seq.Store.{at, load-eq, modify-eq, update_self, update_other, IsPool}
use klsm.Seq.Pool.{stored_at, map-IsPool, released-IsPool}
use klsm.Seq.Chain.{Blocks, Node, IsChain, IsIn, IsLsm, IsTop, all_values, chain-lower, chain-level}
use klsm.Seq.Least.{HasFirst}
use klsm.Seq.Between.{IsAllocated, IsBusy, relinked-IsPool}
use klsm.Seq.Splice.{Follows, chain-follow}
use klsm.Seq.Taken.{
  Outcome, popped_block, taken, taken-at, taken-other, taken-Holds, taken-IsPool, inside, half,
  size, next-eq,
}
use klsm.Seq.Link.{first_ptr, first-IsAllocated, first-IsBusy, first-IsIn}

-- The list begins with `next`.
abbrev pub detached : Lsm → Option Ptr → Lsm
detached v none = record v { head = none }
detached v (some q) = stored_at (record v { head = some q }) q (with_prev none (at v.blocks q))

detached-other :
    (v : Lsm) (next : Option Ptr) (p : Ptr)
    → next ≢ some p
    → at (detached v next).blocks p ≡ at v.blocks p
detached-other v none p n = refl
detached-other v (some q) p n =
    update_other v.blocks q p (with_prev none (at v.blocks q)) (λ e. n (ap some (sym e)))

detached-head : (v : Lsm) (next : Option Ptr) → (detached v next).head ≡ next
detached-head v none = refl
detached-head v (some q) = refl

detached-levels : (v : Lsm) (next : Option Ptr) → (detached v next).levels ≡ v.levels
detached-levels v none = refl
detached-levels v (some q) = refl

detached-IsPool :
    {v : Lsm} {Busy : Ptr → Type 0} (next : Option Ptr)
    → IsBusy Busy next
    → IsPool v Busy
    → IsPool (detached v next) Busy
detached-IsPool none b pool = map-IsPool none (λ q y. y) (λ q y. y) pool
detached-IsPool {v} (some q) b pool =
    map-IsPool (some q) (λ q y. y) (λ q y. y) (relinked-IsPool q none (at v.blocks q).next b pool)

module _ (v : Lsm) (p : Ptr) (inside : p.0 < v.levels) where
  abbrev pub gone : SeqBlock
  gone = released (at v.blocks p) (at v.blocks p).elems

  abbrev pub unlinked : Option Ptr → Lsm
  unlinked next = stored_at (detached v next) p gone

  unlink-run :
      (next : Option Ptr)
      → next ≢ some p
      → (at v.blocks p).prev ≡ none
      → (at v.blocks p).next ≡ next
      → (at v.blocks p).used ≡ true
      → IsAllocated v next
      → unlink_head p v ≡ some (tt, unlinked next)
  unfolding unlink_head store klsm.Seq.set_unused
  unlink-run none n e e' u k =
      rw (◌>>=◌, load-eq v p inside)
        (rw (e, e') (rw (◌>>=◌, load-eq (detached v none) p inside) (rw (u, e, e') refl)))
  unlink-run (some q) n e e' u k =
      rw (◌>>=◌, load-eq v p inside)
        (rw (e, e')
          (rw (◌>>=◌, modify-eq (with_prev none) (record v { head = some q }) q k)
            (rw (◌>>=◌, load-eq (detached v (some q)) p inside)
              (rw (detached-other v (some q) p n) (rw (u, e, e') refl)))))

  unlinked-other :
      (next : Option Ptr) (q : Ptr)
      → q ≢ p
      → next ≢ some q
      → at (unlinked next).blocks q ≡ at v.blocks q
  unlinked-other next q n a =
      update_other (detached v next).blocks p q gone n ∙ detached-other v next q a

  unlinked-first :
      (q : Ptr) → q ≢ p → at (unlinked (some q)).blocks q ≡ with_prev none (at v.blocks q)
  unlinked-first q n =
      update_other (detached v (some q)).blocks p q gone n
      ∙ update_self v.blocks q (with_prev none (at v.blocks q))

  unlinked-Follows :
      (f : Blocks) (k : ℕ) (prev cur : Option Ptr) (ns : List Node)
      → ((q : Ptr) → IsIn q ns → q ≢ p)
      → ((q : Ptr) → IsIn q ns → at v.blocks q ≡ at f q)
      → IsChain f k prev cur ns
      → Follows f (unlinked (first_ptr ns)).blocks none ns
  unlinked-Follows f k prev cur [] new same c = tt
  unlinked-Follows f k prev cur (n ∷ ns) new same c = (
    unlinked-first n.ptr (new n.ptr (inl refl)) ∙ ap (with_prev none) (same n.ptr (inl refl)),
    λ q i.
        unlinked-other (some n.ptr) q (new q (inr i)) (λ e.
          let l = chain-level f (suc n.ptr.0) (some n.ptr) (at f n.ptr).next ns q c.4 i in
          let o : n.ptr ≡ q = cc in let z : n.ptr.0 ≡ q.0 = ap (λ x. x.0) o in absurd (omega arith))
        ∙ same q (inr i),
  )

module _ {w : Lsm} (post : List Node) (c : Node) (inv : IsLsm w (c ∷ post)) {y : ℕ}
    (first : HasFirst c y) (last_value : first.rest ≡ []) where
  abbrev v : Lsm
  v = taken [] post c inv first

  at_c : at v.blocks c.ptr ≡ popped_block [] post c inv first
  at_c = taken-at [] post c inv first

  inside_v : c.ptr.0 < v.levels
  inside_v = inside [] post c inv first

  not_next : first_ptr post ≢ some c.ptr
  not_next e =
      let l =
        chain-level w.blocks (suc c.ptr.0) (some c.ptr) (at w.blocks c.ptr).next post c.ptr
          inv.chain.4 (first-IsIn post c.ptr e) in
      omega arith

  Holds-nothing : Holds (popped_block [] post c inv first) []
  Holds-nothing =
      subst (Holds (popped_block [] post c inv first)) last_value (taken-Holds [] post c inv first)

  nothing : ((popped_block [] post c inv first).size == 0) ≡ true
  nothing =
      let k : (popped_block [] post c inv first).size ≡ 0 = omega (arith, Holds-nothing) in
      ground arith

  at_head : is_head w.head c.ptr ≡ true
  at_head = subst (λ o. is_head o c.ptr ≡ true) (sym inv.chain.0) (ground arith)

  gone-IsIdle : IsIdle (gone v c.ptr inside_v)
  gone-IsIdle = rw at_c (
      released-IsIdle (popped_block [] post c inv first) (popped_block [] post c inv first).elems
        (stored-window (popped_block [] post c inv first).elems
          (popped_block [] post c inv first).first [] Holds-nothing.window)
        Holds-nothing.allocated)

  other : (q : Ptr) → IsIn q post → q ≢ c.ptr
  other q i e =
      let l =
        chain-level w.blocks (suc c.ptr.0) (some c.ptr) (at w.blocks c.ptr).next post q inv.chain.4
          i in
      let z : q.0 ≡ c.ptr.0 = ap (λ x. x.0) e in absurd (omega arith)

  abbrev final : Lsm
  final = unlinked v c.ptr inside_v (first_ptr post)

  final-pool : IsPool final (λ q. IsIn q (c ∷ post) × (q ≢ c.ptr))
  final-pool =
      released-IsPool
        (detached-IsPool (first_ptr post)
          (first-IsBusy (λ q. IsIn q (c ∷ post)) post (λ q i. inr i))
          (taken-IsPool [] post c inv first))
        c.ptr (subst (λ n. c.ptr.0 < n) (sym (detached-levels v (first_ptr post))) inside_v)
        (gone v c.ptr inside_v) (ap (λ b. b.capacity) at_c ∙ size [] post c inv first) gone-IsIdle

  final-Follows : Follows w.blocks final.blocks none post
  final-Follows =
      unlinked-Follows v c.ptr inside_v w.blocks (suc c.ptr.0) (some c.ptr) (at w.blocks c.ptr).next
        post other (λ q i. taken-other [] post c inv first q (other q i)) inv.chain.4

  low : c.ptr.0 < 2
  low =
      exponent-lt c.ptr.0 2 2 (omega (arith, half [] post c inv first, ap length last_value))
        (omega arith)

  final-top : IsTop w.levels (λ q. IsIn q post)
  final-top = elim inv.top [
    | inl few ↦ inl few
    | inr (q, b, e) ↦ elim b [
      | inl f ↦ inl (let z : q.0 ≡ c.ptr.0 = ap (λ x. x.0) f in omega (arith, low))
      | inr i ↦ inr (q, i, e)
    ]
  ]

  pub unlink-Outcome : (unset : ℕ) → Outcome [] post c inv first unset
  unlink-Outcome unset = (
    final,
    post,
    rw (nothing, at_head)
        (unlink-run v c.ptr inside_v (first_ptr post) not_next (ap (λ b. b.prev) at_c ∙ inv.chain.3)
          (ap (λ b. b.next) at_c ∙ next-eq [] post c inv first)
          (ap (λ b. b.used) at_c ∙ Holds-nothing.taken)
          (first-IsAllocated v post (λ q i. inv.pool.allocated q (inr i)))),
    record {
      pool =
          map-IsPool final.head (λ p b. elim b.0 [ inl e ↦ absurd (b.1 e) | inr i ↦ i ])
            (λ p i. (inr i, other p i)) final-pool;
      chain =
          subst (λ o. IsChain final.blocks 0 none o post)
            (next-eq [] post c inv first ∙ sym (detached-head v (first_ptr post)))
            (chain-lower final.blocks none (at w.blocks c.ptr).next post (omega arith) (
              chain-follow w.blocks final.blocks none (suc c.ptr.0) (some c.ptr)
                (at w.blocks c.ptr).next post final-Follows inv.chain.4));
      top =
          subst (λ n. IsTop n (λ q. IsIn q post)) (sym (detached-levels v (first_ptr post)))
            final-top;
    },
    rw (first.split, last_value) (Perm.refl (y ∷ all_values post)),
  )
