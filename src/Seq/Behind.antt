-- ===== src/Seq/Behind.antt =====
-- `LSM::delete_min`: a block is shrunk behind the block `l`, which is of a level further below and
-- is not merged with it.
use klsm.Base.{
  ℕ, suc, ◌<◌, ◌^◌, ◌≡◌, ◌≢◌, refl, sym, ap, subst, ◌∙◌, arith, false, ltb, List, [], ◌∷◌, ◌++◌,
  append_assoc, none, some, length, inl, inr, ◌==◌, power-lt, exponent-lt, Bool-cases,
}
use klsm.Base.State.{◌>>=◌}
use klsm.Seq.{Ptr}
use klsm.Seq.Lsm.{Lsm, with_next, unused_block}
use klsm.Seq.Store.{at, load-eq, Handed}
use klsm.Seq.Chain.{Node, IsFull, IsChain, IsIn, IsLsm}
use klsm.Seq.Least.{HasFirst}
use klsm.Seq.Between.{between-head_some, between-other, between-prev}
use klsm.Seq.Splice.{chain-behind, chain-below, chain-full, relinked-IsFull, IsIn-front}
use klsm.Seq.Link.{first_ptr, first-IsIn}
use klsm.Seq.Taken.{Outcome, taken, half}
use klsm.Seq.Shrink.{finish, new_apart}
use klsm.Seq.Close.{close}
use klsm.Seq.Placing.{
  place, m, place-IsFull, place-chain, front_same, front_listed, front_level, behind_level,
}
use klsm.Seq.Stays.{
  some-apart, close-Outcome, not_zero, whole, l_front, l_apart, s, l_busy, s-IsPool, before_next,
  placed-run, size_l, size_n,
}

module _ {w : Lsm} (init : List Node) (l : Node) (post : List Node) (c : Node)
    (inv : IsLsm w ((init ++ (l ∷ [])) ++ (c ∷ post))) {y : ℕ} (first : HasFirst c y) (i : ℕ)
    (level : c.ptr.0 ≡ suc i) (small : length first.rest < 2 ^ i) where
  abbrev front : List Node
  front = init ++ (l ∷ [])

  pub l_below : l.ptr.0 < suc i
  l_below = omega (
    arith,
    chain-below w.blocks 0 none w.head front c post l.ptr inv.chain
        (l_front init l post c inv first i level small),
    level,
  )

  module _ (unset : ℕ) {n : Ptr} {v' : Lsm} (got : Handed i (taken front post c inv first) n v')
      (run : unused_block unset (2 ^ i) (taken front post c inv first) ≡ some (n, v')) where
    abbrev u : Lsm
    u = s init l post c inv first i level small unset got run

    not_next : (q : Ptr) → IsIn q front → first_ptr post ≢ some q
    not_next q j e =
        let a = front_level front post c inv first i level small got q j in
        let b = behind_level front post c inv first i level small got q (first-IsIn post q e) in
        absurd (omega arith)

    before_l : (q : Ptr) → IsIn q init → q.0 < l.ptr.0
    before_l q j =
        chain-below w.blocks 0 none w.head init l (c ∷ post) q
          (whole init l post c inv first i level small) j

    -- What is in front of the new place is as it was, but for a link.
    pub init_same : (q : Ptr) → IsIn q init → at u.blocks q ≡ at w.blocks q
    init_same q j =
        let in_front = IsIn-front init (l ∷ []) q j in
        between-other (m front post c inv first i level small got) n (some l.ptr) (first_ptr post) q
          (new_apart front post c inv first i level small got q
            (front_listed front post c inv first i level small got q in_front))
          (some-apart
            (λ e. let z : l.ptr.0 ≡ q.0 = ap (λ x. x.0) e in absurd (omega (arith, before_l q j))))
          (not_next q in_front)
        ∙ front_same front post c inv first i level small got q in_front

    pub at_l : at u.blocks l.ptr ≡ with_next (some n) (at w.blocks l.ptr)
    at_l =
        let in_front = l_front init l post c inv first i level small in
        between-prev (m front post c inv first i level small got) n l.ptr (first_ptr post)
          (new_apart front post c inv first i level small got l.ptr
            (front_listed front post c inv first i level small got l.ptr in_front))
          (not_next l.ptr in_front)
        ∙ ap (with_next (some n))
            (front_same front post c inv first i level small got l.ptr in_front)

    pub l-IsFull : IsFull u.blocks l
    l-IsFull = relinked-IsFull w.blocks u.blocks l (at w.blocks l.ptr).prev (some n) at_l (
        chain-full w.blocks 0 none w.head init l (c ∷ post)
          (whole init l post c inv first i level small))

    pub u_head : u.head ≡ w.head
    u_head =
        between-head_some (m front post c inv first i level small got) n l.ptr (first_ptr post)
        ∙ got.head

    -- The block `l` is of a level further below.
    module _ (differ : l.ptr.0 ≢ i) where
      some_left : 0 < length first.rest
      some_left = elim (Bool-cases (ltb 0 (length first.rest))) [
        | inl e ↦ ground arith
        | inr e ↦
            let none_left : length first.rest ≡ 0 = ground arith in
            let low =
              exponent-lt c.ptr.0 2 2 (omega (arith, half front post c inv first)) (omega arith) in
            absurd (omega (arith, l_below))
      ]

      unequal : ((at u.blocks l.ptr).capacity == (at u.blocks n).capacity) ≡ false
      unequal =
          let k : 2 ^ l.ptr.0 < 2 ^ i = power-lt l.ptr.0 i (omega (arith, l_below)) in
          let k' : (at u.blocks l.ptr).capacity < (at u.blocks n).capacity = omega (
            arith,
            size_l init l post c inv first i level small unset got run,
            size_n init l post c inv first i level small unset got run,
          ) in
          ground arith

      finish-run :
          finish unset (first_ptr post) n (at u.blocks n) (some l.ptr) u ≡ close (first_ptr post) u
      finish-run =
          rw
            (
              ◌>>=◌,
              load-eq u l.ptr (
                  (s-IsPool init l post c inv first i level small unset got run).allocated l.ptr
                    (l_busy init l post c inv first i level small unset got run)),
            )
            (rw unequal refl)

      new_chain :
          IsChain u.blocks 0 none u.head
            (front ++ ((place front post c inv first i level small got) ∷ post))
      new_chain =
          let x = place front post c inv first i level small got in
          let apart = l_apart init l post c inv first i level small unset got run in
          subst (λ o. IsChain u.blocks 0 none o (front ++ (x ∷ post))) (sym u_head)
            (subst (IsChain u.blocks 0 none w.head) (sym (append_assoc init (l ∷ []) (x ∷ post))) (
              chain-behind w.blocks u.blocks n l (c ∷ post) (x ∷ post) 0 none w.head init
                (whole init l post c inv first i level small) init_same at_l
                (place-chain front post c inv first i level small got (some l.ptr) apart
                  (suc l.ptr.0) (omega (arith, l_below))
                  (place-IsFull front post c inv first i level small got (some l.ptr) apart
                    (l_busy init l post c inv first i level small unset got run) some_left)
                  (before_next init l post c inv first i level small unset got run))))

      pub behind-Outcome : Outcome front post c inv first unset
      behind-Outcome =
          close-Outcome front post c inv first i level small unset got run (some l.ptr)
            (l_apart init l post c inv first i level small unset got run)
            (not_zero front post c inv first i level small some_left w.head)
            (placed-run init l post c inv first i level small unset got run ∙ finish-run)
            (s-IsPool init l post c inv first i level small unset got run) new_chain
