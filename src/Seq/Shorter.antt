-- ===== src/Seq/Shorter.antt =====
-- `LSM::delete_min`, the branch in which the block stays at least half full.
use klsm.Base.{
  ℕ, zero, suc, ◌*◌, ◌/◌, ◌<◌, ◌≤◌, ◌^◌, ◌≡◌, ◌≢◌, refl, sym, ap, subst, ◌∙◌, arith, false, ltb,
  List, [], ◌∷◌, ◌++◌, Option, none, some, length, inl, inr, ◌==◌,
}
use klsm.Seq.{Ptr}
use klsm.Seq.Lsm.{Lsm}
use klsm.Seq.Store.{at}
use klsm.Seq.Pool.{map-IsPool}
use klsm.Seq.Chain.{Blocks, Node, IsFull, IsChain, IsIn, IsLsm, map-IsTop, chain-level, chain-same}
use klsm.Seq.Least.{HasFirst}
use klsm.Seq.Splice.{IsIn-back}
use klsm.Seq.Taken.{
  Outcome, popped_block, taken, taken-at, taken-other, taken-Holds, taken-IsPool, full,
  all_values-replace,
}

-- The list with other values in one of its blocks.
module _ (f g : Blocks) (c : Node) (vs : List ℕ) (post : List Node) where
  abbrev less : Node
  less = record { ptr = c.ptr; values = vs }

  module _ (full : IsFull g less) (prev_same : (at g c.ptr).prev ≡ (at f c.ptr).prev)
      (next_same : (at g c.ptr).next ≡ (at f c.ptr).next)
      (same : (p : Ptr) → p ≢ c.ptr → at g p ≡ at f p) where
    chain-replace :
        (k : ℕ) (prev cur : Option Ptr) (pre : List Node)
        → IsChain f k prev cur (pre ++ (c ∷ post))
        → IsChain g k prev cur (pre ++ (less ∷ post))
    chain-replace k prev cur [] chain = (
      chain.0,
      full,
      chain.2,
      prev_same ∙ chain.3,
      subst (λ o. IsChain g (suc c.ptr.0) (some c.ptr) o post) (sym next_same)
          (chain-same f g (suc c.ptr.0) (some c.ptr) (at f c.ptr).next post
            (λ p i. same p (λ e.
              let l = chain-level f (suc c.ptr.0) (some c.ptr) (at f c.ptr).next post p chain.4 i in
              let z : p.0 ≡ c.ptr.0 = ap (λ x. x.0) e in absurd (omega arith)))
            chain.4),
    )
    chain-replace k prev cur (n ∷ pre) chain =
        let other : n.ptr ≢ c.ptr = λ e.
          let l =
            chain-level f (suc n.ptr.0) (some n.ptr) (at f n.ptr).next (pre ++ (c ∷ post)) c.ptr
              chain.4 (IsIn-back pre (c ∷ post) c.ptr (inl refl)) in
          let z : n.ptr.0 ≡ c.ptr.0 = ap (λ x. x.0) e in absurd (omega arith) in
        let e = same n.ptr other in
        (
          chain.0,
          record { holds = rw e chain.1.holds; half = rw e chain.1.half },
          chain.2,
          ap (λ b. b.prev) e ∙ chain.3,
          subst (λ o. IsChain g (suc n.ptr.0) (some n.ptr) o (pre ++ (less ∷ post)))
              (sym (ap (λ b. b.next) e))
              (chain-replace (suc n.ptr.0) (some n.ptr) (at f n.ptr).next pre chain.4),
        )

IsIn-replace :
    (pre post : List Node) (c : Node) (us vs : List ℕ) (p : Ptr)
    → IsIn p (pre ++ ((record c { values = us }) ∷ post))
    → IsIn p (pre ++ ((record c { values = vs }) ∷ post))
IsIn-replace [] post c us vs p i = i
IsIn-replace (n ∷ pre) post c us vs p (inl e) = inl e
IsIn-replace (n ∷ pre) post c us vs p (inr i) = inr (IsIn-replace pre post c us vs p i)

half_up : (i n : ℕ) → 0 < n → 2 ^ i / 2 ≤ n → 2 ^ i ≤ 2 * n
half_up zero n p h = omega arith
half_up (suc i) n p h = omega arith

module _ {w : Lsm} (pre post : List Node) (c : Node) (inv : IsLsm w (pre ++ (c ∷ post))) {y : ℕ}
    (first : HasFirst c y) (some_left : 0 < length first.rest)
    (enough : 2 ^ c.ptr.0 / 2 ≤ length first.rest) where
  abbrev shorter : Node
  shorter = record { ptr = c.ptr; values = first.rest }

  not_empty : ((popped_block pre post c inv first).size == 0) ≡ false
  not_empty =
      let k : 0 < (popped_block pre post c inv first).size =
        omega (arith, taken-Holds pre post c inv first) in
      ground arith

  still_half :
      ltb
        (popped_block pre post c inv first).size
        ((popped_block pre post c inv first).capacity / 2)
      ≡ false
  still_half =
      let k : (popped_block pre post c inv first).capacity / 2
          ≤ (popped_block pre post c inv first).size =
        omega (arith, taken-Holds pre post c inv first, klsm.Seq.Taken.size pre post c inv first) in
      ground arith

  pub keep-Outcome : (unset : ℕ) → Outcome pre post c inv first unset
  keep-Outcome unset = (
    taken pre post c inv first,
    pre ++ (shorter ∷ post),
    rw not_empty (rw still_half refl),
    record {
      pool =
          map-IsPool w.head (λ p i. IsIn-replace pre post c c.values first.rest p i)
            (λ p i. IsIn-replace pre post c first.rest c.values p i)
            (taken-IsPool pre post c inv first);
      chain =
          chain-replace w.blocks (taken pre post c inv first).blocks c first.rest post
            (record {
              holds = rw (taken-at pre post c inv first) (taken-Holds pre post c inv first);
              half = rw (taken-at pre post c inv first) (
                  omega (
                    arith,
                    klsm.Seq.Taken.size pre post c inv first,
                    half_up c.ptr.0 (length first.rest) some_left enough,
                  ));
            })
            (ap (λ b. b.prev) (taken-at pre post c inv first))
            (ap (λ b. b.next) (taken-at pre post c inv first)) (taken-other pre post c inv first) 0
            none w.head pre inv.chain;
      top = map-IsTop (λ p i. IsIn-replace pre post c c.values first.rest p i) inv.top;
    },
    all_values-replace pre post c shorter y first.split,
  )
