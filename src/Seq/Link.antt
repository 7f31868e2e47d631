-- ===== src/Seq/Link.antt =====
-- `LSM::insert`, its end: the block in front of the list becomes the first of it.
use klsm.Base.{
  ℕ, suc, ◌<◌, ◌≡◌, ◌≢◌, refl, sym, ap, subst, ◌∙◌, arith, List, [], ◌∷◌, Option, none, some, inl,
  inr,
}
use klsm.Seq.{Ptr}
use klsm.Seq.Lsm.{Lsm, insert_between}
use klsm.Seq.Store.{at}
use klsm.Seq.Chain.{Blocks, Node, IsChain, IsIn, IsLsm, IsTop, chain-level}
use klsm.Seq.Round.{IsLoop}
use klsm.Seq.Between.{
  IsAllocated, IsBusy, between, between-run, between-levels, between-head_none, between-other,
  between-new, between-next, between-IsPool,
}
use klsm.Seq.Splice.{Follows, chain-front, relinked-IsFull}

-- The pointer to the first block.
abbrev pub first_ptr : List Node → Option Ptr
first_ptr [] = none
first_ptr (n ∷ ns) = some n.ptr

pub chain-first :
    (f : Blocks) (k : ℕ) (prev : Option Ptr) {cur : Option Ptr} (ns : List Node)
    → IsChain f k prev cur ns
    → cur ≡ first_ptr ns
chain-first f k prev [] c = c
chain-first f k prev (n ∷ ns) c = c.0

pub none≢some : {p : Ptr} → none ≢ some p
none≢some e = cc

abbrev pub Linked : Lsm → Ptr → List ℕ → List Node → Type 0
Linked w m us ms =
    (w' : Lsm) × (insert_between m none w.head w ≡ some (tt, w'))
    × IsLsm w' (record { ptr = m; values = us } ∷ ms)

pub first-IsAllocated :
    (w : Lsm) (ns : List Node)
    → ((p : Ptr) → IsIn p ns → p.0 < w.levels)
    → IsAllocated w (first_ptr ns)
first-IsAllocated w [] h = tt
first-IsAllocated w (n ∷ ns) h = h n.ptr (inl refl)

pub first-IsBusy :
    (Busy : Ptr → Type 0) (ns : List Node)
    → ((p : Ptr) → IsIn p ns → Busy p)
    → IsBusy Busy (first_ptr ns)
first-IsBusy Busy [] h = tt
first-IsBusy Busy (n ∷ ns) h = h n.ptr (inl refl)

pub first-IsIn : (ns : List Node) (p : Ptr) → first_ptr ns ≡ some p → IsIn p ns
first-IsIn [] p e = absurd (cc)
first-IsIn (n ∷ ns) p e = inl (cc)

pub between-Follows :
    (w : Lsm) (x : Ptr) (prev : Option Ptr) (k : ℕ) (before cur : Option Ptr) (ns : List Node)
    → ((p : Ptr) → IsIn p ns → p ≢ x)
    → ((p : Ptr) → IsIn p ns → prev ≢ some p)
    → IsChain w.blocks k before cur ns
    → Follows w.blocks (between w x prev (first_ptr ns)).blocks (some x) ns
between-Follows w x prev k before cur [] new other c = tt
between-Follows w x prev k before cur (n ∷ ns) new other c = (
  between-next w x prev n.ptr (new n.ptr (inl refl)) (other n.ptr (inl refl)),
  λ p i. between-other w x prev (some n.ptr) p (new p (inr i)) (other p (inr i)) (λ e.
      let l = chain-level w.blocks (suc n.ptr.0) (some n.ptr) (at w.blocks n.ptr).next ns p c.4 i in
      let q : n.ptr ≡ p = cc in let z : n.ptr.0 ≡ p.0 = ap (λ x. x.0) q in absurd (omega arith)),
)

-- A block of a level below the list's becomes its first.
pub link_lem :
    {k : ℕ} (w : Lsm) (m : Ptr) (us : List ℕ) (ms : List Node)
    → IsLoop k w m us ms
    → m.0 < k
    → Linked w m us ms
link_lem {k} w m us ms loop above =
    let node : Node = record { ptr = m; values = us } in
    let next = first_ptr ms in
    let final = between w m none next in
    let new = between-new w m none next none≢some (λ e. loop.apart (first-IsIn ms m e)) in
    (
      final,
      ap (λ o. insert_between m none o w) (chain-first w.blocks k loop.prev ms loop.chain)
          ∙ between-run w m none next (loop.pool.allocated m (inl refl)) tt
              (first-IsAllocated w ms (λ p i. loop.pool.allocated p (inr i))),
      record {
        pool =
            between-IsPool m none next (inl refl) tt
              (first-IsBusy (λ q. IsIn q (node ∷ ms)) ms (λ p i. inr i)) loop.pool;
        chain =
            subst (λ o. IsChain final.blocks 0 none o (node ∷ ms))
              (sym (between-head_none w m next))
              (chain-front w.blocks final.blocks node none loop.prev next ms
                (relinked-IsFull w.blocks final.blocks node none next new loop.full) (omega arith)
                above (ap (λ b. b.prev) new) (ap (λ b. b.next) new)
                (between-Follows w m none k loop.prev w.head ms
                  (λ p i e. loop.apart (subst (λ q. IsIn q ms) e i)) (λ p i. none≢some) loop.chain)
                (subst (λ o. IsChain w.blocks k loop.prev o ms)
                  (chain-first w.blocks k loop.prev ms loop.chain) loop.chain));
        top =
            subst (λ n. IsTop n (λ p. IsIn p (node ∷ ms))) (sym (between-levels w m none next))
              loop.top;
      },
    )
