-- ===== src/Seq/Chain.antt =====
-- `LSM`: the list of blocks from the head, with what its blocks hold, and the invariant.
use klsm.Base.{
  ℕ, suc, ◌+◌, ◌*◌, ◌<◌, ◌≤◌, ◌≡◌, refl, sym, ap, ◌∙◌, arith, List, [], ◌∷◌, ◌++◌, Option, none,
  some, length, inl, inr, ◌⊎◌,
}
use klsm.Seq.{Ptr, SeqBlock}
use klsm.Seq.Lsm.{Lsm}
use klsm.Seq.Blocks.{Holds}
use klsm.Seq.Store.{at, IsPool}

abbrev pub Blocks : Type 0
Blocks = ℕ → ℕ → SeqBlock

-- A block of the list and the values in it.
pub record Node : Type 0 where
  pub ptr : Ptr
  pub values : List ℕ

-- A block that is at least half full.
pub record IsFull (f : Blocks) (node : Node) : Type 0 where
  pub holds : Holds (at f node.ptr) node.values
  pub half : (at f node.ptr).capacity ≤ 2 * length node.values

-- The list from a block on: levels rise from `k` on, and links lead both ways.
abbrev pub IsChain : Blocks → ℕ → Option Ptr → Option Ptr → List Node → Type 0
IsChain f k prev cur [] = cur ≡ none
IsChain f k prev cur (n ∷ ns) =
    (cur ≡ some n.ptr)
    × IsFull f n
    × (k ≤ n.ptr.0)
    × ((at f n.ptr).prev ≡ prev)
    × IsChain f (suc n.ptr.0) (some n.ptr) (at f n.ptr).next ns

abbrev pub IsIn : Ptr → List Node → Type 0
IsIn p [] = ⊥
IsIn p (n ∷ ns) = (p ≡ n.ptr) ⊎ IsIn p ns

abbrev pub all_values : List Node → List ℕ
all_values [] = []
all_values (n ∷ ns) = n.values ++ all_values ns

-- Unless there are few levels, a block of the last one is busy.
abbrev pub IsTop : ℕ → (Ptr → Type 0) → Type 0
IsTop n Busy = (n ≤ 2) ⊎ ((p : Ptr) × Busy p × (suc p.0 ≡ n))

pub map-IsTop : {n : ℕ} {B C : Ptr → Type 0} → ((p : Ptr) → B p → C p) → IsTop n B → IsTop n C
map-IsTop f (inl e) = inl e
map-IsTop f (inr (p, b, e)) = inr (p, f p b, e)

-- The invariant between operations.
pub record IsLsm (w : Lsm) (ns : List Node) : Type 0 where
  pub pool : IsPool w (λ p. IsIn p ns)
  pub chain : IsChain w.blocks 0 none w.head ns
  pub top : IsTop w.levels (λ p. IsIn p ns)

pub chain-level :
    (f : Blocks) (k : ℕ) (prev cur : Option Ptr) (ns : List Node) (p : Ptr)
    → IsChain f k prev cur ns
    → IsIn p ns
    → k ≤ p.0
chain-level f k prev cur [] p c h = absurd h
chain-level f k prev cur (n ∷ ns) p c (inl e) = rw e c.2
chain-level f k prev cur (n ∷ ns) p c (inr h) =
    omega (arith, c.2, chain-level f (suc n.ptr.0) (some n.ptr) (at f n.ptr).next ns p c.4 h)

-- A chain depends only on the blocks in it.
pub chain-same :
    (f g : Blocks) (k : ℕ) (prev cur : Option Ptr) (ns : List Node)
    → ((p : Ptr) → IsIn p ns → at g p ≡ at f p)
    → IsChain f k prev cur ns
    → IsChain g k prev cur ns
chain-same f g k prev cur [] h c = c
chain-same f g k prev cur (n ∷ ns) h c =
    let e : at g n.ptr ≡ at f n.ptr = h n.ptr (inl refl) in
    (
      c.0,
      record { holds = rw e c.1.holds; half = rw e c.1.half },
      c.2,
      rw e c.3,
      rw e
          (chain-same f g (suc n.ptr.0) (some n.ptr) (at f n.ptr).next ns (λ p i. h p (inr i)) c.4),
    )

pub chain-lower :
    (f : Blocks) {j k : ℕ} (prev cur : Option Ptr) (ns : List Node)
    → j ≤ k
    → IsChain f k prev cur ns
    → IsChain f j prev cur ns
chain-lower f prev cur [] h c = c
chain-lower f prev cur (n ∷ ns) h c = (c.0, c.1, omega (arith, c.2), c.3, c.4)

-- No two blocks of a list are of one level.
pub chain-once :
    (f : Blocks) (k : ℕ) (prev cur : Option Ptr) (ns : List Node) (p q : Ptr)
    → IsChain f k prev cur ns
    → IsIn p ns
    → IsIn q ns
    → p.0 ≡ q.0
    → p ≡ q
chain-once f k prev cur [] p q c h i e = absurd h
chain-once f k prev cur (n ∷ ns) p q c (inl h) (inl i) e = h ∙ sym i
chain-once f k prev cur (n ∷ ns) p q c (inl h) (inr i) e =
    let l = chain-level f (suc n.ptr.0) (some n.ptr) (at f n.ptr).next ns q c.4 i in
    let h' : p.0 ≡ n.ptr.0 = ap (λ x. x.0) h in absurd (omega arith)
chain-once f k prev cur (n ∷ ns) p q c (inr h) (inl i) e =
    let l = chain-level f (suc n.ptr.0) (some n.ptr) (at f n.ptr).next ns p c.4 h in
    let i' : q.0 ≡ n.ptr.0 = ap (λ x. x.0) i in absurd (omega arith)
chain-once f k prev cur (n ∷ ns) p q c (inr h) (inr i) e =
    chain-once f (suc n.ptr.0) (some n.ptr) (at f n.ptr).next ns p q c.4 h i e

pub length-chain :
    (f : Blocks) (k n : ℕ) (prev cur : Option Ptr) (ns : List Node)
    → k ≤ n
    → IsChain f k prev cur ns
    → ((p : Ptr) → IsIn p ns → p.0 < n)
    → length ns + k ≤ n
length-chain f k n prev cur [] h c a = omega arith
length-chain f k n prev cur (x ∷ ns) h c a =
    let below : x.ptr.0 < n = a x.ptr (inl refl) in
    omega (
      arith,
      c.2,
      length-chain f (suc x.ptr.0) n (some x.ptr) (at f x.ptr).next ns (omega arith) c.4
          (λ p i. a p (inr i)),
    )
