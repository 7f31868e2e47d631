-- ===== src/Seq/Splice.antt =====
-- Lists of blocks in which one block takes the place of others.
use klsm.Base.{
  ℕ, suc, ◌<◌, ◌≤◌, ◌≡◌, refl, sym, ap, subst, ◌∙◌, List, [], ◌∷◌, ◌++◌, Option, some, inl, inr,
  ◌⊎◌,
}
use klsm.Seq.{Ptr, SeqBlock}
use klsm.Seq.Lsm.{with_prev, with_next}
use klsm.Seq.Blocks.{Holds}
use klsm.Seq.Store.{at}
use klsm.Seq.Chain.{Blocks, Node, IsFull, IsChain, IsIn, chain-level, chain-same, chain-lower}

pub relinked-Holds :
    {b : SeqBlock} {vs : List ℕ} (prev next : Option Ptr)
    → Holds b vs
    → Holds (record b { prev = prev; next = next }) vs
relinked-Holds prev next h = record {
  window = h.window;
  sized = h.sized;
  allocated = h.allocated;
  taken = h.taken;
  ordered = h.ordered;
}

pub relinked-IsFull :
    (f g : Blocks) (n : Node) (prev next : Option Ptr)
    → at g n.ptr ≡ record (at f n.ptr) { prev = prev; next = next }
    → IsFull f n
    → IsFull g n
relinked-IsFull f g n prev next e full = record {
  holds = rw e (relinked-Holds prev next full.holds);
  half = rw e full.half;
}

-- The blocks of a list are as they were, but the first has a new predecessor.
abbrev pub Follows : Blocks → Blocks → Option Ptr → List Node → Type 0
Follows f g x [] = Unit {0}
Follows f g x (n ∷ ns) =
    (at g n.ptr ≡ with_prev x (at f n.ptr)) × ((p : Ptr) → IsIn p ns → at g p ≡ at f p)

pub chain-follow :
    (f g : Blocks) (x : Option Ptr) (k : ℕ) (prev cur : Option Ptr) (ns : List Node)
    → Follows f g x ns
    → IsChain f k prev cur ns
    → IsChain g k x cur ns
chain-follow f g x k prev cur [] s c = c
chain-follow f g x k prev cur (n ∷ ns) s c = (
  c.0,
  relinked-IsFull f g n x (at f n.ptr).next s.0 c.1,
  c.2,
  ap (λ b. b.prev) s.0,
  subst (λ o. IsChain g (suc n.ptr.0) (some n.ptr) o ns) (sym (ap (λ b. b.next) s.0))
      (chain-same f g (suc n.ptr.0) (some n.ptr) (at f n.ptr).next ns s.1 c.4),
)

-- A block in front of a list.
pub chain-front :
    (f g : Blocks) (x : Node) {k j : ℕ} (prev before cur : Option Ptr) (ns : List Node)
    → IsFull g x
    → k ≤ x.ptr.0
    → x.ptr.0 < j
    → (at g x.ptr).prev ≡ prev
    → (at g x.ptr).next ≡ cur
    → Follows f g (some x.ptr) ns
    → IsChain f j before cur ns
    → IsChain g k prev (some x.ptr) (x ∷ ns)
chain-front f g x {k} {j} prev before cur ns full low high e e' s c = (
  refl,
  full,
  low,
  e,
  subst (λ o. IsChain g (suc x.ptr.0) (some x.ptr) o ns) (sym e')
      (chain-lower g (some x.ptr) cur ns high (chain-follow f g (some x.ptr) j before cur ns s c)),
)

-- Another tail behind the block `l`.
pub chain-behind :
    (f g : Blocks) (x : Ptr) (l : Node) (rest tail : List Node) (k : ℕ) (prev cur : Option Ptr)
    (init : List Node)
    → IsChain f k prev cur (init ++ (l ∷ rest))
    → ((p : Ptr) → IsIn p init → at g p ≡ at f p)
    → at g l.ptr ≡ with_next (some x) (at f l.ptr)
    → IsChain g (suc l.ptr.0) (some l.ptr) (some x) tail
    → IsChain g k prev cur (init ++ (l ∷ tail))
chain-behind f g x l rest tail k prev cur [] c same e t = (
  c.0,
  relinked-IsFull f g l (at f l.ptr).prev (some x) e c.1,
  c.2,
  ap (λ b. b.prev) e ∙ c.3,
  subst (λ o. IsChain g (suc l.ptr.0) (some l.ptr) o tail) (sym (ap (λ b. b.next) e)) t,
)
chain-behind f g x l rest tail k prev cur (n ∷ init) c same e t =
    let s = same n.ptr (inl refl) in
    (
      c.0,
      record { holds = rw s c.1.holds; half = rw s c.1.half },
      c.2,
      ap (λ b. b.prev) s ∙ c.3,
      subst (λ o. IsChain g (suc n.ptr.0) (some n.ptr) o (init ++ (l ∷ tail)))
          (sym (ap (λ b. b.next) s))
          (chain-behind f g x l rest tail (suc n.ptr.0) (some n.ptr) (at f n.ptr).next init c.4
            (λ p i. same p (inr i)) e t),
    )

pub IsIn-front : (xs ys : List Node) (p : Ptr) → IsIn p xs → IsIn p (xs ++ ys)
IsIn-front [] ys p i = absurd i
IsIn-front (x ∷ xs) ys p (inl e) = inl e
IsIn-front (x ∷ xs) ys p (inr i) = inr (IsIn-front xs ys p i)

pub IsIn-back : (xs ys : List Node) (p : Ptr) → IsIn p ys → IsIn p (xs ++ ys)
IsIn-back [] ys p i = i
IsIn-back (x ∷ xs) ys p i = inr (IsIn-back xs ys p i)

pub IsIn-split : (xs ys : List Node) (p : Ptr) → IsIn p (xs ++ ys) → IsIn p xs ⊎ IsIn p ys
IsIn-split [] ys p i = inr i
IsIn-split (x ∷ xs) ys p (inl e) = inl (inl e)
IsIn-split (x ∷ xs) ys p (inr i) = elim (IsIn-split xs ys p i) [
  | inl a ↦ inl (inr a)
  | inr b ↦ inr b
]

pub chain-full :
    (f : Blocks) (k : ℕ) (prev cur : Option Ptr) (pre : List Node) (c : Node) (post : List Node)
    → IsChain f k prev cur (pre ++ (c ∷ post))
    → IsFull f c
chain-full f k prev cur [] c post h = h.1
chain-full f k prev cur (n ∷ pre) c post h =
    chain-full f (suc n.ptr.0) (some n.ptr) (at f n.ptr).next pre c post h.4

-- The list from a block of it on, and the levels of what is in front of it.
pub chain-tail :
    (f : Blocks) (k : ℕ) (prev cur : Option Ptr) (pre : List Node) (c : Node) (post : List Node)
    → IsChain f k prev cur (pre ++ (c ∷ post))
    → IsChain f (suc c.ptr.0) (some c.ptr) (at f c.ptr).next post
chain-tail f k prev cur [] c post h = h.4
chain-tail f k prev cur (n ∷ pre) c post h =
    chain-tail f (suc n.ptr.0) (some n.ptr) (at f n.ptr).next pre c post h.4

pub chain-below :
    (f : Blocks) (k : ℕ) (prev cur : Option Ptr) (pre : List Node) (c : Node) (post : List Node)
    (p : Ptr)
    → IsChain f k prev cur (pre ++ (c ∷ post))
    → IsIn p pre
    → p.0 < c.ptr.0
chain-below f k prev cur [] c post p h i = absurd i
chain-below f k prev cur (n ∷ pre) c post p h (inl e) =
    let l =
      chain-level f (suc n.ptr.0) (some n.ptr) (at f n.ptr).next (pre ++ (c ∷ post)) c.ptr h.4
        (IsIn-back pre (c ∷ post) c.ptr (inl refl)) in
    rw e l
chain-below f k prev cur (n ∷ pre) c post p h (inr i) =
    chain-below f (suc n.ptr.0) (some n.ptr) (at f n.ptr).next pre c post p h.4 i

-- The first block of a list has no other predecessor, and a later one that in front of it.
pub chain-prev_first :
    (f : Blocks) (k : ℕ) (prev cur : Option Ptr) (c : Node) (post : List Node)
    → IsChain f k prev cur (c ∷ post)
    → (at f c.ptr).prev ≡ prev
chain-prev_first f k prev cur c post h = h.3

pub chain-prev_later :
    (f : Blocks) (k : ℕ) (prev cur : Option Ptr) (init : List Node) (l c : Node) (post : List Node)
    → IsChain f k prev cur (init ++ (l ∷ (c ∷ post)))
    → (at f c.ptr).prev ≡ some l.ptr
chain-prev_later f k prev cur [] l c post h = h.4.3
chain-prev_later f k prev cur (n ∷ init) l c post h =
    chain-prev_later f (suc n.ptr.0) (some n.ptr) (at f n.ptr).next init l c post h.4

-- A list is empty or has a last block.
pub last-cases :
    (xs : List Node) → (xs ≡ []) ⊎ ((init : List Node) × (l : Node) × (xs ≡ init ++ (l ∷ [])))
last-cases [] = inl refl
last-cases (x ∷ xs) = elim (last-cases xs) [
  | inl e ↦ inr ([], x, ap (λ t. x ∷ t) e)
  | inr (init, l, e) ↦ inr (x ∷ init, l, ap (λ t. x ∷ t) e)
]
