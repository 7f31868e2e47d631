-- ===== src/Seq/Least.antt =====
-- `LSM::delete_min`, its loop: the block whose first value none in the list is below.
use klsm.Base.{
  less_than_power, ℕ, zero, suc, ◌<◌, ◌≤◌, ◌^◌, ◌≡◌, refl, sym, ap, subst, ◌∙◌, arith, true, false,
  ltb, if◌then◌else◌, List, [], ◌∷◌, ◌++◌, Option, none, some, length, inl, inr, ◌⊎◌, Bool-cases,
}
use klsm.Base.State.{◌>>=◌, lift}
use klsm.Seq
use klsm.Seq.{Ptr, SeqBlock}
use klsm.Seq.Lsm.{Lsm, best_loop}
use klsm.Seq.Window.{AtLeast, AtLeast-mono}
use klsm.Seq.Blocks.{Holds}
use klsm.Seq.Popping.{pop-eq}
use klsm.Seq.Store.{at, load-eq}
use klsm.Seq.Chain.{Blocks, Node, IsFull, IsChain, IsIn, all_values}

abbrev pub Mem : Node → List Node → Type 0
Mem n [] = ⊥
Mem n (x ∷ xs) = (n ≡ x) ⊎ Mem n xs

-- A node with its first value.
pub record HasFirst (n : Node) (v : ℕ) : Type 0 where
  pub rest : List ℕ
  pub split : n.values ≡ v ∷ rest

values-first : (vs : List ℕ) → 0 < length vs → (v : ℕ) × (rest : List ℕ) × (vs ≡ v ∷ rest)
values-first [] h = absurd (omega arith)
values-first (v ∷ vs) h = (v, vs, refl)

pub AtLeast-append : (k : ℕ) (xs ys : List ℕ) → AtLeast k xs → AtLeast k ys → AtLeast k (xs ++ ys)
AtLeast-append k [] ys a b = b
AtLeast-append k (x ∷ xs) ys a b = (a.0, AtLeast-append k xs ys a.1 b)

-- A block of the list is not empty.
pub full-first :
    {f : Blocks} {n : Node}
    → IsFull f n
    → (at f n.ptr).capacity ≡ 2 ^ n.ptr.0
    → (v : ℕ) × HasFirst n v
full-first {n} full size =
    let (v, rest, e) =
      values-first n.values (omega (arith, full.half, size, less_than_power n.ptr.0)) in
    (v, record { rest = rest; split = e })

pub peek-first :
    (f : Blocks) {n : Node} {v : ℕ}
    → Holds (at f n.ptr) n.values
    → HasFirst n v
    → Seq.peek (at f n.ptr) ≡ some (some v)
peek-first f {n} {v} h first =
    let g : Holds (at f n.ptr) (v ∷ first.rest) = subst (Holds (at f n.ptr)) first.split h in
    (pop-eq g).1

first-least :
    (f : Blocks) {n : Node} {v : ℕ}
    → Holds (at f n.ptr) n.values
    → HasFirst n v
    → AtLeast v n.values
first-least f {n} {v} h first =
    let g : Holds (at f n.ptr) (v ∷ first.rest) = subst (Holds (at f n.ptr)) first.split h in
    subst (AtLeast v) (sym first.split) (omega arith, g.ordered.0)

AtLeast-left : (k : ℕ) (xs ys : List ℕ) → AtLeast k (xs ++ ys) → AtLeast k xs
AtLeast-left k [] ys a = tt
AtLeast-left k (x ∷ xs) ys a = (a.0, AtLeast-left k xs ys a.1)

AtLeast-right : (k : ℕ) (xs ys : List ℕ) → AtLeast k (xs ++ ys) → AtLeast k ys
AtLeast-right k [] ys a = a
AtLeast-right k (x ∷ xs) ys a = AtLeast-right k xs ys a.1

below-first :
    {n : Node} {v : ℕ} (k : ℕ) (ys : List ℕ) → HasFirst n v → AtLeast k (n.values ++ ys) → k ≤ v
below-first {n} k ys first a = (subst (λ xs. AtLeast k (xs ++ ys)) first.split a).0

abbrev IsInside : Lsm → Node → Type 0
IsInside w n = IsFull w.blocks n × (n.ptr.0 < w.levels)

abbrev pub Finds : Lsm → ℕ → Option Ptr → Node → List Node → Type 0
Finds w fuel cur b ns =
    (c : Node) × (y : ℕ) × (best_loop fuel b.ptr cur w ≡ some (c.ptr, w))
    × ((c ≡ b) ⊎ Mem c ns)
    × HasFirst c y
    × AtLeast y (b.values ++ all_values ns)

module _ (w : Lsm) {b n : Node} {v x : ℕ} (at_b : IsInside w b) (at_n : IsInside w n)
    (first : HasFirst b v) (other : HasFirst n x) where
  round-run :
      (fuel : ℕ)
      → best_loop (suc fuel) b.ptr (some n.ptr) w
        ≡ best_loop fuel (if ltb x v then n.ptr else b.ptr) (at w.blocks n.ptr).next w
  unfolding best_loop
  round-run fuel =
      rw (◌>>=◌, load-eq w n.ptr at_n.1)
        (rw (◌>>=◌, load-eq w b.ptr at_b.1)
          (rw (◌>>=◌, lift, peek-first w.blocks at_n.0.holds other)
            (rw (◌>>=◌, lift, peek-first w.blocks at_b.0.holds first) refl)))

  take_other :
      (fuel : ℕ) (ns : List Node)
      → ltb x v ≡ true
      → Finds w fuel (at w.blocks n.ptr).next n ns
      → Finds w (suc fuel) (some n.ptr) b (n ∷ ns)
  take_other fuel ns l (c, y, r, m, f, a) = (
    c,
    y,
    round-run fuel ∙ rw l r,
    elim m [ inl e ↦ inr (inl e) | inr z ↦ inr (inr z) ],
    f,
    AtLeast-append y b.values (n.values ++ all_values ns)
        (let k = below-first y (all_values ns) other a in
          AtLeast-mono y v b.values (ground arith) (first-least w.blocks at_b.0.holds first))
        a,
  )

  stay :
      (fuel : ℕ) (ns : List Node)
      → ltb x v ≡ false
      → Finds w fuel (at w.blocks n.ptr).next b ns
      → Finds w (suc fuel) (some n.ptr) b (n ∷ ns)
  stay fuel ns l (c, y, r, m, f, a) = (
    c,
    y,
    round-run fuel ∙ rw l r,
    elim m [ inl e ↦ inl e | inr z ↦ inr (inr z) ],
    f,
    AtLeast-append y b.values (n.values ++ all_values ns)
        (AtLeast-left y b.values (all_values ns) a)
        (AtLeast-append y n.values (all_values ns)
          (let k = below-first y (all_values ns) first a in
            AtLeast-mono y x n.values (ground arith) (first-least w.blocks at_n.0.holds other))
          (AtLeast-right y b.values (all_values ns) a)),
  )

empty-run : {w : Lsm} (fuel : ℕ) (b : Ptr) → best_loop (suc fuel) b none w ≡ some (b, w)
unfolding best_loop
empty-run fuel b = refl

-- With more fuel than blocks are left the loop finds a block with the least value.
pub best_loop_lem :
    (w : Lsm) (sized : (p : Ptr) → p.0 < w.levels → (at w.blocks p).capacity ≡ 2 ^ p.0) (fuel k : ℕ)
    (prev cur : Option Ptr) (ns : List Node) (b : Node) (v : ℕ)
    → length ns < fuel
    → IsChain w.blocks k prev cur ns
    → ((p : Ptr) → IsIn p ns → p.0 < w.levels)
    → IsFull w.blocks b
    → b.ptr.0 < w.levels
    → HasFirst b v
    → Finds w fuel cur b ns
best_loop_lem w sized zero k prev cur ns b v h chain inside full below first = absurd (omega arith)
best_loop_lem w sized (suc fuel) k prev cur [] b v h chain inside full below first = (
  b,
  v,
  ap (λ o. best_loop (suc fuel) b.ptr o w) chain ∙ empty-run fuel b.ptr,
  inl refl,
  first,
  AtLeast-append v b.values [] (first-least w.blocks full.holds first) tt,
)
best_loop_lem w sized (suc fuel) k prev cur (n ∷ ns) b v h chain inside full below first =
    let within = inside n.ptr (inl refl) in
    let (x, other) = full-first chain.1 (sized n.ptr within) in
    subst (λ o. Finds w (suc fuel) o b (n ∷ ns)) (sym chain.0)
      (elim (Bool-cases (ltb x v)) [
        | inl l ↦
            take_other w (full, below) (chain.1, within) first other fuel ns l
              (best_loop_lem w sized fuel (suc n.ptr.0) (some n.ptr) (at w.blocks n.ptr).next ns n x
                (omega arith) chain.4 (λ p i. inside p (inr i)) chain.1 within other)
        | inr l ↦
            stay w (full, below) (chain.1, within) first other fuel ns l
              (best_loop_lem w sized fuel (suc n.ptr.0) (some n.ptr) (at w.blocks n.ptr).next ns b v
                (omega arith) chain.4 (λ p i. inside p (inr i)) full below first)
      ])
