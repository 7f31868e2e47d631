-- ===== src/Seq/Placing.antt =====
-- `LSM::delete_min`: the block of half the capacity stays in the place of the block that was shrunk.
use klsm.Base.{
  ℕ, suc, ◌<◌, ◌≤◌, ◌^◌, ◌≡◌, ◌≢◌, refl, sym, ap, subst, ◌∙◌, arith, List, ◌∷◌, ◌++◌, Option, none,
  some, length, inl, inr,
}
use klsm.Seq.{Ptr}
use klsm.Seq.Lsm.{Lsm, with_next, with_prev}
use klsm.Seq.Blocks.{Holds}
use klsm.Seq.Store.{at, IsPool, Handed}
use klsm.Seq.Chain.{Node, IsFull, IsChain, IsIn, IsLsm, chain-same, chain-level}
use klsm.Seq.Least.{HasFirst}
use klsm.Seq.Between.{IsBusy, between-levels, between-new, between-IsPool}
use klsm.Seq.Splice.{
  Follows, relinked-Holds, chain-front, chain-below, IsIn-back, IsIn-front, IsIn-split,
}
use klsm.Seq.Link.{first_ptr, first-IsBusy, first-IsIn, between-Follows}
use klsm.Seq.Taken.{taken, listed, inside, half, behind, next-eq}
use klsm.Seq.Shrink.{
  smaller, smaller-Holds, moved, placed, moved-IsPool, moved-new, moved-other, IsLeft, new_absent,
  new_apart,
}

module _ {w : Lsm} (pre post : List Node) (c : Node) (inv : IsLsm w (pre ++ (c ∷ post))) {y : ℕ}
    (first : HasFirst c y) (i : ℕ) (level : c.ptr.0 ≡ suc i) (small : length first.rest < 2 ^ i)
    {n : Ptr} {v' : Lsm} (got : Handed i (taken pre post c inv first) n v') where
  -- The block in the new place.
  abbrev pub place : Node
  place = record { ptr = n; values = first.rest }

  abbrev pub m : Lsm
  m = moved pre post c inv first i level small got

  pub behind_level : (q : Ptr) → IsIn q post → c.ptr.0 < q.0
  behind_level q j = omega (
    arith,
    chain-level w.blocks (suc c.ptr.0) (some c.ptr) (at w.blocks c.ptr).next post q
        (behind pre post c inv first) j,
  )

  pub front_level : (q : Ptr) → IsIn q pre → q.0 < c.ptr.0
  front_level q j = chain-below w.blocks 0 none w.head pre c post q inv.chain j

  pub level_apart : (p q : Ptr) → p.0 ≢ q.0 → p ≢ q
  level_apart p q h e = h (ap (λ x. x.0) e)

  pub back_listed : (q : Ptr) → IsIn q post → IsIn q (pre ++ (c ∷ post))
  back_listed q j = IsIn-back pre (c ∷ post) q (inr j)

  pub front_listed : (q : Ptr) → IsIn q pre → IsIn q (pre ++ (c ∷ post))
  front_listed q j = IsIn-front pre (c ∷ post) q j

  pub back_same : (q : Ptr) → IsIn q post → at m.blocks q ≡ at w.blocks q
  back_same q j =
      moved-other pre post c inv first i level small got q (back_listed q j)
        (level_apart q c.ptr (omega (arith, behind_level q j)))

  pub front_same : (q : Ptr) → IsIn q pre → at m.blocks q ≡ at w.blocks q
  front_same q j =
      moved-other pre post c inv first i level small got q (front_listed q j)
        (level_apart q c.ptr (omega (arith, front_level q j)))

  -- The list behind is as it was.
  pub behind_moved : IsChain m.blocks (suc c.ptr.0) (some c.ptr) (first_ptr post) post
  behind_moved =
      subst (λ o. IsChain m.blocks (suc c.ptr.0) (some c.ptr) o post) (next-eq pre post c inv first)
        (chain-same w.blocks m.blocks (suc c.ptr.0) (some c.ptr) (at w.blocks c.ptr).next post
          back_same (behind pre post c inv first))

  pub next_apart : first_ptr post ≢ some n
  next_apart e =
      new_absent pre post c inv first i level small got (back_listed n (first-IsIn post n e))

  pub left-IsIn :
      (q : Ptr) → IsLeft pre post c inv first i level small got q → IsIn q (pre ++ (place ∷ post))
  left-IsIn q (inl e, a) = IsIn-back pre (place ∷ post) q (inl e)
  left-IsIn q (inr l, a) = elim (IsIn-split pre (c ∷ post) q l) [
    | inl j ↦ IsIn-front pre (place ∷ post) q j
    | inr j ↦ elim j [ inl e ↦ absurd (a e) | inr k ↦ IsIn-back pre (place ∷ post) q (inr k) ]
  ]

  pub IsIn-left :
      (q : Ptr) → IsIn q (pre ++ (place ∷ post)) → IsLeft pre post c inv first i level small got q
  IsIn-left q l = elim (IsIn-split pre (place ∷ post) q l) [
    | inl j ↦ (inr (front_listed q j), level_apart q c.ptr (omega (arith, front_level q j)))
    | inr j ↦ elim j [
      | inl e ↦ (
        inl e,
        λ f.
            new_absent pre post c inv first i level small got
              (subst (λ q. IsIn q (pre ++ (c ∷ post))) (sym f ∙ e) (listed pre post c inv first)),
      )
      | inr k ↦ (inr (back_listed q k), level_apart q c.ptr (omega (arith, behind_level q k)))
    ]
  ]

  module _ (prev : Option Ptr) (apart : prev ≢ some n) where
    abbrev pub u : Lsm
    u = placed pre post c inv first i level small got prev (first_ptr post)

    pub new-eq : at u.blocks n ≡ record (smaller pre post c inv first i level small got) {
      prev = prev;
      next = first_ptr post;
    }
    new-eq =
        between-new m n prev (first_ptr post) apart next_apart
        ∙ ap (λ b. with_next (first_ptr post) (with_prev prev b))
            (moved-new pre post c inv first i level small got)

    pub place-Holds : Holds (at u.blocks n) first.rest
    place-Holds = rw new-eq (
        relinked-Holds prev (first_ptr post) (smaller-Holds pre post c inv first i level small got))

    pub levels-eq : u.levels ≡ w.levels
    levels-eq =
        between-levels m n prev (first_ptr post) ∙ omega (arith, got, inside pre post c inv first)

    pub u-IsPool :
        IsBusy (IsLeft pre post c inv first i level small got) prev
        → IsPool u (IsLeft pre post c inv first i level small got)
    u-IsPool b =
        between-IsPool n prev (first_ptr post)
          (IsIn-left n (IsIn-back pre (place ∷ post) n (inl refl))) b
          (first-IsBusy (IsLeft pre post c inv first i level small got) post
            (λ q j. IsIn-left q (IsIn-back pre (place ∷ post) q (inr j))))
          (moved-IsPool pre post c inv first i level small got)

    pub place-IsFull :
        IsBusy (IsLeft pre post c inv first i level small got) prev
        → 0 < length first.rest
        → IsFull u.blocks place
    place-IsFull b some_left = record {
      holds = place-Holds;
      half = omega (
        arith,
        (u-IsPool b).sized n
            ((u-IsPool b).allocated n (IsIn-left n (IsIn-back pre (place ∷ post) n (inl refl)))),
        ap (λ j. 2 ^ j) got.level,
        half pre post c inv first,
        ap (λ j. 2 ^ j) level,
      );
    }

    pub back-Follows :
        ((q : Ptr) → IsIn q post → prev ≢ some q) → Follows m.blocks u.blocks (some n) post
    back-Follows other =
        between-Follows m n prev (suc c.ptr.0) (some c.ptr) (first_ptr post) post
          (λ q j. new_apart pre post c inv first i level small got q (back_listed q j)) other
          behind_moved

    -- The new block and the list behind it.
    pub place-chain :
        (k : ℕ)
        → k ≤ i
        → IsFull u.blocks place
        → ((q : Ptr) → IsIn q post → prev ≢ some q)
        → IsChain u.blocks k prev (some n) (place ∷ post)
    place-chain k low full other =
        chain-front m.blocks u.blocks place prev (some c.ptr) (first_ptr post) post full
          (omega (arith, got.level)) (omega (arith, got.level)) (ap (λ b. b.prev) new-eq)
          (ap (λ b. b.next) new-eq) (back-Follows other) behind_moved
