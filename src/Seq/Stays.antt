-- ===== src/Seq/Stays.antt =====
-- `LSM::delete_min`: a block is shrunk and not merged, since it is the first of the list or the block
-- in front of it is of another level.
use klsm.Base.{
  ℕ, suc, ◌/◌, ◌<◌, ◌≤◌, ◌^◌, ◌≡◌, ◌≢◌, refl, sym, ap, subst, ◌∙◌, arith, true, false, ltb, List,
  [], ◌∷◌, ◌++◌, append_assoc, Option, none, some, length, inl, ◌==◌, ◌&&◌, half_power,
}
use klsm.Seq.{Ptr, SeqBlock}
use klsm.Seq.Lsm.{Lsm, unused_block, is_head, shrink_best}
use klsm.Seq.Store.{at, IsPool, Handed}
use klsm.Seq.Pool.{map-IsPool}
use klsm.Seq.Chain.{Node, IsChain, IsIn, IsLsm}
use klsm.Seq.Least.{HasFirst}
use klsm.Seq.Between.{between-head_none, between-head_some, between-other, between-prev}
use klsm.Seq.Splice.{chain-prev_later, IsIn-back, IsIn-front}
use klsm.Seq.Link.{first_ptr, first-IsAllocated, none≢some}
use klsm.Seq.Taken.{
  Outcome, branch, popped_block, taken, taken-Holds, size, next-eq, all_values-replace,
}
use klsm.Seq.Shrink.{finish, shrink-run, new_apart, IsLeft}
use klsm.Seq.Close.{close, close_lem}
use klsm.Seq.Placing.{
  place, u, m, levels-eq, u-IsPool, place-IsFull, place-chain, left-IsIn, IsIn-left, front_listed,
  front_level, behind_level, back_listed, next_apart, level_apart,
}

pub some-apart : {p q : Ptr} → p ≢ q → some p ≢ some q
some-apart n e = n (cc)

module _ {w : Lsm} (pre post : List Node) (c : Node) (inv : IsLsm w (pre ++ (c ∷ post))) {y : ℕ}
    (first : HasFirst c y) (i : ℕ) (level : c.ptr.0 ≡ suc i)
    (small : length first.rest < 2 ^ i) where
  -- The branch that shrinks is taken.
  pub shrink-branch :
      (unset : ℕ)
      → (((popped_block pre post c inv first).size == 0) && is_head w.head c.ptr) ≡ false
      → branch unset w.head c.ptr (popped_block pre post c inv first) (taken pre post c inv first)
        ≡ shrink_best unset c.ptr (taken pre post c inv first)
  shrink-branch unset e =
      let k : (popped_block pre post c inv first).size < 2 ^ i =
        omega (arith, taken-Holds pre post c inv first) in
      let h : (popped_block pre post c inv first).capacity / 2 ≡ 2 ^ i =
        ap (λ x. x / 2) (size pre post c inv first ∙ ap (λ j. 2 ^ j) level) ∙ half_power i in
      let l : ltb (popped_block pre post c inv first).size
            ((popped_block pre post c inv first).capacity / 2)
          ≡ true =
        ground arith in
      rw (e, l) refl

  pub moved-levels :
      {n : Ptr} {v' : Lsm} (got : Handed i (taken pre post c inv first) n v')
      → w.levels ≤ (m pre post c inv first i level small got).levels
  moved-levels got = got.more

  module _ (unset : ℕ) {n : Ptr} {v' : Lsm} (got : Handed i (taken pre post c inv first) n v')
      (run : unused_block unset (2 ^ i) (taken pre post c inv first) ≡ some (n, v'))
      (prev : Option Ptr) (apart : prev ≢ some n) where
    abbrev pub state : Lsm
    state = u pre post c inv first i level small got prev apart

    -- What is left, once the invariant's parts are there.
    pub close-Outcome :
        (((popped_block pre post c inv first).size == 0) && is_head w.head c.ptr) ≡ false
        → shrink_best unset c.ptr (taken pre post c inv first) ≡ close (first_ptr post) state
        → IsPool state (IsLeft pre post c inv first i level small got)
        → IsChain state.blocks 0 none state.head
            (pre ++ ((place pre post c inv first i level small got) ∷ post))
        → Outcome pre post c inv first unset
    close-Outcome e done pool chain =
        let x = place pre post c inv first i level small got in
        let (v, r, ok) =
          close_lem pre c post inv state x
            (levels-eq pre post c inv first i level small got prev apart)
            (level ∙ ap suc (sym got.level)) got.which
            (map-IsPool state.head (left-IsIn pre post c inv first i level small got)
              (IsIn-left pre post c inv first i level small got) pool)
            chain in
        (
          v,
          pre ++ (x ∷ post),
          shrink-branch unset e ∙ done ∙ r,
          ok,
          all_values-replace pre post c x y first.split,
        )

  pub next-IsAllocated :
      {n : Ptr} {v' : Lsm} (got : Handed i (taken pre post c inv first) n v')
      → klsm.Seq.Between.IsAllocated (m pre post c inv first i level small got) (first_ptr post)
  next-IsAllocated got = first-IsAllocated (m pre post c inv first i level small got) post (λ q j.
      omega (
        arith,
        inv.pool.allocated q (back_listed pre post c inv first i level small got q j),
        got.more,
      ))

  pub not_zero :
      0 < length first.rest
      → (o : Option Ptr)
      → (((popped_block pre post c inv first).size == 0) && is_head o c.ptr) ≡ false
  not_zero some_left o =
      let k : 0 < (popped_block pre post c inv first).size =
        omega (arith, taken-Holds pre post c inv first) in
      let z : ((popped_block pre post c inv first).size == 0) ≡ false = ground arith in rw z refl

-- The first block of the list.
module _ {w : Lsm} (post : List Node) (c : Node) (inv : IsLsm w (c ∷ post)) {y : ℕ}
    (first : HasFirst c y) (i : ℕ) (level : c.ptr.0 ≡ suc i) (small : length first.rest < 2 ^ i)
    (some_left : 0 < length first.rest) where
  pub first-Outcome :
      (unset : ℕ) {n : Ptr} {v' : Lsm} (got : Handed i (taken [] post c inv first) n v')
      → unused_block unset (2 ^ i) (taken [] post c inv first) ≡ some (n, v')
      → Outcome [] post c inv first unset
  first-Outcome unset {n} got run =
      let s = state [] post c inv first i level small unset got run none none≢some in
      let x = place [] post c inv first i level small got in
      let full = place-IsFull [] post c inv first i level small got none none≢some tt some_left in
      close-Outcome [] post c inv first i level small unset got run none none≢some
        (not_zero [] post c inv first i level small some_left w.head)
        (shrink-run [] post c inv first i level small got unset none (first_ptr post) run
          inv.chain.3 (next-eq [] post c inv first) tt
          (next-IsAllocated [] post c inv first i level small got) none≢some
          (next_apart [] post c inv first i level small got))
        (u-IsPool [] post c inv first i level small got none none≢some tt)
        (subst (λ o. IsChain s.blocks 0 none o (x ∷ post))
          (sym (between-head_none (m [] post c inv first i level small got) n (first_ptr post)))
          (place-chain [] post c inv first i level small got none none≢some 0 (omega arith) full
            (λ q j. none≢some)))

-- The block behind `l`.
module _ {w : Lsm} (init : List Node) (l : Node) (post : List Node) (c : Node)
    (inv : IsLsm w ((init ++ (l ∷ [])) ++ (c ∷ post))) {y : ℕ} (first : HasFirst c y) (i : ℕ)
    (level : c.ptr.0 ≡ suc i) (small : length first.rest < 2 ^ i) where
  abbrev pre : List Node
  pre = init ++ (l ∷ [])

  pub whole : IsChain w.blocks 0 none w.head (init ++ (l ∷ (c ∷ post)))
  whole = subst (IsChain w.blocks 0 none w.head) (append_assoc init (l ∷ []) (c ∷ post)) inv.chain

  pub l_front : IsIn l.ptr pre
  l_front = IsIn-back init (l ∷ []) l.ptr (inl refl)

  module _ (unset : ℕ) {n : Ptr} {v' : Lsm} (got : Handed i (taken pre post c inv first) n v')
      (run : unused_block unset (2 ^ i) (taken pre post c inv first) ≡ some (n, v')) where
    pub l_apart : some l.ptr ≢ some n
    l_apart = some-apart (
        new_apart pre post c inv first i level small got l.ptr
          (front_listed pre post c inv first i level small got l.ptr l_front))

    abbrev pub s : Lsm
    s = state pre post c inv first i level small unset got run (some l.ptr) l_apart

    pub l_busy : IsLeft pre post c inv first i level small got l.ptr
    l_busy =
        IsIn-left pre post c inv first i level small got l.ptr
          (IsIn-front pre ((place pre post c inv first i level small got) ∷ post) l.ptr l_front)

    pub s-IsPool : IsPool s (IsLeft pre post c inv first i level small got)
    s-IsPool = u-IsPool pre post c inv first i level small got (some l.ptr) l_apart l_busy

    pub before_next : (q : Ptr) → IsIn q post → some l.ptr ≢ some q
    before_next q j = some-apart (
        level_apart pre post c inv first i level small got l.ptr q (
          omega (
            arith,
            front_level pre post c inv first i level small got l.ptr l_front,
            behind_level pre post c inv first i level small got q j,
          )))

    pub placed-run :
        shrink_best unset c.ptr (taken pre post c inv first)
        ≡ finish unset (first_ptr post) n (at s.blocks n) (some l.ptr) s
    placed-run =
        shrink-run pre post c inv first i level small got unset (some l.ptr) (first_ptr post) run
          (chain-prev_later w.blocks 0 none w.head init l c post whole)
          (next-eq pre post c inv first)
          (omega (
            arith,
            inv.pool.allocated l.ptr
                (front_listed pre post c inv first i level small got l.ptr l_front),
            got.more,
          ))
          (next-IsAllocated pre post c inv first i level small got) l_apart
          (next_apart pre post c inv first i level small got)

    pub size_l : (at s.blocks l.ptr).capacity ≡ 2 ^ l.ptr.0
    size_l = s-IsPool.sized l.ptr (s-IsPool.allocated l.ptr l_busy)

    pub n_busy : IsLeft pre post c inv first i level small got n
    n_busy =
        IsIn-left pre post c inv first i level small got n
          (IsIn-back pre ((place pre post c inv first i level small got) ∷ post) n (inl refl))

    pub size_n : (at s.blocks n).capacity ≡ 2 ^ i
    size_n = s-IsPool.sized n (s-IsPool.allocated n n_busy) ∙ ap (λ j. 2 ^ j) got.level
