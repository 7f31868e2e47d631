-- ===== src/Array/Peek/Laws.antt =====
-- What `block_array::peek` returns, and when it cannot return.
use mathlib.Core.Option.{some-injective}
use klsm.Base.{
  ℕ, zero, suc, ◌+◌, ◌-◌, ◌/◌, ◌%◌, ◌≤◌, ◌<◌, ◌≡◌, refl, ap, inl, inr, leb, ◌==◌, true, false,
  Option, none, some, List, get_or, arith, Bool-cases, Option-cases, subst,
}
use klsm.Block.{Block, BlockItem, Store, taken}
use klsm.Pivots.{Pivots, count, count_in, nth_ix_in}
use klsm.Array.{BlockArray}
use klsm.Array.Peek.{locate, cell_at, Round, candidates, select, round, peek}
use klsm.Rng.{draw}

-- With empty ranges no block holds the selected element.
locate-none :
    (p : Pivots) (i left selected : ℕ)
    → ((k : ℕ) → i ≤ k → k < i + left → count_in p k ≡ 0)
    → locate p i left selected ≡ none
unfolding locate
locate-none p i zero selected h = refl
locate-none p i (suc left) selected h =
    let rest =
      locate-none p (i + 1) left (selected - count_in p i)
        (λ k a b. h k (omega arith) (omega arith)) in
    let now : count_in p i ≡ 0 = h i (omega arith) (omega arith) in
    let test : leb (count_in p i) selected ≡ true = ground arith in rw (test, locate) rest

-- The block that is found lies in the array, and what is left of the number is less than its range.
locate-some :
    (p : Pivots) (i n selected : ℕ) {j left : ℕ}
    → locate p i n selected ≡ some (j, left)
    → (j < i + n) × (left < count_in p j)
unfolding locate
locate-some p i zero selected h = absurd (cc)
locate-some p i (suc n) selected {j} {left} h = elim (Bool-cases (leb (count_in p i) selected)) [
  | inl e ↦
      let (a, b) = locate-some p (i + 1) n (selected - count_in p i) (rw (e, locate) at h) in
      (omega arith, b)
  | inr e ↦
      let same : ◌≡◌ {A = ℕ × ℕ} (i, selected) (j, left) =
        some-injective _ _ (rw (e, locate) at h) in
      let at_i : i ≡ j = ap (λ r. r.0) same in
      let rest : selected ≡ left = ap (λ r. r.1) same in
      (omega arith, subst (λ k. left < count_in p k) at_i (ground arith))
]

-- An array whose cached count is above the ranges, which hold nothing.
pub record IsStale (rlx : ℕ) (a : BlockArray) : Type 0 where
  pub cached : a.pivots.count_for_size ≡ a.size
  pub enough : rlx / 2 ≤ a.pivots.cached_count
  pub some_left : 1 ≤ a.pivots.cached_count
  pub empty : (k : ℕ) → k < a.size → count_in a.pivots k ≡ 0

module _ (s : Store) (rlx : ℕ) (garbage : List ℕ) (bs : List Block) where
  candidates-stale :
      (a : BlockArray)
      → IsStale rlx a
      → candidates s rlx garbage bs a ≡ some (a.pivots.cached_count, a.pivots)
  unfolding candidates count
  candidates-stale a h = ground (arith, h.cached, h.enough)

  round-stale :
      (a : BlockArray)
      → IsStale rlx a
      → round s rlx garbage bs a ≡ Round.again (record a { gen = (draw a.gen).1 })
  unfolding round select
  round-stale a h =
      let nonzero : (a.pivots.cached_count == 0) ≡ false = ground (arith, h.some_left) in
      rw (candidates-stale a h, round)
        (rw nonzero (
          rw
            (
              locate-none a.pivots 0 a.size ((draw a.gen).0 % a.pivots.cached_count)
                  (λ k _ b. h.empty k (omega arith)),
              select,
            )
            refl))

  -- On such an array `peek` never returns, however many rounds it is given.
  pub peek-stale : (fuel : ℕ) (a : BlockArray) → IsStale rlx a → peek s rlx garbage bs fuel a ≡ none
  unfolding peek
  peek-stale zero a h = refl
  peek-stale (suc fuel) a h =
      rw (round-stale a h, peek)
        (peek-stale fuel (record a { gen = (draw a.gen).1 })
          (record {
            cached = h.cached;
            enough = h.enough;
            some_left = h.some_left;
            empty = h.empty;
          }))

  -- The item is a cell within the pivots' range of one of the array's blocks.
  abbrev pub InRange : BlockArray → BlockItem → Type 0
  InRange a c =
      (i : ℕ) × (ix : ℕ) × (i < a.size)
      × (get_or a.pivots.lower i 0 ≤ ix)
      × (ix < get_or a.pivots.upper i 0)
      × (cell_at bs i ix ≡ some c)

  Returned : Round → Type 0
  Returned (Round.returns (some c) a) = (taken s c ≡ false) × InRange a c
  Returned _ = Unit {0}

  select-Returned : (a : BlockArray) (n : ℕ) → Returned (select s rlx garbage bs a n)
  unfolding select Returned
  select-Returned a n = elim (Option-cases (locate a.pivots 0 a.size ((draw a.gen).0 % n))) [
    | inl e ↦ rw (e, select) tt
    | inr ((i, left), e) ↦ elim (Option-cases (cell_at bs i (nth_ix_in a.pivots left i))) [
      | inl m ↦ rw (e, select) (rw (m, select) tt)
      | inr (c, m) ↦ elim (Bool-cases (taken s c)) [
        | inl t ↦ rw (e, select) (rw (m, select) (rw t tt))
        | inr t ↦
            rw (e, select)
              (rw (m, select)
                (rw t (
                  let (inside, below) = locate-some a.pivots 0 a.size ((draw a.gen).0 % n) e in
                  (t, (i, nth_ix_in a.pivots left i, omega arith, omega arith, omega arith, m)))))
      ]
    ]
  ]

  round-Returned : (a : BlockArray) → Returned (round s rlx garbage bs a)
  unfolding round Returned
  round-Returned a = elim (Option-cases (candidates s rlx garbage bs a)) [
    | inl e ↦ rw (e, round) tt
    | inr ((n, p), e) ↦ elim (Bool-cases (n == 0)) [
      | inl z ↦ rw (e, round) (rw z tt)
      | inr z ↦ rw (e, round) (rw z (select-Returned (record a { pivots = p }) n))
    ]
  ]

  abbrev Live : Option BlockItem × BlockArray → Type 0
  Live (none, a) = Unit {0}
  Live (some c, a) = (taken s c ≡ false) × InRange a c

  peek-Live_step :
      (fuel : ℕ) (a : BlockArray) (c : BlockItem) (a' : BlockArray)
      → ((b : BlockArray) → peek s rlx garbage bs fuel b ≡ some (some c, a') → Live (some c, a'))
      → (r : Round) → round s rlx garbage bs a ≡ r
      → Returned r
      → peek s rlx garbage bs (suc fuel) a ≡ some (some c, a')
      → Live (some c, a')
  unfolding peek Returned
  peek-Live_step fuel a c a' later (Round.returns none b) e ret h = absurd (cc (rw (e, peek) at h))
  peek-Live_step fuel a c a' later (Round.returns (some d) b) e ret h =
      let q : ◌≡◌ {A = Option BlockItem × BlockArray} (some d, b) (some c, a') =
        some-injective _ _ (rw (e, peek) at h) in
      subst Live q ret
  peek-Live_step fuel a c a' later (Round.again b) e ret h = later b (rw (e, peek) at h)
  peek-Live_step fuel a c a' later Round.fault e ret h = absurd (cc (rw (e, peek) at h))

  -- What `peek` returns, after however many rounds, is not taken, and it is a cell of one of the
  -- array's blocks within the range that the pivots give for this block.
  pub peek-Live :
      (fuel : ℕ) (a : BlockArray) (c : BlockItem) (a' : BlockArray)
      → peek s rlx garbage bs fuel a ≡ some (some c, a')
      → (taken s c ≡ false) × InRange a' c
  unfolding peek
  peek-Live zero a c a' h = absurd (cc)
  peek-Live (suc fuel) a c a' h =
      peek-Live_step fuel a c a' (λ b. peek-Live fuel b c a') (round s rlx garbage bs a) refl
        (round-Returned a) h
