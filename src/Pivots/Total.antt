-- ===== src/Pivots/Total.antt =====
-- The binary search of `resize` ends within the rounds that it is given.
use klsm.Base.{
  ℕ, zero, suc, ◌-◌, ◌/◌, ◌^◌, ◌≤◌, ◌<◌, ◌≡◌, refl, ltb, false, some, List, length, arith,
  Bool-cases, ◌⊎◌, inl, inr, ◌==◌,
}
use klsm.Block.{Block, Store}
use klsm.Pivots.{Pivots, Tally, count, too_many, invalid_count_for_size}
use native.Mathlib.Nat.{pow-suc}
use klsm.Pivots.Resize.{
  install, mid_of, keep_partial, Outcome, Search, decide, search_round, search_loop, resize,
}

abbrev width : Search → ℕ
width v = v.upper_bound - v.lower_bound

-- A round that does not end the search halves the interval, and empties one of two keys.
record Narrower (v w : Search) : Type 0 where
  half : width w ≤ width v - width v / 2
  last : width v ≤ 1 → width w ≡ 0
  some_left : 1 ≤ width v

data Round (v : Search) (r : Outcome ⊎ Search) : Type 0 where
  ends : (o : Outcome) → r ≡ inl o → Round v r
  goes_on : (w : Search) → r ≡ inr w → Narrower v w → Round v r

bounds-keep_partial :
    (v : Search) (tentative : List ℕ) (t : Tally)
    → ((keep_partial v tentative t).upper_bound ≡ v.upper_bound)
      × ((keep_partial v tentative t).lower_bound ≡ v.lower_bound)
unfolding keep_partial
bounds-keep_partial v tentative t = ground arith

decide-Round :
    (rlx : ℕ) (v : Search) (tentative : List ℕ) (t : Tally)
    → v.lower_bound ≤ v.upper_bound
    → Round v (decide rlx v tentative t)
unfolding decide
decide-Round rlx v tentative t h = elim (Bool-cases (too_many rlx t)) [
  | inl many ↦ rw many (elim (Bool-cases (v.upper_bound == mid_of v)) [
    | inl e ↦ rw e (ends _ refl)
    | inr e ↦ rw e (
        goes_on _ refl
          (record { half = ground arith; last = λ small. ground arith; some_left = ground arith }))
  ])
  | inr few ↦ rw few (elim (Bool-cases (ltb t.in_range (rlx / 2))) [
    | inr e ↦ rw e (ends _ refl)
    | inl e ↦ rw e (elim (Bool-cases (v.lower_bound == mid_of v)) [
      | inl e ↦ rw e (ends _ refl)
      | inr e ↦
          let (up, _) = bounds-keep_partial v tentative t in
          rw e (
            goes_on _ refl (record {
              half = rw up (ground arith);
              last = λ small. rw up (ground arith);
              some_left = ground arith;
            }))
    ])
  ])
]

search_round-Round :
    (s : Store) (rlx : ℕ) (blocks : List Block) (v : Search) → Round v (search_round s rlx blocks v)
unfolding search_round
search_round-Round s rlx blocks v = elim (Bool-cases (ltb v.upper_bound v.lower_bound)) [
  | inl e ↦ rw e (ends _ refl)
  | inr e ↦ rw e (decide-Round rlx v _ _ (ground arith))
]

-- `j + 2` rounds end a search over at most `2 ^ j` keys and one more.
search_loop-total :
    (s : Store) (rlx : ℕ) (blocks : List Block) (j : ℕ) (v : Search)
    → width v ≤ 2 ^ j
    → (r : Outcome) × (search_loop s rlx blocks (suc (suc j)) v ≡ some r)
unfolding search_loop
search_loop-total s rlx blocks zero v h = elim (search_round-Round s rlx blocks v) [
  | ends o e ↦ (o, rw (e, search_loop))
  | goes_on w e n ↦ elim (search_round-Round s rlx blocks w) [
    | ends o e2 ↦ (o, rw (e, search_loop) (rw (e2, search_loop)))
    | goes_on w2 e2 n2 ↦ absurd (omega (arith, n.last (omega arith), n2.some_left))
  ]
]
search_loop-total s rlx blocks (suc j) v h = elim (search_round-Round s rlx blocks v) [
  | ends o e ↦ (o, rw (e, search_loop))
  | goes_on w e n ↦
      let (o, e2) = search_loop-total s rlx blocks j w (omega (arith, n.half, pow-suc 2 j)) in
      (o, rw (e, search_loop) e2)
]

-- For bounds that are 32-bit keys `resize` returns: the binary search ends in the rounds allowed.
pub resize_total :
    (s : Store) (rlx : ℕ) (garbage : List ℕ) (in_range lower upper : ℕ) (blocks : List Block)
    (p : Pivots)
    → upper < 2 ^ 32
    → (r : ℕ × Pivots) × (resize s rlx garbage in_range lower upper blocks p ≡ some r)
unfolding resize
resize_total s rlx garbage in_range lower upper blocks p h =
    let v : Search = record {
      lower_bound = lower;
      upper_bound = upper;
      in_range = in_range;
      pivots = p.upper;
      tentative = garbage;
      swapped = false;
    } in
    let (o, e) = search_loop-total s rlx blocks 33 v (omega arith) in
    (
      count (record (install p o) { count_for_size = invalid_count_for_size }) (length blocks),
      rw (e, resize),
    )
