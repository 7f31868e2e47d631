-- ===== src/Pivots/Resize.antt =====
-- block_pivots_inl.h, `resize`, `grow` and `shrink`: the search for a bound on the keys such that the
-- ranges hold enough elements and not too many.
-- The binary search takes fuel; `search_rounds` suffices for 32-bit keys.
use klsm.Base.{
  ℕ, zero, suc, ◌+◌, ◌-◌, ◌/◌, max, min, ltb, ◌==◌, Bool, false, not, ◌⊎◌, inl, inr, Option, none,
  some, List, [], ◌∷◌, if◌then◌else◌, get_or, set, length,
}
use klsm.Block.{Block, BlockItem, Store, peek_at}
use klsm.Pivots.{
  Pivots, Tally, too_many, extend_all, key_min, key_max, count, invalid_count_for_size,
}

-- How a search ended: `found` with the bound and the array that is then copied to `m_upper`, or
-- `given_up` (`goto out`) with what `m_upper` holds at that time.
pub data Outcome : Type 0 where
  found : ℕ → List ℕ → Outcome
  given_up : List ℕ → Outcome

-- The variables of the search. `swapped` tells that `pivots` points to the temporary array, and
-- `tentative` to `m_upper`.
pub record Search : Type 0 where
  pub lower_bound : ℕ
  pub upper_bound : ℕ
  pub in_range : ℕ
  pub pivots : List ℕ
  pub tentative : List ℕ
  pub swapped : Bool

abbrev pub m_upper : Search → List ℕ
m_upper v = if v.swapped then v.tentative else v.pivots

abbrev pub mid_of : Search → ℕ
mid_of v = v.lower_bound + (v.upper_bound - v.lower_bound) / 2

-- What one round counts.
abbrev pub tentative_of : Store → ℕ → List Block → Search → List ℕ × Tally
tentative_of s rlx blocks v =
    extend_all s rlx (mid_of v) blocks v.pivots v.tentative
      (record { in_range = v.in_range; maximal_key = key_min; with_maximal = 0 })

-- Too few elements: the partial solution is kept if it has more than the last one.
unfoldable pub keep_partial : Search → List ℕ → Tally → Search
keep_partial v tentative t =
    if ltb v.in_range t.in_range
    then record v {
      in_range = t.in_range;
      pivots = tentative;
      tentative = v.pivots;
      swapped = not v.swapped;
    }
    else record v { tentative = tentative }

-- The rest of a round: the outcome, or the variables of the next round.
unfoldable pub decide : ℕ → Search → List ℕ → Tally → Outcome ⊎ Search
decide rlx v tentative t =
    let mid = mid_of v in
    let w = record v { tentative = tentative } in
    if too_many rlx t
    then (if v.upper_bound == mid
        then inl (given_up (m_upper w))
        else inr (record w { upper_bound = min mid t.maximal_key }))
    else if ltb t.in_range (rlx / 2)
    then (if v.lower_bound == mid
        then inl (found mid tentative)
        else inr (record (keep_partial v tentative t) { lower_bound = max mid t.maximal_key }))
    else inl (found mid tentative)

-- One round of `while (true)`.
unfoldable pub search_round : Store → ℕ → List Block → Search → Outcome ⊎ Search
unfolding decide keep_partial
search_round s rlx blocks v =
    if ltb v.upper_bound v.lower_bound
    then inl (given_up (m_upper v))
    else decide rlx v (tentative_of s rlx blocks v).0 (tentative_of s rlx blocks v).1

unfoldable pub search_loop : Store → ℕ → List Block → ℕ → Search → Option Outcome
search_loop s rlx blocks zero v = none
search_loop s rlx blocks (suc fuel) v = elim (search_round s rlx blocks v) [
  | inl r ↦ some r
  | inr w ↦ search_loop s rlx blocks fuel w
]

abbrev pub search_rounds : ℕ
search_rounds = 35

abbrev pub install : Pivots → Outcome → Pivots
install p (found mid upper) = record p { upper = upper; maximal_pivot = mid }
install p (given_up upper) = record p { upper = upper }

-- `resize`: the new count and the pivots. `garbage` is what the temporary array held.
unfoldable pub resize : Store → ℕ → List ℕ → ℕ → ℕ → ℕ → List Block → Pivots → Option (ℕ × Pivots)
unfolding search_loop
resize s rlx garbage in_range lower_bound upper_bound blocks p =
    elim (search_loop s rlx blocks search_rounds (record {
      lower_bound = lower_bound;
      upper_bound = upper_bound;
      in_range = in_range;
      pivots = p.upper;
      tentative = garbage;
      swapped = false;
    })) [
      | none ↦ none
      | some r ↦
          some (
            count (record (install p r) { count_for_size = invalid_count_for_size })
              (length blocks))
    ]

unfoldable pub grow : Store → ℕ → List ℕ → ℕ → List Block → Pivots → Option (ℕ × Pivots)
unfolding resize
grow s rlx garbage in_range blocks p =
    resize s rlx garbage in_range p.maximal_pivot key_max blocks p

-- The least element that `shrink` has seen: the element, its block's index and its own.
abbrev pub Best : Type 0
Best = Option (BlockItem × ℕ × ℕ)

abbrev pub better : Best → Option BlockItem → ℕ → ℕ → Best
better best none i ix = best
better none (some c) i ix = some (c, i, ix)
better (some (b, bi, bx)) (some c) i ix =
    if ltb c.key b.key then some (c, i, ix) else some (b, bi, bx)

-- The loop of `shrink` by thread `tid`; `peek` may move the start of a block that the thread owns.
unfoldable pub shrink_loop : Store → ℕ → List Block → ℕ → Pivots → Best → List Block × Pivots × Best
shrink_loop s tid [] i p best = ([], p, best)
shrink_loop s tid (b ∷ bs) i p best =
    let (candidate, ix, b') = peek_at s tid b (max (get_or p.lower i 0) b.first) in
    let p' : Pivots = record p { lower = set p.lower i ix; upper = set p.upper i ix } in
    let (bs', p'', best') = shrink_loop s tid bs (i + 1) p' (better best candidate i ix) in
    (b' ∷ bs', p'', best')

unfoldable pub shrink :
    Store → ℕ → ℕ → List ℕ → List Block → Pivots → Option (ℕ × List Block × Pivots)
unfolding shrink_loop resize
shrink s tid rlx garbage blocks p =
    let (blocks', p', best) = shrink_loop s tid blocks 0 p none in
    elim best [
      | none ↦ some (0, blocks', p')
      | some t ↦
          let p'' : Pivots = record p' {
            upper = set p'.upper t.1 (t.2 + 1);
            cached_count = 1;
            count_for_size = length blocks;
          } in
          elim (resize s rlx garbage 1 t.0.key p''.maximal_pivot blocks' p'') [
            | none ↦ none
            | some r ↦ some (r.0, blocks', r.1)
          ]
    ]
