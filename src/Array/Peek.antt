-- ===== src/Array/Peek.antt =====
-- block_array_inl.h, `peek` and `delete_min`: a random element within the range of the pivots.
-- The loop takes fuel: each round draws a random number, and with bad luck or a stale count it has
-- no bound.
pub mod Laws
use klsm.Base.{
  ℕ, zero, suc, ◌+◌, ◌-◌, ◌/◌, ◌%◌, ltb, leb, ◌==◌, Bool, true, false, not, Option, none, some,
  List, [], ◌∷◌, if◌then◌else◌, get_or, length, take,
}
use klsm.Block.{Block, BlockItem, Store, taken, peek_nth, take_item}
use klsm.Item.{Taken}
use klsm.Pivots.{Pivots, nth_ix_in, count, count_in, mark_first_taken_in}
use klsm.Pivots.Resize.{grow}
use klsm.Array.{BlockArray}
use klsm.Rng.{draw}

-- The loop that finds the block of the selected element: the block's index and what is left of the
-- number, or `none` past the last block.
unfoldable pub locate : Pivots → ℕ → ℕ → ℕ → Option (ℕ × ℕ)
locate p i zero selected = none
locate p i (suc left) selected =
    let rest = locate p (i + 1) left (selected - count_in p i) in
    if leb (count_in p i) selected then rest else some (i, selected)

-- The cells of the block at an index; the blocks are those that the array points to.
abbrev pub cell_at : List Block → ℕ → ℕ → Option BlockItem
cell_at [] i ix = none
cell_at (b ∷ bs) zero ix = peek_nth b ix
cell_at (b ∷ bs) (suc i) ix = cell_at bs i ix

-- The last loop: the taken elements in front of block `i` are marked, up to the first live one.
unfoldable pub mark_taken : Store → List Block → Pivots → ℕ → ℕ → ℕ → Pivots
mark_taken s bs p i ix zero = p
mark_taken s bs p i ix (suc left) = elim (cell_at bs i ix) [
  | none ↦ p
  | some c ↦ elim (taken s c) [
    | true ↦ mark_taken s bs (mark_first_taken_in p i) i (ix + 1) left
    | false ↦ p
  ]
]

-- How a round ends.
pub data Round : Type 0 where
  returns : Option BlockItem → BlockArray → Round
  again : BlockArray → Round
  fault : Round

module _ (s : Store) (rlx : ℕ) (garbage : List ℕ) (bs : List Block) where
  -- The count, after an attempt to improve a range that holds too few.
  unfoldable pub candidates : BlockArray → Option (ℕ × Pivots)
  candidates a =
      let (n, p) = count a.pivots a.size in
      if ltb n (rlx / 2) then grow s rlx garbage n bs p else some (n, p)

  -- The selection of one of `n` candidates.
  unfoldable pub select : BlockArray → ℕ → Round
  unfolding locate mark_taken
  select a n =
      let (r, gen) = draw a.gen in
      let a' : BlockArray = record a { gen = gen } in
      elim (locate a.pivots 0 a.size (r % n)) [
        | none ↦ again a'
        | some (i, left) ↦ elim (cell_at bs i (nth_ix_in a.pivots left i)) [
          | none ↦ fault
          | some c ↦
              if not (taken s c)
              then returns (some c) a'
              else again (record a' {
                pivots = mark_taken s bs a.pivots i (nth_ix_in a.pivots 0 i) (count_in a.pivots i);
              })
        ]
      ]

  unfoldable pub round : BlockArray → Round
  unfolding candidates select
  round a = elim (candidates a) [
    | none ↦ fault
    | some (n, p) ↦
        let a' : BlockArray = record a { pivots = p } in
        if n == 0 then returns none a' else select a' n
  ]

  -- `none` when the fuel runs out or a read is out of range.
  unfoldable pub peek : ℕ → BlockArray → Option (Option BlockItem × BlockArray)
  unfolding round
  peek zero a = none
  peek (suc fuel) a = elim (round a) [
    | returns c a' ↦ some (c, a')
    | again a' ↦ peek fuel a'
    | fault ↦ none
  ]

  -- `delete_min`: what `take` reports for the item, with the address that it changes.
  unfoldable pub delete_min : ℕ → BlockArray → Option (Option (ℕ × Taken) × BlockArray)
  unfolding peek
  delete_min fuel a = elim (peek fuel a) [
    | none ↦ none
    | some (best, a') ↦ elim best [
      | none ↦ some (none, a')
      | some c ↦ some (some (c.item, take_item s c), a')
    ]
  ]
