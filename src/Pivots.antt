-- ===== src/Pivots.antt =====
-- shared_lsm/block_pivots.h and block_pivots_inl.h: for each block of an array the range of indexes
-- from which `delete_min` may choose, so that at most `Rlx + 1` of the smallest keys are in range.
-- Indexes and counts are `int` or `size_t` values far below their limits. Keys are `uint32_t`.
pub mod Resize
pub mod Total
pub mod Stale
use klsm.Base.{
  ℕ, zero, suc, ◌+◌, ◌-◌, ◌*◌, ◌/◌, ◌^◌, max, min, ltb, leb, ◌==◌, Bool, true, false, ◌&&◌, ◌||◌,
  not, Option, none, some, List, [], ◌∷◌, ◌++◌, if◌then◌else◌, get_elem?, get_or, set, replicate,
  length, take, drop, slice, sub64,
}
use klsm.Block.{Block, BlockItem, Store, taken, peek_at, capacity}

abbrev pub max_blocks : ℕ
max_blocks = 32

-- `numeric_limits<K>` at `uint32_t`.
abbrev pub key_min : ℕ
key_min = 0

abbrev pub key_max : ℕ
key_max = 2 ^ 32 - 1

-- `INVALID_COUNT_FOR_SIZE`, -1 as a `size_t`.
abbrev pub invalid_count_for_size : ℕ
invalid_count_for_size = 2 ^ 64 - 1

pub record Pivots : Type 0 where
  pub upper : List ℕ
  pub lower : List ℕ
  pub maximal_pivot : ℕ
  pub cached_count : ℕ
  pub count_for_size : ℕ

unfoldable pub block_pivots : Pivots
block_pivots = record {
  upper = replicate max_blocks 0;
  lower = replicate max_blocks 0;
  maximal_pivot = key_min;
  cached_count = 0;
  count_for_size = invalid_count_for_size;
}

-- The source asserts `lower <= upper`. Here the assertion is not checked, and the count is 0 where it
-- would fail.
abbrev pub count_in : Pivots → ℕ → ℕ
count_in p i = get_or p.upper i 0 - get_or p.lower i 0

abbrev pub nth_ix_in : Pivots → ℕ → ℕ → ℕ
nth_ix_in p n i = get_or p.lower i 0 + n

-- The sum over the first `size` blocks.
unfoldable pub sum_counts : Pivots → ℕ → ℕ
sum_counts p zero = 0
sum_counts p (suc i) = sum_counts p i + count_in p i

unfoldable pub count : Pivots → ℕ → ℕ × Pivots
unfolding sum_counts
count p size =
    if p.count_for_size == size
    then (p.cached_count, p)
    else (sum_counts p size, record p { cached_count = sum_counts p size; count_for_size = size })

-- `m_count--` wraps at 0 in the source; here it stops there.
unfoldable pub mark_first_taken_in : Pivots → ℕ → Pivots
mark_first_taken_in p i = record p {
  lower = set p.lower i (get_or p.lower i 0 + 1);
  cached_count = if ltb i p.count_for_size then p.cached_count - 1 else p.cached_count;
}

-- The loop of `pivot_of` over the cells from index `i` on.
unfoldable pub pivot_loop : Store → ℕ → List BlockItem → ℕ → Option ℕ
pivot_loop s bound [] i = none
pivot_loop s bound (c ∷ cs) i =
    let rest = pivot_loop s bound cs (i + 1) in
    if not (taken s c) && ltb bound c.key then some i else rest

unfoldable pub pivot_of : Store → ℕ → Pivots → Block → ℕ
unfolding pivot_loop
pivot_of s rlx p b =
    let upper_bound = min (b.first + rlx + 1) b.last in
    elim (pivot_loop s p.maximal_pivot (slice b.block_items b.first upper_bound) b.first) [
      | none ↦ upper_bound
      | some i ↦ i
    ]

unfoldable pub set_at : Pivots → ℕ → ℕ → ℕ → Pivots
set_at p i first_in_block pivot = record p {
  lower = set p.lower i first_in_block;
  upper = set p.upper i pivot;
  count_for_size = invalid_count_for_size;
}

-- `memmove` of `n` elements from index `i` to index `i + 1`; the array keeps its length.
unfoldable pub shift_right : List ℕ → ℕ → ℕ → List ℕ
shift_right xs i n = take (length xs) (take (i + 1) xs ++ take n (drop i xs) ++ drop (i + 1 + n) xs)

unfoldable pub insert : Pivots → ℕ → ℕ → ℕ → ℕ → Pivots
unfolding shift_right set_at
insert p i size first_in_block pivot =
    set_at
      (record p {
        upper = shift_right p.upper i (size - i);
        lower = shift_right p.lower i (size - i);
      })
      i first_in_block pivot

unfoldable pub copy : Pivots → ℕ → ℕ → Pivots
copy p src dst = if src == dst then p else record p {
  lower = set p.lower dst (get_or p.lower src 0);
  upper = set p.upper dst (get_or p.upper src 0);
  count_for_size = invalid_count_for_size;
}

-- What the body of `resize` counts in one round.
pub record Tally : Type 0 where
  pub in_range : ℕ
  pub maximal_key : ℕ
  pub with_maximal : ℕ

-- `CORRECTED_TENTATIVE_COUNT() > Rlx + 1`: all but one of the elements with the maximal key may be
-- ignored.
abbrev pub too_many : ℕ → Tally → Bool
too_many rlx t = ltb (rlx + 1 + t.with_maximal) (t.in_range + 1)

abbrev pub tally : Tally → ℕ → Tally
tally t key =
    if ltb t.maximal_key key
    then record { in_range = t.in_range + 1; maximal_key = key; with_maximal = 1 }
    else if key == t.maximal_key
    then record t { in_range = t.in_range + 1; with_maximal = t.with_maximal + 1 }
    else record t { in_range = t.in_range + 1 }

-- The loop over the cells of one block from `pivot` on: the pivot where it ends, the tally, and
-- whether it was left by `goto outer`.
unfoldable pub extend_in : Store → ℕ → ℕ → List BlockItem → ℕ → Tally → ℕ × Tally × Bool
extend_in s rlx mid [] pivot t = (pivot, t, false)
extend_in s rlx mid (c ∷ cs) pivot t = elim (taken s c) [
  | true ↦ extend_in s rlx mid cs (pivot + 1) t
  | false ↦ elim (ltb mid c.key) [
    | true ↦ (pivot, t, false)
    | false ↦ elim (too_many rlx (tally t c.key)) [
      | true ↦ (pivot, tally t c.key, true)
      | false ↦ extend_in s rlx mid cs (pivot + 1) (tally t c.key)
    ]
  ]
]

-- The loop over the blocks: `pivots` and `tentative` are the two arrays from the current index on.
-- What `goto outer` leaves of the tentative array is what stood there before.
unfoldable pub extend_all : Store → ℕ → ℕ → List Block → List ℕ → List ℕ → Tally → List ℕ × Tally
unfolding extend_in
extend_all s rlx mid [] pivots tentative t = (tentative, t)
extend_all s rlx mid (b ∷ bs) [] tentative t = (tentative, t)
extend_all s rlx mid (b ∷ bs) (p ∷ ps) [] t = ([], t)
extend_all s rlx mid (b ∷ bs) (p ∷ ps) (q ∷ qs) t =
    let (pivot, t', stop) = extend_in s rlx mid (slice b.block_items p b.last) p t in
    elim stop [
      | true ↦ (pivot ∷ qs, t')
      | false ↦ let (rest, t'') = extend_all s rlx mid bs ps qs t' in (pivot ∷ rest, t'')
    ]
