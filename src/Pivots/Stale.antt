-- ===== src/Pivots/Stale.antt =====
-- `block_pivots::shrink` when every element was taken: the cached count is not reset.
use native.Mathlib.Decide.{dec_lt}
use klsm.Base.{
  ℕ, zero, suc, ◌+◌, ◌-◌, ◌≤◌, ◌<◌, ◌≡◌, ◌≢◌, refl, ◌∙◌, ap, ap₂, max, Bool, true, none, some, List,
  [], ◌∷◌, get_or, set, length, slice, All, arith, length-set, get_or-set_self, get_or-set_ne,
  All-take, All-drop,
}
use klsm.Block.{Block, BlockItem, Store, taken, peek_at, peek_loop}
use klsm.Pivots.{Pivots, count, count_in, sum_counts}
use klsm.Pivots.Resize.{better, shrink_loop, shrink}

-- Every cell of the block was taken.
abbrev pub AllTaken : Store → Block → Type 0
AllTaken s b = All (λ c. taken s c ≡ true) b.block_items

peek_loop-none :
    (s : Store) (owner : Bool) (cs : List BlockItem) (ix first : ℕ)
    → All (λ c. taken s c ≡ true) cs
    → (peek_loop s owner cs ix first).0 ≡ none
unfolding peek_loop
peek_loop-none s owner [] ix first h = refl
peek_loop-none s owner (c ∷ cs) ix first h =
    rw (h.0, peek_loop) (peek_loop-none s owner cs (ix + 1) _ h.1)

peek_at-none :
    (s : Store) (tid : ℕ) (b : Block) (first : ℕ) → AllTaken s b → (peek_at s tid b first).0 ≡ none
unfolding peek_at
peek_at-none s tid b first h =
    peek_loop-none s _ (slice b.block_items first b.last) first b.first
      (All-take _ (b.last - first) _ (All-drop _ first b.block_items h))

-- What the loop leaves: no best element, the cache, and empty ranges from the current block on.
record Emptied (p : Pivots) (i n : ℕ) (p' : Pivots) : Type 0 where
  cached : p'.cached_count ≡ p.cached_count
  for_size : p'.count_for_size ≡ p.count_for_size
  before : (k : ℕ) → k < i → count_in p' k ≡ count_in p k
  after : (k : ℕ) → i ≤ k → k < i + n → count_in p' k ≡ 0

count_in-other :
    (p : Pivots) (i ix k : ℕ)
    → i ≢ k
    → count_in (record p { lower = set p.lower i ix; upper = set p.upper i ix }) k ≡ count_in p k
count_in-other p i ix k ne = ap₂ ◌-◌ (get_or-set_ne p.upper ix 0 ne) (get_or-set_ne p.lower ix 0 ne)

count_in-set :
    (p : Pivots) (i ix : ℕ)
    → i < length p.lower
    → i < length p.upper
    → count_in (record p { lower = set p.lower i ix; upper = set p.upper i ix }) i ≡ 0
count_in-set p i ix l u =
    omega (arith, get_or-set_self p.upper i ix 0 u, get_or-set_self p.lower i ix 0 l)

shrink_loop-Emptied :
    (s : Store) (tid : ℕ) (bs : List Block) (i : ℕ) (p : Pivots)
    → All (AllTaken s) bs
    → i + length bs ≤ length p.lower
    → i + length bs ≤ length p.upper
    → let (bs', p', best) = shrink_loop s tid bs i p none in
      (best ≡ none) × Emptied p i (length bs) p'
unfolding shrink_loop
shrink_loop-Emptied s tid [] i p h l u = (
  refl,
  record {
    cached = refl;
    for_size = refl;
    before = λ k _. refl;
    after = λ k a b. absurd (omega arith);
  },
)
shrink_loop-Emptied s tid (b ∷ bs) i p h l u =
    let ix = (peek_at s tid b (max (get_or p.lower i 0) b.first)).1 in
    let q : Pivots = record p { lower = set p.lower i ix; upper = set p.upper i ix } in
    let (none_left, e) =
      shrink_loop-Emptied s tid bs (i + 1) q h.1 (omega (arith, length-set p.lower i ix))
        (omega (arith, length-set p.upper i ix)) in
    rw (peek_at-none s tid b (max (get_or p.lower i 0) b.first) h.0, better)
      (
        none_left,
        record {
          cached = e.cached;
          for_size = e.for_size;
          before = λ k below.
              e.before k (omega arith) ∙ count_in-other p i ix k (λ same. absurd (omega arith));
          after = λ k from to. elim (dec_lt i k) [
            | yes later ↦ e.after k (omega arith) (omega arith)
            | no here ↦
                let same : k ≡ i = omega arith in
                e.before k (omega arith)
                ∙ ap (count_in q) same
                ∙ count_in-set p i ix (omega arith) (omega arith)
          ];
        },
      )

sum_counts-zero : (p : Pivots) (n : ℕ) → ((k : ℕ) → k < n → count_in p k ≡ 0) → sum_counts p n ≡ 0
unfolding sum_counts
sum_counts-zero p zero h = refl
sum_counts-zero p (suc n) h =
    omega (arith, sum_counts-zero p n (λ k b. h k (omega arith)), h n (omega arith))

count-cached : (p : Pivots) (n : ℕ) → p.count_for_size ≡ n → (count p n).0 ≡ p.cached_count
unfolding count
count-cached p n h = ground arith

-- If every cell was taken and the count of these blocks is cached, `shrink` reports no element and
-- empties every range, and yet `count` goes on to answer with the old count.
pub shrink-stale_count :
    (s : Store) (tid rlx : ℕ) (garbage : List ℕ) (bs : List Block) (p : Pivots)
    → All (AllTaken s) bs
    → length bs ≤ length p.lower
    → length bs ≤ length p.upper
    → p.count_for_size ≡ length bs
    → (bs' : List Block) × (p' : Pivots) × (shrink s tid rlx garbage bs p ≡ some (0, bs', p'))
      × (sum_counts p' (length bs) ≡ 0)
      × ((count p' (length bs)).0 ≡ p.cached_count)
unfolding shrink count
shrink-stale_count s tid rlx garbage bs p taken l u cached =
    let (none_left, e) = shrink_loop-Emptied s tid bs 0 p taken (omega arith) (omega arith) in
    let p' = (shrink_loop s tid bs 0 p none).1 in
    (
      (shrink_loop s tid bs 0 p none).0,
      p',
      rw (none_left, shrink) refl,
      sum_counts-zero p' (length bs) (λ k b. e.after k (omega arith) (omega arith)),
      count-cached p' (length bs) (e.for_size ∙ cached) ∙ e.cached,
    )
