-- ===== src/Block/Merge.antt =====
-- `block::merge`: the merged block holds the cells of both, in order.
use mathlib.Core.List.Perm
use native.Mathlib.Nat.{sub-zero}
use klsm.Base.{
  ℕ, ◌+◌, ◌-◌, ◌≤◌, ◌≡◌, refl, inl, inr, Perm, perm_middle, append-nil, List, [], ◌∷◌, ◌++◌, arith,
  ltb, Bool-cases, length, length-slice, take-overlay, length-overlay, length-keep-le, slice,
  overlay, keep, add64, sub64, max, ◌⊎◌, ◌∙◌,
}
use klsm.Block.{BlockItem, Block, Store, capacity, contents, live, merge_items, merge_at}
use klsm.Block.Order.{
  AtLeast, IsSorted, IsValid, AtLeast-mono, keep-IsSorted, keep-perm, keep_idempotent, keep-append,
}

merge_items-AtLeast :
    (k : ℕ) (ls rs : List BlockItem) → AtLeast k ls → AtLeast k rs → AtLeast k (merge_items ls rs)
unfolding merge_items
merge_items-AtLeast k [] rs a b = b
merge_items-AtLeast k (l ∷ ls) [] a b = a
merge_items-AtLeast k (l ∷ ls) (r ∷ rs) a b =
    ground (arith, merge_items-AtLeast k ls (r ∷ rs) a.1 b, merge_items-AtLeast k (l ∷ ls) rs a b.1)

merge_items-IsSorted :
    (ls rs : List BlockItem) → IsSorted ls → IsSorted rs → IsSorted (merge_items ls rs)
unfolding merge_items
merge_items-IsSorted [] rs a b = b
merge_items-IsSorted (l ∷ ls) [] a b = a
merge_items-IsSorted (l ∷ ls) (r ∷ rs) a b = elim (Bool-cases (ltb l.key r.key)) [
  | inl e ↦
      rw (e, merge_items)
        (
          merge_items-AtLeast l.key ls (r ∷ rs) a.0
              (ground arith, AtLeast-mono l.key r.key rs (ground arith) b.0),
          merge_items-IsSorted ls (r ∷ rs) a.1 b,
        )
  | inr e ↦
      rw (e, merge_items)
        (
          merge_items-AtLeast r.key (l ∷ ls) rs
              (ground arith, AtLeast-mono r.key l.key ls (ground arith) a.0) b.0,
          merge_items-IsSorted (l ∷ ls) rs a b.1,
        )
]

-- No cell is lost or made up.
pub merge_items-perm : (ls rs : List BlockItem) → Perm (merge_items ls rs) (ls ++ rs)
unfolding merge_items
merge_items-perm [] rs = Perm.refl rs
merge_items-perm (l ∷ ls) [] = rw append-nil (Perm.refl (l ∷ ls))
merge_items-perm (l ∷ ls) (r ∷ rs) = elim (Bool-cases (ltb l.key r.key)) [
  | inl e ↦ rw (e, merge_items) (Perm.cons l (merge_items-perm ls (r ∷ rs)))
  | inr e ↦
      rw (e, merge_items)
        (Perm.trans (Perm.cons r (merge_items-perm (l ∷ ls) rs))
          (Perm.symm (perm_middle (l ∷ ls) rs)))
]

pub length-merge_items :
    (ls rs : List BlockItem) → length (merge_items ls rs) ≡ length ls + length rs
unfolding merge_items
length-merge_items [] rs = omega arith
length-merge_items (l ∷ ls) [] = omega arith
length-merge_items (l ∷ ls) (r ∷ rs) =
    ground (arith, length-merge_items ls (r ∷ rs), length-merge_items (l ∷ ls) rs)

-- A block whose array was written from the front and whose scope is what was written.
abbrev fill : Block → List BlockItem → List BlockItem → ℕ → Block
fill dst xs cells skipped = record dst {
  block_items = overlay xs cells;
  last = length xs;
  skipped_prunes = skipped;
}

module _ {dst : Block} (free : IsValid dst) (from_start : dst.first ≡ 0) (xs cells : List BlockItem)
    (room : length xs ≤ capacity dst) (full : length cells ≡ capacity dst) (k : ℕ) where
  fill-IsValid : IsValid (fill dst xs cells k)
  fill-IsValid = record {
    allocated = length-overlay xs cells ∙ full;
    ordered = rw from_start (omega arith);
    within = room;
    small = free.small;
  }

  contents-fill : contents (fill dst xs cells k) ≡ xs
  contents-fill = rw (from_start, sub-zero) (take-overlay xs cells (omega arith))

module _ (s : Store) {dst lhs rhs : Block} {i j : ℕ} (free : IsValid dst)
    (from_start : dst.first ≡ 0) (valid_l : IsValid lhs) (valid_r : IsValid rhs)
    (in_l : i ≤ lhs.last) (in_r : j ≤ rhs.last) where
  abbrev ls : List BlockItem
  ls = slice lhs.block_items i lhs.last

  abbrev rs : List BlockItem
  rs = slice rhs.block_items j rhs.last

  abbrev out : Block
  out = merge_at s dst lhs i rhs j

  abbrev merged : List BlockItem
  merged = merge_items ls rs

  lengths : (length ls ≡ lhs.last - i) × (length rs ≡ rhs.last - j)
  lengths = (
    length-slice lhs.block_items i lhs.last in_l (omega (arith, valid_l)),
    length-slice rhs.block_items j rhs.last in_r (omega (arith, valid_r)),
  )

  total-eq : sub64 (sub64 (add64 lhs.last rhs.last) i) j ≡ length ls + length rs
  total-eq = omega (arith, lengths, valid_l, valid_r)

  merge_at_cases :
      length ls + length rs ≤ capacity dst
      → (out ≡ fill dst (keep (live s) merged) (overlay merged dst.block_items) 0)
        ⊎ (out ≡ fill dst merged dst.block_items (max lhs.skipped_prunes rhs.skipped_prunes + 1))
  unfolding merge_at
  merge_at_cases h = rw (total-eq, merge_at) (ground (arith, length-merge_items ls rs))

  -- If the cells fit, the target is valid and sorted, and its live cells are those of both sources.
  pub merge_at_lem :
      length ls + length rs ≤ capacity dst
      → IsSorted ls
      → IsSorted rs
      → (capacity out ≡ capacity dst)
        × IsValid out
        × IsSorted (contents out)
        × Perm (keep (live s) (contents out)) (keep (live s) ls ++ keep (live s) rs)
  merge_at_lem h sl sr = elim (merge_at_cases h) [
    | inl e ↦
        rw
          (
            e,
            contents-fill free from_start pruned (overlay merged dst.block_items) fits full_after 0,
          )
          (
            refl,
            fill-IsValid free from_start pruned (overlay merged dst.block_items) fits full_after 0,
            keep-IsSorted (live s) merged sorted,
            rw (keep_idempotent (live s) merged) same,
          )
    | inr e ↦
        rw (e, contents-fill free from_start merged dst.block_items small free.allocated k)
          (
            refl,
            fill-IsValid free from_start merged dst.block_items small free.allocated k,
            sorted,
            same,
          )
  ]
    where
      k : ℕ
      k = max lhs.skipped_prunes rhs.skipped_prunes + 1

      pruned : List BlockItem
      pruned = keep (live s) merged

      sorted : IsSorted merged
      sorted = merge_items-IsSorted ls rs sl sr

      small : length merged ≤ capacity dst
      small = omega (arith, length-merge_items ls rs)

      fits : length pruned ≤ capacity dst
      fits = omega (arith, small, length-keep-le (live s) merged)

      full_after : length (overlay merged dst.block_items) ≡ capacity dst
      full_after = length-overlay merged dst.block_items ∙ free.allocated

      same : Perm (keep (live s) merged) (keep (live s) ls ++ keep (live s) rs)
      same = rw (← keep-append (live s) ls rs) (keep-perm (live s) (merge_items-perm ls rs))
