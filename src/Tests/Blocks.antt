-- ===== src/Tests/Blocks.antt =====
-- Items and blocks of four cells, two of them taken.
use klsm.Base.{
  map, ℕ, ◌≡◌, refl, inl, true, false, none, some, List, [], ◌∷◌, ◌++◌, Perm, arith, head?, keep,
  length,
}
use klsm.Item.{Item, used, reuse, take}
use klsm.Block.Spying.{seen, iterator, drain, iterator-drain}
use klsm.Item.Laws.{take_once}
use klsm.Block.{
  Block, BlockItem, Store, contents, capacity, taken, live, merge_at, merge, merge_items, copy,
  peek,
}
use klsm.Block.Order.{IsSorted, IsValid}
use klsm.Block.Merge.{merge_at_lem}
use klsm.Block.Copy.{copy_lem, copy_aborted}
use klsm.Block.Peek.{IsLeast, peek_lem}

-- An item in use, and the same item after it was taken.
abbrev in_use : Item
in_use = record { version = 1; key = 7; val = 70 }

take_once_example :
    let t = take in_use 1 in
    (t.success ≡ true)
    × (t.key ≡ 7)
    × (t.val ≡ 70)
    × (reuse t.left ≡ true)
    × ((take t.left 1).success ≡ false)
    × ((take t.left 1).left ≡ t.left)
unfolding used
take_once_example = take_once in_use (omega arith) refl

-- Every item is in use under version 3; a reference under another version is to a taken item.
abbrev memory : Store
memory p = record { version = 3; key = p; val = p }

abbrev now : ℕ → BlockItem
now k = record { key = k; item = k; version = 3 }

abbrev gone : ℕ → BlockItem
gone k = record { key = k; item = k; version = 1 }

abbrev blank : BlockItem
blank = record { key = 0; item = 0; version = 0 }

-- A block of level `p` that holds the given cells.
abbrev holding : ℕ → ℕ → List BlockItem → List BlockItem → Block
holding p skipped cells rest = record {
  next = none;
  prev = none;
  first = 0;
  last = length cells;
  power_of_2 = p;
  owner_tid = 0;
  block_items = cells ++ rest;
  used = true;
  skipped_prunes = skipped;
}

abbrev left : Block
left = holding 1 17 (now 1 ∷ gone 3 ∷ []) []

abbrev right : Block
right = holding 1 0 (gone 2 ∷ now 4 ∷ []) []

abbrev target : Block
target = holding 2 0 [] (blank ∷ blank ∷ blank ∷ blank ∷ [])

abbrev small : Block
small = holding 0 0 [] (blank ∷ [])

-- More than sixteen merges without pruning: the taken cells go.
merge_prunes : contents (merge memory target left right) ≡ now 1 ∷ now 4 ∷ []
unfolding merge merge_items taken
merge_prunes = refl

merge_at_lem_example :
    let out = merge_at memory target left 0 right 0 in
    (capacity out ≡ 4)
    × IsValid out
    × IsSorted (contents out)
    × Perm
        (keep (live memory) (contents out))
        (keep (live memory) (contents left) ++ keep (live memory) (contents right))
merge_at_lem_example =
    merge_at_lem memory {dst = target} {lhs = left} {rhs = right} {i = 0} {j = 0} (omega arith) refl
      (omega arith) (omega arith) (omega arith) (omega arith) (omega arith) (omega arith)
      (omega arith)

abbrev pair : Block
pair = holding 1 0 [] (blank ∷ blank ∷ [])

abbrev three_live : Block
three_live = holding 2 0 (now 1 ∷ now 2 ∷ now 3 ∷ []) (blank ∷ [])

copy_lem_example :
    let b = copy memory pair right in
    IsValid b
    × (contents b ≡ keep (live memory) (contents right))
    × IsSorted (contents b)
    × (b.first ≡ 0)
    × (b.last ≡ length (keep (live memory) (contents right)))
copy_lem_example =
    copy_lem memory {dst = pair} {that = right} (omega arith) (omega arith) refl (omega arith)
      (inl (omega arith))

copy_aborted_example : let b = copy memory pair three_live in (b.first ≡ 0) × (b.last ≡ 0)
unfolding taken
copy_aborted_example =
    copy_aborted memory {dst = pair} {that = three_live} (omega arith) (omega arith) (omega arith)

-- The owner of a block whose least cell was taken.
peek_lem_example :
    let (p, b) = peek memory 0 right in
    IsLeast p (keep (live memory) (contents right))
    × IsValid b
    × (keep (live memory) (contents b) ≡ keep (live memory) (contents right))
    × (◌≡◌ {A = ℕ} 0 0 → p ≡ head? (contents b))
peek_lem_example = peek_lem memory 0 {b = right} (omega arith) (omega arith)

peek_skips : (peek memory 0 right).0 ≡ some (now 4)
unfolding peek taken
peek_skips = refl

-- The second cell's item was taken.
iterator-drain_example : drain memory 3 (iterator left) ≡ some (map (seen memory) (contents left))
iterator-drain_example = iterator-drain memory left 3 (omega arith) (omega arith) (omega arith)
