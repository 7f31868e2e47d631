-- ===== src/Block/Spying.antt =====
-- components/block.h and block_inl.h, `spying_iterator`, which goes through the cells of a block.
-- `none` of the outer option is a read past the array.
use klsm.Base.{
  ℕ, zero, suc, ◌+◌, ◌-◌, ◌<◌, ◌≤◌, ◌≡◌, refl, arith, ◌==◌, true, false, Option, none, some, List,
  [], ◌∷◌, get_elem?, length, drop, take, map,
}
use klsm.Block.{Block, BlockItem, Store, contents}

pub record SpyingIterator : Type 0 where
  pub block_items : List BlockItem
  pub last : ℕ
  pub next : ℕ

unfoldable pub iterator : Block → SpyingIterator
iterator b = record { block_items = b.block_items; last = b.last; next = b.first }

-- What the loop makes of a cell: the version is the cell's, the key the item's.
abbrev pub seen : Store → BlockItem → BlockItem
seen s c = record { key = (s c.item).key; item = c.item; version = c.version }

-- The loop, with the rounds until `m_next` is `m_last`. The test compares the cell's version with the
-- one that was just copied from it.
unfoldable pub next_loop : Store → ℕ → SpyingIterator → Option (Option BlockItem × SpyingIterator)
next_loop s zero it = some (none, it)
next_loop s (suc left) it = elim (get_elem? it.block_items it.next) [
  | none ↦ none
  | some c ↦ elim (c.version == (seen s c).version) [
    | false ↦ next_loop s left (record it { next = it.next + 1 })
    | true ↦ some (some (seen s c), record it { next = it.next + 1 })
  ]
]

unfoldable pub next : Store → SpyingIterator → Option (Option BlockItem × SpyingIterator)
unfolding next_loop
next s it = next_loop s (it.last - it.next) it

-- The items that calls of `next` give, until one gives none.
unfoldable pub drain : Store → ℕ → SpyingIterator → Option (List BlockItem)
drain s zero it = some []
drain s (suc calls) it = elim (next s it) [
  | none ↦ none
  | some (found, later) ↦ elim found [
    | none ↦ some []
    | some c ↦ elim (drain s calls later) [ none ↦ none | some cs ↦ some (c ∷ cs) ]
  ]
]

drop-cell :
    (xs : List BlockItem) (i : ℕ)
    → i < length xs
    → (c : BlockItem) × (get_elem? xs i ≡ some c) × (drop i xs ≡ c ∷ drop (suc i) xs)
drop-cell [] i h = absurd (omega arith)
drop-cell (x ∷ xs) zero h = (x, refl, refl)
drop-cell (x ∷ xs) (suc i) h = drop-cell xs i (omega arith)

same_version : (n : ℕ) → (n == n) ≡ true
same_version n = ground arith

module _ (s : Store) where
  next-found :
      (it : SpyingIterator) (left : ℕ) (c : BlockItem)
      → it.last - it.next ≡ suc left
      → get_elem? it.block_items it.next ≡ some c
      → next s it ≡ some (some (seen s c), record it { next = it.next + 1 })
  unfolding next
  next-found it left c e g = rw (e, next_loop) (rw g (rw (same_version c.version) refl))

  next-end : (it : SpyingIterator) → it.last - it.next ≡ 0 → next s it ≡ some (none, it)
  unfolding next
  next-end it e = rw (e, next_loop) refl

  drain-rest :
      (calls left : ℕ) (it : SpyingIterator)
      → it.last - it.next ≡ left
      → it.next + left ≤ length it.block_items
      → left < calls
      → drain s calls it ≡ some (map (seen s) (take left (drop it.next it.block_items)))
  unfolding drain
  drain-rest zero left it e inside enough = absurd (omega arith)
  drain-rest (suc calls) zero it e inside enough = rw (drain, next-end it e) refl
  drain-rest (suc calls) (suc left) it e inside enough =
      let (c, found, cells) = drop-cell it.block_items it.next (omega arith) in
      let rest =
        drain-rest calls left (record it { next = it.next + 1 }) (omega arith) (omega arith)
          (omega arith) in
      let one : it.next + 1 ≡ suc it.next = omega arith in
      rw (drain, next-found it left c e found) (rw rest (rw (one, cells) refl))

  -- If a block's scope lies within its array, then calls of `next`, of which there are more than cells
  -- in the scope, give all these cells in order under their items' keys, whether or not an item was
  -- taken.
  pub iterator-drain :
      (b : Block) (calls : ℕ)
      → b.first ≤ b.last
      → b.last ≤ length b.block_items
      → b.last - b.first < calls
      → drain s calls (iterator b) ≡ some (map (seen s) (contents b))
  unfolding iterator
  iterator-drain b calls h k enough =
      drain-rest calls (b.last - b.first) (iterator b) refl (omega arith) enough
