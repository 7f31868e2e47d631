-- ===== src/Block.antt =====
-- components/block.h and components/block_inl.h: a block, an array of 2^p references to items,
-- sorted by key, of which those from `first` up to `last` are in scope.
-- Items live in a store that all threads share; a reference is to an address of it, with the
-- version that the item had. The operations do not check the assertions of `insert_tail`, `merge`,
-- `copy`, `set_used` and `set_unused` (a block that is in use, with an empty scope at index 0 and room
-- for what is written): the theorems suppose what they need of them. A scan reads one store:
-- interference during a scan is not modelled here.
pub mod Spying
pub mod Order
pub mod Merge
pub mod Copy
pub mod Peek
use klsm.Base.{
  ℕ, ◌+◌, ◌-◌, ◌^◌, max, Bool, true, false, not, Option, none, some, List, [], ◌∷◌, reverse,
  if◌then◌else◌, ltb, leb, ◌==◌, add64, sub64, length, get_elem?, set, slice, overlay, keep,
  replicate,
}
use klsm.Item.{Item, Taken}
use klsm.Item

-- The memory of items. An address is what the source's `item<K, V> *` points at.
abbrev pub Store : Type 0
Store = ℕ → Item

-- `block_item`. A `peek_t` with a null item is `none` of `Option BlockItem`: the source reads no
-- other field of it.
pub record BlockItem : Type 0 where
  pub key : ℕ
  pub item : ℕ
  pub version : ℕ

-- A block's place in its `block_storage` or `block_pool`: the level and the index in it.
abbrev pub BlockPtr : Type 0
BlockPtr = ℕ × ℕ

pub record Block : Type 0 where
  pub next : Option BlockPtr
  pub prev : Option BlockPtr
  pub first : ℕ
  pub last : ℕ
  pub power_of_2 : ℕ
  pub owner_tid : ℕ
  pub block_items : List BlockItem
  pub used : Bool
  pub skipped_prunes : ℕ

abbrev pub max_skipped_prunes : ℕ
max_skipped_prunes = 16

-- `m_capacity` is a constant that the constructor computes: `1 << power_of_2`, a shift of an `int`,
-- which is this power up to level 30. (Storages and arrays of blocks have 32 levels.)
abbrev pub capacity : Block → ℕ
capacity b = 2 ^ b.power_of_2

abbrev pub size : Block → ℕ
size b = sub64 b.last b.first

-- `block_item::taken`, the negation of `block::item_owned`.
unfoldable pub taken : Store → BlockItem → Bool
taken s c = not ((s c.item).version == c.version)

abbrev pub live : Store → BlockItem → Bool
live s c = not (taken s c)

-- `block_item::take`.
unfoldable pub take_item : Store → BlockItem → Taken
take_item s c = Item.take (s c.item) c.version

-- The cells in scope.
abbrev pub contents : Block → List BlockItem
contents b = slice b.block_items b.first b.last

-- The constructor. `blank` is what the memory of the array held, and `skipped` that of
-- `m_skipped_prunes`, which no constructor sets.
unfoldable pub block : BlockItem → ℕ → ℕ → ℕ → Block
block blank skipped tid power_of_2 = record {
  next = none;
  prev = none;
  first = 0;
  last = 0;
  power_of_2 = power_of_2;
  owner_tid = tid;
  block_items = replicate (2 ^ power_of_2) blank;
  used = false;
  skipped_prunes = skipped;
}

unfoldable pub clear : Block → Block
clear b = record b { next = none; prev = none; first = 0; last = 0 }

unfoldable pub set_unused : Block → Block
unfolding clear
set_unused b = clear (record b { used = false })

unfoldable pub set_used : Block → Block
set_used b = record b { used = true }

unfoldable pub insert_tail : Store → Block → ℕ → ℕ → Block
insert_tail s b it version = record b {
  block_items =
      set b.block_items b.last (record { key = (s it).key; item = it; version = version });
  last = add64 b.last 1;
}

unfoldable pub insert : Store → Block → ℕ → ℕ → Block
unfolding insert_tail
insert s b it version = insert_tail s b it version

-- The three loops of `merge` over `l..lend` and `r..rend`: what they write from `dst` on. The
-- second and third loop are the first two clauses.
unfoldable pub merge_items : List BlockItem → List BlockItem → List BlockItem
merge_items [] rs = rs
merge_items (l ∷ ls) [] = l ∷ ls
merge_items (l ∷ ls) (r ∷ rs) = elim (ltb l.key r.key) [
  | true ↦ l ∷ merge_items ls (r ∷ rs)
  | false ↦ r ∷ merge_items (l ∷ ls) rs
]

-- The four-argument `merge`. The pruning loop packs the untaken cells of the merged array in place.
unfoldable pub merge_at : Store → Block → Block → ℕ → Block → ℕ → Block
merge_at s dst lhs lhs_first rhs rhs_first =
    let total = sub64 (sub64 (add64 lhs.last rhs.last) lhs_first) rhs_first in
    let merged =
      merge_items (slice lhs.block_items lhs_first lhs.last)
        (slice rhs.block_items rhs_first rhs.last) in
    let written = overlay merged dst.block_items in
    let pruned = keep (live s) merged in
    let skipped = max lhs.skipped_prunes rhs.skipped_prunes in
    if ltb (capacity dst) total
    then dst
    else if ltb max_skipped_prunes skipped
    then record dst {
      block_items = overlay pruned written;
      last = length pruned;
      skipped_prunes = 0;
    }
    else record dst { block_items = written; last = total; skipped_prunes = skipped + 1 }

unfoldable pub merge : Store → Block → Block → Block → Block
unfolding merge_at
merge s dst lhs rhs = merge_at s dst lhs lhs.first rhs rhs.first

-- The loop of `copy`: the array, and the count unless the capacity was met. In the source an
-- aborted copy returns before `m_last` is set.
unfoldable pub copy_loop :
    Store → ℕ → List BlockItem → List BlockItem → ℕ → List BlockItem × Option ℕ
copy_loop s cap [] cells last = (cells, some last)
copy_loop s cap (c ∷ src) cells last = elim (leb cap last) [
  | true ↦ (cells, none)
  | false ↦
      copy_loop s cap src (if taken s c then cells else set cells last c)
        (if taken s c then last else last + 1)
]

abbrev pub or_else {ℓ} : {A : Type ℓ} → Option A → A → A
or_else none d = d
or_else (some a) d = a

unfoldable pub copy : Store → Block → Block → Block
unfolding copy_loop
copy s dst that =
    let (cells, last) = copy_loop s (capacity dst) (contents that) dst.block_items 0 in
    record dst { block_items = cells; last = or_else last dst.last }

-- The loop of `peek` over the cells from `ix` on: the first untaken cell, its index (or the end) and
-- the new `m_first`.
unfoldable pub peek_loop : Store → Bool → List BlockItem → ℕ → ℕ → Option BlockItem × ℕ × ℕ
peek_loop s owner [] ix first = (none, ix, first)
peek_loop s owner (c ∷ cells) ix first = elim (taken s c) [
  | true ↦ peek_loop s owner cells (ix + 1) (if owner then ix + 1 else first)
  | false ↦ (some c, ix, first)
]

-- `peek(ix, first)` called by thread `tid`: the item, the index and the block.
unfoldable pub peek_at : Store → ℕ → Block → ℕ → Option BlockItem × ℕ × Block
unfolding peek_loop
peek_at s tid b first =
    let (p, ix, first') =
      peek_loop s (tid == b.owner_tid) (slice b.block_items first b.last) first b.first in
    (p, ix, record b { first = first' })

unfoldable pub peek : Store → ℕ → Block → Option BlockItem × Block
unfolding peek_at
peek s tid b = let (p, ix, b') = peek_at s tid b b.first in (p, b')

-- `peek_nth`, and `none` where the source asserts that the index is in range.
abbrev pub peek_nth : Block → ℕ → Option BlockItem
peek_nth b n = get_elem? b.block_items n

-- `peek_tail`, over the cells in scope from the last one down. `key` is assigned at every cell that
-- is visited.
unfoldable pub peek_tail_loop : Store → List BlockItem → ℕ → ℕ → Bool × ℕ × ℕ
peek_tail_loop s [] key last = (false, key, last)
peek_tail_loop s (c ∷ cells) key last = elim (taken s c) [
  | true ↦ peek_tail_loop s cells c.key (last - 1)
  | false ↦ (true, c.key, last)
]

unfoldable pub peek_tail : Store → Block → ℕ → Bool × ℕ × Block
unfolding peek_tail_loop
peek_tail s b key =
    let (found, key', last) = peek_tail_loop s (reverse (contents b)) key b.last in
    (found, key', record b { last = last })
