-- ===== src/Storage.antt =====
-- components/block_storage.h and block_storage_inl.h: the blocks that one thread owns, `N` of each
-- capacity, and the access to them through pointers.
-- `N` is a parameter, as in the source; dist_lsm_local.h instantiates it by 4. `m_blocks` has room for
-- `max_blocks` rows: `get_block` is `none` where the program writes past it, and where an assertion
-- fails. The destructor and `print` are not modelled.
pub mod Laws
pub mod GetBlock
use klsm.Base.{
  ℕ, zero, suc, ◌+◌, ◌-◌, ◌==◌, Bool, true, false, Option, none, some, List, [], ◌∷◌, ◌++◌,
  if◌then◌else◌, length, get_elem?, set, replicate, not, ltb,
}
use klsm.Block.{BlockItem, Block, BlockPtr, block, set_used}

-- `MAX_BLOCKS`.
abbrev pub max_blocks : ℕ
max_blocks = 32

-- The rows that are allocated, at most `max_blocks` of them.
pub record Storage : Type 0 where
  pub blocks : List (List Block)

-- What `new block<K, V>(p)` leaves in the parts that the constructor does not set, and the thread
-- that calls it.
pub record Fresh : Type 0 where
  pub blank : BlockItem
  pub skipped : ℕ
  pub tid : ℕ

abbrev pub m_size : Storage → ℕ
m_size st = length st.blocks

abbrev pub new_block : Fresh → ℕ → Block
new_block f p = block f.blank f.skipped f.tid p

-- The first loop of `get_block`, `rounds` times.
unfoldable pub grow : Fresh → ℕ → ℕ → List (List Block) → List (List Block)
grow f n zero rows = rows
grow f n (suc rounds) rows = grow f n rounds (rows ++ replicate n (new_block f (length rows)) ∷ [])

-- The second loop: the first of the leading `N - 1` blocks that is not in use, or else the last.
unfoldable pub choose : List Block → ℕ
choose [] = 0
choose (b ∷ []) = 0
choose (b ∷ c ∷ bs) = let rest = choose (c ∷ bs) in if b.used then suc rest else 0

-- Access through a pointer; a pointer to no block is `none`, and a write through it does nothing.
unfoldable pub load : Storage → BlockPtr → Option Block
load st (i, j) = elim (get_elem? st.blocks i) [ none ↦ none | some row ↦ get_elem? row j ]

unfoldable pub store : Storage → BlockPtr → Block → Storage
store st (i, j) b = elim (get_elem? st.blocks i) [
  | none ↦ st
  | some row ↦ record st { blocks = set st.blocks i (set row j b) }
]

abbrev or_empty : Option (List Block) → List Block
or_empty none = []
or_empty (some row) = row

-- The end of `get_block`: the block is marked as used, which it must not be yet.
unfoldable pub hand_out : Storage → BlockPtr → Option (BlockPtr × Storage)
unfolding load store
hand_out st p = elim (load st p) [
  | none ↦ none
  | some b ↦ if not b.used then some (p, store st p (set_used b)) else none
]

unfoldable pub get_block : Fresh → ℕ → Storage → ℕ → Option (BlockPtr × Storage)
unfolding grow choose hand_out
get_block f n st i =
    let rows = grow f n (i + 1 - length st.blocks) st.blocks in
    let st' : Storage = record { blocks = rows } in
    let j = choose (or_empty (get_elem? rows i)) in
    if ltb i max_blocks then hand_out st' (i, j) else none

unfoldable pub get_largest_block : Fresh → ℕ → Storage → Option (BlockPtr × Storage)
unfolding get_block
get_largest_block f n st = get_block f n st (if m_size st == 0 then 0 else m_size st - 1)
