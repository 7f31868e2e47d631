-- ===== src/Storage/GetBlock.antt =====
-- `block_storage::get_block`: a free block of the wanted capacity, and what the call leaves alone.
use klsm.Base.{ℕ, ◌+◌, ◌-◌, ◌<◌, List, length, get_elem?}
use klsm.Block.{Block}
use klsm.Storage.{Storage, Fresh, grow, or_empty, max_blocks}
use klsm.Storage.Laws.{in_use, Rows}

-- The blocks of level `i` in use, none if the level is not yet allocated.
abbrev pub level_in_use : Storage → ℕ → ℕ
level_in_use st i = in_use (or_empty (get_elem? st.blocks i))

module _ (f : Fresh) (n : ℕ) (st : Storage) (i : ℕ) (shaped : Rows n 0 st.blocks)
    (free : level_in_use st i < n) (room : i < max_blocks) where
  abbrev rows : List (List Block)
  rows = grow f n (i + 1 - length st.blocks) st.blocks

  abbrev after : Storage
  after = record { blocks = rows }
