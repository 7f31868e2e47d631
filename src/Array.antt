-- ===== src/Array.antt =====
-- shared_lsm/block_array.h and block_array_inl.h: an array of pointers to blocks of falling capacity
-- with the pivots that say which elements are candidates for `delete_min`.
-- A pointer names a slot of some thread's block pool; `none` of the monad is what the source has no
-- value for: a read through a null pointer, an assertion that fails, or fuel that ran out.
pub mod Insert
pub mod Peek
pub mod Nulls
pub mod Stamp
use klsm.Base.{
  ℕ, zero, suc, ◌+◌, ◌-◌, ◌/◌, ◌%◌, max, ltb, leb, ◌==◌, Bool, true, false, not, Option, none, some,
  List, [], ◌∷◌, ◌++◌, if◌then◌else◌, get_elem?, get_or, set, replicate, length, take, drop, sub64,
  add32,
}
use klsm.Base.State.{Step, ◌>>=◌, ◌>>◌, pure, lift}
use klsm.Block
use klsm.Block.{Block, BlockItem, Store, capacity, taken, peek_nth, merge_at}
use klsm.Item.{Taken}
use klsm.Storage.{Fresh}
use klsm.Pool
use klsm.Pool.{Pool, Pointer, Slot}
use klsm.Pivots
use klsm.Pivots.{
  Pivots, nth_ix_in, count_in, pivot_of, set_at, mark_first_taken_in, block_pivots, max_blocks,
}
use klsm.Pivots.Resize
use klsm.Rng.{Rng, draw}

-- The pools of all threads.
abbrev pub Pools : Type 0
Pools = ℕ → Pool

abbrev pub M : Type 0 → Type 0
M A = Step Pools A

abbrev pub update_pool : Pools → ℕ → Pool → Pools
update_pool h i p j = if i == j then p else h j

abbrev slot_block : Option Slot → Option Block
slot_block none = none
slot_block (some s) = s.block

unfoldable pub deref : Pointer → M Block
deref q h = lift (slot_block (get_elem? (h q.owner).slots q.index)) h

unfoldable pub write : Pointer → Block → M (Unit {0})
write q b h = elim (get_elem? (h q.owner).slots q.index) [
  | none ↦ none
  | some s ↦ some (
    tt,
    update_pool h q.owner (record (h q.owner) {
      slots = set (h q.owner).slots q.index (record s { block = some b });
    }),
  )
]

-- `pool->get_block(i)` by thread `tid`.
unfoldable pub alloc : Fresh → ℕ → ℕ → M Pointer
alloc f tid i h = elim (Pool.get_block f (h tid) i) [
  | none ↦ none
  | some (j, p) ↦ some (record { owner = tid; index = j; power_of_2 = i }, update_pool h tid p)
]

pub record BlockArray : Type 0 where
  pub blocks : List (Option Pointer)
  pub size : ℕ
  pub pivots : Pivots
  pub version : ℕ
  pub gen : Rng

unfoldable pub block_array : Rng → BlockArray
block_array gen = record {
  blocks = replicate max_blocks none;
  size = 0;
  pivots = block_pivots;
  version = 0;
  gen = gen;
}

unfoldable pub increment_version : BlockArray → BlockArray
increment_version a = record a { version = add32 a.version 1 }

-- `copy_from`, when the version does not change during the copy. The generator stays.
unfoldable pub copy_from : BlockArray → BlockArray → BlockArray
copy_from a that = record a {
  version = that.version;
  size = that.size;
  blocks = take that.size that.blocks ++ drop that.size a.blocks;
  pivots = that.pivots;
}

abbrev pub nth : BlockArray → ℕ → Option Pointer
nth a i = get_or a.blocks i none

unfoldable pub block_set : Store → ℕ → BlockArray → ℕ → Pointer → M BlockArray
unfolding deref
block_set s rlx a i q = do
  b ← deref q
  pure (record a {
    blocks = set a.blocks i (some q);
    pivots = set_at a.pivots i b.first (pivot_of s rlx a.pivots b);
  })

-- `memmove` by one place to the right, within the array.
abbrev shift_blocks : List (Option Pointer) → ℕ → ℕ → List (Option Pointer)
shift_blocks xs i n =
    take (length xs) (take (i + 1) xs ++ take n (drop i xs) ++ drop (i + 1 + n) xs)

unfoldable pub block_insert : Store → ℕ → BlockArray → ℕ → Pointer → M BlockArray
unfolding deref
block_insert s rlx a i q = do
  b ← deref q
  pure (record a {
    blocks = set (shift_blocks a.blocks i (a.size - i)) i (some q);
    pivots = Pivots.insert a.pivots i a.size b.first (pivot_of s rlx a.pivots b);
  })

-- The debugging assertion that capacities descend strictly is left out.
-- The loop of `remove_null_blocks` from index `src` on, with the rounds left.
unfoldable pub remove_loop : BlockArray → ℕ → ℕ → ℕ → BlockArray
remove_loop a src dst zero = record a { size = dst }
remove_loop a src dst (suc left) =
    remove_loop
      (elim (nth a src) [
        | none ↦ a
        | some q ↦ record a {
          blocks = set a.blocks dst (some q);
          pivots = Pivots.copy a.pivots src dst;
        }
      ])
      (src + 1) (elim (nth a src) [ none ↦ dst | some q ↦ dst + 1 ]) left

unfoldable pub remove_null_blocks : BlockArray → BlockArray
unfolding remove_loop
remove_null_blocks a = remove_loop a 0 0 a.size
