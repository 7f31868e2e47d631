-- ===== src/Pool.antt =====
-- shared_lsm/block_pool.h: the blocks that one thread's side of the shared LSM owns, four of each
-- capacity, and when each may be used again.
-- A block is named by the thread that owns the pool and its index there. The comparisons of
-- versions go through casts to `int`. The destructor is not modelled.
pub mod Get
pub mod Free
pub mod Tracked
use klsm.Base.{
  ℕ, zero, suc, ◌+◌, ◌-◌, ◌*◌, ◌%◌, ◌^◌, max, ltb, ◌==◌, Bool, true, false, ◌&&◌, ◌||◌, not, Option,
  none, some, List, [], ◌∷◌, ◌++◌, if◌then◌else◌, get_elem?, get_or, set, replicate, length,
}
use klsm.Block.{Block, clear, set_used}
use klsm.Storage.{Fresh, new_block}

pub data Status : Type 0 where
  free local global : Status

abbrev pub is_free : Status → Bool
is_free free = true
is_free _ = false

abbrev pub is_local : Status → Bool
is_local local = true
is_local _ = false

abbrev pub is_global : Status → Bool
is_global global = true
is_global _ = false

abbrev pub max_power_of_2 : ℕ
max_power_of_2 = 48

abbrev pub blocks_per_level : ℕ
blocks_per_level = 4

-- One index of the three arrays `m_pool`, `m_status` and `m_version`.
pub record Slot : Type 0 where
  pub block : Option Block
  pub status : Status
  pub version : ℕ

-- `local_ixs` holds the first `m_local_ixs_size` indexes.
pub record Pool : Type 0 where
  pub slots : List Slot
  pub local_ixs : List ℕ

-- `ix(i)`, the first index of a level.
abbrev pub level_ix : ℕ → ℕ
level_ix i = blocks_per_level * i

abbrev pub empty_slot : Slot
empty_slot = record { block = none; status = free; version = 0 }

unfoldable pub block_pool : Pool
block_pool = record {
  slots = replicate (max_power_of_2 * blocks_per_level) empty_slot;
  local_ixs = [];
}

-- `(int) v` of a `version_t`, shifted by 2^31 so that the order of `int` is that of ℕ; -1 is then
-- `minus_one`.
abbrev pub int_of : ℕ → ℕ
int_of v = (v + 2 ^ 31) % 2 ^ 32

abbrev pub minus_one : ℕ
minus_one = 2 ^ 31 - 1

-- The first loop of `get_block`, over the slots of the level.
unfoldable pub max_global : List Slot → ℕ → ℕ
max_global [] acc = acc
max_global (s ∷ ss) acc =
    max_global ss (if is_global s.status then max acc (int_of s.version) else acc)

abbrev pub may_reuse : ℕ → Slot → Bool
may_reuse top s = is_free s.status || (is_global s.status && not (int_of s.version == top))

-- The second loop: the first slot, counted from `j`, that may be used.
unfoldable pub find_slot : ℕ → List Slot → ℕ → Option (ℕ × Slot)
find_slot top [] j = none
find_slot top (s ∷ ss) j =
    let rest = find_slot top ss (j + 1) in if may_reuse top s then some (j, s) else rest

-- The slots from index `i` on, at most `n`.
unfoldable pub window : List Slot → ℕ → ℕ → List Slot
window [] i n = []
window (s ∷ ss) zero zero = []
window (s ∷ ss) zero (suc n) = s ∷ window ss zero n
window (s ∷ ss) (suc i) n = window ss i n

abbrev pub level : Pool → ℕ → List Slot
level p i = window p.slots (level_ix i) blocks_per_level

-- The block that a chosen slot then holds: made on first use, cleared later.
abbrev pub ready : Fresh → ℕ → Option Block → Block
ready f i none = set_used (new_block f i)
ready f i (some b) = clear b

-- The pool after slot `j`, which held `s`, was handed out.
abbrev pub handed_out : Fresh → Pool → ℕ → ℕ → Slot → Pool
handed_out f p i j s = record {
  slots = set p.slots j (record s { block = some (ready f i s.block); status = local });
  local_ixs = p.local_ixs ++ j ∷ [];
}

-- `get_block`: the index and the pool, or `none` where the source asserts that there is a block.
unfoldable pub get_block : Fresh → Pool → ℕ → Option (ℕ × Pool)
unfolding max_global find_slot window
get_block f p i = elim (find_slot (max_global (level p i) minus_one) (level p i) (level_ix i)) [
  | none ↦ none
  | some (j, s) ↦ some (j, handed_out f p i j s)
]

-- A pointer to a block, as `publish` and `contains` get it: the owner, the index and the level that
-- the block has.
pub record Pointer : Type 0 where
  pub owner : ℕ
  pub index : ℕ
  pub power_of_2 : ℕ

-- `find`, in the pool of thread `self`: the index, for the -1 of the source `none`.
unfoldable pub find : ℕ → Pool → Pointer → Option ℕ
find self p b =
    if (b.owner == self)
      && (not (ltb b.index (level_ix b.power_of_2)) && ltb b.index (level_ix (b.power_of_2 + 1)))
    then elim (get_elem? p.slots b.index) [
      | none ↦ none
      | some s ↦ elim s.block [ none ↦ none | some c ↦ some b.index ]
    ]
    else none

unfoldable pub contains : ℕ → Pool → Pointer → Bool
unfolding find
contains self p b = elim (find self p b) [ none ↦ false | some j ↦ true ]

-- Marks one slot as published under a version.
unfoldable pub publish_slot : ℕ → Pool → ℕ → Pool
publish_slot version p j = elim (get_elem? p.slots j) [
  | none ↦ p
  | some s ↦ record p { slots = set p.slots j (record s { status = global; version = version }) }
]

-- `publish` over the block array; a null pointer is passed over.
unfoldable pub publish : ℕ → ℕ → List (Option Pointer) → Pool → Pool
unfolding find publish_slot
publish self version [] p = p
publish self version (none ∷ bs) p = publish self version bs p
publish self version (some b ∷ bs) p =
    publish self version bs (elim (find self p b) [ none ↦ p | some j ↦ publish_slot version p j ])

abbrev pub free_slot : Slot → Slot
free_slot s = if is_local s.status then record s { status = free } else s

abbrev pub is_that : Option ℕ → ℕ → Bool
is_that none j = false
is_that (some t) j = t == j

-- The body of the loop of `free_local_except`, which frees a local slot unless it is `that`.
unfoldable pub free_at : Option ℕ → ℕ → List Slot → List Slot
free_at that j slots =
    if is_that that j
    then slots
    else elim (get_elem? slots j) [ none ↦ slots | some s ↦ set slots j (free_slot s) ]

unfoldable pub free_loop : Option ℕ → List ℕ → List Slot → List Slot
unfolding free_at
free_loop that [] slots = slots
free_loop that (j ∷ js) slots = free_loop that js (free_at that j slots)

-- Whether an index is among the local ones.
unfoldable pub listed : ℕ → List ℕ → Bool
listed j [] = false
listed j (k ∷ ks) = let rest = listed j ks in if j == k then true else rest

-- `free_local_except(that)`, for a block of this pool at index `that`; `none` is a null pointer.
-- `m_local_ixs`, an array of 192 in the source, is a list of any length, and it may name `that` more
-- than once, which the source asserts it does not.
unfoldable pub free_local_except : Pool → Option ℕ → Pool
unfolding free_loop listed
free_local_except p that = record {
  slots = free_loop that p.local_ixs p.slots;
  local_ixs = elim that [ none ↦ [] | some t ↦ if listed t p.local_ixs then t ∷ [] else [] ];
}

unfoldable pub free_local : Pool → Pool
unfolding free_local_except
free_local p = free_local_except p none
