-- ===== src/Tests/Memory.antt =====
-- Storage rows and the item allocator on small inputs.
use klsm.Base.{ℕ, ◌≡◌, ◌≢◌, ◌≤◌, refl, Bool, true, Option, none, some, [], ◌∷◌, arith, not, ltb}
use klsm.Block.{Block, BlockPtr, set_used, block}
use klsm.Storage.{Storage, Fresh, get_block, new_block}
use klsm.Alloc.{Allocator, acquire}
use klsm.Alloc.Acquire.{IsFresh, acquire_lem}

abbrev fresh : Fresh
fresh = record { blank = record { key = 0; item = 0; version = 0 }; skipped = 0; tid = 0 }

-- Two blocks for each level, of which the first of level 0 is in use.
abbrev store_of_two : Storage
store_of_two = record { blocks = (set_used (new_block fresh 0) ∷ new_block fresh 0 ∷ []) ∷ [] }

abbrev pointer_of : Option (BlockPtr × Storage) → Option BlockPtr
pointer_of none = none
pointer_of (some (p, st)) = some p

get_block-second : pointer_of (get_block fresh 2 store_of_two 0) ≡ some (0, 1)
unfolding get_block set_used block
get_block-second = refl

-- An allocator with two items to a chunk, both of the first chunk in use.
abbrev two_used : ℕ → Bool
two_used p = not (ltb p 2)

abbrev exhausted : Allocator
exhausted = record {
  head = 0;
  ring = [];
  offset = 2;
  amortized = 4;
  total_size = 2;
  new_block = true;
  chunks = 1;
}

exhausted-IsFresh : IsFresh 2 two_used exhausted
exhausted-IsFresh = record {
  known = omega arith;
  ring_known = tt;
  later = λ p h. ground arith;
  here = λ n ix h k. absurd (omega arith);
}

acquire_lem_example :
    (p : ℕ) × (a' : Allocator) × (acquire 2 two_used 6 exhausted ≡ some (p, a'))
    × (two_used p ≡ true)
    × (a'.offset ≤ 2)
    × (((q : ℕ) → q ≢ p → two_used q ≡ true → two_used q ≡ true) → IsFresh 2 two_used a')
acquire_lem_example =
    acquire_lem 2 two_used two_used exhausted (omega arith) exhausted-IsFresh (omega arith)
