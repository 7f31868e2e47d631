-- ===== src/Tests/Shared.antt =====
-- Block pools, pivots and block arrays on small inputs.
use klsm.Base.{
  length, ℕ, zero, suc, ◌+◌, ◌^◌, ◌≡◌, ◌≢◌, ◌≤◌, ◌<◌, refl, false, none, some, List, [], ◌∷◌, arith,
  get_elem?,
}
use klsm.Block.{Block, BlockItem, Store, taken}
use klsm.Storage.{Fresh, new_block}
use klsm.Rng.{draw}
use klsm.Pool.{
  block_pool, empty_slot, max_global, find_slot, Pointer, Slot, Pool, Status, level_ix, ready,
  handed_out, get_block, free_local_except, window, listed,
}
use klsm.Pool.Get.{get_block-hands_out, get_block-keeps_latest, get_block-recycles_first}
use klsm.Pool.Tracked.{Operation, Reachable, Reachable-Tracked}
use klsm.Pool.Free.{Tracked, free_local_except_lem}
use klsm.Pivots.{Pivots, count, sum_counts}
use klsm.Pivots.Resize.{resize, shrink}
use klsm.Pivots.Total.{resize_total}
use klsm.Pivots.Stale.{AllTaken, shrink-stale_count}
use klsm.Array.{BlockArray, remove_null_blocks}
use klsm.Array.Nulls.{row, present, remove_null_blocks_lem}
use klsm.Array.Peek.{peek}
use klsm.Array.Peek.Laws.{IsStale, InRange, peek-stale, peek-Live}

abbrev fresh : Fresh
fresh = record { blank = record { key = 0; item = 0; version = 0 }; skipped = 0; tid = 0 }

abbrev made : Block
made = new_block fresh 0

abbrev free_one : Slot
free_one = record { block = some made; status = Status.free; version = 0 }

abbrev published : ℕ → Slot
published v = record { block = some made; status = Status.global; version = v }

abbrev held : Slot
held = record { block = some made; status = Status.local; version = 4 }

-- A pool of one level: one block in use, two published, one never used.
abbrev young : Pool
young = record { slots = held ∷ published 7 ∷ published 5 ∷ free_one ∷ []; local_ixs = 0 ∷ [] }

abbrev young_after : Pool
young_after = handed_out fresh young 0 2 (published 5)

get_block-young : get_block fresh young 0 ≡ some (2, young_after)
unfolding get_block
get_block-young = refl

get_block-hands_out_example :
    (s : Slot) × (level_ix 0 ≤ 2)
    × (2 < level_ix 1)
    × (get_elem? young.slots 2 ≡ some s)
    × (s.status ≢ Status.local)
    × (get_elem? young_after.slots 2
        ≡ some (record s { block = some (ready fresh 0 s.block); status = Status.local }))
    × ((m : ℕ) → 2 ≢ m → get_elem? young_after.slots m ≡ get_elem? young.slots m)
get_block-hands_out_example = get_block-hands_out fresh young 0 2 young_after get_block-young

get_block-keeps_latest_example : get_elem? young_after.slots 1 ≡ some (published 7)
unfolding window
get_block-keeps_latest_example =
    get_block-keeps_latest fresh young 0 2 young_after 1 (published 7) get_block-young refl refl
      (omega arith)
      ((λ e. absurd (cc)), ((λ _. omega arith), ((λ _. omega arith), ((λ e. absurd (cc)), tt))))

-- The first published block is the one that was published last.
abbrev old : Pool
old = record {
  slots = published (2 ^ 31 + 9) ∷ published (2 ^ 31 + 8) ∷ free_one ∷ free_one ∷ [];
  local_ixs = [];
}

get_block-recycles_first_example :
    get_block fresh old 0 ≡ some (0, handed_out fresh old 0 0 (published (2 ^ 31 + 9)))
unfolding window
get_block-recycles_first_example =
    get_block-recycles_first fresh old 0 (published (2 ^ 31 + 9))
      (published (2 ^ 31 + 8) ∷ free_one ∷ free_one ∷ []) refl refl
      (
        (λ _. (omega arith, omega arith)),
        ((λ _. (omega arith, omega arith)), ((λ e. absurd (cc)), ((λ e. absurd (cc)), tt))),
      )

young-Tracked : Tracked young
unfolding listed
young-Tracked zero s h l = refl
young-Tracked (suc zero) s h l = ground arith
young-Tracked (suc (suc zero)) s h l = ground arith
young-Tracked (suc (suc (suc zero))) s h l = ground arith
young-Tracked (suc (suc (suc (suc j)))) s h l = absurd (cc)

free_local_except_lem_example :
    get_elem? (free_local_except young none).slots 0 ≡ some (record held { status = Status.free })
free_local_except_lem_example = free_local_except_lem young none young-Tracked 0 held refl

-- Items under version 3; references under another version are to taken items.
abbrev memory : Store
memory p = record { version = 3; key = p; val = p }

abbrev now : ℕ → BlockItem
now k = record { key = k; item = k; version = 3 }

abbrev gone : ℕ → BlockItem
gone k = record { key = k; item = k; version = 1 }

-- A block of level 1 with two cells.
abbrev pair : BlockItem → BlockItem → Block
pair c d = record made { power_of_2 = 1; first = 0; last = 2; block_items = c ∷ d ∷ [] }

abbrev some_pivots : ℕ → ℕ → ℕ → Pivots
some_pivots upper n size = record {
  upper = upper ∷ [];
  lower = 0 ∷ [];
  maximal_pivot = 9;
  cached_count = n;
  count_for_size = size;
}

resize_total_example :
    (r : ℕ × Pivots) × (resize memory 2
        (0 ∷ [])
        0
        1
        9
        (pair (now 3) (now 5) ∷ [])
        (some_pivots 0 0 1)
      ≡ some r)
resize_total_example =
    resize_total memory 2 (0 ∷ []) 0 1 9 (pair (now 3) (now 5) ∷ []) (some_pivots 0 0 1)
      (omega arith)

abbrev two_gone : List Block
two_gone = pair (gone 3) (gone 5) ∷ []

two_gone-AllTaken : (AllTaken memory (pair (gone 3) (gone 5))) × Unit {0}
unfolding taken
two_gone-AllTaken = ((refl, (refl, tt)), tt)

shrink-stale_count_example :
    (bs' : List Block) × (p' : Pivots) × (shrink memory 0 0 (0 ∷ []) two_gone (some_pivots 2 2 1)
      ≡ some (0, bs', p'))
    × (sum_counts p' 1 ≡ 0)
    × ((count p' 1).0 ≡ 2)
shrink-stale_count_example =
    shrink-stale_count memory 0 0 (0 ∷ []) two_gone (some_pivots 2 2 1) two_gone-AllTaken
      (omega arith) (omega arith) refl

abbrev array_of : Pivots → BlockArray
array_of p = record {
  blocks = none ∷ [];
  size = 1;
  pivots = p;
  version = 1;
  gen = record { x = 5; y = 362436069; z = 521288629 };
}

stale : IsStale 2 (array_of (some_pivots 0 2 1))
stale = record {
  cached = refl;
  enough = omega arith;
  some_left = omega arith;
  empty = λ k below. ground arith;
}

peek-stale_example : peek memory 2 (0 ∷ []) two_gone 5 (array_of (some_pivots 0 2 1)) ≡ none
peek-stale_example = peek-stale memory 2 (0 ∷ []) two_gone 5 (array_of (some_pivots 0 2 1)) stale

abbrev two_live : List Block
two_live = pair (now 3) (now 5) ∷ []

abbrev one_candidate : BlockArray
one_candidate = array_of (some_pivots 1 1 1)

abbrev one_candidate_after : BlockArray
one_candidate_after = record one_candidate { gen = (draw one_candidate.gen).1 }

peek-one_candidate :
    peek memory 0 (0 ∷ []) two_live 1 one_candidate ≡ some (some (now 3), one_candidate_after)
unfolding peek taken draw count
peek-one_candidate = refl

peek-Live_example :
    (taken memory (now 3) ≡ false) × InRange memory 0 (0 ∷ []) two_live one_candidate_after (now 3)
peek-Live_example =
    peek-Live memory 0 (0 ∷ []) two_live 1 one_candidate (now 3) one_candidate_after
      peek-one_candidate

abbrev pointer : ℕ → Pointer
pointer j = record { owner = 0; index = j; power_of_2 = 1 }

-- An array with null pointers in front of and between its two blocks.
abbrev with_nulls : BlockArray
with_nulls = record {
  blocks = none ∷ some (pointer 4) ∷ none ∷ some (pointer 8) ∷ [];
  size = 4;
  pivots = record {
    upper = 1 ∷ 2 ∷ 3 ∷ 4 ∷ [];
    lower = 0 ∷ 0 ∷ 2 ∷ 2 ∷ [];
    maximal_pivot = 9;
    cached_count = 0;
    count_for_size = 0;
  };
  version = 1;
  gen = record { x = 5; y = 362436069; z = 521288629 };
}

remove_null_blocks_lem_example :
    let a' = remove_null_blocks with_nulls in
    (present (row a') 0 a'.size ≡ (pointer 4, 0, 2) ∷ (pointer 8, 2, 4) ∷ [])
    × (length (present (row a') 0 a'.size) ≡ a'.size)
remove_null_blocks_lem_example =
    remove_null_blocks_lem with_nulls (omega arith) (omega arith) (omega arith)

abbrev after_get : Pool
after_get = handed_out fresh block_pool 1 4 empty_slot

get_block-new : get_block fresh block_pool 1 ≡ some (4, after_get)
unfolding get_block block_pool window max_global find_slot
get_block-new = refl

-- A block of level 1 is handed out, and everything local is freed.
Reachable-Tracked_example : Tracked (free_local_except after_get none)
Reachable-Tracked_example = Reachable-Tracked 0 fresh (free_local_except after_get none) (
    Reachable.continues (Reachable.continues Reachable.starts (Operation.gets 1 4 get_block-new))
      (Operation.frees none))
