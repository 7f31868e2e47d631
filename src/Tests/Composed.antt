-- ===== src/Tests/Composed.antt =====
-- The shared LSM, the k-LSM and the multi-LSM on small inputs.
use klsm.Base.{
  ℕ, suc, ◌+◌, ◌*◌, ◌<◌, ◌≡◌, ◌≢◌, refl, arith, Bool, true, false, Option, none, some, [], ◌∷◌, inl,
  inr,
}
use klsm.Item.{Item, Taken}
use klsm.Block
use klsm.Block.{Block, BlockItem, take_item}
use klsm.Storage.{Fresh, new_block}
use klsm.Alloc.{allocator}
use klsm.Rng.{xorshf96}
use klsm.Pool
use klsm.Pool.{Pointer, Slot, Pool, Status, block_pool}
use klsm.Array.{BlockArray, Pools, block_array, copy_from, increment_version}
use klsm.Array.Insert
use klsm.Packed.{default_alignment}
use klsm.Dist.{World, DistLocal}
use klsm.Dist.Peek
use klsm.Shared.{SharedLsm, SharedEnv}
use klsm.Shared.Rounds.{synced}
use klsm.KLsm.{KEnv, dist_env, find_min_shared, delete_min}
use klsm.KLsm.Choice.{Takes, delete_min-IsBest}
use klsm.Multi.{MultiLsm, MultiEnv, num_queues, random_local_queue}
use klsm.Multi.Own.{IsOwn, random_local_queue_lem, insert-own}

abbrev fresh : Fresh
fresh = record { blank = record { key = 0; item = 0; version = 0 }; skipped = 0; tid = 0 }

-- All items are in use with their own number as key.
abbrev numbered : ℕ → Item
numbered p = record { version = 1; key = p; val = p }

abbrev candidate : ℕ → BlockItem
candidate p = record { key = p; item = p; version = 1 }

abbrev no_queue : Option BlockItem → DistLocal
no_queue best = record {
  head = none;
  tail = none;
  spied = none;
  block_storage = record { blocks = [] };
  item_allocator = allocator 1024 (λ p. true);
  cached_best = best;
  gen = xorshf96 1;
}

-- A pool with one block, which holds item 7.
abbrev one_block : Pool
one_block = record {
  slots =
      record {
        block = some (Block.insert numbered (new_block fresh 0) 7 1);
        status = Status.local;
        version = 0;
      }
      ∷ [];
  local_ixs = 0 ∷ [];
}

abbrev shared_lsm : Option BlockItem → SharedLsm
shared_lsm best = record {
  pointer = 2048;
  arrays = λ p. block_array (xorshf96 1);
  pools = λ i. one_block;
  own = record {
    cached_best = best;
    item_pool = allocator 1024 (λ p. true);
    array_copy = block_array (xorshf96 1);
  };
}

abbrev shared_env : SharedEnv
shared_env = record {
  fresh = fresh;
  tid = 0;
  rlx = 0;
  garbage = [];
  at = λ p. p;
  odds = 8192;
  evens = 4096;
}

abbrev k_env : KEnv
k_env = record { fresh = fresh; tid = 0; rlx = 0; at = λ p. p; shared = shared_env; rounds = 2 }

abbrev k_lsm : World SharedLsm
k_lsm = record {
  items = numbered;
  lsm = no_queue (some (candidate 5));
  shared = shared_lsm (some (candidate 3));
}

cached_dist : Peek.peek (dist_env k_env) 2 none k_lsm ≡ some (some (candidate 5), k_lsm)
unfolding Peek.peek klsm.Block.taken
cached_dist = refl

cached_shared : find_min_shared k_env k_lsm ≡ some (some (candidate 3), k_lsm)
unfolding find_min_shared klsm.Shared.peek klsm.Shared.is_fresh klsm.Block.taken
    klsm.Packed.unpacked_ptr block_array
cached_shared = refl

some≢none : {A : Type 0} (a : A) → some a ≢ none
some≢none a e = cc

delete_min-IsBest_example :
    (r : Option Taken) × (w' : World SharedLsm) × (delete_min k_env 2 4 (λ i. none) (suc 0) k_lsm
      ≡ some (r, w'))
    × Takes numbered (some (candidate 5)) (some (candidate 3)) r
delete_min-IsBest_example =
    delete_min-IsBest k_env 2 4 (λ i. none) k_lsm k_lsm k_lsm (some (candidate 5))
      (some (candidate 3)) 0 cached_dist cached_shared (inr (inl (some≢none (candidate 5))))

abbrev the_block : Pointer
the_block = record { owner = 0; index = 0; power_of_2 = 0 }

abbrev inserted : Option (BlockArray × Pools)
inserted =
    klsm.Array.Insert.insert fresh numbered 0 0 []
      (increment_version
        (copy_from (block_array (xorshf96 1)) (synced (shared_lsm none) 2048).own.array_copy))
      the_block (synced (shared_lsm none) 2048).pools

abbrev array_after : Option (BlockArray × Pools) → BlockArray
array_after none = block_array (xorshf96 1)
array_after (some r) = r.0

abbrev pools_after : Option (BlockArray × Pools) → Pools
pools_after none = λ i. one_block
pools_after (some r) = r.1

abbrev ends : Option (BlockArray × Pools) → Bool
ends none = false
ends (some r) = true

abbrev two_queues : MultiLsm
two_queues = record { items = numbered; queues = λ i. no_queue none; gen = xorshf96 1 }

abbrev multi_env : MultiEnv
multi_env = record {
  per_thread = 4;
  num_threads = 2;
  tid = 1;
  fresh = λ i. fresh;
  at = λ i p. 4096 * i + p;
}

random_local_queue_lem_example :
    (i : ℕ) × (m' : MultiLsm) × (random_local_queue multi_env two_queues ≡ some (i, m'))
    × IsOwn multi_env i
    × (i < num_queues multi_env)
    × (m'.queues ≡ two_queues.queues)
random_local_queue_lem_example =
    random_local_queue_lem multi_env (omega arith) (omega arith) two_queues

abbrev unused_queues : MultiLsm
unused_queues = record {
  items = λ p. record { version = 0; key = 0; val = 0 };
  queues = λ i. no_queue none;
  gen = xorshf96 1;
}

abbrev multi_insert : Option (Unit {0} × MultiLsm)
multi_insert = klsm.Multi.insert multi_env 20 5 50 unused_queues

abbrev multi_after : Option (Unit {0} × MultiLsm) → MultiLsm
multi_after none = unused_queues
multi_after (some r) = r.1

abbrev multi_ends : Option (Unit {0} × MultiLsm) → Bool
multi_ends none = false
multi_ends (some r) = true

multi_after-ends :
    (r : Option (Unit {0} × MultiLsm)) → multi_ends r ≡ true → r ≡ some (tt, multi_after r)
multi_after-ends none h = absurd (cc)
multi_after-ends (some (tt, m)) h = refl

multi_insert-ends : multi_ends multi_insert ≡ true
unfolding klsm.Multi.insert random_local_queue klsm.Multi.on_queue klsm.Dist.insert
    klsm.Rng.xorshf96 klsm.Rng.draw klsm.Alloc.acquire allocator klsm.Alloc.scan klsm.Storage.load
    klsm.Storage.get_block Block.block klsm.Item.initialize
multi_insert-ends = refl

insert-own_example : (multi_after multi_insert).queues 0 ≡ unused_queues.queues 0
insert-own_example =
    insert-own multi_env (omega arith) 20 5 50 0 unused_queues (multi_after multi_insert)
      (multi_after-ends multi_insert multi_insert-ends) (λ own. omega (arith, own))
