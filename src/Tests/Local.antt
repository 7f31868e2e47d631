-- ===== src/Tests/Local.antt =====
-- A thread-local LSM that inserts and deletes.
use klsm.Base.{
  ℕ, ◌*◌, ◌==◌, if◌then◌else◌, ◌≡◌, ◌≤◌, refl, Bool, true, false, Option, none, some, [], ◌∷◌,
  arith, All,
}
use klsm.Item.{Item, Taken}
use klsm.Block.{Block, BlockItem, taken, take_item}
use klsm.Storage.{Fresh}
use klsm.Alloc.{allocator}
use klsm.Rng.{xorshf96}
use klsm.Dist.{World, Env, insert, insert_item, cache_after_insert}
use klsm.Dist.Peek.{delete_min}
use klsm.Dist.Cache.{reference, delete_min-takes_new, cache_after_insert-least}

abbrev environment : Env (Unit {0})
environment = record {
  fresh = record { blank = record { key = 0; item = 0; version = 0 }; skipped = 0; tid = 0 };
  tid = 0;
  rlx = 4;
  at = λ p. p;
  slsm = none;
}

-- Item 9000 is in use with key 20; all others were never used.
abbrev unused : ℕ → Item
unused p =
    if p == 9000
    then record { version = 1; key = 20; val = 200 }
    else record { version = 0; key = 0; val = 0 }

abbrev start : World (Unit {0})
start = record {
  items = unused;
  lsm = record {
    head = none;
    tail = none;
    spied = none;
    block_storage = record { blocks = [] };
    item_allocator = allocator 1024 (λ p. true);
    cached_best = none;
    gen = xorshf96 1;
  };
  shared = tt;
}

abbrev no_victim : ℕ → Option Block
no_victim i = none

abbrev after : {A : Type 0} → Option (A × World (Unit {0})) → World (Unit {0})
after none = start
after (some (a, w)) = w

abbrev add : ℕ → World (Unit {0}) → World (Unit {0})
add key w = after (insert environment 20 key (10 * key) w)

-- Keys 1 and 2 are inserted, 1 is deleted, and the insertion of 10 empties the cache; 2 and 10 stay.
abbrev two_left : World (Unit {0})
two_left = add 10 (after (delete_min environment 20 1 no_victim (add 2 (add 1 start))))

cached : two_left.lsm.cached_best ≡ none
unfolding insert delete_min insert_item klsm.Alloc.acquire allocator klsm.Alloc.scan
    klsm.Storage.load klsm.Storage.get_block klsm.Block.block klsm.Block.insert klsm.Block.set_used
    klsm.Item.initialize klsm.Block.taken klsm.Block.set_unused klsm.Block.merge take_item
    klsm.Item.take
cached = refl

-- The item that a deletion takes.
abbrev taken_key : Option (Option Taken × World (Unit {0})) → ℕ
taken_key none = 0
taken_key (some (none, w)) = 0
taken_key (some (some t, w)) = t.key

delete_min-smallest : taken_key (delete_min environment 20 1 no_victim two_left) ≡ 2
unfolding insert delete_min insert_item klsm.Alloc.acquire allocator klsm.Alloc.scan
    klsm.Storage.load klsm.Storage.get_block klsm.Block.block klsm.Block.insert klsm.Block.set_used
    klsm.Item.initialize klsm.Block.taken klsm.Block.set_unused klsm.Block.merge take_item
    klsm.Item.take klsm.Block.peek klsm.Block.merge_items klsm.Block.copy
delete_min-smallest = refl

-- After item 9000 was inserted as well, with key 20.
abbrev with_20 : World (Unit {0})
with_20 = after (insert_item environment 20 9000 1 two_left)

abbrev ends : {A : Type 0} → Option (A × World (Unit {0})) → Bool
ends none = false
ends (some r) = true

after-ends : (r : Option (Unit {0} × World (Unit {0}))) → ends r ≡ true → r ≡ some (tt, after r)
after-ends none h = absurd (cc)
after-ends (some (tt, w)) h = refl

insert_item-ends : ends (insert_item environment 20 9000 1 two_left) ≡ true
unfolding insert delete_min insert_item klsm.Alloc.acquire allocator klsm.Alloc.scan
    klsm.Storage.load klsm.Storage.get_block klsm.Block.block klsm.Block.insert klsm.Block.set_used
    klsm.Item.initialize klsm.Block.taken klsm.Block.set_unused klsm.Block.merge take_item
    klsm.Item.take klsm.Block.merge_items
insert_item-ends = refl

insert_item-with_20 : insert_item environment 20 9000 1 two_left ≡ some (tt, with_20)
insert_item-with_20 = after-ends (insert_item environment 20 9000 1 two_left) insert_item-ends

item_9000 : (reference two_left.items 9000 1).key ≡ 20
unfolding insert delete_min insert_item klsm.Alloc.acquire allocator klsm.Alloc.scan
    klsm.Storage.load klsm.Storage.get_block klsm.Block.block klsm.Block.insert klsm.Block.set_used
    klsm.Item.initialize klsm.Block.taken klsm.Block.set_unused klsm.Block.merge take_item
    klsm.Item.take
item_9000 = refl

live_9000 : taken two_left.items (reference two_left.items 9000 1) ≡ false
unfolding insert delete_min insert_item klsm.Alloc.acquire allocator klsm.Alloc.scan
    klsm.Storage.load klsm.Storage.get_block klsm.Block.block klsm.Block.insert klsm.Block.set_used
    klsm.Item.initialize klsm.Block.taken klsm.Block.set_unused klsm.Block.merge take_item
    klsm.Item.take
live_9000 = refl

delete_min-takes_new_example :
    (w'' : World (Unit {0})) × (delete_min environment 20 1 no_victim with_20
      ≡ some (some (take_item two_left.items (reference two_left.items 9000 1)), w''))
delete_min-takes_new_example =
    delete_min-takes_new environment 20 9000 1 two_left with_20 20 1 no_victim cached live_9000
      insert_item-with_20

abbrev ref : ℕ → BlockItem
ref k = record { key = k; item = 1; version = 1 }

cache-ref : cache_after_insert unused 9000 1 (some (ref 30)) ≡ some (reference unused 9000 1)
unfolding insert delete_min insert_item klsm.Alloc.acquire allocator klsm.Alloc.scan
    klsm.Storage.load klsm.Storage.get_block klsm.Block.block klsm.Block.insert klsm.Block.set_used
    klsm.Item.initialize klsm.Block.taken klsm.Block.set_unused klsm.Block.merge take_item
    klsm.Item.take
cache-ref = refl

cache_after_insert-least_example :
    All (λ x. 20 ≤ x.key) (reference unused 9000 1 ∷ ref 30 ∷ ref 40 ∷ [])
cache_after_insert-least_example =
    cache_after_insert-least unused 9000 1 (ref 30) (reference unused 9000 1) (ref 30 ∷ ref 40 ∷ [])
      (omega arith, (omega arith, tt)) cache-ref
