-- ===== src/Item.antt =====
-- components/item.h and components/item_inl.h: an item, the unit that threads take from the queue.
-- `K` and `V` are the `uint32_t` that the benchmarks and the tests instantiate, as numbers.
pub mod Laws
pub mod Races
use klsm.Base.{ℕ, ◌%◌, Bool, true, false, Option, none, some, not, if◌then◌else◌, ◌==◌, add32}

-- Even versions are reusable, odd versions are in use.
pub record Item : Type 0 where
  pub version : ℕ
  pub key : ℕ
  pub val : ℕ

-- `item::item()`: only the version is initialised, the rest is what the memory held.
unfoldable pub item : ℕ → ℕ → Item
item key val = record { version = 0; key = key; val = val }

-- `version() & 0x1` is the remainder by two.
unfoldable pub used : Item → Bool
used it = it.version % 2 == 1

-- `item::reuse`.
unfoldable pub reuse : Item → Bool
unfolding used
reuse it = not (used it)

-- `none` where the source asserts that the item is not in use; that it is in use afterwards, the
-- second assertion, follows from the parity of the version.
unfoldable pub initialize : Item → ℕ → ℕ → Option Item
unfolding used
initialize it key val =
    if used it
    then none
    else some (record it { version = add32 it.version 1; key = key; val = val })

-- What `take` reports (`key` and `val` are assigned whether or not the exchange succeeds) and the
-- item that it leaves.
pub record Taken : Type 0 where
  pub success : Bool
  pub key : ℕ
  pub val : ℕ
  pub left : Item

unfoldable pub take : Item → ℕ → Taken
take it version =
    if it.version == version
    then record {
      success = true;
      key = it.key;
      val = it.val;
      left = record it { version = add32 version 1 };
    }
    else record { success = false; key = it.key; val = it.val; left = it }
