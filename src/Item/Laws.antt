-- ===== src/Item/Laws.antt =====
-- What a sequence of calls on one item can do.
use klsm.Base.{◌^◌, ◌<◌, ◌≡◌, true, false, arith}
use klsm.Item.{Item, used, reuse, take}

-- Taking a used item under its version succeeds, returns its key and value, makes it reusable, and
-- every later `take` under the same version fails and changes nothing.
pub take_once :
    (it : Item)
    → it.version < 2 ^ 32
    → used it ≡ true
    → let t = take it it.version in
      (t.success ≡ true)
      × (t.key ≡ it.key)
      × (t.val ≡ it.val)
      × (reuse t.left ≡ true)
      × ((take t.left it.version).success ≡ false)
      × ((take t.left it.version).left ≡ t.left)
unfolding used reuse take
take_once it h u = ground arith
