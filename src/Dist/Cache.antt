-- ===== src/Dist/Cache.antt =====
-- The cached best item of a thread-local LSM: what an insertion makes of it, and what `delete_min`
-- then takes.
use mathlib.Core.Option.{some-injective}
use klsm.Base.{
  ℕ, ◌≤◌, ◌<◌, ◌≡◌, refl, ◌∙◌, ap, inl, inr, ltb, ◌==◌, false, Option, none, some, List, [], ◌∷◌,
  All, if◌then◌else◌, arith, Bool-cases,
}
use klsm.Base.State.{◌>>=◌, ◌>>◌}
use klsm.Block
use klsm.Block.{Block, BlockItem, BlockPtr, Store, taken, take_item, size, capacity, set_unused}
use klsm.Dist.{World, Env, M, load, store, get_block, merge_insert, cache_after_insert, insert_item}
use klsm.Dist.Keeps.{
  Keeps, Keeps-bind, Keeps-load, Keeps-store, Keeps-get_block, Keeps-merge_insert,
}
use klsm.Dist.Peek.{peek, take_best, delete_min}

-- The private `insert` leaves the items, and what the cache holds after it is what
-- `cache_after_insert` says.
insert_item-cache :
    {X : Type 0} (e : Env X) (fuel it version : ℕ) (w w' : World X)
    → insert_item e fuel it version w ≡ some (tt, w')
    → (w'.items ≡ w.items)
      × (w'.lsm.cached_best ≡ cache_after_insert w.items it version w.lsm.cached_best)
unfolding insert_item
insert_item-cache {X} e fuel it version w w' h =
    let best = cache_after_insert w.items it version w.lsm.cached_best in
    let rest : M X (Unit {0}) = do
      n ← get_block e 0
      b ← load n
      store n (Block.insert w.items b it version)
      merge_insert e fuel n
    in let kept : Keeps rest = Keeps-bind (get_block e 0) _ (Keeps-get_block e 0) λ n.
      Keeps-bind (load n) _ (Keeps-load n) λ b.
        Keeps-bind (store n (Block.insert w.items b it version)) _
          (Keeps-store n (Block.insert w.items b it version)) λ _. Keeps-merge_insert e fuel n in
      kept (record w { lsm = record (w.lsm) { cached_best = best } }) tt w' h

peek-cached :
    {X : Type 0} (e : Env X) (fuel : ℕ) (best : Option BlockItem) (w : World X) (c : BlockItem)
    → w.lsm.cached_best ≡ some c
    → taken w.items c ≡ false
    → peek e fuel best w ≡ some (some c, w)
unfolding peek
peek-cached e fuel best w c h live = rw (h, live) refl

-- The reference to the item that is inserted under `version`.
abbrev pub reference : Store → ℕ → ℕ → BlockItem
reference s it version = record { key = (s it).key; item = it; version = version }

-- With the cache empty, an insertion that ends makes the new item, if it is not taken, the one that
-- the next `delete_min` takes, whatever smaller items the blocks hold.
pub delete_min-takes_new :
    {X : Type 0} (e : Env X) (fuel it version : ℕ) (w w' : World X) (rounds num_threads : ℕ)
    (head_of : ℕ → Option Block)
    → w.lsm.cached_best ≡ none
    → taken w.items (reference w.items it version) ≡ false
    → insert_item e fuel it version w ≡ some (tt, w')
    → (w'' : World X) × (delete_min e rounds num_threads head_of w'
        ≡ some (some (take_item w.items (reference w.items it version)), w''))
unfolding delete_min take_best cache_after_insert
delete_min-takes_new e fuel it version w w' rounds num_threads head_of empty live h =
    let c = reference w.items it version in
    let (same, cached) = insert_item-cache e fuel it version w w' h in
    let now : w'.lsm.cached_best ≡ some c =
      cached ∙ ap (cache_after_insert w.items it version) empty in
    let still : taken w'.items c ≡ false = ap (λ s. taken s c) same ∙ live in
    let t = take_item w'.items c in
    let w'' = record w' { items = λ q. if q == c.item then t.left else w'.items q } in
    (
      w'',
      rw (peek-cached e rounds none w' c now still, delete_min, ◌>>=◌)
          (ap (λ s. some (some (take_item s c), w'')) same),
    )

All-lower :
    (d c : BlockItem) (ds : List BlockItem)
    → d.key ≤ c.key
    → All (λ x. c.key ≤ x.key) ds
    → All (λ x. d.key ≤ x.key) ds
All-lower d c [] h a = tt
All-lower d c (x ∷ ds) h a = (omega (arith, a.0), All-lower d c ds h a.1)

-- If the cached item has the least key of a list, what an insertion caches has the least key of the
-- list with the new item.
pub cache_after_insert-least :
    (s : Store) (it version : ℕ) (c d : BlockItem) (ds : List BlockItem)
    → All (λ x. c.key ≤ x.key) ds
    → cache_after_insert s it version (some c) ≡ some d
    → All (λ x. d.key ≤ x.key) (reference s it version ∷ ds)
unfolding cache_after_insert
cache_after_insert-least s it version c d ds least h = elim (Bool-cases (ltb (s it).key c.key)) [
  | inl below ↦
      let same : reference s it version ≡ d =
        some-injective _ _ (rw (below, cache_after_insert) at h) in
      let key_eq : (s it).key ≡ d.key = ap (λ x. x.key) same in
      let lower : (s it).key < c.key = ground arith in
      (omega arith, All-lower d c ds (omega arith) least)
  | inr above ↦ elim (Bool-cases (taken s c)) [
    | inl t ↦ absurd (cc (rw (above, t, cache_after_insert) at h))
    | inr t ↦
        let same : c ≡ d = some-injective _ _ (rw (above, t, cache_after_insert) at h) in
        let key_eq : c.key ≡ d.key = ap (λ x. x.key) same in
        (ground arith, All-lower d c ds (omega arith) least)
  ]
]
