-- ===== src/Dist/Keeps.antt =====
-- The steps of `merge_insert` leave the items and the cached best item as they are.
use mathlib.Core.Option.{some-injective}
use klsm.Base.{
  ℕ, zero, suc, ◌+◌, ◌/◌, ◌≡◌, refl, sym, ◌∙◌, ap, inl, inr, leb, ◌==◌, Bool, true, false, Option,
  none, some, if◌then◌else◌, Option-cases,
}
use klsm.Base.State.{◌>>=◌, pure}
use klsm.Block
use klsm.Block.{Block, BlockItem, BlockPtr, Store, taken, take_item, size, capacity, set_unused}
use klsm.Storage
use klsm.Dist.{
  World, Env, M, blocks_per_level, items, lsm, put_head, put_tail, load, store, update, with_next,
  with_prev, get_block, merge_step, merge_loop, free_loop, link_after, hand_over, publish, append,
  merge_insert,
}

-- The step leaves the items and the cached best item as they are.
abbrev pub Keeps : {X A : Type 0} → M X A → Type 0
Keeps {X} {A} m =
    (w : World X) (a : A) (w' : World X)
    → m w ≡ some (a, w')
    → (w'.items ≡ w.items) × (w'.lsm.cached_best ≡ w.lsm.cached_best)

pub Keeps-bind :
    {X A B : Type 0} (m : M X A) (k : A → M X B)
    → Keeps m
    → ((a : A) → Keeps (k a))
    → Keeps (m >>= k)
Keeps-bind m k hm hk w b w' h = elim (Option-cases (m w)) [
  | inl e ↦ absurd (cc (rw (e, ◌>>=◌) at h))
  | inr ((a, v), e) ↦
      let (i1, c1) = hm w a v e in
      let (i2, c2) = hk a v b w' (rw (e, ◌>>=◌) at h) in (i2 ∙ i1, c2 ∙ c1)
]

-- A step that always succeeds, with a state that keeps both.
Keeps-done :
    {X A : Type 0} (g : World X → A) (f : World X → World X)
    → ((w : World X) → ((f w).items ≡ w.items) × ((f w).lsm.cached_best ≡ w.lsm.cached_best))
    → Keeps (λ w. some (g w, f w))
Keeps-done g f h w a w' e =
    let same : f w ≡ w' = ap (λ r. r.1) (some-injective _ _ e) in
    let (i, c) = h w in
    (ap (λ v. v.items) (sym same) ∙ i, ap (λ v. v.lsm.cached_best) (sym same) ∙ c)

pub Keeps-load : {X : Type 0} (p : BlockPtr) → Keeps {X = X} (load p)
unfolding load
Keeps-load {X} p w a w' h = elim (Option-cases (Storage.load w.lsm.block_storage p)) [
  | inl e ↦ absurd (cc (rw (e, load) at h))
  | inr (b, e) ↦
      let same : ◌≡◌ {A = Block × World X} (b, w) (a, w') =
        some-injective _ _ (rw (e, load) at h) in
      let w_eq : w' ≡ w = sym (ap (λ r. r.1) same) in
      (ap (λ v. v.items) w_eq, ap (λ v. v.lsm.cached_best) w_eq)
]

pub Keeps-store : {X : Type 0} (p : BlockPtr) (b : Block) → Keeps {X = X} (store p b)
unfolding store
Keeps-store p b = Keeps-done _ _ (λ w. (refl, refl))

pub Keeps-get_block : {X : Type 0} (e : Env X) (i : ℕ) → Keeps (get_block e i)
unfolding get_block
Keeps-get_block {X} e i w a w' h =
    elim (Option-cases (Storage.get_block e.fresh blocks_per_level w.lsm.block_storage i)) [
      | inl m ↦ absurd (cc (rw (m, get_block) at h))
      | inr ((p, st), m) ↦
          let same : ◌≡◌ {A = BlockPtr × World X}
              (p, record w { lsm = record (w.lsm) { block_storage = st } }) (a, w') =
            some-injective _ _ (rw (m, get_block) at h) in
          let w_eq : w' ≡ record w { lsm = record (w.lsm) { block_storage = st } } =
            sym (ap (λ r. r.1) same) in
          (ap (λ v. v.items) w_eq, ap (λ v. v.lsm.cached_best) w_eq)
    ]

Keeps-update : {X : Type 0} (g : Block → Block) (p : BlockPtr) → Keeps {X = X} (update g p)
unfolding update
Keeps-update g p =
    Keeps-bind (load p) (λ b. store p (g b)) (Keeps-load p) (λ b. Keeps-store p (g b))

Keeps-pure : {X A : Type 0} (a : A) → Keeps {X = X} (pure a)
Keeps-pure a = Keeps-done (λ w. a) (λ w. w) (λ w. (refl, refl))

Keeps-if : {X A : Type 0} (c : Bool) (m k : M X A) → Keeps m → Keeps k → Keeps (if c then m else k)
Keeps-if true m k hm hk = hm
Keeps-if false m k hm hk = hk

Keeps-none : {X A : Type 0} → Keeps {X = X} {A = A} (λ w. none)
Keeps-none w a w' h = absurd (cc)

-- Reads of the items and of the LSM, and writes of its two ends.
Keeps-items : {X : Type 0} → Keeps {X = X} items
Keeps-items = Keeps-done (λ w. w.items) (λ w. w) (λ w. (refl, refl))

Keeps-lsm : {X : Type 0} → Keeps {X = X} lsm
Keeps-lsm = Keeps-done (λ w. w.lsm) (λ w. w) (λ w. (refl, refl))

Keeps-put_head : {X : Type 0} (p : Option BlockPtr) → Keeps {X = X} (put_head p)
Keeps-put_head p = Keeps-done _ _ (λ w. (refl, refl))

Keeps-put_tail : {X : Type 0} (p : Option BlockPtr) → Keeps {X = X} (put_tail p)
Keeps-put_tail p = Keeps-done _ _ (λ w. (refl, refl))

Keeps-merge_step : {X : Type 0} (e : Env X) (b o : BlockPtr) → Keeps (merge_step e b o)
unfolding merge_step
Keeps-merge_step e b o = Keeps-bind (load b) _ (Keeps-load b) λ x.
    Keeps-bind (load o) _ (Keeps-load o) λ y.
      Keeps-bind (get_block e _) _ (Keeps-get_block e _) λ m.
        Keeps-bind (load m) _ (Keeps-load m) λ dst. Keeps-bind (load b) _ (Keeps-load b) λ lhs.
          Keeps-bind (load o) _ (Keeps-load o) λ rhs. Keeps-bind items _ Keeps-items λ s.
            Keeps-bind (store m (Block.merge s dst lhs rhs)) _
              (Keeps-store m (Block.merge s dst lhs rhs))
              λ _. Keeps-bind (update set_unused b) _ (Keeps-update set_unused b) λ _. Keeps-pure m

Keeps-merge_loop :
    {X : Type 0} (e : Env X) (fuel : ℕ) (b : BlockPtr) (o del : Option BlockPtr)
    → Keeps (merge_loop e fuel b o del)
unfolding merge_loop
Keeps-merge_loop e zero b o del = Keeps-none
Keeps-merge_loop e (suc fuel) b none del = Keeps-pure (b, none, del)
Keeps-merge_loop e (suc fuel) b (some o) del = Keeps-bind (load b) _ (Keeps-load b) λ x.
    Keeps-bind (load o) _ (Keeps-load o) λ y.
      Keeps-if (capacity x == capacity y) _ _
        (Keeps-bind (merge_step e b o) _ (Keeps-merge_step e b o) λ m.
          Keeps-bind (load o) _ (Keeps-load o) λ o'. Keeps-merge_loop e fuel m o'.prev (some o))
        (Keeps-pure (b, some o, del))

Keeps-free_loop : {X : Type 0} (fuel : ℕ) (d : Option BlockPtr) → Keeps {X = X} (free_loop fuel d)
unfolding free_loop
Keeps-free_loop zero d = Keeps-none
Keeps-free_loop (suc fuel) none = Keeps-pure tt
Keeps-free_loop (suc fuel) (some d) = Keeps-bind (load d) _ (Keeps-load d) λ b.
    Keeps-bind (update set_unused d) _ (Keeps-update set_unused d) λ _. Keeps-free_loop fuel b.next

Keeps-link_after : {X : Type 0} (o p : Option BlockPtr) → Keeps {X = X} (link_after o p)
unfolding link_after
Keeps-link_after none p = Keeps-put_head p
Keeps-link_after (some o) p = Keeps-update (with_next p) o

Keeps-append : {X : Type 0} (b : BlockPtr) (o : Option BlockPtr) → Keeps {X = X} (append b o)
unfolding append
Keeps-append b o = Keeps-bind (update (with_prev o) b) _ (Keeps-update (with_prev o) b) λ _.
    Keeps-bind (link_after o (some b)) _ (Keeps-link_after o (some b)) λ _. Keeps-put_tail (some b)

Keeps-hand_over :
    {X : Type 0} (insert : Store → Block → X → Option X) (x : Block) → Keeps (hand_over insert x)
Keeps-hand_over insert x w a w' h = elim (Option-cases (insert w.items x w.shared)) [
  | inl e ↦ absurd (cc (rw (e, hand_over) at h))
  | inr (y, e) ↦
      let done = some-injective _ _ (rw (e, hand_over) at h) in
      let same : record w { shared = y } ≡ w' = ap (λ r. r.1) done in
      (ap (λ v. v.items) (sym same), ap (λ v. v.lsm.cached_best) (sym same))
]

Keeps-publish :
    {X : Type 0} (insert : Store → Block → X → Option X) (b : BlockPtr) (o : Option BlockPtr)
    → Keeps (publish insert b o)
unfolding publish
Keeps-publish insert b o = Keeps-bind (load b) _ (Keeps-load b) λ x.
    Keeps-bind (hand_over insert x) _ (Keeps-hand_over insert x) λ _.
      Keeps-bind (update set_unused b) _ (Keeps-update set_unused b)
        λ _. Keeps-bind (link_after o none) _ (Keeps-link_after o none) λ _. Keeps-put_tail o

Keeps-place :
    {X : Type 0} (insert : Option (Store → Block → X → Option X)) (b : BlockPtr)
    (o : Option BlockPtr) (full : Bool)
    → Keeps {X = X} {A = Unit {0}}
        (elim insert [ none ↦ append b o | some f ↦ if full then publish f b o else append b o ])
Keeps-place none b o full = Keeps-append b o
Keeps-place (some f) b o full = Keeps-if full _ _ (Keeps-publish f b o) (Keeps-append b o)

pub Keeps-merge_insert :
    {X : Type 0} (e : Env X) (fuel : ℕ) (n : BlockPtr) → Keeps (merge_insert e fuel n)
unfolding merge_insert
Keeps-merge_insert e fuel n = Keeps-bind lsm _ Keeps-lsm λ l.
    Keeps-bind (merge_loop e fuel n l.tail none) _ (Keeps-merge_loop e fuel n l.tail none)
      λ (b, o, del). Keeps-bind (load b) _ (Keeps-load b) λ x.
        Keeps-bind _ _ (Keeps-place e.slsm b o (leb ((e.rlx + 1) / 2) (size x)))
          λ _. Keeps-free_loop fuel del
