-- ===== src/Pool/Get.antt =====
-- `block_pool::get_block`: which block it recycles, and which it may not.
use mathlib.Core.Bool.{false≢true}
use mathlib.Core.Option.{some-injective}
use klsm.Base.{
  ℕ, zero, suc, ◌+◌, ◌-◌, ◌^◌, ◌≤◌, ◌<◌, ◌≡◌, ◌≢◌, refl, ◌∙◌, sym, ap, max, inl, inr, true, false,
  some, List, [], ◌∷◌, if◌then◌else◌, get_elem?, All, arith, subst, Bool-cases, Option-cases,
  get_elem?-lt, get_elem?-set_self, get_elem?-set_ne,
}
use klsm.Storage.{Fresh}
use klsm.Pool.{
  Slot, Pool, Status, is_global, level_ix, level, int_of, minus_one, max_global, may_reuse,
  find_slot, window, ready, handed_out, get_block, blocks_per_level,
}

get_elem?-window :
    (ss : List Slot) (i n k : ℕ) {s : Slot}
    → get_elem? (window ss i n) k ≡ some s
    → (get_elem? ss (i + k) ≡ some s) × (k < n)
unfolding window
get_elem?-window [] i n k h = absurd (cc)
get_elem?-window (s ∷ ss) zero zero k h = absurd (cc)
get_elem?-window (s ∷ ss) zero (suc n) zero h = (h, omega arith)
get_elem?-window (s ∷ ss) zero (suc n) (suc k) h =
    let (at, below) = get_elem?-window ss zero n k h in
    let e : 0 + suc k ≡ suc (0 + k) = omega arith in (rw e at, omega arith)
get_elem?-window (s ∷ ss) (suc i) n k h =
    let e : suc i + k ≡ suc (i + k) = omega arith in rw e (get_elem?-window ss i n k h)

window-get_elem? :
    (ss : List Slot) (i n k : ℕ) → k < n → get_elem? (window ss i n) k ≡ get_elem? ss (i + k)
unfolding window
window-get_elem? [] i n k h = refl
window-get_elem? (s ∷ ss) zero zero k h = absurd (omega arith)
window-get_elem? (s ∷ ss) zero (suc n) zero h = refl
window-get_elem? (s ∷ ss) zero (suc n) (suc k) h =
    let e : 0 + suc k ≡ suc (0 + k) = omega arith in
    rw e (window-get_elem? ss zero n k (omega arith))
window-get_elem? (s ∷ ss) (suc i) n k h =
    let e : suc i + k ≡ suc (i + k) = omega arith in rw e (window-get_elem? ss i n k h)

find_slot-some :
    (top : ℕ) (ss : List Slot) (j0 j : ℕ) (s : Slot)
    → find_slot top ss j0 ≡ some (j, s)
    → (k : ℕ) × (j ≡ j0 + k) × (get_elem? ss k ≡ some s) × (may_reuse top s ≡ true)
unfolding find_slot
find_slot-some top [] j0 j s h = absurd (cc)
find_slot-some top (t ∷ ss) j0 j s h = elim (Bool-cases (may_reuse top t)) [
  | inl e ↦
      let q : ◌≡◌ {A = ℕ × Slot} (j0, t) (j, s) = some-injective _ _ (rw e at h) in
      let at : t ≡ s = ap (λ p. p.1) q in
      (0, omega (arith, ap (λ p. p.0) q), ap some at, rw (← at) e)
  | inr e ↦
      let (k, at, there, ok) = find_slot-some top ss (j0 + 1) j s (rw (e) at h) in
      (suc k, omega arith, there, ok)
]

-- The highest version that is found is that of a published slot or the start value.
max_global-le :
    (ss : List Slot) (acc m : ℕ)
    → acc ≤ m
    → All (λ s. is_global s.status ≡ true → int_of s.version ≤ m) ss
    → max_global ss acc ≤ m
unfolding max_global
max_global-le [] acc m h a = h
max_global-le (s ∷ ss) acc m h a =
    max_global-le ss _ m
      (elim (Bool-cases (is_global s.status)) [
        | inl e ↦ rw e (omega (arith, a.0 e))
        | inr e ↦ rw e h
      ])
      a.1

max_global-ge : (ss : List Slot) (acc : ℕ) → acc ≤ max_global ss acc
unfolding max_global
max_global-ge [] acc = omega arith
max_global-ge (s ∷ ss) acc =
    ground
      (arith, max_global-ge ss (if is_global s.status then max acc (int_of s.version) else acc))

max_global-ge_at :
    (ss : List Slot) (acc k : ℕ) (s : Slot)
    → get_elem? ss k ≡ some s
    → is_global s.status ≡ true
    → int_of s.version ≤ max_global ss acc
unfolding max_global
max_global-ge_at [] acc k s h g = absurd (cc)
max_global-ge_at (t ∷ ss) acc zero s h g =
    let e : t ≡ s = some-injective _ _ h in
    rw (e, g) (omega (arith, max_global-ge ss (max acc (int_of s.version))))
max_global-ge_at (t ∷ ss) acc (suc k) s h g = max_global-ge_at ss _ k s h g

-- What `get_block` finds: a slot of the level that may be used again, which it takes over.
pub get_block_cases :
    (f : Fresh) (p : Pool) (i j : ℕ) (p' : Pool)
    → get_block f p i ≡ some (j, p')
    → (k : ℕ) × (s : Slot) × (k < blocks_per_level)
      × (j ≡ level_ix i + k)
      × (get_elem? (level p i) k ≡ some s)
      × (may_reuse (max_global (level p i) minus_one) s ≡ true)
      × (p' ≡ handed_out f p i j s)
unfolding get_block
get_block_cases f p i j p' h =
    let top = max_global (level p i) minus_one in
    elim (Option-cases (find_slot top (level p i) (level_ix i))) [
      | inl e ↦ absurd (cc (rw (e, get_block) at h))
      | inr ((j1, s), e) ↦
          let q : ◌≡◌ {A = ℕ × Pool} (j1, handed_out f p i j1 s) (j, p') =
            some-injective _ _ (rw (e, get_block) at h) in
          let same : j1 ≡ j = ap (λ r. r.0) q in
          let (k, at, there, ok) = find_slot-some top (level p i) (level_ix i) j1 s e in
          (
            k,
            s,
            (get_elem?-window p.slots (level_ix i) blocks_per_level k there).1,
            sym same ∙ at,
            there,
            ok,
            sym (ap (λ r. r.1) q) ∙ ap (λ m. handed_out f p i m s) same,
          )
    ]

not-local : (top : ℕ) (s : Slot) → may_reuse top s ≡ true → s.status ≢ Status.local
not-local top s h e = ground arith

-- `get_block` hands out a slot of the wanted level that no current insertion holds, marks it as
-- local with a block that is ready for use, and leaves all other slots as they were.
pub get_block-hands_out :
    (f : Fresh) (p : Pool) (i j : ℕ) (p' : Pool)
    → get_block f p i ≡ some (j, p')
    → (s : Slot) × (level_ix i ≤ j)
      × (j < level_ix (i + 1))
      × (get_elem? p.slots j ≡ some s)
      × (s.status ≢ Status.local)
      × (get_elem? p'.slots j
          ≡ some (record s { block = some (ready f i s.block); status = Status.local }))
      × ((m : ℕ) → j ≢ m → get_elem? p'.slots m ≡ get_elem? p.slots m)
get_block-hands_out f p i j p' h =
    let (k, s, below, at, there, ok, e) = get_block_cases f p i j p' h in
    let held : get_elem? p.slots j ≡ some s =
      rw at (get_elem?-window p.slots (level_ix i) blocks_per_level k there).0 in
    (
      s,
      omega arith,
      omega arith,
      held,
      not-local (max_global (level p i) minus_one) s ok,
      rw e (get_elem?-set_self p.slots j _ (get_elem?-lt p.slots j held)),
      λ m ne. rw e (get_elem?-set_ne p.slots _ ne),
    )

-- No published slot of the list has a version above `v`.
abbrev pub UpTo : ℕ → List Slot → Type 0
UpTo v ss = All (λ s. is_global s.status ≡ true → s.version ≤ v) ss

UpTo-int_of :
    (v : ℕ) (ss : List Slot)
    → v < 2 ^ 31
    → UpTo v ss
    → All (λ s. is_global s.status ≡ true → int_of s.version ≤ int_of v) ss
UpTo-int_of v [] h a = tt
UpTo-int_of v (s ∷ ss) h a = ((λ g. omega (arith, a.0 g)), UpTo-int_of v ss h a.1)

not-latest :
    (top : ℕ) (s : Slot)
    → is_global s.status ≡ true
    → int_of s.version ≡ top
    → may_reuse top s ≡ false
not-latest top s g e = ground arith

-- If a published block of the level has a version below 2^31 that no published block of the level
-- exceeds, `get_block` does not recycle it: its slot stays as it is.
pub get_block-keeps_latest :
    (f : Fresh) (p : Pool) (i j : ℕ) (p' : Pool) (k : ℕ) (t : Slot)
    → get_block f p i ≡ some (j, p')
    → get_elem? (level p i) k ≡ some t
    → is_global t.status ≡ true
    → t.version < 2 ^ 31
    → UpTo t.version (level p i)
    → get_elem? p'.slots (level_ix i + k) ≡ some t
get_block-keeps_latest f p i j p' k t h there g small latest =
    let (k1, s, below, at, there1, ok, e) = get_block_cases f p i j p' h in
    let top = max_global (level p i) minus_one in
    let above : int_of t.version ≤ top = max_global-ge_at (level p i) minus_one k t there g in
    let below : top ≤ int_of t.version =
      max_global-le (level p i) minus_one (int_of t.version) (omega arith)
        (UpTo-int_of t.version (level p i) small latest) in
    let held : get_elem? p.slots (level_ix i + k) ≡ some t =
      (get_elem?-window p.slots (level_ix i) blocks_per_level k there).0 in
    let differ : j ≢ level_ix i + k = λ same.
      let k_eq : k1 ≡ k = omega arith in
      let s_eq : s ≡ t =
        some-injective _ _ (sym there1 ∙ ap (get_elem? (level p i)) k_eq ∙ there) in
      let reused : may_reuse top t ≡ true = subst (λ u. may_reuse top u ≡ true) s_eq ok in
      false≢true (sym (not-latest top t g (omega arith)) ∙ reused) in
    rw e (get_elem?-set_ne p.slots _ differ ∙ held)

find_slot-head :
    (top : ℕ) (s : Slot) (rest : List Slot) (j : ℕ)
    → may_reuse top s ≡ true
    → find_slot top (s ∷ rest) j ≡ some (j, s)
unfolding find_slot
find_slot-head top s rest j h = rw (h, find_slot)

reusable :
    (top : ℕ) (s : Slot)
    → is_global s.status ≡ true
    → (2 ^ 31 ≤ s.version) × (s.version < 2 ^ 32 - 1)
    → top ≡ minus_one
    → may_reuse top s ≡ true
reusable top s g late e = ground arith

-- Published slots of the list have versions that are negative as an `int`, and not -1.
abbrev pub Late : List Slot → Type 0
Late ss = All (λ s. is_global s.status ≡ true → (2 ^ 31 ≤ s.version) × (s.version < 2 ^ 32 - 1)) ss

Late-int_of :
    (ss : List Slot)
    → Late ss
    → All (λ s. is_global s.status ≡ true → int_of s.version ≤ minus_one) ss
Late-int_of [] a = tt
Late-int_of (s ∷ ss) a = ((λ g. let (lo, hi) = a.0 g in omega arith), Late-int_of ss a.1)

-- If the first block of the level is published, and every published block of the level has a version
-- from 2^31 on and below 2^32 - 1, which is negative as an `int`, `get_block` recycles that first
-- block, whichever of them was published last.
pub get_block-recycles_first :
    (f : Fresh) (p : Pool) (i : ℕ) (s : Slot) (rest : List Slot)
    → level p i ≡ s ∷ rest
    → is_global s.status ≡ true
    → Late (level p i)
    → get_block f p i ≡ some (level_ix i, handed_out f p i (level_ix i) s)
unfolding get_block
get_block-recycles_first f p i s rest e g late =
    let top = max_global (level p i) minus_one in
    let at_most : top ≤ minus_one =
      max_global-le (level p i) minus_one minus_one (omega arith) (Late-int_of (level p i) late) in
    let at_least : minus_one ≤ top = max_global-ge (level p i) minus_one in
    let late' : Late (s ∷ rest) = rw e at late in
    let chosen : find_slot top (level p i) (level_ix i) ≡ some (level_ix i, s) =
      ap (λ l. find_slot top l (level_ix i)) e
      ∙ find_slot-head top s rest (level_ix i) (reusable top s g (late'.0 g) (omega arith)) in
    rw (chosen, get_block)
