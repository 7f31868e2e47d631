-- ===== src/Pool/Tracked.antt =====
-- The indexes of one insertion: every local slot of a block pool is among them at all times.
use native.Mathlib.Decide.{ℕ_discrete}
use mathlib.Core.Option.{some-injective}
use mathlib.Core.Bool.{true≢false}
use klsm.Base.{
  ℕ, zero, suc, ◌*◌, ◌≡◌, refl, sym, ◌∙◌, ap, inl, inr, true, false, not, ◌&&◌, Option, none, some,
  List, [], ◌∷◌, ◌++◌, ◌==◌, if◌then◌else◌, get_elem?, get_elem?-some, length, length-set, ◌<◌,
  replicate, arith, Bool-cases, Option-cases, get_elem?-lt, get_elem?-set_self, get_elem?-set_ne,
  set,
}
use klsm.Storage.{Fresh}
use klsm.Pool.{
  max_power_of_2, blocks_per_level, Slot, Pool, Status, Pointer, is_local, is_that, listed,
  block_pool, empty_slot, get_block, handed_out, find, publish_slot, publish, free_local_except,
  free_at, free_loop, free_slot,
}
use klsm.Pool.Get.{get_block_cases}
use klsm.Pool.Free.{Tracked, free_local_except_lem}

listed-append : (j : ℕ) (xs ys : List ℕ) → listed j xs ≡ true → listed j (xs ++ ys) ≡ true
unfolding listed
listed-append j [] ys h = absurd (cc)
listed-append j (k ∷ xs) ys h = elim (Bool-cases (j == k)) [
  | inl e ↦ rw e refl
  | inr e ↦ rw e (listed-append j xs ys (rw e at h))
]

listed-last : (j : ℕ) (xs : List ℕ) → listed j (xs ++ j ∷ []) ≡ true
unfolding listed
listed-last j [] = let e : (j == j) ≡ true = ground arith in rw e refl
listed-last j (k ∷ xs) = elim (Bool-cases (j == k)) [
  | inl e ↦ rw e refl
  | inr e ↦ rw e (listed-last j xs)
]

handed_out-Tracked :
    (f : Fresh) (p : Pool) (i j : ℕ) (s : Slot) → Tracked p → Tracked (handed_out f p i j s)
handed_out-Tracked f p i j s tracked m t h l = elim (ℕ_discrete j m) [
  | yes same ↦ rw (← same) (listed-last j p.local_ixs)
  | no differ ↦
      listed-append m p.local_ixs (j ∷ [])
        (tracked m t (sym (get_elem?-set_ne p.slots _ differ) ∙ h) l)
]

-- If all local slots are among the local indexes, they are after `get_block`.
pub get_block-Tracked :
    (f : Fresh) (p : Pool) (i j : ℕ) (p' : Pool)
    → Tracked p
    → get_block f p i ≡ some (j, p')
    → Tracked p'
get_block-Tracked f p i j p' tracked h =
    let (k, s, below, at, there, ok, e) = get_block_cases f p i j p' h in
    rw e (handed_out-Tracked f p i j s tracked)

publish_slot-Tracked :
    (version : ℕ) (p : Pool) (j : ℕ) → Tracked p → Tracked (publish_slot version p j)
unfolding publish_slot
publish_slot-Tracked version p j tracked m t h l = elim (Option-cases (get_elem? p.slots j)) [
  | inl e ↦ rw (e, publish_slot) (tracked m t (rw (e, publish_slot) at h) l)
  | inr (s, e) ↦
      let marked : Slot = record s { status = Status.global; version = version } in
      let h' : get_elem? (set p.slots j marked) m ≡ some t = rw (e, publish_slot) at h in
      rw (e, publish_slot)
        (elim (ℕ_discrete j m) [
          | yes same ↦
              let now : get_elem? (set p.slots j marked) m ≡ some marked =
                rw (← same) (get_elem?-set_self p.slots j marked (get_elem?-lt p.slots j e)) in
              let t_eq : marked ≡ t = some-injective _ _ (sym now ∙ h') in
              let off : is_local t.status ≡ false = sym (ap (λ u. is_local u.status) t_eq) in
              absurd (true≢false (sym l ∙ off))
          | no differ ↦ tracked m t (sym (get_elem?-set_ne p.slots marked differ) ∙ h') l
        ])
]

-- If all local slots are among the local indexes, they are after `publish`.
pub publish-Tracked :
    (self version : ℕ) (bs : List (Option Pointer)) (p : Pool)
    → Tracked p
    → Tracked (publish self version bs p)
unfolding publish
publish-Tracked self version [] p tracked = tracked
publish-Tracked self version (none ∷ bs) p tracked = publish-Tracked self version bs p tracked
publish-Tracked self version (some b ∷ bs) p tracked = elim (Option-cases (find self p b)) [
  | inl e ↦ rw (e, publish) (publish-Tracked self version bs p tracked)
  | inr (j, e) ↦
      rw (e, publish)
        (publish-Tracked self version bs (publish_slot version p j)
          (publish_slot-Tracked version p j tracked))
]

kept_listed :
    (that : Option ℕ) (m : ℕ) (js : List ℕ)
    → is_that that m ≡ true
    → listed m js ≡ true
    → listed m (elim that [ none ↦ [] | some t ↦ if listed t js then t ∷ [] else [] ]) ≡ true
unfolding listed
kept_listed none m js h l = absurd (cc)
kept_listed (some t) m js h l =
    let same : t ≡ m = ground arith in
    let here : listed t js ≡ true = rw same l in
    let hit : (m == t) ≡ true = ground arith in rw here (rw hit refl)

length-free_at :
    (that : Option ℕ) (k : ℕ) (slots : List Slot) → length (free_at that k slots) ≡ length slots
unfolding free_at
length-free_at that k slots = elim (Bool-cases (is_that that k)) [
  | inl e ↦ rw e refl
  | inr e ↦ elim (Option-cases (get_elem? slots k)) [
    | inl n ↦ rw e (rw (n, free_at) refl)
    | inr (t, n) ↦ rw e (rw (n, free_at) (length-set slots k (free_slot t)))
  ]
]

length-free_loop :
    (that : Option ℕ) (js : List ℕ) (slots : List Slot)
    → length (free_loop that js slots) ≡ length slots
unfolding free_loop
length-free_loop that [] slots = refl
length-free_loop that (k ∷ js) slots =
    length-free_loop that js (free_at that k slots) ∙ length-free_at that k slots

-- What stays local was local, and is the slot that is kept.
still_local :
    (that : Option ℕ) (m : ℕ) (s t : Slot)
    → (if is_local s.status && not (is_that that m) then record s { status = Status.free } else s)
      ≡ t
    → is_local t.status ≡ true
    → (is_local s.status ≡ true) × (is_that that m ≡ true)
still_local that m s t h l =
    let l' = ap (λ u. is_local u.status) h ∙ l in
    elim (Bool-cases (is_local s.status)) [
      | inr e ↦ absurd (true≢false (sym (rw e at l') ∙ e))
      | inl e ↦ elim (Bool-cases (is_that that m)) [
        | inl k ↦ (e, k)
        | inr k ↦ absurd (true≢false (sym (rw (e, k) at l')))
      ]
    ]

-- If all local slots are among the local indexes, they are after all but one were freed.
pub free_local_except-Tracked :
    (p : Pool) (that : Option ℕ) → Tracked p → Tracked (free_local_except p that)
unfolding free_local_except
free_local_except-Tracked p that tracked m t h l =
    let below : m < length p.slots =
      omega (arith, get_elem?-lt _ m h, length-free_loop that p.local_ixs p.slots) in
    let (s, e) = get_elem?-some p.slots m below in
    let t_eq = some-injective _ _ (sym (free_local_except_lem p that tracked m s e) ∙ h) in
    let (was, kept) = still_local that m s t t_eq l in
    kept_listed that m p.local_ixs kept (tracked m s e was)

get_elem?-replicate-not_local :
    (n m : ℕ) (s : Slot) → get_elem? (replicate n empty_slot) m ≡ some s → is_local s.status ≡ false
get_elem?-replicate-not_local zero m s h = absurd (cc)
get_elem?-replicate-not_local (suc n) zero s h =
    sym (ap (λ u. is_local u.status) (some-injective _ _ h))
get_elem?-replicate-not_local (suc n) (suc m) s h = get_elem?-replicate-not_local n m s h

-- The operations on the pool of one thread.
pub data Operation (self : ℕ) (f : Fresh) (p : Pool) : Pool → Type 0 where
  gets : (i j : ℕ) {q : Pool} → get_block f p i ≡ some (j, q) → Operation self f p q
  publishes :
      (version : ℕ) (bs : List (Option Pointer)) → Operation self f p (publish self version bs p)
  frees : (that : Option ℕ) → Operation self f p (free_local_except p that)

pub data Reachable (self : ℕ) (f : Fresh) : Pool → Type 0 where
  starts : Reachable self f block_pool
  continues : {p q : Pool} → Reachable self f p → Operation self f p q → Reachable self f q

-- In every pool that `get_block`, `publish` and `free_local_except` lead to from a new one, all local
-- slots are among the local indexes.
pub Reachable-Tracked : (self : ℕ) (f : Fresh) (p : Pool) → Reachable self f p → Tracked p
unfolding block_pool
Reachable-Tracked self f p starts = λ m s h l.
    absurd
      (true≢false (sym l ∙ get_elem?-replicate-not_local (max_power_of_2 * blocks_per_level) m s h))
Reachable-Tracked self f p (continues {p = q} r (gets i j h)) =
    get_block-Tracked f q i j p (Reachable-Tracked self f q r) h
Reachable-Tracked self f p (continues {p = q} r (publishes version bs)) =
    publish-Tracked self version bs q (Reachable-Tracked self f q r)
Reachable-Tracked self f p (continues {p = q} r (frees that)) =
    free_local_except-Tracked q that (Reachable-Tracked self f q r)
