-- ===== src/Vector/Runs.antt =====
-- `lockfree_vector::get`: a bucket that is in place stays, so all threads get the same elements.
use klsm.Base.{
  ℕ, ◌≡◌, refl, sym, ap, ◌∙◌, arith, Option, none, some, Bool-cases, Option-cases, inl, inr, ◌==◌,
  subst,
}
use klsm.Vector.{index_of, exchange, install, Buckets, Get, Step, Threads, Reach}

-- What a thread knows is in place.
abbrev Knows : Buckets → Get → Type 0
Knows m Get.away = Unit {0}
Knows m (Get.seen n none) = Unit {0}
Knows m (Get.seen n (some a)) = m (index_of n) ≡ some a
Knows m (Get.got n a) = m (index_of n) ≡ some a

abbrev Grows : Buckets → Buckets → Type 0
Grows m m' = (i a : ℕ) → m i ≡ some a → m' i ≡ some a

some-injective : {a b : ℕ} → some a ≡ some b → a ≡ b
some-injective e = cc

module _ (m : Buckets) (i fresh : ℕ) where
  install_keeps : (j a : ℕ) → m j ≡ some a → m i ≡ none → install m i fresh j ≡ some a
  install_keeps j a h e = elim (Bool-cases (j == i)) [
    | inl k ↦ let l : j ≡ i = ground arith in absurd (let z = sym h ∙ ap m l ∙ e in cc)
    | inr k ↦ rw k h
  ]

  exchange-Grows : Grows m ((exchange m i fresh).1)
  unfolding exchange
  exchange-Grows j a h = elim (Option-cases (m i)) [
    | inr (b, e) ↦ rw (e, exchange) h
    | inl e ↦ rw (e, exchange) (install_keeps j a h e)
  ]

  exchange-eq : (exchange m i fresh).1 i ≡ some ((exchange m i fresh).0)
  unfolding exchange
  exchange-eq = elim (Option-cases (m i)) [
    | inr (b, e) ↦ rw (e, exchange) e
    | inl e ↦ rw (e, exchange) (ground arith)
  ]

step-Grows : {m m' : Buckets} {g g' : Get} → Step m g m' g' → Grows m m'
step-Grows (Step.look n) = λ i a h. h
step-Grows Step.reuse = λ i a h. h
step-Grows {m} (Step.settle {n} fresh) = exchange-Grows m (index_of n) fresh
step-Grows Step.leave = λ i a h. h

Knows-Grows : (m m' : Buckets) (g : Get) → Grows m m' → Knows m g → Knows m' g
Knows-Grows m m' Get.away h k = tt
Knows-Grows m m' (Get.seen n none) h k = tt
Knows-Grows m m' (Get.seen n (some a)) h k = h (index_of n) a k
Knows-Grows m m' (Get.got n a) h k = h (index_of n) a k

Knows-seen : (m : Buckets) (n : ℕ) (o : Option ℕ) → m (index_of n) ≡ o → Knows m (Get.seen n o)
Knows-seen m n none e = tt
Knows-seen m n (some a) e = e

step-Knows : {m m' : Buckets} {g g' : Get} → Knows m g → Step m g m' g' → Knows m' g'
step-Knows {m} k (Step.look n) = Knows-seen m n (m (index_of n)) refl
step-Knows k Step.reuse = k
step-Knows {m} k (Step.settle {n} fresh) = exchange-eq m (index_of n) fresh
step-Knows k Step.leave = tt

Reach-Knows : {s : Threads} → Reach s → (t : ℕ) → Knows s.buckets (s.at t)
Reach-Knows Reach.here t = tt
Reach-Knows (Reach.next {s} u {m} {g} r step) t = elim (Bool-cases (t == u)) [
  | inl e ↦ rw e (step-Knows (Reach-Knows r u) step)
  | inr e ↦ rw e (Knows-Grows s.buckets m (s.at t) (step-Grows step) (Reach-Knows r t))
]

-- In every reachable system, threads that have got elements whose indexes have one bucket have the
-- same bucket, and it is in place.
pub got_same :
    {s : Threads}
    → Reach s
    → (t u n k a b : ℕ) → s.at t ≡ Get.got n a
    → s.at u ≡ Get.got k b
    → index_of n ≡ index_of k
    → (a ≡ b) × (s.buckets (index_of n) ≡ some a)
got_same {s} r t u n k a b e f same =
    let x : s.buckets (index_of n) ≡ some a = subst (Knows s.buckets) e (Reach-Knows r t) in
    let y : s.buckets (index_of k) ≡ some b = subst (Knows s.buckets) f (Reach-Knows r u) in
    (some-injective (sym x ∙ ap s.buckets same ∙ y), x)
