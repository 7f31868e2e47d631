-- ===== src/Threading.antt =====
-- util/thread_local_ptr.cpp: the identifiers that threads draw from a shared counter, in any order.
-- The `int32_t` counter is taken not to overflow: there are fewer than 2^31 threads.
use klsm.Base.{
  ℕ, ◌+◌, ◌<◌, ◌≡◌, ◌==◌, sym, ap, ◌∙◌, arith, Option, none, some, Option-cases, Bool-cases, List,
  [], ◌∷◌, if◌then◌else◌, ◌≢◌, ◌⊎◌, inl, inr,
}

-- `m_max_tid`, and `m_tid` of each thread, where `none` is TID_UNSET.
pub record Ids : Type 0 where
  pub max_tid : ℕ
  pub tid : ℕ → Option ℕ

abbrev pub ids : Ids
ids = record { max_tid = 0; tid = λ t. none }

abbrev update_tid : (ℕ → Option ℕ) → ℕ → ℕ → ℕ → Option ℕ
update_tid f t i u = if u == t then some i else f u

-- `set_tid`, called by a thread.
unfoldable pub set_tid : ℕ → Ids → Ids
set_tid t s = elim (s.tid t) [
  | some i ↦ s
  | none ↦ record { max_tid = s.max_tid + 1; tid = update_tid s.tid t s.max_tid }
]

-- Calls of threads, the last one first.
unfoldable pub calls : List ℕ → Ids
unfolding set_tid
calls [] = ids
calls (t ∷ ts) = set_tid t (calls ts)

record IsDrawn (s : Ids) : Type 0 where
  below : (t i : ℕ) → s.tid t ≡ some i → i < s.max_tid
  apart : (t u i : ℕ) → s.tid t ≡ some i → s.tid u ≡ some i → t ≡ u

some-injective : {a b : ℕ} → some a ≡ some b → a ≡ b
some-injective e = cc

-- An identifier after a draw: it is the new one and the thread that drew has it, or it is older.
update_tid-cases :
    (f : ℕ → Option ℕ) (t n u i : ℕ)
    → update_tid f t n u ≡ some i
    → ((u ≡ t) × (i ≡ n)) ⊎ (f u ≡ some i)
update_tid-cases f t n u i h = elim (Bool-cases (u == t)) [
  | inl e ↦ inl (ground arith, sym (some-injective (rw e at h)))
  | inr e ↦ inr (rw e at h)
]

draw-IsDrawn :
    (s : Ids) (t : ℕ)
    → IsDrawn s
    → IsDrawn (record { max_tid = s.max_tid + 1; tid = update_tid s.tid t s.max_tid })
draw-IsDrawn s t inv = record {
  below = λ u i h. elim (update_tid-cases s.tid t s.max_tid u i h) [
    | inl (a, b) ↦ omega arith
    | inr o ↦ omega (arith, inv.below u i o)
  ];
  apart = λ u v i h k. elim (update_tid-cases s.tid t s.max_tid u i h) [
    | inl (a, b) ↦ elim (update_tid-cases s.tid t s.max_tid v i k) [
      | inl (c, d) ↦ a ∙ sym c
      | inr o ↦ absurd (omega (arith, inv.below v i o))
    ]
    | inr o ↦ elim (update_tid-cases s.tid t s.max_tid v i k) [
      | inl (c, d) ↦ absurd (omega (arith, inv.below u i o))
      | inr p ↦ inv.apart u v i o p
    ]
  ];
}

set_tid-IsDrawn : (t : ℕ) (s : Ids) → IsDrawn s → IsDrawn (set_tid t s)
unfolding set_tid
set_tid-IsDrawn t s inv = elim (Option-cases (s.tid t)) [
  | inr (i, e) ↦ rw (e, set_tid) inv
  | inl e ↦ rw (e, set_tid) (draw-IsDrawn s t inv)
]

calls-IsDrawn : (ts : List ℕ) → IsDrawn (calls ts)
unfolding calls
calls-IsDrawn [] = record { below = λ t i h. absurd (cc); apart = λ t u i h k. absurd (cc) }
calls-IsDrawn (t ∷ ts) = set_tid-IsDrawn t (calls ts) (calls-IsDrawn ts)

-- After any calls the identifiers are below the count, and two threads have different ones.
pub tid_unique :
    (ts : List ℕ) (t u i j : ℕ)
    → (calls ts).tid t ≡ some i
    → (calls ts).tid u ≡ some j
    → t ≢ u
    → (i < (calls ts).max_tid) × (i ≢ j)
tid_unique ts t u i j h k n =
    let inv = calls-IsDrawn ts in
    (inv.below t i h, λ e. n (inv.apart t u i h (k ∙ ap some (sym e))))
