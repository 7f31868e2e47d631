-- ===== src/Vector.antt =====
-- util/lockfree_vector.h: buckets of 1, 2, 4, ... elements, allocated on demand by any thread.
-- An element is named by its bucket's address and its offset in the bucket; `int` indexes are taken
-- to be below 2^31 - 1, so that `n + 1` does not overflow. Deletion of the bucket that loses the
-- exchange is left out.
pub mod Index
pub mod Runs
use klsm.Base.{ℕ, zero, suc, ◌+◌, ◌-◌, ◌/◌, ◌^◌, ltb, ◌≡◌, ◌==◌, Option, none, some, if◌then◌else◌}

abbrev pub bucket_count : ℕ
bucket_count = 32

-- `while (i > 1) { i >>= 1; log++; }`
unfoldable pub index_loop : ℕ → ℕ → ℕ → ℕ
index_loop zero i log = log
index_loop (suc fuel) i log =
    let rest = index_loop fuel (i / 2) (log + 1) in if ltb 1 i then rest else log

unfoldable pub index_of : ℕ → ℕ
unfolding index_loop
index_of n = index_loop (n + 1) (n + 1) 0

-- `n + 1 - (1 << i)`.
unfoldable pub offset_of : ℕ → ℕ
offset_of n = n + 1 - 2 ^ index_of n

-- `m_buckets`: the address of each, or a null pointer.
abbrev pub Buckets : Type 0
Buckets = ℕ → Option ℕ

abbrev pub install : Buckets → ℕ → ℕ → Buckets
install m i a j = if j == i then some a else m j

-- The exchange with a null pointer: the bucket that is then in place.
unfoldable pub exchange : Buckets → ℕ → ℕ → ℕ × Buckets
exchange m i fresh = elim (m i) [ some a ↦ (a, m) | none ↦ (fresh, install m i fresh) ]

-- Where a thread stands in `get`.
pub data Get : Type 0 where
  away : Get
  seen : (n : ℕ) (bucket : Option ℕ) → Get
  got : (n address : ℕ) → Get

-- A step of a thread: the load, the exchange if the load saw a null pointer, the return.
pub data Step (m : Buckets) : Get → Buckets → Get → Type 0 where
  look : (n : ℕ) → Step m away m (seen n (m (index_of n)))
  reuse : {n a : ℕ} → Step m (seen n (some a)) m (got n a)
  settle :
      {n : ℕ} (fresh : ℕ)
      → Step m
          (seen n none)
          ((exchange m (index_of n) fresh).1)
          (got n ((exchange m (index_of n) fresh).0))
  leave : {n a : ℕ} → Step m (got n a) m away

pub record Threads : Type 0 where
  pub buckets : Buckets
  pub at : ℕ → Get

abbrev pub update_at : (ℕ → Get) → ℕ → Get → ℕ → Get
update_at f t g u = if u == t then g else f u

abbrev pub start : Threads
start = record { buckets = λ i. none; at = λ t. away }

-- The systems that steps of threads, in any order, lead to.
pub data Reach : Threads → Type 0 where
  here : Reach start
  next :
      {s : Threads} (t : ℕ) {m : Buckets} {g : Get}
      → Reach s
      → Step s.buckets (s.at t) m g
      → Reach (record { buckets = m; at = update_at s.at t g })
