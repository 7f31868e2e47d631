-- ===== src/Vector/Index.antt =====
-- `lockfree_vector::index_of`: each index has a place of its own.
use klsm.Base.{
  exponent-lt, ℕ, zero, suc, ◌+◌, ◌-◌, ◌/◌, ◌^◌, ◌<◌, ◌≤◌, ◌≡◌, arith, ltb, Bool-cases, inl, inr,
}
use klsm.Vector.{index_loop, index_of, offset_of, bucket_count}

abbrev Between : ℕ → ℕ → Type 0
Between i n = (2 ^ i ≤ n) × (n < 2 ^ suc i)

index_loop_lem :
    (fuel n log : ℕ)
    → n < fuel + 1
    → 1 ≤ n
    → (k : ℕ) × (index_loop fuel n log ≡ log + k) × (Between k n)
unfolding index_loop
index_loop_lem zero n log h p = absurd (omega arith)
index_loop_lem (suc fuel) n log h p = elim (Bool-cases (ltb 1 n)) [
  | inl e ↦
      let (k, r, b) = index_loop_lem fuel (n / 2) (log + 1) (ground arith) (ground arith) in
      (suc k, rw e (omega arith), (omega arith, omega arith))
  | inr e ↦ (0, rw e (omega arith), (omega arith, ground arith))
]

index_of_lem : (n : ℕ) → Between (index_of n) (n + 1)
unfolding index_of
index_of_lem n =
    let (k, r, b) = index_loop_lem (n + 1) (n + 1) 0 (omega arith) (omega arith) in
    let e : index_loop (n + 1) (n + 1) 0 ≡ k = omega (arith, r) in rw e b

-- The place of an index lies in its bucket, which is one of the buckets, and the index can be read
-- off it.
pub place_bounds :
    (n : ℕ)
    → n < 2 ^ 31 - 1
    → (index_of n < bucket_count)
      × (offset_of n < 2 ^ index_of n)
      × (2 ^ index_of n + offset_of n ≡ n + 1)
unfolding offset_of
place_bounds n h =
    let b = index_of_lem n in
    (
      omega (arith, exponent-lt (index_of n) 31 (n + 1) b.0 (omega arith)),
      omega (arith, b),
      omega (arith, b),
    )
