-- ===== src/Base/Powers.antt =====
-- Powers of two, in which sizes of blocks are given.
use Prim.Native.Nat.{ℕ, zero, suc, ◌/◌, ◌^◌, ◌≤◌, ◌<◌}
use mathlib.Core.Path.{◌≡◌, ap}
use mathlib.Core.Logic.{inl, inr}
use native.Mathlib.Omega.{arith}
use klsm.Base.Tests.{ltb, Bool-cases}

pub less_than_power : (i : ℕ) → i < 2 ^ i
less_than_power zero = omega arith
less_than_power (suc i) = omega (arith, less_than_power i)

pub half_power : (i : ℕ) → 2 ^ suc i / 2 ≡ 2 ^ i
half_power i = omega arith

pub power-lt : (i j : ℕ) → i < j → 2 ^ i < 2 ^ j
power-lt i zero h = absurd (omega arith)
power-lt zero (suc j) h = omega (arith, less_than_power (suc j))
power-lt (suc i) (suc j) h = omega (arith, power-lt i j (omega arith))

-- A power determines its exponent.
pub power_injective : (i j : ℕ) → i ≤ j → 2 ^ i ≡ 2 ^ j → j ≤ i
power_injective i j h e = elim (Bool-cases (ltb i j)) [
  | inl l ↦ absurd (omega (arith, power-lt i j (ground arith)))
  | inr l ↦ ground arith
]

-- A number lies below a power if it is below the next of a lower one.
pub exponent-lt : (i j n : ℕ) → 2 ^ i ≤ n → n < 2 ^ j → i < j
exponent-lt i j n h k = elim (Bool-cases (ltb i j)) [
  | inl l ↦ ground arith
  | inr l ↦ elim (Bool-cases (ltb j i)) [
    | inl m ↦ absurd (omega (arith, power-lt j i (ground arith)))
    | inr m ↦ let e : i ≡ j = ground arith in absurd (omega (arith, ap (λ x. 2 ^ x) e))
  ]
]
