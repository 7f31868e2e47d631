-- ===== src/Rng.antt =====
-- util/xorshf96.h: the random numbers that peeks and spies draw. The seed is an argument.
use klsm.Base.{ℕ, ◌*◌, ◌/◌, ◌%◌, ◌^◌, bit_xor}

pub record Rng : Type 0 where
  pub x : ℕ
  pub y : ℕ
  pub z : ℕ

-- The constructor that takes a seed.
unfoldable pub xorshf96 : ℕ → Rng
xorshf96 seed = record { x = seed; y = 362436069; z = 521288629 }

-- `x << k` on 64 bits.
abbrev pub shl64 : ℕ → ℕ → ℕ
shl64 x k = x * 2 ^ k % 2 ^ 64

-- `operator()`.
unfoldable pub draw : Rng → ℕ × Rng
draw r =
    let x1 = bit_xor r.x (shl64 r.x 16) in
    let x2 = bit_xor x1 (x1 / 2 ^ 5) in
    let t = bit_xor x2 (shl64 x2 1) in
    let z = bit_xor (bit_xor t r.y) r.z in (z, record { x = r.y; y = r.z; z = z })
