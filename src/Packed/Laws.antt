-- ===== src/Packed/Laws.antt =====
-- Packing and unpacking of the global array pointer, and the place of an aligned array.
use native.Mathlib.Nat.{mod-lt, mod-mod, mod-add-mod, mod-add-div, mul-mod_right}
use klsm.Base.{
  ℕ, ◌+◌, ◌-◌, ◌*◌, ◌/◌, ◌%◌, ◌≤◌, ◌<◌, ◌≡◌, sym, ◌∙◌, ap, ◌==◌, ◌&&◌, true, false, some,
  if◌then◌else◌, arith, Bool-cases, inl, inr,
}
use klsm.Packed.{
  low, packed_ptr, unpacked_ptr, matches, compare_exchange_strong, load, aligned, buffer_size,
}

module _ (algn : ℕ) (positive : 0 < algn) where
  low-packed : (ptr v : ℕ) → low algn ptr ≡ 0 → low algn (ptr + low algn v) ≡ low algn v
  low-packed ptr v h =
      let add_zero : 0 + v % algn ≡ v % algn = omega arith in
      sym (mod-add-mod ptr algn (v % algn))
      ∙ ap (λ x. (x + v % algn) % algn) h
      ∙ ap (λ x. x % algn) add_zero
      ∙ mod-mod v algn

  packed_ptr-some : (ptr v : ℕ) → low algn ptr ≡ 0 → packed_ptr algn ptr v ≡ some (ptr + low algn v)
  unfolding packed_ptr
  packed_ptr-some ptr v h = ground (arith, h)

  -- The address of an aligned array and its version are packed, the address comes back when the pointer is
  -- unpacked, and the pointer matches exactly the versions that agree modulo the alignment.
  pub packed_ptr-unpacked_ptr :
      (ptr v : ℕ)
      → ptr % algn ≡ 0
      → (p : ℕ) × (packed_ptr algn ptr v ≡ some p)
        × (unpacked_ptr algn p ≡ ptr)
        × ((u : ℕ) → matches algn p u ≡ (u % algn == v % algn))
  unfolding unpacked_ptr matches
  packed_ptr-unpacked_ptr ptr v h =
      let l = low-packed ptr v h in
      (ptr + low algn v, packed_ptr-some ptr v h, omega (arith, l), λ u. ground (arith, l))

  packed-injective :
      (a b u v : ℕ)
      → a % algn ≡ 0
      → b % algn ≡ 0
      → a + low algn u ≡ b + low algn v
      → (a ≡ b) × (u % algn ≡ v % algn)
  packed-injective a b u v ha hb h =
      let same : u % algn ≡ v % algn =
        sym (low-packed a u ha) ∙ ap (λ x. x % algn) h ∙ low-packed b v hb in
      (omega (arith, same), same)

  packed-same :
      (a b u v : ℕ)
      → a % algn ≡ 0
      → b % algn ≡ 0
      → ((a + low algn u) == (b + low algn v)) ≡ ((a == b) && (u % algn == v % algn))
  packed-same a b u v ha hb = elim (Bool-cases ((a + low algn u) == (b + low algn v))) [
    | inl e ↦
        let (same, agree) = packed-injective a b u v ha hb (ground arith) in
        rw e (ground (arith, same, agree))
    | inr e ↦ rw e (ground arith)
  ]

  -- If the pointer and the expected value were packed from aligned arrays, the exchange with an
  -- aligned array succeeds exactly when they are the same array and their versions agree modulo the
  -- alignment; the pointer then names the desired array and matches its version, and else it stays
  -- as it was and is handed back.
  pub compare_exchange_strong_lem :
      (version_of : ℕ → ℕ) (a u b v desired : ℕ)
      → a % algn ≡ 0
      → b % algn ≡ 0
      → desired % algn ≡ 0
      → (p : ℕ) × (compare_exchange_strong algn version_of (a + low algn u) (b + low algn v) desired
          ≡ some (
              if (a == b) && (u % algn == v % algn)
              then (true, b + low algn v, p)
              else (false, a + low algn u, a + low algn u)))
        × (load algn p ≡ desired)
        × (matches algn p (version_of desired) ≡ true)
  unfolding compare_exchange_strong
  compare_exchange_strong_lem version_of a u b v desired ha hb hd =
      let (p, packed, unpacked, fits) = packed_ptr-unpacked_ptr desired (version_of desired) hd in
      (
        p,
        rw (packed, compare_exchange_strong) (rw (← packed-same a b u v ha hb) (ground arith)),
        unpacked,
        ground (arith, fits (version_of desired)),
      )

  -- The array lies in its buffer, at an aligned address.
  pub aligned_lem :
      (buffer array_size : ℕ)
      → (buffer ≤ aligned algn buffer)
        × (aligned algn buffer % algn ≡ 0)
        × (aligned algn buffer + array_size ≤ buffer + buffer_size algn array_size)
  unfolding aligned
  aligned_lem buffer array_size =
      let x = buffer + algn - 1 in
      let below : x % algn < algn = mod-lt x positive in
      let whole : x - x % algn ≡ algn * (x / algn) = omega (arith, mod-add-div x algn) in
      (omega arith, ap (λ y. y % algn) whole ∙ mul-mod_right algn (x / algn), omega arith)
