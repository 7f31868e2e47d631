-- ===== src/Packed.antt =====
-- shared_lsm/versioned_array_ptr.h, versioned_array_ptr_inl.h, aligned_block_array.h and
-- aligned_block_array_inl.h: the global pointer to a block array, with the low bits of the array's
-- version in the low bits of the pointer.
-- An address is a number below 2^64, and `Algn` a power of two, as the source asks. `x & MASK` is
-- then the remainder by `Algn`, `x & ~MASK` is `x` without it, and `x | y` is the sum where `x` is a
-- multiple of `Algn` and `y` is below it.
pub mod Laws
use klsm.Base.{ℕ, ◌+◌, ◌-◌, ◌%◌, ◌==◌, Bool, true, false, Option, none, some, if◌then◌else◌}

abbrev pub default_alignment : ℕ
default_alignment = 2048

module _ (algn : ℕ) where
  -- `x & MASK`.
  abbrev pub low : ℕ → ℕ
  low x = x % algn

  -- `packed_ptr` of an array with a version; `none` where the assertion fails.
  unfoldable pub packed_ptr : ℕ → ℕ → Option ℕ
  packed_ptr ptr version = if low ptr == 0 then some (ptr + low version) else none

  unfoldable pub unpacked_ptr : ℕ → ℕ
  unpacked_ptr ptr = ptr - low ptr

  unfoldable pub matches : ℕ → ℕ → Bool
  matches ptr version = low ptr == low version

  -- `compare_exchange_strong`: whether it succeeds, the expected value and the pointer after it.
  -- `version_of` reads the version of the array at an address.
  unfoldable pub compare_exchange_strong : (ℕ → ℕ) → ℕ → ℕ → ℕ → Option (Bool × ℕ × ℕ)
  unfolding packed_ptr
  compare_exchange_strong version_of pointer expected_packed desired =
      elim (packed_ptr desired (version_of desired)) [
        | none ↦ none
        | some p ↦
            if pointer == expected_packed
            then some (true, expected_packed, p)
            else some (false, pointer, pointer)
      ]

  -- `load` and `version`.
  abbrev pub load : ℕ → ℕ
  load pointer = unpacked_ptr pointer

  unfoldable pub version : (ℕ → ℕ) → ℕ → ℕ
  unfolding unpacked_ptr
  version version_of pointer = version_of (load pointer)

  -- Where `aligned_block_array` puts its array in a buffer at an address: the first multiple of `Algn`.
  unfoldable pub aligned : ℕ → ℕ
  aligned buffer = (buffer + algn - 1) - low (buffer + algn - 1)

  abbrev pub buffer_size : ℕ → ℕ
  buffer_size array_size = algn + array_size
