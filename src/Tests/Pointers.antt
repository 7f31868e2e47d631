-- ===== src/Tests/Pointers.antt =====
-- The global array pointer at the default alignment.
use klsm.Base.{ℕ, ◌+◌, ◌%◌, ◌==◌, ◌≡◌, ◌≤◌, refl, true, some, arith}
use klsm.Packed.{
  default_alignment, packed_ptr, unpacked_ptr, matches, compare_exchange_strong, load, aligned,
  buffer_size,
}
use klsm.Packed.Laws.{packed_ptr-unpacked_ptr, compare_exchange_strong_lem, aligned_lem}

-- An array at address 4096 under a version above the alignment.
packed_ptr-unpacked_ptr_example :
    (p : ℕ) × (packed_ptr default_alignment 4096 2050 ≡ some p)
    × (unpacked_ptr default_alignment p ≡ 4096)
    × ((u : ℕ)
        → matches default_alignment p u ≡ (u % default_alignment == 2050 % default_alignment))
packed_ptr-unpacked_ptr_example =
    packed_ptr-unpacked_ptr default_alignment (omega arith) 4096 2050 refl

abbrev version_five : ℕ → ℕ
version_five p = 5

-- The same array and versions that differ by the alignment: the exchange succeeds.
compare_exchange_strong_lem_example :
    (p : ℕ) × (compare_exchange_strong default_alignment version_five (4096 + 2) (4096 + 2) 8192
      ≡ some (true, 4098, p))
    × (load default_alignment p ≡ 8192)
    × (matches default_alignment p 5 ≡ true)
compare_exchange_strong_lem_example =
    compare_exchange_strong_lem default_alignment (omega arith) version_five 4096 2050 4096 2 8192
      refl refl refl

aligned_lem_example :
    (5000 ≤ aligned default_alignment 5000)
    × (aligned default_alignment 5000 % default_alignment ≡ 0)
    × (aligned default_alignment 5000 + 600 ≤ 5000 + buffer_size default_alignment 600)
aligned_lem_example = aligned_lem default_alignment (omega arith) 5000 600
