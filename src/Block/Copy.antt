-- ===== src/Block/Copy.antt =====
-- `block::copy`: the target gets the live cells of the source, or nothing when they do not fit.
use native.Mathlib.Nat.{sub-zero, add-zero, zero-add}
use native.Mathlib.Numerals.{add-one}
use mathlib.Core.List.{append-nil, append_assoc}
use klsm.Base.{
  ℕ, zero, suc, ◌+◌, ◌≤◌, ◌<◌, ◌≡◌, refl, ap, ◌∙◌, ◌⊎◌, inl, inr, false, none, some, List, [], ◌∷◌,
  ◌++◌, arith, leb, Bool-cases, length, take, set, keep, length-set,
}
use klsm.Block.{BlockItem, Block, Store, capacity, contents, live, taken, copy_loop, copy}
use klsm.Block.Order.{IsSorted, IsValid, keep-IsSorted}

take-set :
    (cells : List BlockItem) (n : ℕ) (c : BlockItem)
    → n < length cells
    → take (suc n) (set cells n c) ≡ take n cells ++ c ∷ []
take-set [] n c h = absurd (omega arith)
take-set (d ∷ cells) zero c h = refl
take-set (d ∷ cells) (suc n) c h = ap (λ t. d ∷ t) (take-set cells n c (omega arith))

-- Whether the copy goes through: each cell meets a free place when its turn comes.
abbrev pub Fits : Store → ℕ → List BlockItem → ℕ → Type 0
Fits s cap src last = (last + length src ≤ cap) ⊎ (last + length (keep (live s) src) < cap)

-- The loop ends with the live cells behind what was there.
copy_loop-some :
    (s : Store) (cap : ℕ) (src cells : List BlockItem) (last : ℕ)
    → length cells ≡ cap
    → Fits s cap src last
    → last ≤ cap
    → let (cells', last') = copy_loop s cap src cells last in
      let n = last + length (keep (live s) src) in
      (last' ≡ some n)
      × (n ≤ cap)
      × (length cells' ≡ cap)
      × (take n cells' ≡ take last cells ++ keep (live s) src)
unfolding copy_loop
copy_loop-some s cap [] cells last h r l = rw (add-zero, append-nil) (refl, l, h, refl)
copy_loop-some s cap (c ∷ src) cells last h r l =
    let room : leb cap last ≡ false = ground arith in
    elim (Bool-cases (taken s c)) [
      | inl e ↦ rw (room, e, copy_loop) (copy_loop-some s cap src cells last h (ground arith) l)
      | inr e ↦
          let (done, fits, full, same) =
            copy_loop-some s cap src (set cells last c) (last + 1) (length-set cells last c ∙ h)
              (ground arith) (ground arith) in
          let n = length (keep (live s) src) in
          let shift : last + suc n ≡ last + 1 + n = omega arith in
          let written : take (last + 1) (set cells last c) ≡ take last cells ++ c ∷ [] =
            rw (add-one last) (take-set cells last c (ground arith)) in
          rw (room, e, copy_loop, shift)
            (
              done,
              fits,
              full,
              same
                  ∙ ap (λ t. t ++ keep (live s) src) written
                  ∙ append_assoc (take last cells) (c ∷ []) (keep (live s) src),
            )
    ]

-- If a cell is left when the count meets the capacity, the copy is given up.
copy_loop-none :
    (s : Store) (cap : ℕ) (src cells : List BlockItem) (last : ℕ)
    → last ≤ cap
    → cap < last + length (keep (live s) src)
    → (copy_loop s cap src cells last).1 ≡ none
unfolding copy_loop
copy_loop-none s cap [] cells last l h = absurd (omega arith)
copy_loop-none s cap (c ∷ src) cells last l h = ground (
  arith,
  copy_loop-none s cap src cells last,
  copy_loop-none s cap src (set cells last c) (last + 1),
)

module _ (s : Store) {dst that : Block} (free : IsValid dst) (valid : IsValid that) where
  -- The target holds exactly the live cells of the source, in their order.
  pub copy_lem :
      dst.first ≡ 0
      → IsSorted (contents that)
      → Fits s (capacity dst) (contents that) 0
      → let b = copy s dst that in
        IsValid b
        × (contents b ≡ keep (live s) (contents that))
        × IsSorted (contents b)
        × (b.first ≡ 0)
        × (b.last ≡ length (keep (live s) (contents that)))
  unfolding copy
  copy_lem z sorted fits =
      let (done, room, full, same) =
        copy_loop-some s (capacity dst) (contents that) dst.block_items 0 free.allocated fits
          (omega arith) in
      let held : contents (copy s dst that) ≡ keep (live s) (contents that) =
        rw (done, z, sub-zero) same in
      let count : (copy s dst that).last ≡ length (keep (live s) (contents that)) =
        rw (done, zero-add) in
      let ok : IsValid (copy s dst that) = record {
        allocated = full;
        ordered = rw (z, count) (omega arith);
        within = rw count (omega arith);
        small = free.small;
      } in
      (ok, held, rw held (keep-IsSorted (live s) (contents that) sorted), z, count)

  -- With more live cells than places the target stays as empty as it was.
  pub copy_aborted :
      capacity dst < length (keep (live s) (contents that))
      → let b = copy s dst that in (b.first ≡ dst.first) × (b.last ≡ dst.last)
  unfolding copy
  copy_aborted h =
      rw
        (copy_loop-none s (capacity dst) (contents that) dst.block_items 0 (omega arith)
          (ground arith))
        (refl, refl)
