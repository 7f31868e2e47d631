-- ===== src/Alloc/Acquire.antt =====
-- `item_allocator::acquire` always returns, and never an item that is in use.
use klsm.Base.{
  ℕ, zero, suc, ◌+◌, ◌-◌, ◌*◌, ◌≤◌, ◌<◌, ◌≡◌, ◌≢◌, refl, ap, ltb, Bool, true, false, ◌||◌, Option,
  none, some, List, [], ◌∷◌, ◌++◌, arith, Bool-cases, inl, inr, All, ◌⊎◌,
}
use klsm.Alloc.{Allocator, allocator, address, scan, advance, acquire, rotate}

module _ (block_size : ℕ) (is_reusable : ℕ → Bool) where
  -- Chunks are numbered in the order of their creation. No item of a chunk to come, and none from
  -- the current position of a new chunk on, was handed out, so that all of them may be used.
  pub record IsFresh (a : Allocator) : Type 0 where
    pub known : a.head < a.chunks
    pub ring_known : All (λ c. c < a.chunks) a.ring
    pub later : (p : ℕ) → a.chunks * block_size ≤ p → is_reusable p ≡ true
    pub here :
        a.new_block ≡ true
        → (ix : ℕ) → a.offset ≤ ix
        → ix < block_size
        → is_reusable (address block_size a.head ix) ≡ true

  -- The allocator after an item was found at an index.
  abbrev pub found_at : Allocator → ℕ → Allocator
  found_at a ix = record a { offset = ix + 1; amortized = a.amortized + 2 }

  -- The scan ends at an item that may be used, at or behind the current position, or went through
  -- an old chunk without one.
  data Scanned (a : Allocator) (left : ℕ) (r : Option ℕ × Allocator) : Type 0 where
    found :
        (ix : ℕ)
        → a.offset ≤ ix
        → ix < a.offset + left
        → is_reusable (address block_size a.head ix) ≡ true
        → r ≡ (some (address block_size a.head ix), found_at a ix)
        → Scanned a left r
    missed :
        (left ≡ 0) ⊎ (a.new_block ≡ false)
        → r ≡ (none, record a { offset = a.offset + left })
        → Scanned a left r

  step : (a : Allocator) → IsFresh a → IsFresh (record a { offset = a.offset + 1 })
  step a f = record {
    known = f.known;
    ring_known = f.ring_known;
    later = f.later;
    here = λ n ix l. f.here n ix (omega arith);
  }

  -- A step over an item that may not be used.
  Scanned-step :
      (a : Allocator) (left : ℕ) (r : Option ℕ × Allocator)
      → a.new_block ≡ false
      → Scanned (record a { offset = a.offset + 1 }) left r
      → Scanned a (suc left) r
  Scanned-step a left r old (found ix l u ok e) = found ix (omega arith) (omega arith) ok e
  Scanned-step a left r old (missed w e) =
      let shift : a.offset + 1 + left ≡ a.offset + suc left = omega arith in
      missed (inr old) (rw shift at e)

  free_here :
      (left : ℕ) (a : Allocator)
      → IsFresh a
      → a.offset + suc left ≤ block_size
      → a.new_block || is_reusable (address block_size a.head a.offset) ≡ true
      → is_reusable (address block_size a.head a.offset) ≡ true
  free_here left a f b e = elim (Bool-cases a.new_block) [
    | inl n ↦ f.here n a.offset (omega arith) (omega arith)
    | inr o ↦ ground arith
  ]

  scan-Scanned :
      (left : ℕ) (a : Allocator)
      → IsFresh a
      → a.offset + left ≤ block_size
      → Scanned a left (scan block_size is_reusable a left)
  unfolding scan
  scan-Scanned zero a f b =
      missed (inl refl) (
        let e : a.offset ≡ a.offset + 0 = omega arith in
        ap (λ o. (none, record a { offset = o })) e)
  scan-Scanned (suc left) a f b =
      let p = address block_size a.head a.offset in
      elim (Bool-cases (a.new_block || is_reusable p)) [
        | inl e ↦ rw e (found a.offset (omega arith) (omega arith) (free_here left a f b e) refl)
        | inr e ↦ rw e (
            Scanned-step a left _ (ground arith)
              (scan-Scanned left (record a { offset = a.offset + 1 }) (step a f) (omega arith)))
      ]

  All-known :
      (n m : ℕ) (cs : List ℕ) (c : ℕ)
      → n ≤ m
      → c < m
      → All (λ c. c < n) cs
      → All (λ c. c < m) (cs ++ c ∷ [])
  All-known n m [] c h k a = (k, tt)
  All-known n m (d ∷ cs) c h k a = (omega arith, All-known n m cs c h k a.1)

  rotate-known :
      (n h : ℕ) (cs : List ℕ)
      → h < n
      → All (λ c. c < n) cs
      → ((rotate h cs).0 < n) × All (λ c. c < n) (rotate h cs).1
  rotate-known n h [] k a = (k, tt)
  rotate-known n h (c ∷ cs) k a = (a.0, All-known n n cs h (omega arith) k a.1)

  advance-IsFresh : (a : Allocator) → IsFresh a → IsFresh (advance block_size is_reusable a)
  unfolding advance
  advance-IsFresh a f = elim (Bool-cases (ltb a.amortized block_size)) [
    | inl e ↦ rw e (record {
      known = omega arith;
      ring_known =
          All-known a.chunks (a.chunks + 1) a.ring a.head (omega arith) (omega (arith, f.known))
            f.ring_known;
      later = λ p h. f.later p (omega arith);
      here = λ _ ix _ u. f.later (a.chunks * block_size + ix) (omega arith);
    })
    | inr e ↦
        let (head_known, others_known) = rotate-known a.chunks a.head a.ring f.known f.ring_known in
        rw e (record {
          known = head_known;
          ring_known = others_known;
          later = f.later;
          here = λ n. absurd (cc);
        })
  ]

  -- Enough rounds: each one takes a chunk's worth from the credit, or ends in a new chunk.
  abbrev pub Enough : ℕ → Allocator → Type 0
  Enough fuel a =
      (a.amortized + 1 < fuel) ⊎ ((0 < fuel) × (a.new_block ≡ true) × (a.offset < block_size))

  advance-Enough :
      (fuel : ℕ) (a : Allocator)
      → 0 < block_size
      → a.amortized + 1 < suc fuel
      → Enough fuel (advance block_size is_reusable a)
  unfolding advance
  advance-Enough fuel a pos h = elim (Bool-cases (ltb a.amortized block_size)) [
    | inl e ↦ rw e (inr (omega arith, refl, pos))
    | inr e ↦ rw e (inl (ground arith))
  ]

  offset-advance : (a : Allocator) → (advance block_size is_reusable a).offset ≡ 0
  unfolding advance
  offset-advance a = ground arith

  -- `acquire` returns an item that may be used, whatever the state of the ring, and marks the
  -- position so that its chunk cannot give it away again while it is new.
  data Acquired (r : Option (ℕ × Allocator)) : Type 0 where
    acquired :
        (a : Allocator) (ix : ℕ)
        → IsFresh a
        → a.offset ≤ ix
        → ix < block_size
        → is_reusable (address block_size a.head ix) ≡ true
        → r ≡ some (address block_size a.head ix, found_at a ix)
        → Acquired r

  acquire-Acquired :
      (fuel : ℕ) (a : Allocator)
      → 0 < block_size
      → IsFresh a
      → a.offset ≤ block_size
      → Enough fuel a
      → Acquired (acquire block_size is_reusable fuel a)
  unfolding acquire
  acquire-Acquired zero a pos f o enough = absurd (ground arith)
  acquire-Acquired (suc fuel) a pos f o enough =
      let left = block_size - a.offset in
      elim (scan-Scanned left a f (omega arith)) [
        | found ix l u ok e ↦
            rw (ap (λ r. r.0) e, acquire)
              (acquired a ix f l (omega arith) ok
                (ap (λ r. some (address block_size a.head ix, r.1)) e))
        | missed w e ↦
            let old : Allocator = record a { offset = a.offset + left } in
            let fresh : IsFresh old = record {
              known = f.known;
              ring_known = f.ring_known;
              later = f.later;
              here = λ n ix l. f.here n ix (omega arith);
            } in
            let credit : a.amortized + 1 < suc fuel = ground arith in
            let next = advance block_size is_reusable old in
            rw (ap (λ r. r.0) e, acquire)
              (rw (ap (λ r. r.1) e) (
                acquire-Acquired fuel next pos (advance-IsFresh old fresh)
                  (omega (arith, offset-advance old)) (advance-Enough fuel old pos credit)))
      ]

module _ (block_size : ℕ) (is_reusable is_reusable' : ℕ → Bool) where
  -- Giving an item away, and whatever other threads free at the same time, leaves the rest fresh.
  found_at-IsFresh :
      (a : Allocator) (ix : ℕ)
      → IsFresh block_size is_reusable a
      → a.offset ≤ ix
      → ix < block_size
      → ((q : ℕ) → q ≢ address block_size a.head ix → is_reusable q ≡ true → is_reusable' q ≡ true)
      → IsFresh block_size is_reusable' (found_at block_size is_reusable a ix)
  found_at-IsFresh a ix f l u others = record {
    known = f.known;
    ring_known = f.ring_known;
    later = λ q h. others q (λ e. absurd (grind arith)) (f.later q h);
    here = λ n jx h k.
        others (address block_size a.head jx) (λ e. absurd (omega arith))
          (f.here n jx (omega arith) k);
  }

  -- In a state where what was never handed out may be used, `acquire` returns after at most
  -- `amortized + 2` chunks, with an item that is not in use. Once it is initialised, whatever else
  -- other threads free meanwhile, the allocator is again in such a state.
  pub acquire_lem :
      (a : Allocator)
      → 0 < block_size
      → IsFresh block_size is_reusable a
      → a.offset ≤ block_size
      → (p : ℕ) × (a' : Allocator) × (acquire block_size is_reusable (a.amortized + 2) a
          ≡ some (p, a'))
        × (is_reusable p ≡ true)
        × (a'.offset ≤ block_size)
        × (((q : ℕ) → q ≢ p → is_reusable q ≡ true → is_reusable' q ≡ true)
            → IsFresh block_size is_reusable' a')
  acquire_lem a pos f o =
      elim (acquire-Acquired block_size is_reusable (a.amortized + 2) a pos f o
        (inl (omega arith))) [
          | acquired b ix fb l u ok e ↦ (
            address block_size b.head ix,
            found_at block_size is_reusable b ix,
            e,
            ok,
            omega arith,
            found_at-IsFresh b ix fb l u,
          )
        ]

-- A new allocator is in such a state if no item of its memory is in use.
pub allocator-IsFresh :
    (block_size : ℕ) (is_reusable : ℕ → Bool)
    → ((p : ℕ) → is_reusable p ≡ true)
    → IsFresh block_size is_reusable (allocator block_size is_reusable)
unfolding allocator
allocator-IsFresh block_size is_reusable all = record {
  known = omega arith;
  ring_known = tt;
  later = λ p _. all p;
  here = λ _ ix _ _. all (0 * block_size + ix);
}
