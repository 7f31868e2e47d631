-- ===== src/Protocol/Moves.antt =====
-- Each move keeps what holds of the shared memory and of the thread that makes it.
use klsm.Base.{
  ℕ, suc, ◌+◌, ◌%◌, ◌^◌, ◌≤◌, ◌<◌, ◌≡◌, refl, sym, ◌∙◌, ap, inl, inr, ◌==◌, arith, Bool-cases,
  subst,
}
use klsm.Protocol.{
  first_pivot, Pointer, Shared, Copy, Pc, array_at, pool_of, put_cell, word, low_bits,
}
use klsm.Protocol.Inv.{
  now, Intact, WasGlobal, UpTo, Holds, IsSnapshot, SeenAt, Begun, Fresh, Copying, Copied, Ready,
  IsSafe, IsCurrent,
}
use klsm.Protocol.Change.{Grows}

-- What a move leaves.
pub record After (width t : ℕ) (sh sh' : Shared) (pc : Pc) (l : Copy) : Type 0 where
  pub grows : Grows t sh sh'
  pub current : IsCurrent sh'
  pub safe : IsSafe width t sh' l pc

Grows-refl : (t : ℕ) (sh : Shared) → Grows t sh sh
Grows-refl t sh = record {
  later = omega arith;
  history = λ v k h. refl;
  kept = λ g was. was;
  others = λ j b ne. refl;
  intact = λ g was e. e;
}

pub pool_of-eq : (u : ℕ) → pool_of u ≡ (u + 1) % 2
pool_of-eq u = ground arith

pub global-WasGlobal : (sh : Shared) → IsCurrent sh → WasGlobal sh sh.global
global-WasGlobal sh c = record {
  past = omega arith;
  parity = c.parity;
  same_owner = λ _. refl;
  content = inl c.intact;
}

pub SeenAt-array : (sh : Shared) (g : Pointer) → WasGlobal sh g → SeenAt sh g (array_at sh g).stamp
SeenAt-array sh g was = elim was.content [ inl i ↦ inl i.same | inr l ↦ inr (l.above, l.below) ]

-- In time, a version that agrees in its low bits with that of the pointer is the same.
pub SeenAt-low :
    (sh : Shared) (g : Pointer) (v : ℕ)
    → SeenAt sh g v
    → now sh + 1 < g.stamp + 2048
    → low_bits g.stamp ≡ low_bits v
    → v ≡ g.stamp
SeenAt-low sh g v (inl e) since same = e
SeenAt-low sh g v (inr (a, b)) since same = absurd (omega arith)

pub word-low : (u v : ℕ) → word u ≡ word v → low_bits u ≡ low_bits v
word-low u v h = omega arith

pub low-word : (u : ℕ) → low_bits (word u) ≡ low_bits u
low-word u = omega arith

-- An array whose version is still that of the pointer was not lost.
still_Intact :
    (sh : Shared) (g : Pointer) → WasGlobal sh g → (array_at sh g).stamp ≡ g.stamp → Intact sh g
still_Intact sh g was e = elim was.content [
  | inl i ↦ i
  | inr l ↦ absurd (omega (arith, e, l.above))
]

module _ (width t : ℕ) (sh : Shared) (l : Copy) (current : IsCurrent sh) where
  pub quiet : (pc : Pc) (l' : Copy) → IsSafe width t sh l' pc → After width t sh sh pc l'
  quiet pc l' s = record { grows = Grows-refl t sh; current = current; safe = s }

  pub Begun-now : UpTo sh t (now sh) → Begun width t sh l sh.global
  Begun-now own = record { was = global-WasGlobal sh current; own = own }

  -- The copy stays a snapshot when its pivots are rewritten.
  pub IsSnapshot-Ready :
      (g : Pointer) (u : ℕ) (cell : ℕ → ℕ)
      → ((k : ℕ) → k < first_pivot → cell k ≡ l.cell k)
      → Ready width t sh l g u
      → IsSnapshot width sh (record l { cell = cell })
  IsSnapshot-Ready g u cell kept r = record {
    past = omega (arith, r.version, r.was.past);
    content = λ j below fixed.
        kept j fixed ∙ subst (λ v. Holds sh l v width) (sym r.version) r.content j below fixed;
  }

  pub UpTo-now : (g : Pointer) → WasGlobal sh g → UpTo sh t g.stamp → UpTo sh t (now sh)
  UpTo-now g was own b = omega (arith, was.past, own b)

  pub Ready-fresh :
      (g p : Pointer) (u : ℕ)
      → Fresh width t sh l g
      → WasGlobal sh p
      → g.stamp ≤ p.stamp
      → (p.stamp ≡ g.stamp → u ≡ g.stamp)
      → now sh + 1 < l.stamp + 2 ^ 32
      → word l.stamp ≡ word (array_at sh p).stamp
      → Ready width t sh l g u × UpTo sh t g.stamp
  Ready-fresh g p u f was le known time same =
      let at : SeenAt sh p (array_at sh p).stamp = SeenAt-array sh p was in
      let equal : (array_at sh p).stamp ≡ l.stamp = elim at [
        | inl e ↦ omega (arith, e, was.past, f.older)
        | inr (a, b) ↦ omega (arith, f.older)
      ] in
      let stopped : p.stamp ≡ g.stamp = elim at [
        | inl e ↦ omega (arith, f.older)
        | inr (a, b) ↦ omega (arith, f.older)
      ] in
      let here : l.stamp ≡ g.stamp = elim at [
        | inl e ↦ omega (arith, f.older)
        | inr (a, b) ↦ omega (arith, f.older)
      ] in
      (
        record {
          was = f.begun.was;
          observed = known stopped;
          version = here;
          content = subst (λ v. Holds sh l v width) here f.snapshot.content;
        },
        f.begun.own,
      )

  pub Copying-start :
      (g : Pointer) (u : ℕ)
      → Begun width t sh l g
      → u ≡ g.stamp
      → Copying width t sh (record l { stamp = (array_at sh g).stamp }) g u 0
  Copying-start g u b e = record {
    begun = record { was = b.was; own = b.own };
    observed = e;
    within = omega arith;
    version = SeenAt-array sh g b.was;
    content = λ _ j below _. absurd (omega arith);
  }

  pub Copying-next :
      (g : Pointer) (u k : ℕ)
      → k < width
      → Copying width t sh l g u k
      → Copying width t sh
          (record l { cell = put_cell l.cell k ((array_at sh g).cell k) })
          g
          u
          (suc k)
  Copying-next g u k below c = record {
    begun = record { was = c.begun.was; own = c.begun.own };
    observed = c.observed;
    within = omega arith;
    version = c.version;
    content = λ same j b fixed. elim (Bool-cases (j == k)) [
      | inl e ↦
          let i = still_Intact sh g c.begun.was same in
          let j_eq : j ≡ k = ground arith in rw e (i.content k ∙ ap (sh.history g.stamp) (sym j_eq))
      | inr e ↦ rw e (c.content same j (ground arith) fixed)
    ];
  }

  pub Copied-end :
      (g : Pointer) (u k : ℕ)
      → k ≡ width
      → now sh + 1 < g.stamp + 2048
      → word (array_at sh g).stamp ≡ word l.stamp
      → Copying width t sh l g u k
      → Copied width t sh l g u
  Copied-end g u k e time same c = record {
    begun = c.begun;
    observed = c.observed;
    version = c.version;
    content = λ here.
        let low = word-low (array_at sh g).stamp l.stamp same in
        let kept : (array_at sh g).stamp ≡ g.stamp =
          SeenAt-low sh g (array_at sh g).stamp (SeenAt-array sh g c.begun.was) time
            (sym (low ∙ ap low_bits here)) in
        subst (Holds sh l g.stamp) e (c.content kept);
  }

  pub Ready-accept :
      (g : Pointer) (u : ℕ)
      → now sh + 1 < g.stamp + 2048
      → word u ≡ word l.stamp
      → Copied width t sh l g u
      → Ready width t sh l g u × UpTo sh t g.stamp
  Ready-accept g u time same c =
      let here : l.stamp ≡ g.stamp =
        SeenAt-low sh g l.stamp c.version time
          (sym (ap low_bits c.observed) ∙ word-low u l.stamp same) in
      (
        record {
          was = c.begun.was;
          observed = c.observed;
          version = here;
          content = c.content here;
        },
        c.begun.own,
      )
