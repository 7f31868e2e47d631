-- ===== src/Protocol/Writes.antt =====
-- A write to a thread's own array, and its publication, as changes of the shared memory.
use mathlib.Core.Bool.{true≢false}
use native.Mathlib.Decide.{ℕ_discrete}
use klsm.Base.{
  ℕ, ◌+◌, ◌%◌, ◌≤◌, ◌<◌, ◌≡◌, ◌≢◌, refl, sym, ◌∙◌, ap, inl, inr, true, false, ◌==◌, arith,
}
use klsm.Protocol.{Pointer, Array, Shared, array_at, put, write_array, publish_array}
use klsm.Protocol.Inv.{now, Intact, Lost, WasGlobal, IsCurrent}
use klsm.Protocol.Change.{Grows}

pub put_other :
    (f : ℕ → ℕ → Array) (t b : ℕ) (a : Array) (i c : ℕ) → i ≢ t → put f t b a i c ≡ f i c
put_other f t b a i c h = ground (arith, h)

pub put_self : (f : ℕ → ℕ → Array) (t b : ℕ) (a : Array) → put f t b a t b ≡ a
put_self f t b a = ground arith

pub put_else : (f : ℕ → ℕ → Array) (t b : ℕ) (a : Array) (c : ℕ) → c ≢ b → put f t b a t c ≡ f t c
put_else f t b a c h = ground (arith, h)

-- A pointer names the array at `t` and `b`, or one that is not changed.
data At (t b : ℕ) (f : ℕ → ℕ → Array) (a : Array) (i c : ℕ) : Type 0 where
  here : i ≡ t → c ≡ b → put f t b a i c ≡ a → f i c ≡ f t b → At t b f a i c
  elsewhere : put f t b a i c ≡ f i c → At t b f a i c

at : (t b : ℕ) (f : ℕ → ℕ → Array) (a : Array) (i c : ℕ) → At t b f a i c
at t b f a i c = elim (ℕ_discrete i t) [
  | no ne ↦ elsewhere (put_other f t b a i c ne)
  | yes e ↦ elim (ℕ_discrete c b) [
    | no ne ↦
        elsewhere (ap (λ j. put f t b a j c) e ∙ put_else f t b a c ne ∙ ap (λ j. f j c) (sym e))
    | yes e2 ↦
        here e e2 (ap (λ j. put f t b a j c) e ∙ ap (put f t b a t) e2 ∙ put_self f t b a)
          (ap (λ j. f j c) e ∙ ap (f t) e2)
  ]
]

-- What a thread may write in place of its own array.
pub record Overwrites (sh : Shared) (t b : ℕ) (a : Array) : Type 0 where
  pub up : (sh.arrays t b).stamp ≤ a.stamp
  pub bounded : a.stamp ≤ now sh + 1
  pub beyond :
      (sh.arrays t b).done ≡ true
      → (sh.arrays t b).stamp % 2 ≡ b
      → ((sh.arrays t b).stamp < a.stamp) × ((sh.arrays t b).stamp < now sh)

module _ (sh : Shared) (t b : ℕ) (a : Array) (w : Overwrites sh t b a) where
  abbrev written : Shared
  written = write_array sh t b a

  Lost-written :
      (g : Pointer)
      → WasGlobal sh g
      → (array_at sh g ≡ sh.arrays t b)
      → g.parity ≡ b
      → array_at written g ≡ a
      → Lost written g
  Lost-written g was e same e' = elim was.content [
    | inl i ↦
        let before : (sh.arrays t b).stamp ≡ g.stamp = ap (λ x. x.stamp) (sym e) ∙ i.same in
        let (above, outdated) =
          w.beyond (ap (λ x. x.done) (sym e) ∙ i.finished) (omega (arith, before, was.parity)) in
        let after : (array_at written g).stamp ≡ a.stamp = ap (λ x. x.stamp) e' in
        record { above = omega arith; below = omega (arith, w.bounded); outdated = omega arith }
    | inr l ↦
        let before : (array_at sh g).stamp ≡ (sh.arrays t b).stamp = ap (λ x. x.stamp) e in
        let after : (array_at written g).stamp ≡ a.stamp = ap (λ x. x.stamp) e' in
        record {
          above = omega (arith, l.above, w.up);
          below = omega (arith, w.bounded);
          outdated = l.outdated;
        }
  ]

  WasGlobal-elsewhere :
      (g : Pointer) → array_at written g ≡ array_at sh g → WasGlobal sh g → WasGlobal written g
  WasGlobal-elsewhere g e was = record {
    past = was.past;
    parity = was.parity;
    same_owner = was.same_owner;
    content = elim was.content [
      | inl i ↦ inl (record {
        same = ap (λ x. x.stamp) e ∙ i.same;
        finished = ap (λ x. x.done) e ∙ i.finished;
        content = λ k. ap (λ x. x.cell k) e ∙ i.content k;
      })
      | inr l ↦ inr (record {
        above = omega (arith, ap (λ x. x.stamp) e, l.above);
        below = omega (arith, ap (λ x. x.stamp) e, l.below);
        outdated = l.outdated;
      })
    ];
  }

  WasGlobal-written : (g : Pointer) → WasGlobal sh g → WasGlobal written g
  WasGlobal-written g was = elim (at t b sh.arrays a g.owner g.parity) [
    | elsewhere e ↦ WasGlobal-elsewhere g e was
    | here et eb e' e ↦ record {
      past = was.past;
      parity = was.parity;
      same_owner = was.same_owner;
      content = inr (Lost-written g was e eb e');
    }
  ]

  intact-written :
      (g : Pointer)
      → WasGlobal sh g
      → (array_at written g).stamp ≡ g.stamp
      → (array_at sh g).stamp ≡ g.stamp
  intact-written g was same = elim (at t b sh.arrays a g.owner g.parity) [
    | elsewhere e ↦ ap (λ x. x.stamp) (sym e) ∙ same
    | here et eb e' e ↦ absurd (omega (arith, same, (Lost-written g was e eb e').above))
  ]

  pub Grows-written : Grows t sh written
  Grows-written = record {
    later = omega arith;
    history = λ v k h. refl;
    kept = WasGlobal-written;
    others = λ j c ne. put_other sh.arrays t b a j c ne;
    intact = intact-written;
  }

  pub IsCurrent-written : IsCurrent sh → IsCurrent written
  IsCurrent-written c =
      let was : WasGlobal sh sh.global = record {
        past = omega arith;
        parity = c.parity;
        same_owner = λ _. refl;
        content = inl c.intact;
      } in
      record {
        intact = elim (WasGlobal-written sh.global was).content [
          | inl i ↦ i
          | inr l ↦ absurd (omega (arith, l.outdated))
        ];
        parity = c.parity;
      }

module _ (sh : Shared) (t b : ℕ) (open_still : (sh.arrays t b).done ≡ false)
    (next : (sh.arrays t b).stamp ≡ now sh + 1) (parity : b ≡ (now sh + 1) % 2) where
  abbrev published : Shared
  published = publish_array sh t b

  history-published : (v k : ℕ) → v ≤ now sh → published.history v k ≡ sh.history v k
  history-published v k h =
      let e : (v == (sh.arrays t b).stamp) ≡ false = ground (arith, next, h) in rw e refl

  Intact-here : (g : Pointer) → array_at sh g ≡ sh.arrays t b → Intact sh g → ⊥
  Intact-here g e i = true≢false (sym i.finished ∙ ap (λ x. x.done) e ∙ open_still)

  WasGlobal-published : (g : Pointer) → WasGlobal sh g → WasGlobal published g
  WasGlobal-published g was = record {
    past = omega (arith, was.past, next);
    parity = was.parity;
    same_owner = λ e. absurd (omega (arith, e, was.past, next));
    content = elim (at t b sh.arrays (record (sh.arrays t b) { done = true }) g.owner g.parity) [
      | elsewhere e ↦ elim was.content [
        | inl i ↦ inl (record {
          same = ap (λ x. x.stamp) e ∙ i.same;
          finished = ap (λ x. x.done) e ∙ i.finished;
          content =
              λ k. ap (λ x. x.cell k) e ∙ i.content k ∙ sym (history-published g.stamp k was.past);
        })
        | inr l ↦ inr (record {
          above = omega (arith, ap (λ x. x.stamp) e, l.above);
          below = omega (arith, ap (λ x. x.stamp) e, l.below, next);
          outdated = omega (arith, l.outdated, next);
        })
      ]
      | here et eb e' e ↦ elim was.content [
        | inl i ↦ absurd (Intact-here g e i)
        | inr l ↦ inr (record {
          above = omega (arith, ap (λ x. x.stamp) e', ap (λ x. x.stamp) e, l.above);
          below = omega (arith, ap (λ x. x.stamp) e', next);
          outdated = omega (arith, l.outdated, next);
        })
      ]
    ];
  }

  intact-published :
      (g : Pointer)
      → WasGlobal sh g
      → (array_at published g).stamp ≡ g.stamp
      → (array_at sh g).stamp ≡ g.stamp
  intact-published g was same =
      elim (at t b sh.arrays (record (sh.arrays t b) { done = true }) g.owner g.parity) [
        | elsewhere e ↦ ap (λ x. x.stamp) (sym e) ∙ same
        | here et eb e' e ↦ ap (λ x. x.stamp) e ∙ ap (λ x. x.stamp) (sym e') ∙ same
      ]

  pub Grows-published : Grows t sh published
  Grows-published = record {
    later = omega (arith, next);
    history = history-published;
    kept = WasGlobal-published;
    others = λ j c ne. put_other sh.arrays t b (record (sh.arrays t b) { done = true }) j c ne;
    intact = intact-published;
  }

  pub IsCurrent-published : IsCurrent published
  IsCurrent-published =
      let self = put_self sh.arrays t b (record (sh.arrays t b) { done = true }) in
      let hit : ((sh.arrays t b).stamp == (sh.arrays t b).stamp) ≡ true = ground arith in
      record {
        intact = record {
          same = ap (λ x. x.stamp) self;
          finished = ap (λ x. x.done) self;
          content = λ k. ap (λ x. x.cell k) self ∙ sym (rw hit refl);
        };
        parity = omega (arith, parity, next);
      }
