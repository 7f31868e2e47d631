-- ===== src/Protocol/Runs.antt =====
-- What the protocol of the shared LSM guarantees in every run whose threads move in time.
use mathlib.Core.Bool.{true≢false}
use native.Mathlib.Decide.{ℕ_discrete}
use klsm.Base.{
  ℕ, ◌+◌, ◌≤◌, ◌<◌, ◌≡◌, ◌≢◌, refl, sym, ◌∙◌, ap, inl, inr, Option, none, some, Bool, true, false,
  arith, Bool-cases, subst,
}
use klsm.Protocol.{
  Pointer, Shared, Copy, Pc, Thread, System, Reach, start, later, moves, ready, writing, filling,
  comparing, swapping, array_at, pool_of, first_pivot, same_packed, update_thread,
}
use klsm.Protocol.Inv.{now, Holds, IsSafe, InTime, IsCurrent}
use klsm.Protocol.Change.{IsSafe-Grows}
use klsm.Protocol.Moves.{pool_of-eq}
use klsm.Protocol.Own.{swap-now, lose-later}
use klsm.Protocol.Safety.{Move-After}

-- In each step of the run, the thread that moves is in time.
abbrev pub AllInTime : {width : ℕ} {s : System} → Reach width s → Type 0
AllInTime start = Unit {0}
AllInTime (later {s} r (moves t pos m)) =
    AllInTime r × InTime s.shared (s.threads t).pc (s.threads t).copy

record Inv (width : ℕ) (s : System) : Type 0 where
  current : IsCurrent s.shared
  safe : (t : ℕ) → IsSafe width t s.shared (s.threads t).copy (s.threads t).pc

update_same : (f : ℕ → Thread) (t j : ℕ) (a : Thread) → j ≡ t → update_thread f t a j ≡ a
update_same f t j a e = ground (arith, e)

update_other : (f : ℕ → Thread) (t j : ℕ) (a : Thread) → j ≢ t → update_thread f t a j ≡ f j
update_other f t j a ne = ground (arith, ne)

Reach-Inv : {width : ℕ} {s : System} (r : Reach width s) → AllInTime r → Inv width s
Reach-Inv start time = record {
  current = record {
    intact = record { same = refl; finished = refl; content = λ k. refl };
    parity = refl;
  };
  safe = λ t. ((λ b. omega arith), record { past = omega arith; content = λ j b _. refl });
}
Reach-Inv {width} (later {s} r (moves t {sh} {pc} {l} pos m)) (time, now_in_time) =
    let inv = Reach-Inv r time in
    let after = Move-After m inv.current now_in_time (inv.safe t) in
    record {
      current = after.current;
      safe = λ j. elim (ℕ_discrete j t) [
        | yes e ↦
            rw (update_same s.threads t j (record { pc = pc; copy = l }) e)
              (subst (λ i. IsSafe width i sh l pc) (sym e) after.safe)
        | no ne ↦
            rw (update_other s.threads t j (record { pc = pc; copy = l }) ne)
              (IsSafe-Grows after.grows width j ne (s.threads j).copy (s.threads j).pc (inv.safe j))
      ];
    }

-- Which of its two arrays a thread is about to write, or writes.
abbrev pub writes : Pc → Option ℕ
writes (ready g u) = some (pool_of u)
writes (writing g u) = some (pool_of u)
writes (filling g u) = some (pool_of u)
writes (comparing g u p) = some (pool_of u)
writes (swapping g u) = some (pool_of u)
writes _ = none

-- What an exchange by thread `t` means, by whether it succeeds: the new array has the next version
-- and the copy that it was made of has the current contents but for the pivots, or the observed
-- version has passed.
abbrev pub Exchanged : ℕ → Shared → ℕ → Copy → ℕ → Bool → Type 0
Exchanged width sh t l u true =
    ((sh.arrays t (pool_of u)).stamp ≡ now sh + 1)
    × ((k : ℕ) → k < width → k < first_pivot → l.cell k ≡ sh.history (now sh) k)
Exchanged width sh t l u false = u < now sh

module _ {width : ℕ} {s : System} (r : Reach width s) (time : AllInTime r) (t : ℕ) where
  abbrev sh : Shared
  sh = s.shared

  abbrev own_copy : Copy
  own_copy = (s.threads t).copy

  IsSafe-at : (pc : Pc) → (s.threads t).pc ≡ pc → IsSafe width t sh own_copy pc
  IsSafe-at pc e = subst (IsSafe width t sh own_copy) e ((Reach-Inv r time).safe t)

  -- An array that is being written is not the one that the global pointer names.
  open_differs :
      (b : ℕ) → (sh.arrays t b).done ≡ false → (sh.global.owner ≡ t) × (sh.global.parity ≡ b) → ⊥
  open_differs b e (owner, parity) =
      let i = (Reach-Inv r time).current.intact in
      let same : array_at sh sh.global ≡ sh.arrays t b =
        ap (λ j. sh.arrays j sh.global.parity) owner ∙ ap (sh.arrays t) parity in
      true≢false (sym i.finished ∙ ap (λ a. a.done) same ∙ e)

  writes_apart :
      (pc : Pc) (b : ℕ)
      → IsSafe width t sh own_copy pc
      → writes pc ≡ some b
      → (sh.global.owner ≡ t) × (sh.global.parity ≡ b)
      → ⊥
  writes_apart (ready g u) b (rd, own) e (owner, parity) =
      let c = (Reach-Inv r time).current in
      let b_eq : pool_of u ≡ b = cc in
      let mine : now sh ≤ g.stamp = omega (
        arith,
        c.intact.same,
        ap (λ j. (sh.arrays j sh.global.parity).stamp) owner,
        own sh.global.parity,
      ) in
      omega (arith, rd.was.past, rd.observed, c.parity, pool_of-eq u)
  writes_apart (writing g u) b w e h =
      open_differs b (subst (λ c. (sh.arrays t c).done ≡ false) (cc) w.open_still) h
  writes_apart (filling g u) b w e h =
      open_differs b (subst (λ c. (sh.arrays t c).done ≡ false) (cc) w.open_still) h
  writes_apart (comparing g u p) b (w, _, _) e h =
      open_differs b (subst (λ c. (sh.arrays t c).done ≡ false) (cc) w.open_still) h
  writes_apart (swapping g u) b w e h =
      open_differs b (subst (λ c. (sh.arrays t c).done ≡ false) (cc) w.open_still) h
  writes_apart _ b safe e h = absurd (cc)

  -- In a run whose threads move in time, the array that a thread is about to write, or writes, is
  -- never the one that the global pointer names.
  pub writes-not_global :
      (b : ℕ)
      → writes (s.threads t).pc ≡ some b
      → ¬ ((sh.global.owner ≡ t) × (sh.global.parity ≡ b))
  writes-not_global b e = writes_apart (s.threads t).pc b ((Reach-Inv r time).safe t) e

  -- In a run whose threads move in time, a thread that has refreshed its copy has the version that it
  -- observed, and the size and the block pointers that were published under it. (Of the pivots
  -- nothing is said: its own `peek` may have rewritten those of a copy that is still fresh.)
  pub refresh-snapshot :
      (g : Pointer) (u : ℕ)
      → (s.threads t).pc ≡ ready g u
      → (own_copy.stamp ≡ u)
        × (u ≤ now sh)
        × ((k : ℕ) → k < width → k < first_pivot → own_copy.cell k ≡ sh.history u k)
  refresh-snapshot g u e =
      let (rd, own) = IsSafe-at (ready g u) e in
      (
        omega (arith, rd.version, rd.observed),
        omega (arith, rd.observed, rd.was.past),
        subst (λ v. Holds sh own_copy v width) (sym rd.observed) rd.content,
      )

  -- In a run whose threads move in time, the exchange of a thread that is in time succeeds only if
  -- the new array has the version after the current one and was built on a copy with the current size
  -- and block pointers, and fails only if another array was published since the thread observed its version.
  pub swap-in_order :
      (g : Pointer) (u : ℕ)
      → (s.threads t).pc ≡ swapping g u
      → InTime sh (swapping g u) own_copy
      → Exchanged width sh t own_copy u (same_packed sh.global g)
  swap-in_order g u e in_time =
      let w = IsSafe-at (swapping g u) e in
      elim (Bool-cases (same_packed sh.global g)) [
        | inl same ↦
            let here =
              swap-now width t sh own_copy (Reach-Inv r time).current g u w.ready in_time.since
                same in
            rw same (
              omega (arith, w.new),
              subst (λ v. Holds sh own_copy v width) (sym here) w.ready.content,
            )
        | inr differ ↦ rw differ (
            omega (
              arith,
              w.ready.observed,
              lose-later width t sh own_copy (Reach-Inv r time).current g u w.ready differ,
            ))
      ]
