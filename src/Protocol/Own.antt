-- ===== src/Protocol/Own.antt =====
-- The moves by which a thread writes its own array and publishes it.
use mathlib.Core.Bool.{true≢false}
use native.Mathlib.Decide.{ℕ_discrete, dec_lt}
use klsm.Base.{ℕ, ◌+◌, ◌%◌, ◌≤◌, ◌<◌, ◌≡◌, ◌≢◌, refl, sym, ◌∙◌, ap, true, false, arith, subst}
use klsm.Protocol.{
  Pointer, Array, Shared, Copy, Pc, idle, writing, filling, pool_of, put, put_cell, write_array,
  publish_array, low_bits, same_packed,
}
use klsm.Protocol.Inv.{now, UpTo, Holds, Ready, Writing, IsSafe, IsCurrent}
use klsm.Protocol.Change.{Ready-Grows}
use klsm.Protocol.Writes.{
  put_self, put_else, Overwrites, Grows-written, IsCurrent-written, Grows-published,
  IsCurrent-published,
}
use klsm.Protocol.Moves.{After, pool_of-eq}

put_done :
    (t b : ℕ) (f : ℕ → ℕ → Array) (c : ℕ)
    → (put f t b (record (f t b) { done = true }) t c).stamp ≡ (f t c).stamp
put_done t b f c = elim (ℕ_discrete c b) [
  | yes e ↦
      ap (λ d. (put f t b (record (f t b) { done = true }) t d).stamp) e
      ∙ ap (λ a. a.stamp) (put_self f t b (record (f t b) { done = true }))
      ∙ ap (λ d. (f t d).stamp) (sym e)
  | no ne ↦ ap (λ a. a.stamp) (put_else f t b (record (f t b) { done = true }) c ne)
]

module _ (width t : ℕ) (sh : Shared) (l : Copy) (current : IsCurrent sh) (g : Pointer) (u : ℕ) where
  abbrev mine : Array
  mine = sh.arrays t (pool_of u)

  -- A write that the thread may make leaves it at version `v` of its new array.
  Writing-written :
      (v : ℕ) (a : Array)
      → Overwrites sh t (pool_of u) a
      → Ready width t sh l g u
      → ((b : ℕ) → b ≢ pool_of u → (sh.arrays t b).stamp ≤ g.stamp)
      → a.stamp ≡ v
      → a.done ≡ false
      → Writing width t (write_array sh t (pool_of u) a) l g u v
  Writing-written v a w r own e open_still =
      let self = put_self sh.arrays t (pool_of u) a in
      record {
        ready = Ready-Grows (Grows-written sh t (pool_of u) a w) width t l g u r;
        own = λ b ne.
            omega (arith, ap (λ x. x.stamp) (put_else sh.arrays t (pool_of u) a b ne), own b ne);
        new = ap (λ x. x.stamp) self ∙ e;
        open_still = ap (λ x. x.done) self ∙ open_still;
      }

  After-written :
      (a : Array) (pc : Pc)
      → Overwrites sh t (pool_of u) a
      → IsSafe width t (write_array sh t (pool_of u) a) l pc
      → After width t sh (write_array sh t (pool_of u) a) pc l
  After-written a pc w safe = record {
    grows = Grows-written sh t (pool_of u) a w;
    current = IsCurrent-written sh t (pool_of u) a w current;
    safe = safe;
  }

  -- The array that a thread with a fresh copy begins to write is one that it may write.
  pub Overwrites-ready :
      Ready width t sh l g u
      → UpTo sh t g.stamp
      → Overwrites sh t (pool_of u) (record mine { stamp = l.stamp; done = false })
  Overwrites-ready r own = record {
    up = omega (arith, own (pool_of u), r.version);
    bounded = omega (arith, r.version, r.was.past);
    beyond = λ _ even.
        let below : mine.stamp < g.stamp =
          omega (arith, even, pool_of-eq u, r.observed, own (pool_of u)) in
        omega (arith, r.version, r.was.past);
  }

  pub After-write :
      Ready width t sh l g u
      → UpTo sh t g.stamp
      → After width t sh
          (write_array sh t (pool_of u) (record mine { stamp = l.stamp; done = false }))
          (writing g u)
          l
  After-write r own =
      let a : Array = record mine { stamp = l.stamp; done = false } in
      let w = Overwrites-ready r own in
      After-written a (writing g u) w (Writing-written g.stamp a w r (λ b _. own b) r.version refl)

  -- While the array is open, a write that does not lower its version may be made.
  Overwrites-open :
      (v : ℕ) (a : Array)
      → Writing width t sh l g u v
      → v ≤ a.stamp
      → a.stamp ≤ g.stamp + 1
      → Overwrites sh t (pool_of u) a
  Overwrites-open v a w low high = record {
    up = omega (arith, w.new);
    bounded = omega (arith, w.ready.was.past);
    beyond = λ done _. absurd (true≢false (sym done ∙ w.open_still));
  }

  -- A word of the new array is written.
  pub After-cell :
      (v k x : ℕ) (pc : Pc)
      → v ≤ g.stamp + 1
      → ((sh' : Shared) → Writing width t sh' l g u v → IsSafe width t sh' l pc)
      → Writing width t sh l g u v
      → After width t sh
          (write_array sh t (pool_of u) (record mine { cell = put_cell mine.cell k x }))
          pc
          l
  After-cell v k x pc h safe w =
      let a : Array = record mine { cell = put_cell mine.cell k x } in
      let o = Overwrites-open v a w (omega (arith, w.new)) (omega (arith, w.new)) in
      After-written a pc o (safe _ (Writing-written v a o w.ready w.own w.new w.open_still))

  pub After-increment :
      Writing width t sh l g u g.stamp
      → After width t sh
          (write_array sh t (pool_of u) (record mine { stamp = mine.stamp + 1 }))
          (filling g u)
          l
  After-increment w =
      let a : Array = record mine { stamp = mine.stamp + 1 } in
      let o = Overwrites-open g.stamp a w (omega (arith, w.new)) (omega (arith, w.new)) in
      After-written a (filling g u) o
        (Writing-written (g.stamp + 1) a o w.ready w.own (omega (arith, w.new)) w.open_still)

  own-Writing : Writing width t sh l g u (g.stamp + 1) → UpTo sh t (g.stamp + 1)
  own-Writing w b = elim (ℕ_discrete b (pool_of u)) [
    | yes e ↦ omega (arith, ap (λ c. (sh.arrays t c).stamp) e, w.new)
    | no ne ↦ omega (arith, w.own b ne)
  ]

  -- The exchange succeeds only if nothing was published since the thread loaded the pointer.
  pub swap-now :
      Ready width t sh l g u
      → now sh + 1 < g.stamp + 2048
      → same_packed sh.global g ≡ true
      → now sh ≡ g.stamp
  swap-now r time same =
      let low : low_bits (now sh) ≡ low_bits g.stamp = ground arith in omega (arith, r.was.past)

  pub After-swap :
      Writing width t sh l g u (g.stamp + 1)
      → now sh + 1 < g.stamp + 2048
      → same_packed sh.global g ≡ true
      → After width t sh (publish_array sh t (pool_of u)) idle l
  After-swap w time same =
      let e = swap-now w.ready time same in
      let next : mine.stamp ≡ now sh + 1 = omega (arith, w.new) in
      let parity : pool_of u ≡ (now sh + 1) % 2 = omega (arith, pool_of-eq u, w.ready.observed) in
      let grows = Grows-published sh t (pool_of u) w.open_still next parity in
      let r = Ready-Grows grows width t l g u w.ready in
      record {
        grows = grows;
        current = IsCurrent-published sh t (pool_of u) w.open_still next parity;
        safe = (
          (λ b. omega (arith, put_done t (pool_of u) sh.arrays b, own-Writing w b, w.new)),
          record {
            past = omega (arith, r.version, next);
            content =
                subst (λ v. Holds (publish_array sh t (pool_of u)) l v width) (sym r.version)
                  r.content;
          },
        );
      }

  -- The exchange fails only if something was published since.
  pub lose-later : Ready width t sh l g u → same_packed sh.global g ≡ false → g.stamp < now sh
  lose-later r differ = elim (dec_lt g.stamp (now sh)) [
    | yes later ↦ later
    | no here ↦
        let e : g.stamp ≡ now sh = omega (arith, r.was.past) in
        let owner : g.owner ≡ sh.global.owner = r.was.same_owner e in
        let parity : g.parity ≡ sh.global.parity = omega (arith, r.was.parity, current.parity) in
        let same : same_packed sh.global g ≡ true = ground arith in
        absurd (true≢false (sym same ∙ differ))
  ]

  pub idle-Writing :
      Writing width t sh l g u (g.stamp + 1) → g.stamp < now sh → IsSafe width t sh l idle
  idle-Writing w later = (
    (λ b. omega (arith, own-Writing w b)),
    record {
      past = omega (arith, w.ready.version);
      content = subst (λ v. Holds sh l v width) (sym w.ready.version) w.ready.content;
    },
  )
