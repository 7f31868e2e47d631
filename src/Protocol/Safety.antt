-- ===== src/Protocol/Safety.antt =====
-- Every move keeps the shared memory and the thread that makes it in order.
use native.Mathlib.Decide.{dec_lt}
use klsm.Base.{ℕ, suc, ◌+◌, ◌≤◌, ◌<◌, ◌≡◌, ◌≢◌, ◌∙◌, ap, inl, inr, arith}
use klsm.Protocol.{
  Pointer, Shared, Copy, Pc, Move, idle, loaded, seen, testing, searching, reloaded, reseen,
  copying, copied, confirming, ready, writing, filling, comparing, swapping, array_at, word, load,
  see, test, fresh, stale, reload, resee, mismatch, match, copy_cell, copy_again, copy_done,
  confirm, accept, reject, leave, write, write_cell, increment, fill_cell, compare, moved, steady,
  swap, lose,
}
use klsm.Protocol.Inv.{now, WasGlobal, IsSafe, InTime, IsCurrent}
use klsm.Protocol.Moves.{
  After, quiet, Begun-now, IsSnapshot-Ready, UpTo-now, Ready-fresh, Copying-start, Copying-next,
  Copied-end, Ready-accept, global-WasGlobal, SeenAt-array, SeenAt-low, low-word,
}
use klsm.Protocol.Own.{
  After-write, After-cell, After-increment, After-swap, lose-later, idle-Writing,
}

unmoved :
    (sh : Shared) (g : Pointer)
    → WasGlobal sh g
    → now sh ≡ g.stamp
    → (array_at sh g).stamp ≡ g.stamp
unmoved sh g was e = elim was.content [
  | inl i ↦ i.same
  | inr l ↦ absurd (omega (arith, l.outdated))
]

-- A second look at the global pointer that finds another version shows a later publication.
moved-later :
    (sh : Shared) (g p : Pointer) (u : ℕ)
    → u ≡ g.stamp
    → WasGlobal sh p
    → g.stamp ≤ p.stamp
    → word u ≢ word (array_at sh p).stamp
    → g.stamp < now sh
moved-later sh g p u e was le differ = elim was.content [
  | inr l ↦ omega (arith, l.outdated)
  | inl i ↦ elim (dec_lt g.stamp p.stamp) [
    | yes below ↦ omega (arith, was.past)
    | no here ↦
        let same : u ≡ (array_at sh p).stamp = omega (arith, i.same) in
        absurd (differ (ap word same))
  ]
]

-- A move of a thread that is safe and in time leaves it safe.
pub Move-After :
    {width t : ℕ} {sh : Shared} {l : Copy} {sh' : Shared} {l' : Copy} {pc pc' : Pc}
    → Move width t sh l pc sh' pc' l'
    → IsCurrent sh
    → InTime sh pc l
    → IsSafe width t sh l pc
    → After width t sh sh' pc' l'
Move-After {width} {t} {sh} {l = l} load c time (own, snap) =
    quiet width t sh l c (loaded sh.global) l
      (record { begun = Begun-now width t sh l c own; snapshot = snap; older = snap.past })
Move-After {width} {t} {sh} {l = l} (see {g}) c time f =
    quiet width t sh l c (seen g (array_at sh g).stamp) l (f, λ e. unmoved sh g f.begun.was e)
Move-After {width} {t} {sh} {l = l} (test {g} {u}) c time (f, h) =
    quiet width t sh l c (testing g u sh.global) l (f, global-WasGlobal sh c, f.begun.was.past, h)
Move-After {width} {t} {sh} {l = l} (fresh {g} {p} {u} same) c time (f, was, le, h) =
    quiet width t sh l c (ready g u) l (Ready-fresh width t sh l c g p u f was le h time.copy same)
Move-After {width} {t} {sh} {l = l} (stale differ) c time (f, was, le, h) =
    quiet width t sh l c searching l (UpTo-now width t sh l c _ f.begun.was f.begun.own)
Move-After {width} {t} {sh} {l = l} reload c time own =
    quiet width t sh l c (reloaded sh.global) l (Begun-now width t sh l c own)
Move-After {width} {t} {sh} {l = l} (resee {g}) c time b =
    quiet width t sh l c (reseen g (array_at sh g).stamp) l (b, SeenAt-array sh g b.was)
Move-After {width} {t} {sh} {l = l} (mismatch differ) c time (b, s) =
    quiet width t sh l c searching l (UpTo-now width t sh l c _ b.was b.own)
Move-After {width} {t} {sh} {l = l} (match {g} {u} same) c time (b, s) =
    quiet width t sh l c (copying g u 0) _
      (Copying-start width t sh l c g u b (SeenAt-low sh g u s time.since (same ∙ low-word u)))
Move-After {width} {t} {sh} {l = l} (copy_cell {g} {u} {k} below) c time s =
    quiet width t sh l c (copying g u (suc k)) _ (Copying-next width t sh l c g u k below s)
Move-After {width} {t} {sh} {l = l} (copy_again {g} {u} e differ) c time s =
    quiet width t sh l c (copying g u 0) _ (Copying-start width t sh l c g u s.begun s.observed)
Move-After {width} {t} {sh} {l = l} (copy_done {g} {u} {k} e same) c time s =
    quiet width t sh l c (copied g u) l (Copied-end width t sh l c g u k e time.since same s)
Move-After {width} {t} {sh} {l = l} (confirm {g} {u}) c time s =
    quiet width t sh l c (confirming g u sh.global) l s
Move-After {width} {t} {sh} {l = l} (accept {g} {p} {u} here same) c time s =
    quiet width t sh l c (ready g u) l (Ready-accept width t sh l c g u time.since same s)
Move-After {width} {t} {sh} {l = l} (reject differ) c time s =
    quiet width t sh l c searching l (UpTo-now width t sh l c _ s.begun.was s.begun.own)
Move-After {width} {t} {sh} {l = l} (leave {g} {u} cell kept) c time (r, own) =
    quiet width t sh l c idle (record l { cell = cell })
      (UpTo-now width t sh l c g r.was own, IsSnapshot-Ready width t sh l c g u cell kept r)
Move-After {width} {t} {sh} {l = l} (write {g} {u}) c time (r, own) =
    After-write width t sh l c g u r own
Move-After {width} {t} {sh} {l = l} (write_cell {g} {u} k v) c time w =
    After-cell width t sh l c g u g.stamp k v (writing g u) (omega arith) (λ sh' s. s) w
Move-After {width} {t} {sh} {l = l} (increment {g} {u}) c time w =
    After-increment width t sh l c g u w
Move-After {width} {t} {sh} {l = l} (fill_cell {g} {u} k v) c time w =
    After-cell width t sh l c g u (g.stamp + 1) k v (filling g u) (omega arith) (λ sh' s. s) w
Move-After {width} {t} {sh} {l = l} (compare {g} {u}) c time w =
    quiet width t sh l c (comparing g u sh.global) l (w, global-WasGlobal sh c, w.ready.was.past)
Move-After {width} {t} {sh} {l = l} (moved {g} {p} {u} differ) c time (w, was, le) =
    quiet width t sh l c idle l
      (idle-Writing width t sh l c g u w (moved-later sh g p u w.ready.observed was le differ))
Move-After {width} {t} {sh} {l = l} (steady {g} {p} {u} same) c time (w, was, le) =
    quiet width t sh l c (swapping g u) l w
Move-After {width} {t} {sh} {l = l} (swap {g} {u} same) c time w =
    After-swap width t sh l c g u w time.since same
Move-After {width} {t} {sh} {l = l} (lose {g} {u} differ) c time w =
    quiet width t sh l c idle l
      (idle-Writing width t sh l c g u w (lose-later width t sh l c g u w.ready differ))
