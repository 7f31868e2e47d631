-- ===== src/Seq/Loop.antt =====
-- `LSM::insert`, its loop: blocks of one level are merged until the levels differ.
use mathlib.Core.List.Perm
use klsm.Base.{
  ℕ, zero, suc, ◌+◌, ◌^◌, ◌<◌, ◌≡◌, refl, ◌∙◌, arith, List, [], ◌∷◌, ◌++◌, none, some, length, inl,
  inr, ◌==◌, Bool-cases, Perm,
}
use klsm.Base.State.{◌>>=◌}
use klsm.Seq.{Ptr}
use klsm.Seq.Lsm.{Lsm, insert_loop}
use klsm.Seq.Window.{merge_values}
use klsm.Seq.Store.{at, unused_block_lem}
use klsm.Seq.Chain.{Node, all_values}
use klsm.Seq.Round.{
  IsLoop, equal_level, stop-run, stopped, once, after, next-IsLoop, next_perm, round-run, next_low,
  fewer,
}

abbrev pub Ends : ℕ → ℕ → Ptr → List ℕ → List Node → Lsm → Type 0
Ends unset fuel p vs ns w =
    (m : Ptr) × (w' : Lsm) × (us : List ℕ) × (ms : List Node) × (insert_loop unset fuel p w
      ≡ some (m, w'))
    × IsLoop (suc m.0) w' m us ms
    × Perm (us ++ all_values ms) (vs ++ all_values ns)

empty-run :
    (w : Lsm) (p : Ptr) (unset fuel : ℕ)
    → w.head ≡ none
    → insert_loop unset (suc fuel) p w ≡ some (p, w)
unfolding insert_loop
empty-run w p unset fuel h = simp (◌>>=◌, h)

-- The loop ends, with more fuel than blocks and fewer than 2^30 values, in front of a list whose
-- blocks are all of higher levels.
pub insert_loop_lem :
    (unset fuel : ℕ) (w : Lsm) (p : Ptr) (vs : List ℕ) (ns : List Node)
    → length ns < fuel
    → length vs + length (all_values ns) < 2 ^ 30
    → IsLoop p.0 w p vs ns
    → Ends unset fuel p vs ns w
insert_loop_lem unset zero w p vs ns k few loop = absurd (omega arith)
insert_loop_lem unset (suc fuel) w p vs [] k few loop = (
  p,
  w,
  vs,
  [],
  empty-run w p unset fuel loop.chain,
  record {
    pool = loop.pool;
    full = loop.full;
    prev = loop.prev;
    chain = loop.chain;
    apart = loop.apart;
    top = loop.top;
  },
  Perm.refl (vs ++ []),
)
insert_loop_lem unset (suc fuel) w p vs (h ∷ ns) k few loop =
    elim (Bool-cases ((at w.blocks h.ptr).capacity == (at w.blocks p).capacity)) [
      | inr e ↦ (
        p,
        w,
        vs,
        h ∷ ns,
        stop-run loop e unset fuel,
        stopped loop e,
        Perm.refl (vs ++ all_values (h ∷ ns)),
      )
      | inl e ↦
          let level = equal_level loop e in
          let (m, w', run, got) =
            unused_block_lem unset loop.pool (suc h.ptr.0) (next_low unset loop level few)
              (loop.pool.allocated h.ptr (inr (inl refl))) (once unset loop level) in
          let (m', w'', us, ms, r, l, q) =
            insert_loop_lem unset fuel
              (record (after unset loop level got) { head = (at w.blocks h.ptr).next }) m
              (merge_values h.values vs) ns (omega arith) (fewer unset loop level few)
              (next-IsLoop unset loop level got) in
          (
            m',
            w'',
            us,
            ms,
            round-run unset loop level got fuel run ∙ r,
            l,
            Perm.trans q (next_perm unset loop level got),
          )
    ]
