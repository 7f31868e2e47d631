-- ===== src/Seq/Filling.antt =====
-- `LSMBlock::put` and `shrink`: what the block that is filled holds.
use klsm.Base.{
  ℕ, subst, ◌/◌, ◌≤◌, ◌≡◌, refl, sym, ◌∙◌, List, [], ◌∷◌, arith, true, false, some, length,
  length-overlay, overlay, keep, drop,
}
use klsm.Seq.{Elem, SeqBlock, put, put_elem, shrink, set_unused, in_use, pop_from}
use klsm.Seq.Window.{
  IsWritten, stored, keep-IsWritten, overlay-IsTail, stored-drop, stored-pop_from, length-pop_from,
}
use klsm.Seq.Blocks.{Holds, IsIdle, filled, released, released-IsIdle}

stored-unused : (e : Elem) → stored (e ∷ []) ≡ [] → e.used ≡ false
unfolding stored
stored-unused e h = ground arith

single_element :
    (es : List Elem)
    → length es ≡ 1
    → stored es ≡ []
    → (e : Elem) × (es ≡ e ∷ []) × (e.used ≡ false)
single_element [] n h = absurd (omega arith)
single_element (e ∷ []) n h = (e, refl, stored-unused e h)
single_element (e ∷ x ∷ es) n h = absurd (omega arith)

abbrev pub written : ℕ → Elem
written v = record { value = v; used = true }

-- What `put` leaves.
abbrev pub singleton : SeqBlock → ℕ → SeqBlock
singleton b v = filled b (written v ∷ []) 1

module _ {b : SeqBlock} (idle : IsIdle b) (single : b.capacity ≡ 1) (v : ℕ) where
  pub put-eq : put b v ≡ some (singleton b v)
  unfolding put put_elem
  put-eq =
      let (e, h, u) = single_element b.elems (idle.allocated ∙ single) idle.clear in
      rw (h, u, single, idle.empty, idle.free, h) refl

  pub singleton-Holds : Holds (singleton b v) (v ∷ [])
  unfolding stored
  singleton-Holds = record {
    window = (refl, refl, refl);
    sized = refl;
    allocated = sym single;
    taken = refl;
    ordered = (tt, tt);
  }

  -- An idle block of capacity 1 holds exactly the value put into it.
  pub put_lem : (b' : SeqBlock) × (put b v ≡ some b') × Holds b' (v ∷ []) × (b'.capacity ≡ 1)
  put_lem = (singleton b v, put-eq, singleton-Holds, single)

-- What `shrink` leaves.
abbrev pub shrunk : SeqBlock → SeqBlock → SeqBlock
shrunk b that = filled b (overlay (keep in_use (drop that.first that.elems)) b.elems) that.size

abbrev pub emptied : SeqBlock → SeqBlock
emptied that = released that (pop_from that.first that.elems)

pub emptied-IsIdle : {that : SeqBlock} {vs : List ℕ} → Holds that vs → IsIdle (emptied that)
emptied-IsIdle {that} {vs} held =
    released-IsIdle that (pop_from that.first that.elems)
      (stored-pop_from that.elems that.first vs held.window)
      (length-pop_from that.elems that.first ∙ held.allocated)

module _ {b that : SeqBlock} {vs : List ℕ} (idle : IsIdle b) (held : Holds that vs)
    (half : b.capacity ≡ that.capacity / 2) (room : that.size ≤ b.capacity) where
  pub shrink-eq : shrink b that ≡ some (shrunk b that, emptied that)
  unfolding shrink set_unused
  shrink-eq = rw (idle.free, idle.empty, held.taken) (ground arith)

  pub shrunk-Holds : Holds (shrunk b that) vs
  shrunk-Holds = record {
    window =
        overlay-IsTail (keep in_use (drop that.first that.elems)) b.elems vs
          (subst (IsWritten (keep in_use (drop that.first that.elems)))
            (stored-drop that.elems that.first vs held.window)
            (keep-IsWritten (drop that.first that.elems)))
          idle.clear (omega (arith, idle, held));
    sized = held.sized;
    allocated = length-overlay (keep in_use (drop that.first that.elems)) b.elems ∙ idle.allocated;
    taken = refl;
    ordered = held.ordered;
  }
