-- ===== src/Seq/Between.antt =====
-- `LSM::insert_between`: the state that it leaves, block by block.
use klsm.Base.{◌<◌, ◌≡◌, ◌≢◌, refl, sym, ap, subst, ◌∙◌, Option, none, some, inl, inr}
use klsm.Base.State.{◌>>=◌, ◌>>◌}
use klsm.Seq.{Ptr}
use klsm.Seq.Lsm.{Lsm, modify, insert_between, with_prev, with_next}
use klsm.Seq.Store.{at, modify-eq, update_self, update_other, IsPool}
use klsm.Seq.Pool.{stored_at, map-IsPool, filled-IsPool}

-- After the first, the second and the last two assignments.
abbrev pub lead : Lsm → Ptr → Option Ptr → Lsm
lead w x none = record w { head = some x }
lead w x (some p) = stored_at w p (with_next (some x) (at w.blocks p))

abbrev pub follow : Lsm → Ptr → Option Ptr → Lsm
follow w x none = w
follow w x (some q) = stored_at w q (with_prev (some x) (at w.blocks q))

abbrev pub linked : Lsm → Ptr → Option Ptr → Option Ptr → Lsm
linked w x prev next =
    let v = stored_at w x (with_prev prev (at w.blocks x)) in
    stored_at v x (with_next next (at v.blocks x))

abbrev pub between : Lsm → Ptr → Option Ptr → Option Ptr → Lsm
between w x prev next = linked (follow (lead w x prev) x next) x prev next

abbrev pub IsAllocated : Lsm → Option Ptr → Type 0
IsAllocated w none = Unit {0}
IsAllocated w (some p) = p.0 < w.levels

linked-run :
    (w : Lsm) (x : Ptr) (prev next : Option Ptr)
    → x.0 < w.levels
    → (modify (with_prev prev) x >> modify (with_next next) x) w ≡ some (tt, linked w x prev next)
linked-run w x prev next h =
    rw (◌>>◌, ◌>>=◌, modify-eq (with_prev prev) w x h)
      (modify-eq (with_next next) (stored_at w x (with_prev prev (at w.blocks x))) x h)

pub between-run :
    (w : Lsm) (x : Ptr) (prev next : Option Ptr)
    → x.0 < w.levels
    → IsAllocated w prev
    → IsAllocated w next
    → insert_between x prev next w ≡ some (tt, between w x prev next)
unfolding insert_between
between-run w x none none h a b = linked-run (record w { head = some x }) x none none h
between-run w x none (some q) h a b =
    rw (◌>>=◌, modify-eq (with_prev (some x)) (record w { head = some x }) q b)
      (linked-run (follow (lead w x none) x (some q)) x none (some q) h)
between-run w x (some p) none h a b =
    rw (◌>>=◌, modify-eq (with_next (some x)) w p a)
      (linked-run (lead w x (some p)) x (some p) none h)
between-run w x (some p) (some q) h a b =
    rw (◌>>=◌, modify-eq (with_next (some x)) w p a)
      (rw (◌>>=◌, modify-eq (with_prev (some x)) (lead w x (some p)) q b)
        (linked-run (follow (lead w x (some p)) x (some q)) x (some p) (some q) h))

pub between-levels :
    (w : Lsm) (x : Ptr) (prev next : Option Ptr) → (between w x prev next).levels ≡ w.levels
between-levels w x none none = refl
between-levels w x none (some q) = refl
between-levels w x (some p) none = refl
between-levels w x (some p) (some q) = refl

pub between-head_some :
    (w : Lsm) (x p : Ptr) (next : Option Ptr) → (between w x (some p) next).head ≡ w.head
between-head_some w x p none = refl
between-head_some w x p (some q) = refl

pub between-head_none :
    (w : Lsm) (x : Ptr) (next : Option Ptr) → (between w x none next).head ≡ some x
between-head_none w x none = refl
between-head_none w x (some q) = refl

lead-other :
    (w : Lsm) (x : Ptr) (prev : Option Ptr) (q : Ptr)
    → prev ≢ some q
    → at (lead w x prev).blocks q ≡ at w.blocks q
lead-other w x none q n = refl
lead-other w x (some p) q n =
    update_other w.blocks p q (with_next (some x) (at w.blocks p)) (λ e. n (ap some (sym e)))

follow-other :
    (w : Lsm) (x : Ptr) (next : Option Ptr) (q : Ptr)
    → next ≢ some q
    → at (follow w x next).blocks q ≡ at w.blocks q
follow-other w x none q n = refl
follow-other w x (some p) q n =
    update_other w.blocks p q (with_prev (some x) (at w.blocks p)) (λ e. n (ap some (sym e)))

linked-other :
    (w : Lsm) (x : Ptr) (prev next : Option Ptr) (q : Ptr)
    → q ≢ x
    → at (linked w x prev next).blocks q ≡ at w.blocks q
linked-other w x prev next q n =
    update_other (stored_at w x (with_prev prev (at w.blocks x))).blocks x q
      (with_next next (at (stored_at w x (with_prev prev (at w.blocks x))).blocks x)) n
    ∙ update_other w.blocks x q (with_prev prev (at w.blocks x)) n

module _ (w : Lsm) (x : Ptr) (prev next : Option Ptr) where
  pub between-other :
      (q : Ptr)
      → q ≢ x
      → prev ≢ some q
      → next ≢ some q
      → at (between w x prev next).blocks q ≡ at w.blocks q
  between-other q n a b =
      linked-other (follow (lead w x prev) x next) x prev next q n
      ∙ follow-other (lead w x prev) x next q b
      ∙ lead-other w x prev q a

  pub between-new :
      prev ≢ some x
      → next ≢ some x
      → at (between w x prev next).blocks x ≡ record (at w.blocks x) { prev = prev; next = next }
  between-new a b =
      let v = follow (lead w x prev) x next in
      update_self (stored_at v x (with_prev prev (at v.blocks x))).blocks x
        (with_next next (at (stored_at v x (with_prev prev (at v.blocks x))).blocks x))
      ∙ ap (with_next next) (update_self v.blocks x (with_prev prev (at v.blocks x)))
      ∙ ap (λ b. with_next next (with_prev prev b))
          (follow-other (lead w x prev) x next x b ∙ lead-other w x prev x a)

pub between-prev :
    (w : Lsm) (x p : Ptr) (next : Option Ptr)
    → p ≢ x
    → next ≢ some p
    → at (between w x (some p) next).blocks p ≡ with_next (some x) (at w.blocks p)
between-prev w x p next n b =
    linked-other (follow (lead w x (some p)) x next) x (some p) next p n
    ∙ follow-other (lead w x (some p)) x next p b
    ∙ update_self w.blocks p (with_next (some x) (at w.blocks p))

pub between-next :
    (w : Lsm) (x : Ptr) (prev : Option Ptr) (q : Ptr)
    → q ≢ x
    → prev ≢ some q
    → at (between w x prev (some q)).blocks q ≡ with_prev (some x) (at w.blocks q)
between-next w x prev q n a =
    linked-other (follow (lead w x prev) x (some q)) x prev (some q) q n
    ∙ update_self (lead w x prev).blocks q (with_prev (some x) (at (lead w x prev).blocks q))
    ∙ ap (with_prev (some x)) (lead-other w x prev q a)

-- Links do not matter for which blocks are busy.
pub relinked-IsPool :
    {w : Lsm} {Busy : Ptr → Type 0} (p : Ptr) (prev next : Option Ptr)
    → Busy p
    → IsPool w Busy
    → IsPool (stored_at w p (record (at w.blocks p) { prev = prev; next = next })) Busy
relinked-IsPool {w} {Busy} p prev next b pool =
    map-IsPool w.head (λ q y. elim y [ inl e ↦ subst Busy (sym e) b | inr z ↦ z ]) (λ q y. inr y)
      (filled-IsPool pool p (pool.allocated p b)
        (record (at w.blocks p) { prev = prev; next = next }) (pool.sized p (pool.allocated p b))
        (pool.in_use p b))

abbrev pub IsBusy : (Ptr → Type 0) → Option Ptr → Type 0
IsBusy Busy none = Unit {0}
IsBusy Busy (some p) = Busy p

lead-IsPool :
    {w : Lsm} {Busy : Ptr → Type 0} (x : Ptr) (prev : Option Ptr)
    → IsBusy Busy prev
    → IsPool w Busy
    → IsPool (lead w x prev) Busy
lead-IsPool x none b pool = map-IsPool (some x) (λ q y. y) (λ q y. y) pool
lead-IsPool {w} x (some p) b pool = relinked-IsPool p (at w.blocks p).prev (some x) b pool

follow-IsPool :
    {w : Lsm} {Busy : Ptr → Type 0} (x : Ptr) (next : Option Ptr)
    → IsBusy Busy next
    → IsPool w Busy
    → IsPool (follow w x next) Busy
follow-IsPool x none b pool = pool
follow-IsPool {w} x (some p) b pool = relinked-IsPool p (some x) (at w.blocks p).next b pool

pub between-IsPool :
    {w : Lsm} {Busy : Ptr → Type 0} (x : Ptr) (prev next : Option Ptr)
    → Busy x
    → IsBusy Busy prev
    → IsBusy Busy next
    → IsPool w Busy
    → IsPool (between w x prev next) Busy
between-IsPool {w} x prev next b bp bn pool =
    let v = follow (lead w x prev) x next in
    let v' = stored_at v x (with_prev prev (at v.blocks x)) in
    relinked-IsPool x (at v'.blocks x).prev next b (
      relinked-IsPool x prev (at v.blocks x).next b
        (follow-IsPool x next bn (lead-IsPool x prev bp pool)))
