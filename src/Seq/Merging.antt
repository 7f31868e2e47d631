-- ===== src/Seq/Merging.antt =====
-- `LSM`: two blocks of one level are merged into a block of the next.
use klsm.Base.{
  power-lt, ℕ, suc, ◌*◌, ◌%◌, ◌<◌, ◌^◌, ◌≡◌, ◌≢◌, refl, sym, ap, subst, ◌∙◌, arith, List, some, map,
  ◌⊎◌,
}
use klsm.Base.State.{◌>>=◌, lift}
use klsm.Seq.{Ptr, SeqBlock, popped}
use klsm.Seq.Lsm.{Lsm, store, unused_block, merge_blocks}
use klsm.Seq.Window.{merge_values}
use klsm.Seq.Blocks.{Holds, merged, released, merge-eq, merged-Holds, popped-IsIdle}
use klsm.Seq.Store.{at, load-eq, update_self, update_other, IsPool, Handed}
use klsm.Seq.Pool.{stored_at, Handed-IsPool, Handed-apart, filled-IsPool, released-IsPool}

module _ {w : Lsm} {Busy : Ptr → Type 0} (pool : IsPool w Busy) {h p : Ptr} {us vs : List ℕ}
    (busy_h : Busy h) (busy_p : Busy p) (apart : h ≢ p) (level : p.0 ≡ h.0)
    (held_h : Holds (at w.blocks h) us) (held_p : Holds (at w.blocks p) vs) {m : Ptr} {w' : Lsm}
    (got : Handed (suc h.0) w m w') where
  inside_h : h.0 < w.levels
  inside_h = pool.allocated h busy_h

  inside_p : p.0 < w.levels
  inside_p = pool.allocated p busy_p

  same_h : at w'.blocks h ≡ at w.blocks h
  same_h = got.same h inside_h

  same_p : at w'.blocks p ≡ at w.blocks p
  same_p = got.same p inside_p

  left : Holds (at w'.blocks h) us
  left = rw same_h held_h

  right : Holds (at w'.blocks p) vs
  right = rw same_p held_p

  pool' : IsPool w' Busy
  pool' = Handed-IsPool pool got

  inside_m : m.0 < w'.levels
  inside_m = omega (arith, got)

  size_m : (at w'.blocks m).capacity ≡ 2 ^ suc h.0
  size_m = pool'.sized m inside_m ∙ ap (λ i. 2 ^ i) got.level

  size_h : (at w'.blocks h).capacity ≡ 2 ^ h.0
  size_h = pool'.sized h (omega (arith, inside_h, got.more))

  size_p : (at w'.blocks p).capacity ≡ 2 ^ p.0
  size_p = pool'.sized p (omega (arith, inside_p, got.more))

  twice : (at w'.blocks m).capacity ≡ (at w'.blocks h).capacity * 2
  twice = omega (arith, size_m, size_h)

  equal : (at w'.blocks h).capacity ≡ (at w'.blocks p).capacity
  equal = size_h ∙ ap (λ i. 2 ^ i) (sym level) ∙ sym size_p

  abbrev pub new : SeqBlock
  new = merged (at w'.blocks m) (at w'.blocks h) (at w'.blocks p)

  abbrev pub old : Ptr → SeqBlock
  old q = released (at w'.blocks q) (map popped (at w'.blocks q).elems)

  abbrev pub final : Lsm
  final = stored_at (stored_at (stored_at w' m new) h (old h)) p (old p)

  twice_start : (at w.blocks h).capacity * 2 % 2 ^ 32 ≡ 2 ^ suc h.0
  twice_start =
      let twice_of : (at w.blocks h).capacity * 2 ≡ 2 ^ suc h.0 =
        omega (arith, pool.sized h inside_h) in
      let below : 2 ^ suc h.0 < 2 ^ 32 = power-lt (suc h.0) 32 (omega (arith, got.low)) in
      omega arith

  pub merge_blocks-run :
      (unset : ℕ)
      → unused_block unset (2 ^ suc h.0) w ≡ some (m, w')
      → merge_blocks unset h p w ≡ some (m, final)
  unfolding merge_blocks store
  merge_blocks-run unset e =
      rw (◌>>=◌, load-eq w h inside_h)
        (rw twice_start (
          rw (◌>>=◌, e)
            (rw (◌>>=◌, load-eq w' m inside_m)
              (rw (◌>>=◌, load-eq w' h (omega (arith, inside_h, got.more)))
                (rw (◌>>=◌, load-eq w' p (omega (arith, inside_p, got.more)))
                  (rw (◌>>=◌, lift, merge-eq got.idle left right twice equal) refl))))))

  abbrev pub Left : Ptr → Type 0
  Left q = (((q ≡ m) ⊎ Busy q) × (q ≢ h)) × (q ≢ p)

  pub final-IsPool : IsPool final Left
  final-IsPool =
      released-IsPool
        (released-IsPool (filled-IsPool pool' m inside_m new (pool'.sized m inside_m) refl) h
          (omega (arith, inside_h, got.more)) (old h) size_h (popped-IsIdle left))
        p (omega (arith, inside_p, got.more)) (old p) size_p (popped-IsIdle right)

  other_level : (q : Ptr) → q.0 ≡ h.0 → m ≢ q
  other_level q e n = let k : m.0 ≡ q.0 = ap (λ x. x.0) n in omega (arith, got.level)

  pub final-new : at final.blocks m ≡ new
  final-new =
      update_other (stored_at (stored_at w' m new) h (old h)).blocks p m (old p)
        (other_level p level)
      ∙ update_other (stored_at w' m new).blocks h m (old h) (other_level h refl)
      ∙ update_self w'.blocks m new

  pub new-Holds : Holds new (merge_values us vs)
  new-Holds = merged-Holds got.idle left right twice equal

  pub final-left : at final.blocks h ≡ old h
  final-left =
      update_other (stored_at (stored_at w' m new) h (old h)).blocks p h (old p) apart
      ∙ update_self (stored_at w' m new).blocks h (old h)

  pub final-right : at final.blocks p ≡ old p
  final-right = update_self (stored_at (stored_at w' m new) h (old h)).blocks p (old p)

  pub final-next : (at final.blocks h).next ≡ (at w.blocks h).next
  final-next = ap (λ b. b.next) final-left ∙ ap (λ b. b.next) same_h

  pub final-links :
      ((at final.blocks h).prev ≡ (at w.blocks h).prev)
      × ((at final.blocks p).next ≡ (at w.blocks p).next)
  final-links = (
    ap (λ b. b.prev) final-left ∙ ap (λ b. b.prev) same_h,
    ap (λ b. b.next) final-right ∙ ap (λ b. b.next) same_p,
  )

  pub final-other : (q : Ptr) → Busy q → q ≢ h → q ≢ p → at final.blocks q ≡ at w.blocks q
  final-other q b nh np =
      update_other (stored_at (stored_at w' m new) h (old h)).blocks p q (old p) np
      ∙ update_other (stored_at w' m new).blocks h q (old h) nh
      ∙ update_other w'.blocks m q new (λ e. Handed-apart pool got (subst Busy e b))
      ∙ got.same q (pool.allocated q b)
