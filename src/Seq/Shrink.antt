-- ===== src/Seq/Shrink.antt =====
-- `LSM::delete_min`, the branch in which the block falls below half its capacity: a block of half the
-- capacity takes its values and its place in the list.
use klsm.Base.{
  ℕ, suc, ◌/◌, ◌<◌, ◌≤◌, ◌^◌, ◌≡◌, ◌≢◌, refl, sym, ap, ap₂, subst, ◌∙◌, arith, List, ◌∷◌, ◌++◌,
  Option, none, some, length, ◌⊎◌, ◌==◌, if◌then◌else◌, half_power,
}
use klsm.Base.State.{◌>>=◌, lift, pure}
use klsm.Seq.{Ptr, SeqBlock}
use klsm.Seq.Lsm.{
  Lsm, M, load, store, unused_block, merge_blocks, insert_between, prune_last_block, shrink_best,
}
use klsm.Seq.Blocks.{Holds}
use klsm.Seq.Filling.{shrunk, emptied, emptied-IsIdle, shrink-eq, shrunk-Holds}
use klsm.Seq.Store.{at, load-eq, update_self, update_other, IsPool, Handed}
use klsm.Seq.Pool.{stored_at, Handed-IsPool, Handed-apart, filled-IsPool, released-IsPool}
use klsm.Seq.Chain.{Node, IsIn, IsLsm, chain-once}
use klsm.Seq.Least.{HasFirst}
use klsm.Seq.Between.{IsAllocated, between, between-run, between-levels, between-new}
use klsm.Seq.Round.{seconds}
use klsm.Seq.Taken.{
  popped_block, taken, taken-at, taken-other, taken-Holds, taken-IsPool, listed, inside, size,
}

-- What follows when the smaller block is in the list.
abbrev pub finish : ℕ → Option Ptr → Ptr → SeqBlock → Option Ptr → M (Unit {0})
finish unset next n rhs prev = elim prev [
  | none ↦ elim next [ none ↦ prune_last_block | some x ↦ pure tt ]
  | some p ↦ do
    lhs ← load p
    if lhs.capacity == rhs.capacity
        then (do m ← merge_blocks unset p n; l ← load p; r ← load n; insert_between m l.prev r.next)
        else elim next [ none ↦ prune_last_block | some x ↦ pure tt ]
]

module _ {w : Lsm} (pre post : List Node) (c : Node) (inv : IsLsm w (pre ++ (c ∷ post))) {y : ℕ}
    (first : HasFirst c y) (i : ℕ) (level : c.ptr.0 ≡ suc i) where
  abbrev v : Lsm
  v = taken pre post c inv first

  abbrev IsListed : Ptr → Type 0
  IsListed q = IsIn q (pre ++ (c ∷ post))

  pub once_below : IsListed (i, 0) → IsListed (i, 1) → ⊥
  once_below a b =
      let k =
        seconds (
          chain-once w.blocks 0 none w.head (pre ++ (c ∷ post)) (i, 0) (i, 1) inv.chain a b refl) in
      absurd (omega arith)

  module _ (small : length first.rest < 2 ^ i) {n : Ptr} {v' : Lsm} (got : Handed i v n v') where
    at_c : at v.blocks c.ptr ≡ popped_block pre post c inv first
    at_c = taken-at pre post c inv first

    size_c : (at v.blocks c.ptr).capacity ≡ 2 ^ suc i
    size_c = ap (λ b. b.capacity) at_c ∙ size pre post c inv first ∙ ap (λ j. 2 ^ j) level

    held_c : Holds (at v.blocks c.ptr) first.rest
    held_c = subst (λ b. Holds b first.rest) (sym at_c) (taken-Holds pre post c inv first)

    pool' : IsPool v' IsListed
    pool' = Handed-IsPool (taken-IsPool pre post c inv first) got

    pub inside_n : n.0 < v'.levels
    inside_n = omega (arith, got.level, got.inside)

    pub inside_c : c.ptr.0 < v'.levels
    inside_c = omega (arith, inside pre post c inv first, got.more)

    size_n : (at v'.blocks n).capacity ≡ 2 ^ n.0
    size_n = pool'.sized n inside_n

    half_size : (at v'.blocks n).capacity ≡ (at v.blocks c.ptr).capacity / 2
    half_size =
        size_n ∙ ap (λ j. 2 ^ j) got.level ∙ sym (half_power i) ∙ ap (λ x. x / 2) (sym size_c)

    fits : (at v.blocks c.ptr).size ≤ (at v'.blocks n).capacity
    fits = omega (arith, held_c, size_n, ap (λ j. 2 ^ j) got.level)

    pub new_absent : IsListed n → ⊥
    new_absent = Handed-apart (taken-IsPool pre post c inv first) got

    pub new_apart : (q : Ptr) → IsListed q → q ≢ n
    new_apart q l e = new_absent (subst IsListed e l)

    abbrev pub smaller : SeqBlock
    smaller = shrunk (at v'.blocks n) (at v.blocks c.ptr)

    -- The state in which the values have moved.
    abbrev pub moved : Lsm
    moved = stored_at (stored_at v' n smaller) c.ptr (emptied (at v.blocks c.ptr))

    abbrev pub placed : Option Ptr → Option Ptr → Lsm
    placed prev next = between moved n prev next

    pub smaller-Holds : Holds smaller first.rest
    smaller-Holds = shrunk-Holds got.idle held_c half_size fits

    abbrev pub IsLeft : Ptr → Type 0
    IsLeft q = ((q ≡ n) ⊎ IsListed q) × (q ≢ c.ptr)

    pub moved-IsPool : IsPool moved IsLeft
    moved-IsPool =
        released-IsPool (filled-IsPool pool' n inside_n smaller size_n refl) c.ptr inside_c
          (emptied (at v.blocks c.ptr)) (ap (λ b. b.capacity) at_c ∙ size pre post c inv first)
          (emptied-IsIdle held_c)

    pub moved-new : at moved.blocks n ≡ smaller
    moved-new =
        update_other (stored_at v' n smaller).blocks c.ptr n (emptied (at v.blocks c.ptr))
          (λ e. new_absent (subst IsListed (sym e) (listed pre post c inv first)))
        ∙ update_self v'.blocks n smaller

    pub moved-other : (q : Ptr) → IsListed q → q ≢ c.ptr → at moved.blocks q ≡ at w.blocks q
    moved-other q l n_c =
        update_other (stored_at v' n smaller).blocks c.ptr q (emptied (at v.blocks c.ptr)) n_c
        ∙ update_other v'.blocks n q smaller (new_apart q l)
        ∙ got.same q (inv.pool.allocated q l)
        ∙ taken-other pre post c inv first q n_c

    placed_inside : n.0 < (placed (at v.blocks c.ptr).prev (at v.blocks c.ptr).next).levels
    placed_inside =
        subst (λ k. n.0 < k)
          (sym (between-levels moved n (at v.blocks c.ptr).prev (at v.blocks c.ptr).next)) inside_n

    shrink-run_raw :
        (unset : ℕ)
        → unused_block unset (2 ^ i) v ≡ some (n, v')
        → IsAllocated moved (at v.blocks c.ptr).prev
        → IsAllocated moved (at v.blocks c.ptr).next
        → shrink_best unset c.ptr v
          ≡ finish unset
              (at v.blocks c.ptr).next
              n
              (at (placed (at v.blocks c.ptr).prev (at v.blocks c.ptr).next).blocks n)
              (at (placed (at v.blocks c.ptr).prev (at v.blocks c.ptr).next).blocks n).prev
              (placed (at v.blocks c.ptr).prev (at v.blocks c.ptr).next)
    unfolding shrink_best store
    shrink-run_raw unset e a b =
        rw (◌>>=◌, load-eq v c.ptr (inside pre post c inv first))
          (rw (ap (λ x. x / 2) size_c ∙ half_power i) (
            rw (◌>>=◌, e)
              (rw (◌>>=◌, load-eq v' n inside_n)
                (rw (◌>>=◌, lift, shrink-eq got.idle held_c half_size fits)
                  (rw
                    (
                      ◌>>=◌,
                      between-run moved n (at v.blocks c.ptr).prev (at v.blocks c.ptr).next inside_n
                          a b,
                    )
                    (rw
                      (
                        ◌>>=◌,
                        load-eq (placed (at v.blocks c.ptr).prev (at v.blocks c.ptr).next) n
                            placed_inside,
                      )
                      refl))))))

    pub shrink-run :
        (unset : ℕ) (prev next : Option Ptr)
        → unused_block unset (2 ^ i) v ≡ some (n, v')
        → (at w.blocks c.ptr).prev ≡ prev
        → (at w.blocks c.ptr).next ≡ next
        → IsAllocated moved prev
        → IsAllocated moved next
        → prev ≢ some n
        → next ≢ some n
        → shrink_best unset c.ptr v
          ≡ finish unset next n (at (placed prev next).blocks n) prev (placed prev next)
    shrink-run unset prev next e p q a b f g =
        let p' : (at v.blocks c.ptr).prev ≡ prev = ap (λ b. b.prev) at_c ∙ p in
        let q' : (at v.blocks c.ptr).next ≡ next = ap (λ b. b.next) at_c ∙ q in
        shrink-run_raw unset e (subst (IsAllocated moved) (sym p') a)
          (subst (IsAllocated moved) (sym q') b)
        ∙ ap₂
            (λ o o'.
              finish unset o' n (at (placed o o').blocks n) (at (placed o o').blocks n).prev
                (placed o o'))
            p' q'
        ∙ ap (λ o. finish unset next n (at (placed prev next).blocks n) o (placed prev next))
            (ap (λ b. b.prev) (between-new moved n prev next f g))
