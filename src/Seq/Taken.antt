-- ===== src/Seq/Taken.antt =====
-- `LSM::delete_min` after the first value of a block was popped: `c` is that block, with `pre` in
-- front of it and `post` behind it.
use mathlib.Core.List.Perm
use klsm.Base.{
  ℕ, suc, ◌*◌, ◌/◌, ◌^◌, ◌<◌, ◌≤◌, ◌≡◌, ◌≢◌, refl, sym, ap, subst, arith, ltb, List, [], ◌∷◌, ◌++◌,
  Option, none, some, length, inl, inr, Perm, perm_middle, if◌then◌else◌, ◌==◌, ◌&&◌,
}
use klsm.Base.State.{◌>>=◌, ◌>>◌, lift, pure}
use klsm.Seq.{Ptr, SeqBlock}
use klsm.Seq.Lsm.{Lsm, M, store, best_loop, delete_min, is_head, unlink_head, shrink_best}
use klsm.Seq.Blocks.{Holds}
use klsm.Seq.Popping.{pop-eq, left_over}
use klsm.Seq.Store.{at, load-eq, update_self, update_other, IsPool}
use klsm.Seq.Pool.{stored_at, filled-IsPool, map-IsPool}
use klsm.Seq.Chain.{Node, IsFull, IsChain, IsIn, IsLsm, all_values}
use klsm.Seq.Least.{HasFirst}
use klsm.Seq.Splice.{IsIn-back, chain-full, chain-tail}
use klsm.Seq.Link.{first_ptr, chain-first}

-- What is left to do.
abbrev pub branch : ℕ → Option Ptr → Ptr → SeqBlock → M (Unit {0})
branch unset head best b =
    if (b.size == 0) && is_head head best
    then unlink_head best
    else if ltb b.size (b.capacity / 2)
    then shrink_best unset best
    else pure tt

-- One value fewer in the list.
pub all_values-replace :
    (pre post : List Node) (c d : Node) (y : ℕ)
    → c.values ≡ y ∷ d.values
    → Perm (all_values (pre ++ (c ∷ post))) (y ∷ all_values (pre ++ (d ∷ post)))
all_values-replace [] post c d y e = rw e (Perm.refl ((y ∷ d.values) ++ all_values post))
all_values-replace (n ∷ pre) post c d y e =
    Perm.trans (Perm.append_left n.values (all_values-replace pre post c d y e))
      (perm_middle n.values (all_values (pre ++ (d ∷ post))))

module _ {w : Lsm} (pre post : List Node) (c : Node) (inv : IsLsm w (pre ++ (c ∷ post))) {y : ℕ}
    (first : HasFirst c y) where
  pub full : IsFull w.blocks c
  full = chain-full w.blocks 0 none w.head pre c post inv.chain

  pub held : Holds (at w.blocks c.ptr) (y ∷ first.rest)
  held = subst (Holds (at w.blocks c.ptr)) first.split full.holds

  abbrev pub popped_block : SeqBlock
  popped_block = left_over held ((pop-eq held).0)

  -- The state after the pop.
  abbrev pub taken : Lsm
  taken = stored_at w c.ptr popped_block

  pub listed : IsIn c.ptr (pre ++ (c ∷ post))
  listed = IsIn-back pre (c ∷ post) c.ptr (inl refl)

  pub inside : c.ptr.0 < w.levels
  inside = inv.pool.allocated c.ptr listed

  pub size : (at w.blocks c.ptr).capacity ≡ 2 ^ c.ptr.0
  size = inv.pool.sized c.ptr inside

  pub taken-at : at taken.blocks c.ptr ≡ popped_block
  taken-at = update_self w.blocks c.ptr popped_block

  pub taken-other : (q : Ptr) → q ≢ c.ptr → at taken.blocks q ≡ at w.blocks q
  taken-other q n = update_other w.blocks c.ptr q popped_block n

  pub taken-Holds : Holds popped_block first.rest
  taken-Holds = (pop-eq held).3

  pub half : 2 ^ c.ptr.0 ≤ 2 * suc (length first.rest)
  half = omega (arith, full.half, size, ap length first.split)

  pub taken-IsPool : IsPool taken (λ p. IsIn p (pre ++ (c ∷ post)))
  taken-IsPool =
      map-IsPool w.head
        (λ p b. elim b [
          | inl e ↦ subst (λ p. IsIn p (pre ++ (c ∷ post))) (sym e) listed
          | inr i ↦ i
        ])
        (λ p i. inr i)
        (filled-IsPool inv.pool c.ptr inside popped_block size (inv.pool.in_use c.ptr listed))

  pub behind : IsChain w.blocks (suc c.ptr.0) (some c.ptr) (at w.blocks c.ptr).next post
  behind = chain-tail w.blocks 0 none w.head pre c post inv.chain

  pub next-eq : (at w.blocks c.ptr).next ≡ first_ptr post
  next-eq = chain-first w.blocks (suc c.ptr.0) (some c.ptr) post behind

  pub delete-run :
      (unset fuel : ℕ) (h : Node) {v : Lsm}
      → w.head ≡ some h.ptr
      → h.ptr.0 < w.levels
      → best_loop fuel h.ptr (at w.blocks h.ptr).next w ≡ some (c.ptr, w)
      → branch unset w.head c.ptr popped_block taken ≡ some (tt, v)
      → delete_min unset fuel w ≡ some (some y, v)
  unfolding delete_min store
  delete-run unset fuel h {v} e k found run =
      simp (◌>>=◌, e)
        (rw (◌>>=◌, load-eq w h.ptr k)
          (rw (◌>>=◌, found)
            (rw (◌>>=◌, load-eq w c.ptr inside)
              (rw (◌>>=◌, lift, (pop-eq held).2) (rw (◌>>◌, ◌>>=◌, run) refl)))))

  -- What a branch leaves: the invariant, and the list without the value.
  abbrev pub Outcome : ℕ → Type 0
  Outcome unset =
      (v : Lsm) × (ms : List Node) × (branch unset w.head c.ptr popped_block taken ≡ some (tt, v))
      × IsLsm v ms
      × Perm (all_values (pre ++ (c ∷ post))) (y ∷ all_values ms)
