-- ===== src/Seq/Delete.antt =====
-- `LSM::delete_min` as a whole: whichever branch it takes, it takes the least value out.
use klsm.Base.{
  ℕ, zero, suc, ◌/◌, ◌<◌, ◌≤◌, ◌^◌, ◌≡◌, refl, sym, ap, subst, arith, leb, List, [], ◌∷◌, ◌++◌,
  Option, none, some, length, inl, inr, ◌⊎◌, ◌==◌, Bool-cases, Perm, less_than_power,
}
use klsm.Base.State.{◌>>=◌}
use klsm.Seq.{Ptr, SeqBlock}
use klsm.Seq.Lsm.{Lsm, delete_min}
use klsm.Seq.Window.{AtLeast}
use klsm.Seq.Store.{at, unused_block_lem}
use klsm.Seq.Chain.{Node, IsLsm, all_values, length-chain}
use klsm.Seq.Least.{HasFirst, Mem, full-first, best_loop_lem}
use klsm.Seq.Splice.{last-cases, chain-below, IsIn-back}
use klsm.Seq.Taken.{Outcome, taken-IsPool, inside, delete-run}
use klsm.Seq.Shorter.{keep-Outcome}
use klsm.Seq.Unlink.{unlink-Outcome}
use klsm.Seq.Shrink.{once_below}
use klsm.Seq.Stays.{first-Outcome}
use klsm.Seq.Behind.{behind-Outcome}
use klsm.Seq.Merges.{merges-Outcome}

values-cases : (xs : List ℕ) → (xs ≡ []) ⊎ (0 < length xs)
values-cases [] = inl refl
values-cases (x ∷ xs) = inr (omega arith)

level-cases : (n : ℕ) → (n ≡ 0) ⊎ ((i : ℕ) × (n ≡ suc i))
level-cases zero = inl refl
level-cases (suc i) = inr (i, refl)

-- The block in front of a list's block, if there is one.
module _ (w : Lsm) (pre post : List Node) (c : Node) {y : ℕ} (first : HasFirst c y)
    (unset : ℕ) where
  abbrev Reached : List Node → Type 0
  Reached p = (inv : IsLsm w (p ++ (c ∷ post))) → Outcome p post c inv first unset

  by_front : Reached [] → ((init : List Node) (l : Node) → Reached (init ++ (l ∷ []))) → Reached pre
  by_front a b = elim (last-cases pre) [
    | inl e ↦ subst Reached (sym e) a
    | inr (init, l, e) ↦ subst Reached (sym e) (b init l)
  ]

  -- A block that stays half full.
  enough-Outcome : 2 ^ c.ptr.0 / 2 ≤ length first.rest → Reached pre
  enough-Outcome h = elim (values-cases first.rest) [
    | inr some_left ↦ λ inv. keep-Outcome pre post c inv first some_left h unset
    | inl e ↦
        by_front (λ inv. unlink-Outcome post c inv first e unset)
          (λ init l inv.
            let low =
              chain-below w.blocks 0 none w.head (init ++ (l ∷ [])) c post l.ptr inv.chain
                (IsIn-back init (l ∷ []) l.ptr (inl refl)) in
            absurd (elim (level-cases c.ptr.0) [
              | inl z ↦ omega arith
              | inr (i, z) ↦ omega (arith, ap length e, ap (λ j. 2 ^ j) z, less_than_power i)
            ]))
  ]

  -- A block that falls below half its capacity.
  less-Outcome : (i : ℕ) → c.ptr.0 ≡ suc i → length first.rest < 2 ^ i → Reached pre
  less-Outcome i level small =
      by_front
        (λ inv. elim (values-cases first.rest) [
          | inl e ↦ unlink-Outcome post c inv first e unset
          | inr some_left ↦
              let (n, v, run, got) =
                unused_block_lem unset (taken-IsPool [] post c inv first) i
                  (omega (arith, inside [] post c inv first, level, inv.pool.bounded))
                  (omega (arith, inside [] post c inv first, level))
                  (once_below [] post c inv first i level) in
              first-Outcome post c inv first i level small some_left unset got run
        ])
        (λ init l inv.
          let (n, v, run, got) =
            unused_block_lem unset (taken-IsPool (init ++ (l ∷ [])) post c inv first) i
              (omega (arith, inside (init ++ (l ∷ [])) post c inv first, level, inv.pool.bounded))
              (omega (arith, inside (init ++ (l ∷ [])) post c inv first, level))
              (once_below (init ++ (l ∷ [])) post c inv first i level) in
          elim (Bool-cases (l.ptr.0 == i)) [
            | inl e ↦
                merges-Outcome init l post c inv first i level small (ground arith) unset got run
            | inr e ↦
                behind-Outcome init l post c inv first i level small unset got run
                  (λ k. ground arith)
          ])

  pub outcome_lem : Reached pre
  outcome_lem = elim (Bool-cases (leb (2 ^ c.ptr.0 / 2) (length first.rest))) [
    | inl e ↦ enough-Outcome (ground arith)
    | inr e ↦
        let short : length first.rest < 2 ^ c.ptr.0 / 2 = ground arith in
        elim (level-cases c.ptr.0) [
          | inl z ↦ absurd (omega (arith, ap (λ j. 2 ^ j) z))
          | inr (i, z) ↦ less-Outcome i z (omega (arith, ap (λ j. 2 ^ j) z))
        ]
  ]

Mem-split :
    (c : Node) (ns : List Node)
    → Mem c ns
    → (pre : List Node) × (post : List Node) × (ns ≡ pre ++ (c ∷ post))
Mem-split c [] m = absurd m
Mem-split c (x ∷ xs) (inl e) = ([], xs, ap (λ n. n ∷ xs) (sym e))
Mem-split c (x ∷ xs) (inr m) =
    let (pre, post, e) = Mem-split c xs m in (x ∷ pre, post, ap (λ t. x ∷ t) e)

-- `r` and the values that stay are what taking the least out of `vs` gives.
abbrev pub TakesLeast : List ℕ → Option ℕ → List ℕ → Type 0
TakesLeast vs none us = (vs ≡ []) × (us ≡ [])
TakesLeast vs (some y) us = AtLeast y vs × Perm vs (y ∷ us)

abbrev pub Deletes : ℕ → ℕ → Lsm → List Node → Type 0
Deletes unset fuel w ns =
    (r : Option ℕ) × (w' : Lsm) × (ms : List Node) × (delete_min unset fuel w ≡ some (r, w'))
    × IsLsm w' ms
    × TakesLeast (all_values ns) r (all_values ms)

empty-run : (unset fuel : ℕ) {w : Lsm} → w.head ≡ none → delete_min unset fuel w ≡ some (none, w)
unfolding delete_min
empty-run unset fuel e = simp (◌>>=◌, e) refl

module _ (unset fuel : ℕ) {w : Lsm} (n : Node) (ns : List Node) (inv : IsLsm w (n ∷ ns))
    (enough : w.levels < fuel) where
  inside_n : n.ptr.0 < w.levels
  inside_n = inv.pool.allocated n.ptr (inl refl)

  short : suc (length ns) ≤ w.levels
  short = omega (
    arith,
    length-chain w.blocks 0 w.levels none w.head (n ∷ ns) (omega arith) inv.chain
        inv.pool.allocated,
  )

  split-Deletes :
      {c : Node} {y : ℕ}
      → klsm.Seq.Lsm.best_loop fuel n.ptr (at w.blocks n.ptr).next w ≡ some (c.ptr, w)
      → HasFirst c y
      → AtLeast y (all_values (n ∷ ns))
      → Mem c (n ∷ ns)
      → Deletes unset fuel w (n ∷ ns)
  split-Deletes {c} {y} found first least m =
      let (pre, post, e) = Mem-split c (n ∷ ns) m in
      let inv' = subst (IsLsm w) e inv in
      let (v, ms, run, ok, perm) = outcome_lem w pre post c first unset inv' in
      (
        some y,
        v,
        ms,
        delete-run pre post c inv' first unset fuel n inv.chain.0 inside_n found run,
        ok,
        (least, subst (λ ns. Perm (all_values ns) (y ∷ all_values ms)) (sym e) perm),
      )

  some-Deletes : Deletes unset fuel w (n ∷ ns)
  some-Deletes =
      let (v, first) = full-first inv.chain.1 (inv.pool.sized n.ptr inside_n) in
      let (c, y, found, m, least_first, least) =
        best_loop_lem w inv.pool.sized fuel (suc n.ptr.0) (some n.ptr) (at w.blocks n.ptr).next ns n
          v (omega (arith, short)) inv.chain.4 (λ p i. inv.pool.allocated p (inr i)) inv.chain.1
          inside_n first in
      split-Deletes found least_first least m

-- With more fuel than levels `delete_min` returns. It takes out a value that none in the list is
-- below, the invariant holds again, and the list then holds the other values; of an empty list it
-- takes none.
pub delete_min_lem :
    (unset fuel : ℕ) {w : Lsm} {ns : List Node}
    → IsLsm w ns
    → w.levels < fuel
    → Deletes unset fuel w ns
delete_min_lem unset fuel {w} {ns = []} inv enough =
    (none, w, [], empty-run unset fuel inv.chain, inv, (refl, refl))
delete_min_lem unset fuel {w} {ns = n ∷ ns} inv enough = some-Deletes unset fuel n ns inv enough
