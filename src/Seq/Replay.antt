-- ===== src/Seq/Replay.antt =====
-- `LSM`: sequences of calls, on a new LSM and on a sorted list.
use mathlib.Core.List.Perm
use klsm.Base.{
  ◌+◌, ◌<◌, ◌^◌, length, ℕ, suc, ◌≡◌, refl, subst, arith, List, [], ◌∷◌, Option, none, some, Perm,
}
use klsm.Base.State.{◌>>=◌, ◌>>◌, pure}
use klsm.Seq.{SeqBlock}
use klsm.Seq.Lsm.{Lsm, M, state, lsm, insert, delete_min}
use klsm.Seq.Window.{IsSorted}
use klsm.Seq.Chain.{Node, IsLsm, all_values}
use klsm.Seq.Insert.{lsm-IsLsm, insert_lem}
use klsm.Seq.Delete.{delete_min_lem}
use klsm.Seq.Sorted.{
  perm_length, insert_sorted, insert_sorted-perm, insert_sorted-IsSorted, least-first,
}

-- A call of the interface.
pub data Call : Type 0 where
  inserting : ℕ → Call
  deleting : Call

-- The results of `delete_min`, in order. The loops' fuel is one more than there are levels.
unfoldable pub run : ℕ → List Call → M (List (Option ℕ))
run unset [] = pure []
run unset (inserting k ∷ cs) = do w ← state; insert unset (suc w.levels) k; run unset cs
run unset (deleting ∷ cs) = do
  w ← state
  r ← delete_min unset (suc w.levels)
  rs ← run unset cs
  pure (r ∷ rs)

-- The same calls on a sorted list.
unfoldable pub replay : List Call → List ℕ → List (Option ℕ)
replay [] xs = []
replay (inserting k ∷ cs) xs = replay cs (insert_sorted k xs)
replay (deleting ∷ cs) [] = none ∷ replay cs []
replay (deleting ∷ cs) (x ∷ xs) = some x ∷ replay cs xs

-- The LSM holds the keys of the sorted list.
pub record Stands (w : Lsm) (xs : List ℕ) : Type 0 where
  pub nodes : List Node
  pub valid : IsLsm w nodes
  pub keys : Perm (all_values nodes) xs
  pub ordered : IsSorted xs

abbrev pub Runs : ℕ → List Call → Lsm → List ℕ → Type 0
Runs unset cs w xs = (w' : Lsm) × (run unset cs w ≡ some (replay cs xs, w'))

module _ (unset : ℕ) (cs : List Call) (w : Lsm) where
  insert-Runs :
      (k : ℕ) {w' : Lsm} (xs : List ℕ)
      → insert unset (suc w.levels) k w ≡ some (tt, w')
      → Runs unset cs w' (insert_sorted k xs)
      → Runs unset (inserting k ∷ cs) w xs
  unfolding run replay
  insert-Runs k xs e (v, r) = (v, rw (◌>>=◌, ◌>>◌, e) r)

  none-Runs :
      {w' : Lsm}
      → delete_min unset (suc w.levels) w ≡ some (none, w')
      → Runs unset cs w' []
      → Runs unset (deleting ∷ cs) w []
  unfolding run replay
  none-Runs e (v, r) = (v, rw (◌>>=◌, e) (rw (◌>>=◌, r) refl))

  some-Runs :
      {w' : Lsm} (x : ℕ) (xs : List ℕ)
      → delete_min unset (suc w.levels) w ≡ some (some x, w')
      → Runs unset cs w' xs
      → Runs unset (deleting ∷ cs) w (x ∷ xs)
  unfolding run replay
  some-Runs x xs e (v, r) = (v, rw (◌>>=◌, e) (rw (◌>>=◌, r) refl))

Stands-Runs :
    (unset : ℕ) (cs : List Call) (w : Lsm) (xs : List ℕ)
    → Stands w xs
    → length cs + length xs < 2 ^ 30
    → Runs unset cs w xs
unfolding run replay
Stands-Runs unset [] w xs s few = (w, refl)
Stands-Runs unset (inserting k ∷ cs) w xs s few =
    let (v, ms, e, inv, perm) =
      insert_lem unset (suc w.levels) k s.valid (omega arith) (omega (arith, perm_length s.keys)) in
    insert-Runs unset cs w k xs e (
      Stands-Runs unset cs v (insert_sorted k xs)
        (record {
          nodes = ms;
          valid = inv;
          keys =
              Perm.trans perm
                (Perm.trans (Perm.cons k s.keys) (Perm.symm (insert_sorted-perm k xs)));
          ordered = insert_sorted-IsSorted k xs s.ordered;
        })
        (omega (arith, perm_length (insert_sorted-perm k xs))))
Stands-Runs unset (deleting ∷ cs) w [] s few =
    let (r, v, ms, e, inv, takes) = delete_min_lem unset (suc w.levels) s.valid (omega arith) in
    let a = least-first r (all_values s.nodes) (all_values ms) [] takes s.keys s.ordered in
    none-Runs unset cs w (subst (λ r. delete_min unset (suc w.levels) w ≡ some (r, v)) a.0 e) (
      Stands-Runs unset cs v [] (record { nodes = ms; valid = inv; keys = a.1; ordered = tt })
        (omega arith))
Stands-Runs unset (deleting ∷ cs) w (x ∷ xs) s few =
    let (r, v, ms, e, inv, takes) = delete_min_lem unset (suc w.levels) s.valid (omega arith) in
    let a = least-first r (all_values s.nodes) (all_values ms) (x ∷ xs) takes s.keys s.ordered in
    some-Runs unset cs w x xs (subst (λ r. delete_min unset (suc w.levels) w ≡ some (r, v)) a.0 e) (
      Stands-Runs unset cs v xs
        (record { nodes = ms; valid = inv; keys = a.1; ordered = s.ordered.1 }) (omega arith))

-- Any sequence of fewer than 2^30 calls on a new LSM returns, without a failed assertion, and
-- `delete_min` gives at each of its calls what taking the first of a sorted list gives.
pub run-replay :
    (unset : ℕ) (blocks : ℕ → ℕ → SeqBlock) (cs : List Call)
    → length cs < 2 ^ 30
    → Runs unset cs (lsm blocks) []
run-replay unset blocks cs few =
    Stands-Runs unset cs (lsm blocks) []
      (record { nodes = []; valid = lsm-IsLsm blocks; keys = Perm.nil; ordered = tt }) (omega arith)
