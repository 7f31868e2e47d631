-- ===== src/Seq/Joined.antt =====
-- `LSM::delete_min`, the merge of the shrunk block with the one in front of it: the invariant holds
-- again, and the list holds the same values.
use mathlib.Core.List.Perm
use klsm.Base.{
  ℕ, suc, ◌<◌, ◌≡◌, ◌≢◌, refl, sym, ap, subst, ◌∙◌, arith, List, [], ◌∷◌, ◌++◌, append_assoc, none,
  some, inl, inr, Perm,
}
use klsm.Seq.{Ptr, SeqBlock}
use klsm.Seq.Lsm.{Lsm}
use klsm.Seq.Window.{merge_values, merge_values-perm}
use klsm.Seq.Store.{at, unused_block_lem}
use klsm.Seq.Chain.{Blocks, Node, IsChain, IsIn, IsLsm, all_values}
use klsm.Seq.Between.{between-head_none, between-head_some}
use klsm.Seq.Splice.{
  chain-behind, chain-prev_first, chain-prev_later, last-cases, IsIn-back, IsIn-front,
}
use klsm.Seq.Link.{first_ptr, none≢some}
use klsm.Seq.Shrink.{finish}
use klsm.Seq.Stays.{some-apart}
use klsm.Seq.Rejoin.{
  IsSplit, v, low, none_above, levels-same, left_init, joined, result, rejoin-run, result-IsPool,
  result-IsTop, result-prev, result-same, joined-chain,
}

-- The merge returns, and the new block takes the place of the two.
abbrev pub Joins : ℕ → Lsm → List Node → Node → Node → List Node → Type 0
Joins unset u init l x post =
    (n : Ptr) × (v : Lsm) × (finish unset (first_ptr post) x.ptr (at u.blocks x.ptr) (some l.ptr) u
      ≡ some (tt, v))
    × IsLsm v (init ++ ((record { ptr = n; values = merge_values l.values x.values }) ∷ post))

module _ (unset : ℕ) {u : Lsm} {f : Blocks} {l x c : Node} {post : List Node} where
  joined_first : IsSplit u f [] l x c post → Joins unset u [] l x post
  joined_first split =
      let (n, u', e, got) =
        unused_block_lem unset split.pool (suc l.ptr.0)
          (omega (arith, split.inside, split.above, split.pool.bounded))
          (omega (arith, split.inside, split.above))
          (λ a b. none_above split (suc l.ptr.0, 0) refl a) in
      let before : (q : Ptr) → none ≡ some q → IsIn q [] = λ q h. none≢some h in
      let prev_eq = chain-prev_first f 0 none u.head l (c ∷ post) split.whole in
      let r = result split got none before tt tt prev_eq in
      (
        n,
        r,
        rejoin-run split got none before tt tt prev_eq unset e,
        record {
          pool = result-IsPool split got none before tt tt prev_eq;
          chain =
              subst (λ o. IsChain r.blocks 0 none o (joined split got ∷ post))
                (sym (between-head_none (v split got) n (first_ptr post)))
                (joined-chain split got none before tt tt prev_eq 0 (omega arith));
          top = result-IsTop split got none before tt tt prev_eq;
        },
      )

  module _ (init : List Node) (z : Node) (split : IsSplit u f (init ++ (z ∷ [])) l x c post) where
    pre_in : (q : Ptr) → some z.ptr ≡ some q → IsIn q (init ++ (z ∷ []))
    pre_in q e = IsIn-back init (z ∷ []) q (inl (cc))

    whole : IsChain f 0 none u.head (init ++ (z ∷ (l ∷ (c ∷ post))))
    whole =
        subst (IsChain f 0 none u.head) (append_assoc init (z ∷ []) (l ∷ (c ∷ post))) split.whole

    prev_eq : (at f l.ptr).prev ≡ some z.ptr
    prev_eq = chain-prev_later f 0 none u.head init z l (c ∷ post) whole

    before_z : (q : Ptr) → IsIn q init → some z.ptr ≢ some q
    before_z q i = some-apart (λ e.
        let k : z.ptr.0 ≡ q.0 = ap (λ p. p.0) e in
        omega
          (arith, klsm.Seq.Splice.chain-below f 0 none u.head init z (l ∷ (c ∷ post)) q whole i))

    joined_later : Joins unset u (init ++ (z ∷ [])) l x post
    joined_later =
        let (n, u', e, got) =
          unused_block_lem unset split.pool (suc l.ptr.0)
            (omega (arith, split.inside, split.above, split.pool.bounded))
            (omega (arith, split.inside, split.above))
            (λ a b. none_above split (suc l.ptr.0, 0) refl a) in
        let in_z = pre_in z.ptr refl in
        let busy_z = left_init split got z.ptr in_z in
        let inside_z : z.ptr.0 < (v split got).levels =
          omega (arith, low split z.ptr in_z, levels-same split got, split.inside, split.above) in
        let r = result split got (some z.ptr) pre_in busy_z inside_z prev_eq in
        (
          n,
          r,
          rejoin-run split got (some z.ptr) pre_in busy_z inside_z prev_eq unset e,
          record {
            pool = result-IsPool split got (some z.ptr) pre_in busy_z inside_z prev_eq;
            chain =
                subst
                  (λ o. IsChain r.blocks 0 none o ((init ++ (z ∷ [])) ++ (joined split got ∷ post)))
                  (sym (between-head_some (v split got) n z.ptr (first_ptr post) ∙ got.head))
                  (subst (IsChain r.blocks 0 none u.head)
                    (sym (append_assoc init (z ∷ []) (joined split got ∷ post)))
                    (chain-behind f r.blocks n z (l ∷ (c ∷ post)) (joined split got ∷ post) 0 none
                      u.head init whole
                      (λ q i.
                        result-same split got (some z.ptr) pre_in busy_z inside_z prev_eq q
                          (IsIn-front init (z ∷ []) q i) (before_z q i))
                      (result-prev split got z.ptr in_z)
                      (joined-chain split got (some z.ptr) pre_in busy_z inside_z prev_eq
                        (suc z.ptr.0) (omega (arith, low split z.ptr in_z)))));
            top = result-IsTop split got (some z.ptr) pre_in busy_z inside_z prev_eq;
          },
        )

  pub joined_lem : (init : List Node) → IsSplit u f init l x c post → Joins unset u init l x post
  joined_lem init split = elim (last-cases init) [
    | inl e ↦
        subst (λ i. IsSplit u f i l x c post → Joins unset u i l x post) (sym e) joined_first split
    | inr (front, z, e) ↦
        subst (λ i. IsSplit u f i l x c post → Joins unset u i l x post) (sym e)
          (joined_later front z) split
  ]

-- The values stay.
pub all_values-join :
    (init : List Node) (l x : Node) (post : List Node) (n : Ptr)
    → Perm (all_values ((init ++ (l ∷ [])) ++ (x ∷ post))) (
        all_values (init ++ ((record { ptr = n; values = merge_values l.values x.values }) ∷ post)))
all_values-join [] l x post n =
    subst (λ vs. Perm vs (merge_values l.values x.values ++ all_values post))
      (append_assoc l.values x.values (all_values post))
      (Perm.append_right (all_values post) (Perm.symm (merge_values-perm l.values x.values)))
all_values-join (m ∷ init) l x post n = Perm.append_left m.values (all_values-join init l x post n)
