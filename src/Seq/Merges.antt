-- ===== src/Seq/Merges.antt =====
-- `LSM::delete_min`: a block is shrunk behind a block of the level that it falls to, and is merged
-- with it.
use mathlib.Core.List.Perm
use klsm.Base.{
  ℕ, suc, ◌<◌, ◌^◌, ◌≡◌, ◌≢◌, refl, sym, ap, subst, ◌∙◌, arith, true, false, List, [], ◌∷◌, ◌++◌,
  append_assoc, Bool, none, some, length, inl, ◌==◌, ◌&&◌,
}
use klsm.Seq.{Ptr}
use klsm.Seq.Lsm.{Lsm, is_head, unused_block}
use klsm.Seq.Window.{merge_values}
use klsm.Seq.Store.{at, IsPool, Handed}
use klsm.Seq.Pool.{map-IsPool}
use klsm.Seq.Chain.{Node, IsChain, IsIn, IsLsm, IsTop}
use klsm.Seq.Least.{HasFirst}
use klsm.Seq.Splice.{chain-below, chain-follow}
use klsm.Seq.Link.{first_ptr, chain-first}
use klsm.Seq.Taken.{Outcome, popped_block, taken, half, inside, all_values-replace}
use klsm.Seq.Placing.{
  place, levels-eq, new-eq, place-Holds, left-IsIn, IsIn-left, back-Follows, behind_moved,
}
use klsm.Seq.Stays.{shrink-branch, whole, l_apart, s, s-IsPool, before_next, placed-run}
use klsm.Seq.Behind.{init_same, at_l, l-IsFull, u_head}
use klsm.Seq.Rejoin.{IsSplit}
use klsm.Seq.Joined.{joined_lem, all_values-join}

and_false : (b : Bool) → (b && false) ≡ false
and_false true = refl
and_false false = refl

below_apart : (p q : Ptr) → p.0 < q.0 → is_head (some p) q ≡ false
below_apart p q h = ground arith

not_first :
    (init : List Node) (l : Node) (rest : List Node) (p : Ptr)
    → ((q : Ptr) → IsIn q (init ++ (l ∷ [])) → q.0 < p.0)
    → is_head (first_ptr (init ++ (l ∷ rest))) p ≡ false
not_first [] l rest p h = below_apart l.ptr p (h l.ptr (inl refl))
not_first (z ∷ init) l rest p h = below_apart z.ptr p (h z.ptr (inl refl))

module _ {w : Lsm} (init : List Node) (l : Node) (post : List Node) (c : Node)
    (inv : IsLsm w ((init ++ (l ∷ [])) ++ (c ∷ post))) {y : ℕ} (first : HasFirst c y) (i : ℕ)
    (level : c.ptr.0 ≡ suc i) (small : length first.rest < 2 ^ i) (equal : l.ptr.0 ≡ i) where
  abbrev front : List Node
  front = init ++ (l ∷ [])

  -- The block may be empty, but is not at the head.
  not_head : (((popped_block front post c inv first).size == 0) && is_head w.head c.ptr) ≡ false
  not_head =
      let k = whole init l post c inv first i level small in
      let e = chain-first w.blocks 0 none (init ++ (l ∷ (c ∷ post))) k in
      let b =
        not_first init l (c ∷ post) c.ptr
          (λ q j. chain-below w.blocks 0 none w.head front c post q inv.chain j) in
      rw (e, b) (and_false ((popped_block front post c inv first).size == 0))

  module _ (unset : ℕ) {n : Ptr} {v' : Lsm} (got : Handed i (taken front post c inv first) n v')
      (run : unused_block unset (2 ^ i) (taken front post c inv first) ≡ some (n, v')) where
    abbrev u : Lsm
    u = s init l post c inv first i level small unset got run

    abbrev x : Node
    x = place front post c inv first i level small got

    apart : some l.ptr ≢ some n
    apart = l_apart init l post c inv first i level small unset got run

    split_pool : IsPool u (λ q. IsIn q (init ++ (l ∷ (x ∷ post))))
    split_pool =
        subst (λ ns. IsPool u (λ q. IsIn q ns)) (append_assoc init (l ∷ []) (x ∷ post))
          (map-IsPool u.head (left-IsIn front post c inv first i level small got)
            (IsIn-left front post c inv first i level small got)
            (s-IsPool init l post c inv first i level small unset got run))

    levels-same : u.levels ≡ w.levels
    levels-same = levels-eq front post c inv first i level small got (some l.ptr) apart

    new-next : (at u.blocks n).next ≡ first_ptr post
    new-next = ap (λ b. b.next) (new-eq front post c inv first i level small got (some l.ptr) apart)

    listed_same : front ++ (c ∷ post) ≡ init ++ (l ∷ (c ∷ post))
    listed_same = append_assoc init (l ∷ []) (c ∷ post)

    merges-IsSplit : IsSplit u w.blocks init l x c post
    merges-IsSplit = record {
      pool = split_pool;
      whole =
          subst (λ o. IsChain w.blocks 0 none o (init ++ (l ∷ (c ∷ post))))
            (sym (u_head init l post c inv first i level small unset got run))
            (whole init l post c inv first i level small);
      same = init_same init l post c inv first i level small unset got run;
      l_prev = ap (λ b. b.prev) (at_l init l post c inv first i level small unset got run);
      full = l-IsFull init l post c inv first i level small unset got run;
      held = place-Holds front post c inv first i level small got (some l.ptr) apart;
      enough =
          omega (arith, half front post c inv first, ap (λ j. 2 ^ j) level, ap (λ j. 2 ^ j) equal);
      level = got.level ∙ sym equal;
      apart = λ e. apart (ap some e);
      behind =
          subst (λ k. IsChain u.blocks (suc k) (some n) (first_ptr post) post)
            (level ∙ ap suc (sym equal))
            (chain-follow _ u.blocks (some n) (suc c.ptr.0) (some c.ptr) (first_ptr post) post
              (back-Follows front post c inv first i level small got (some l.ptr) apart
                (before_next init l post c inv first i level small unset got run))
              (behind_moved front post c inv first i level small got));
      x_next = new-next;
      above = level ∙ ap suc (sym equal);
      inside = subst (λ k. c.ptr.0 < k) (sym levels-same) (inside front post c inv first);
      top =
          subst (λ k. IsTop k (λ q. IsIn q (init ++ (l ∷ (c ∷ post))))) (sym levels-same)
            (subst (λ ns. IsTop w.levels (λ q. IsIn q ns)) listed_same inv.top);
    }

    pub merges-Outcome : Outcome front post c inv first unset
    merges-Outcome =
        let (m, v, r, ok) = joined_lem unset init merges-IsSplit in
        (
          v,
          init ++ ((record { ptr = m; values = merge_values l.values first.rest }) ∷ post),
          shrink-branch front post c inv first i level small unset not_head
              ∙ placed-run init l post c inv first i level small unset got run
              ∙ r,
          ok,
          Perm.trans (all_values-replace front post c x y first.split)
              (Perm.cons y (all_values-join init l x post m)),
        )
