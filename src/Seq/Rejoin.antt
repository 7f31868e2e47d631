-- ===== src/Seq/Rejoin.antt =====
-- `LSM::delete_min`: the block `x` behind the block `l` is of its level, and the two are merged into
-- a block that takes their place in the list.
use klsm.Base.{
  ℕ, suc, ◌<◌, ◌≤◌, ◌^◌, ◌≡◌, ◌≢◌, refl, sym, ap, ap₂, subst, ◌∙◌, arith, true, List, ◌∷◌, ◌++◌,
  Option, none, some, length, inl, inr, ◌⊎◌, ◌==◌, less_than_power,
}
use klsm.Base.State.{◌>>=◌}
use klsm.Seq.{Ptr}
use klsm.Seq.Lsm.{Lsm, with_next, unused_block, insert_between}
use klsm.Seq.Window.{merge_values, length-merge_values}
use klsm.Seq.Blocks.{Holds}
use klsm.Seq.Store.{at, load-eq, IsPool, Handed}
use klsm.Seq.Pool.{Handed-apart, map-IsPool}
use klsm.Seq.Chain.{Blocks, Node, IsFull, IsChain, IsIn, IsTop, chain-level, chain-same}
use klsm.Seq.Between.{
  IsAllocated, IsBusy, between, between-run, between-levels, between-new, between-other,
  between-prev, between-IsPool,
}
use klsm.Seq.Splice.{chain-below, chain-front, relinked-IsFull, IsIn-back, IsIn-front, IsIn-split}
use klsm.Seq.Link.{first_ptr, first-IsAllocated, first-IsBusy, first-IsIn, between-Follows}
use klsm.Seq.Shrink.{finish}
use klsm.Seq.Merging.{
  final, final-IsPool, final-new, final-links, final-other, new-Holds, merge_blocks-run,
}

-- What the state before the merge satisfies; `f` are the blocks before the shrinking, and `c` the
-- block that was shrunk.
pub record IsSplit (u : Lsm) (f : Blocks) (init : List Node) (l x c : Node) (post : List Node)
    : Type 0 where
  pub pool : IsPool u (λ q. IsIn q (init ++ (l ∷ (x ∷ post))))
  pub whole : IsChain f 0 none u.head (init ++ (l ∷ (c ∷ post)))
  pub same : (q : Ptr) → IsIn q init → at u.blocks q ≡ at f q
  pub l_prev : (at u.blocks l.ptr).prev ≡ (at f l.ptr).prev
  pub full : IsFull u.blocks l
  pub held : Holds (at u.blocks x.ptr) x.values
  pub enough : 2 ^ l.ptr.0 ≤ suc (length x.values)
  pub level : x.ptr.0 ≡ l.ptr.0
  pub apart : l.ptr ≢ x.ptr
  pub behind : IsChain u.blocks (suc (suc l.ptr.0)) (some x.ptr) (first_ptr post) post
  pub x_next : (at u.blocks x.ptr).next ≡ first_ptr post
  pub above : c.ptr.0 ≡ suc l.ptr.0
  pub inside : c.ptr.0 < u.levels
  pub top : IsTop u.levels (λ q. IsIn q (init ++ (l ∷ (c ∷ post))))

module _ {u : Lsm} {f : Blocks} {init : List Node} {l x c : Node} {post : List Node}
    (split : IsSplit u f init l x c post) where
  abbrev pub Busy : Ptr → Type 0
  Busy q = IsIn q (init ++ (l ∷ (x ∷ post)))

  pub l-Busy : Busy l.ptr
  l-Busy = IsIn-back init (l ∷ (x ∷ post)) l.ptr (inl refl)

  pub x-Busy : Busy x.ptr
  x-Busy = IsIn-back init (l ∷ (x ∷ post)) x.ptr (inr (inl refl))

  post-Busy : (q : Ptr) → IsIn q post → Busy q
  post-Busy q i = IsIn-back init (l ∷ (x ∷ post)) q (inr (inr i))

  pub low : (q : Ptr) → IsIn q init → q.0 < l.ptr.0
  low q i = chain-below f 0 none u.head init l (c ∷ post) q split.whole i

  high : (q : Ptr) → IsIn q post → suc l.ptr.0 < q.0
  high q i = omega (
    arith,
    chain-level u.blocks (suc (suc l.ptr.0)) (some x.ptr) (first_ptr post) post q split.behind i,
  )

  level_of : {p q : Ptr} → p ≡ q → p.0 ≡ q.0
  level_of e = ap (λ p. p.0) e

  pub none_above : (q : Ptr) → q.0 ≡ suc l.ptr.0 → Busy q → ⊥
  none_above q e b = elim (IsIn-split init (l ∷ (x ∷ post)) q b) [
    | inl i ↦ omega (arith, low q i)
    | inr j ↦ elim j [
      | inl a ↦ omega (arith, level_of a)
      | inr k ↦ elim k [
        | inl a ↦ omega (arith, level_of a, split.level)
        | inr i ↦ omega (arith, high q i)
      ]
    ]
  ]

  module _ {n : Ptr} {u' : Lsm} (got : Handed (suc l.ptr.0) u n u') where
    -- After the merge.
    abbrev pub v : Lsm
    v = final split.pool l-Busy x-Busy split.apart split.level split.full.holds split.held got

    abbrev pub joined : Node
    joined = record { ptr = n; values = merge_values l.values x.values }

    pub level_n : n.0 ≡ suc l.ptr.0
    level_n = got.level

    pub levels-same : v.levels ≡ u.levels
    levels-same = omega (arith, got.bound, got.more, split.inside, split.above)

    abbrev pub IsLeft : Ptr → Type 0
    IsLeft q = (((q ≡ n) ⊎ Busy q) × (q ≢ l.ptr)) × (q ≢ x.ptr)

    v-IsPool : IsPool v IsLeft
    v-IsPool =
        final-IsPool split.pool l-Busy x-Busy split.apart split.level split.full.holds split.held
          got

    to : (q : Ptr) → IsLeft q → IsIn q (init ++ (joined ∷ post))
    to q ((inl e, a), b) = IsIn-back init (joined ∷ post) q (inl e)
    to q ((inr i, a), b) = elim (IsIn-split init (l ∷ (x ∷ post)) q i) [
      | inl j ↦ IsIn-front init (joined ∷ post) q j
      | inr j ↦ elim j [
        | inl e ↦ absurd (a e)
        | inr k ↦ elim k [ inl e ↦ absurd (b e) | inr z ↦ IsIn-back init (joined ∷ post) q (inr z) ]
      ]
    ]

    left : (q : Ptr) → (q ≡ n) ⊎ Busy q → q.0 ≢ l.ptr.0 → IsLeft q
    left q b h = ((b, λ e. h (level_of e)), λ e. h (level_of e ∙ split.level))

    pub left_init : (q : Ptr) → IsIn q init → IsLeft q
    left_init q i = left q (inr (IsIn-front init (l ∷ (x ∷ post)) q i)) (omega (arith, low q i))

    left_post : (q : Ptr) → IsIn q post → IsLeft q
    left_post q i = left q (inr (post-Busy q i)) (omega (arith, high q i))

    left_n : IsLeft n
    left_n = left n (inl refl) (omega (arith, level_n))

    from : (q : Ptr) → IsIn q (init ++ (joined ∷ post)) → IsLeft q
    from q i = elim (IsIn-split init (joined ∷ post) q i) [
      | inl j ↦ left_init q j
      | inr j ↦ elim j [ inl e ↦ subst IsLeft (sym e) left_n | inr k ↦ left_post q k ]
    ]

    v-same : (q : Ptr) → Busy q → q.0 ≢ l.ptr.0 → at v.blocks q ≡ at u.blocks q
    v-same q b h =
        final-other split.pool l-Busy x-Busy split.apart split.level split.full.holds split.held got
          q b (λ e. h (level_of e)) (λ e. h (level_of e ∙ split.level))

    not_new : (q : Ptr) → Busy q → q ≢ n
    not_new q b e = Handed-apart split.pool got (subst Busy e b)

    next_apart : (q : Ptr) → q.0 < suc (suc l.ptr.0) → first_ptr post ≢ some q
    next_apart q h e = omega (arith, high q (first-IsIn post q e))

    -- The block in front of `l` has the new one as its next.
    pub result-prev :
        (p : Ptr)
        → IsIn p init
        → at (between v n (some p) (first_ptr post)).blocks p ≡ with_next (some n) (at f p)
    result-prev p i =
        let b = IsIn-front init (l ∷ (x ∷ post)) p i in
        between-prev v n p (first_ptr post) (not_new p b) (next_apart p (omega (arith, low p i)))
        ∙ ap (with_next (some n)) (v-same p b (omega (arith, low p i)) ∙ split.same p i)

    -- The new block between the one in front of `l` and the list behind `x`.
    module _ (prev : Option Ptr) (before : (q : Ptr) → prev ≡ some q → IsIn q init)
        (prev_busy : IsBusy IsLeft prev) (prev_inside : IsAllocated v prev)
        (prev_eq : (at f l.ptr).prev ≡ prev) where
      abbrev pub result : Lsm
      result = between v n prev (first_ptr post)

      prev_apart : (q : Ptr) → l.ptr.0 < q.0 → prev ≢ some q
      prev_apart q h e = omega (arith, low q (before q e))

      pub rejoin-run :
          (unset : ℕ)
          → unused_block unset (2 ^ suc l.ptr.0) u ≡ some (n, u')
          → finish unset (first_ptr post) x.ptr (at u.blocks x.ptr) (some l.ptr) u
            ≡ some (tt, result)
      rejoin-run unset e =
          let same : (at u.blocks l.ptr).capacity ≡ (at u.blocks x.ptr).capacity =
            split.pool.sized l.ptr (split.pool.allocated l.ptr l-Busy)
            ∙ ap (λ i. 2 ^ i) (sym split.level)
            ∙ sym (split.pool.sized x.ptr (split.pool.allocated x.ptr x-Busy)) in
          let equal : ((at u.blocks l.ptr).capacity == (at u.blocks x.ptr).capacity) ≡ true =
            ground arith in
          let links =
            final-links split.pool l-Busy x-Busy split.apart split.level split.full.holds split.held
              got in
          rw (◌>>=◌, load-eq u l.ptr (split.pool.allocated l.ptr l-Busy))
            (rw equal (
              rw
                (
                  ◌>>=◌,
                  merge_blocks-run split.pool l-Busy x-Busy split.apart split.level split.full.holds
                      split.held got unset e,
                )
                (rw (◌>>=◌, load-eq v l.ptr (omega (arith, levels-same, split.inside, split.above)))
                  (rw
                    (
                      ◌>>=◌,
                      load-eq v x.ptr
                          (omega (arith, levels-same, split.inside, split.above, split.level)),
                    )
                    (ap₂ (λ a b. insert_between n a b v) (links.0 ∙ split.l_prev ∙ prev_eq)
                        (links.1 ∙ split.x_next)
                      ∙ between-run v n prev (first_ptr post)
                          (omega (arith, levels-same, split.inside, split.above, level_n))
                          prev_inside
                          (first-IsAllocated v post (λ q i.
                            omega
                              (arith, levels-same, split.pool.allocated q (post-Busy q i)))))))))

      pub result-levels : result.levels ≡ u.levels
      result-levels = between-levels v n prev (first_ptr post) ∙ levels-same

      pub result-IsPool : IsPool result (λ q. IsIn q (init ++ (joined ∷ post)))
      result-IsPool = map-IsPool result.head to from (
          between-IsPool n prev (first_ptr post) left_n prev_busy
            (first-IsBusy IsLeft post left_post) v-IsPool)

      new-eq : at result.blocks n ≡ record (at v.blocks n) { prev = prev; next = first_ptr post }
      new-eq =
          between-new v n prev (first_ptr post) (prev_apart n (omega (arith, level_n)))
            (next_apart n (omega (arith, level_n)))

      joined-IsFull : IsFull result.blocks joined
      joined-IsFull =
          relinked-IsFull v.blocks result.blocks joined prev (first_ptr post) new-eq (record {
            holds =
                rw
                  (final-new split.pool l-Busy x-Busy split.apart split.level split.full.holds
                    split.held got)
                  (new-Holds split.pool l-Busy x-Busy split.apart split.level split.full.holds
                    split.held got);
            half = omega (
              arith,
              v-IsPool.sized n (v-IsPool.allocated n left_n),
              ap (λ i. 2 ^ i) level_n,
              length-merge_values l.values x.values,
              split.full.half,
              split.pool.sized l.ptr (split.pool.allocated l.ptr l-Busy),
              split.enough,
              less_than_power l.ptr.0,
            );
          })

      pub joined-chain :
          (k : ℕ) → k ≤ suc l.ptr.0 → IsChain result.blocks k prev (some n) (joined ∷ post)
      joined-chain k h =
          let behind =
            chain-same u.blocks v.blocks (suc (suc l.ptr.0)) (some x.ptr) (first_ptr post) post
              (λ q i. v-same q (post-Busy q i) (omega (arith, high q i))) split.behind in
          chain-front v.blocks result.blocks joined prev (some x.ptr) (first_ptr post) post
            joined-IsFull (omega (arith, level_n)) (omega (arith, level_n))
            (ap (λ b. b.prev) new-eq) (ap (λ b. b.next) new-eq)
            (between-Follows v n prev (suc (suc l.ptr.0)) (some x.ptr) (first_ptr post) post
              (λ q i. not_new q (post-Busy q i)) (λ q i. prev_apart q (omega (arith, high q i)))
              behind)
            behind

      pub result-same : (q : Ptr) → IsIn q init → prev ≢ some q → at result.blocks q ≡ at f q
      result-same q i h =
          let b = IsIn-front init (l ∷ (x ∷ post)) q i in
          between-other v n prev (first_ptr post) q (not_new q b) h
            (next_apart q (omega (arith, low q i)))
          ∙ v-same q b (omega (arith, low q i))
          ∙ split.same q i

      -- The last level keeps a block.
      pub result-IsTop : IsTop result.levels (λ q. IsIn q (init ++ (joined ∷ post)))
      result-IsTop =
          subst (λ k. IsTop k (λ q. IsIn q (init ++ (joined ∷ post)))) (sym result-levels)
            (elim split.top [
              | inl few ↦ inl few
              | inr (q, b, e) ↦ elim (IsIn-split init (l ∷ (c ∷ post)) q b) [
                | inl i ↦ inr (q, IsIn-front init (joined ∷ post) q i, e)
                | inr j ↦ elim j [
                  | inl a ↦ absurd (omega (arith, level_of a, split.inside, split.above))
                  | inr k ↦ elim k [
                    | inl a ↦ inr (
                      n,
                      IsIn-back init (joined ∷ post) n (inl refl),
                      omega (arith, level_of a, split.above, level_n),
                    )
                    | inr i ↦ inr (q, IsIn-back init (joined ∷ post) q (inr i), e)
                  ]
                ]
              ]
            ])
