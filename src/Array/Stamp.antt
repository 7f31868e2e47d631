-- ===== src/Array/Stamp.antt =====
-- block_array_inl.h, `insert`: it leaves the array's version as it is.
use mathlib.Core.Option.{some-injective}
use klsm.Base.{
  ℕ, zero, suc, ◌+◌, ◌-◌, ◌/◌, ◌≡◌, refl, sym, ap, ◌∙◌, inl, inr, Bool, true, false, Option, none,
  some, Option-cases, List, if◌then◌else◌, ltb, ◌==◌, take, max,
}
use klsm.Base.State.{◌>>=◌, pure, lift}
use klsm.Block
use klsm.Block.{Block, Store, capacity, merge_at}
use klsm.Storage.{Fresh}
use klsm.Pool.{Pointer}
use klsm.Pivots.{count}
use klsm.Pivots.Resize.{grow, shrink}
use klsm.Array.{
  BlockArray, Pools, M, deref, write, alloc, nth, block_set, block_insert, remove_loop,
  remove_null_blocks,
}
use klsm.Pivots.{max_blocks}
use klsm.Array.Insert.{
  check, find_place, merge_with, merge_loop, shrink_at, shrink_blocks, merge_pair, merge_pairs,
  compact, deref_all, write_all, finish, insert,
}

-- What the step returns has this version.
abbrev Keeps : {A : Type 0} → (A → ℕ) → ℕ → M A → Type 0
Keeps {A} stamp v m = (h : Pools) (a : A) (h' : Pools) → m h ≡ some (a, h') → stamp a ≡ v

abbrev stamp_of : BlockArray → ℕ
stamp_of a = a.version

module _ {A B : Type 0} (stamp : B → ℕ) (v : ℕ) where
  Keeps-after : (m : M A) (k : A → M B) → ((x : A) → Keeps stamp v (k x)) → Keeps stamp v (m >>= k)
  Keeps-after m k kept h b h' e = elim (Option-cases (m h)) [
    | inl f ↦ absurd (cc (rw (f, ◌>>=◌) at e))
    | inr ((x, g), f) ↦ kept x g b h' (rw (f, ◌>>=◌) at e)
  ]

  Keeps-bind :
      (first : A → ℕ) (m : M A) (k : A → M B)
      → Keeps first v m
      → ((x : A) → first x ≡ v → Keeps stamp v (k x))
      → Keeps stamp v (m >>= k)
  Keeps-bind first m k start kept h b h' e = elim (Option-cases (m h)) [
    | inl f ↦ absurd (cc (rw (f, ◌>>=◌) at e))
    | inr ((x, g), f) ↦ kept x (start h x g f) g b h' (rw (f, ◌>>=◌) at e)
  ]

module _ {B : Type 0} (stamp : B → ℕ) (v : ℕ) where
  Keeps-pure : (b : B) → stamp b ≡ v → Keeps stamp v (pure b)
  Keeps-pure b e h c h' f =
      let done = some-injective _ _ f in
      let same : b ≡ c = ap (λ r. r.0) done in ap stamp (sym same) ∙ e

  Keeps-if :
      (t : Bool) (m k : M B)
      → Keeps stamp v m
      → Keeps stamp v k
      → Keeps stamp v (if t then m else k)
  Keeps-if true m k a b = a
  Keeps-if false m k a b = b

  Keeps-elim :
      (o : Option Pointer) (m : M B) (k : Pointer → M B)
      → Keeps stamp v m
      → ((q : Pointer) → Keeps stamp v (k q))
      → Keeps stamp v (elim o [ none ↦ m | some q ↦ k q ])
  Keeps-elim none m k a b = a
  Keeps-elim (some q) m k a b = b q

module _ (v : ℕ) where
  Keeps-block_set :
      (s : Store) (rlx : ℕ) (a : BlockArray) (i : ℕ) (q : Pointer)
      → a.version ≡ v
      → Keeps stamp_of v (block_set s rlx a i q)
  unfolding block_set
  Keeps-block_set s rlx a i q e =
      Keeps-after stamp_of v (deref q) _ (λ b. Keeps-pure stamp_of v _ e)

  Keeps-block_insert :
      (s : Store) (rlx : ℕ) (a : BlockArray) (i : ℕ) (q : Pointer)
      → a.version ≡ v
      → Keeps stamp_of v (block_insert s rlx a i q)
  unfolding block_insert
  Keeps-block_insert s rlx a i q e =
      Keeps-after stamp_of v (deref q) _ (λ b. Keeps-pure stamp_of v _ e)

moved-version :
    (a : BlockArray) (o : Option Pointer) (b : Pointer → BlockArray)
    → ((q : Pointer) → (b q).version ≡ a.version)
    → (elim o as (λ x. BlockArray) [ none ↦ a | some q ↦ b q ]).version ≡ a.version
moved-version a none b h = refl
moved-version a (some q) b h = h q

remove_loop-version :
    (left : ℕ) (a : BlockArray) (src dst : ℕ) → (remove_loop a src dst left).version ≡ a.version
unfolding remove_loop
remove_loop-version zero a src dst = refl
remove_loop-version (suc left) a src dst =
    remove_loop-version left _ (src + 1) _ ∙ moved-version a (nth a src) _ (λ q. refl)

remove_null_blocks-version : (a : BlockArray) → (remove_null_blocks a).version ≡ a.version
unfolding remove_null_blocks
remove_null_blocks-version a = remove_loop-version a.size a 0 0

module _ (f : Fresh) (s : Store) (tid rlx : ℕ) (garbage : List ℕ) (v : ℕ) where
  Keeps-shrink_at :
      (a : BlockArray) (i : ℕ)
      → a.version ≡ v
      → Keeps stamp_of v (shrink_at f s tid rlx garbage a i)
  unfolding shrink_at
  Keeps-shrink_at a i e = Keeps-elim stamp_of v (nth a i) _ _ (Keeps-pure stamp_of v a e) (λ q.
      Keeps-after stamp_of v (deref q) _ (λ b.
        Keeps-if stamp_of v _ _ _
          (Keeps-after stamp_of v (alloc f tid (b.power_of_2 - 1)) _ (λ m.
            Keeps-after stamp_of v (deref m) _ (λ dst.
              Keeps-after stamp_of v (write m (Block.copy s dst b)) _
                (λ u. Keeps-block_set v s rlx a i m e))))
          (Keeps-pure stamp_of v a e)))

  Keeps-shrink_blocks :
      (a : BlockArray) (i left : ℕ)
      → a.version ≡ v
      → Keeps stamp_of v (shrink_blocks f s tid rlx garbage a i left)
  unfolding shrink_blocks
  Keeps-shrink_blocks a i zero e = Keeps-pure stamp_of v a e
  Keeps-shrink_blocks a i (suc left) e =
      Keeps-bind stamp_of v stamp_of (shrink_at f s tid rlx garbage a i) _ (Keeps-shrink_at a i e)
        (λ b e'. Keeps-shrink_blocks b (i + 1) left e')

  Keeps-merge_pair :
      (a : BlockArray) (i : ℕ)
      → a.version ≡ v
      → Keeps stamp_of v (merge_pair f s tid rlx garbage a i)
  unfolding merge_pair
  Keeps-merge_pair a i e = Keeps-after stamp_of v (lift (nth a i)) _ (λ q.
      Keeps-after stamp_of v (lift (nth a (i + 1))) _ (λ r.
        Keeps-after stamp_of v (deref q) _ (λ big. Keeps-after stamp_of v (deref r) _ (λ small.
          Keeps-if stamp_of v _ _ _ (Keeps-pure stamp_of v a e) (
            Keeps-after stamp_of v (alloc f tid (max big.power_of_2 small.power_of_2 + 1)) _ (λ m.
              Keeps-after stamp_of v (deref m) _ (λ dst.
                Keeps-after stamp_of v (write m _) _ (λ u. Keeps-block_set v s rlx _ i m e))))))))

  Keeps-merge_pairs :
      (a : BlockArray) (i : ℕ)
      → a.version ≡ v
      → Keeps stamp_of v (merge_pairs f s tid rlx garbage a i)
  unfolding merge_pairs
  Keeps-merge_pairs a zero e = Keeps-pure stamp_of v a e
  Keeps-merge_pairs a (suc i) e =
      Keeps-bind stamp_of v stamp_of (merge_pair f s tid rlx garbage a i) _ (Keeps-merge_pair a i e)
        (λ b e'. Keeps-merge_pairs b i e')

  Keeps-compact :
      (a : BlockArray) → a.version ≡ v → Keeps stamp_of v (compact f s tid rlx garbage a)
  unfolding compact
  Keeps-compact a e =
      let start = remove_null_blocks-version a ∙ e in
      Keeps-bind stamp_of v stamp_of
        (shrink_blocks f s tid rlx garbage (remove_null_blocks a) 0 (remove_null_blocks a).size) _
        (Keeps-shrink_blocks (remove_null_blocks a) 0 (remove_null_blocks a).size start)
        (λ c e'.
          Keeps-bind stamp_of v stamp_of (merge_pairs f s tid rlx garbage c (c.size - 1)) _
            (Keeps-merge_pairs c (c.size - 1) e')
            (λ d e''.
              Keeps-pure stamp_of v (remove_null_blocks d) (remove_null_blocks-version d ∙ e'')))

  Keeps-finish : (a : BlockArray) → a.version ≡ v → Keeps stamp_of v (finish f s tid rlx garbage a)
  unfolding finish
  Keeps-finish a e =
      Keeps-bind stamp_of v stamp_of (compact f s tid rlx garbage (record a { size = a.size + 1 }))
        _ (Keeps-compact (record a { size = a.size + 1 }) e)
        (λ b e'.
          Keeps-after stamp_of v (deref_all f s tid rlx garbage (take b.size b.blocks)) _ (λ blocks.
            Keeps-if stamp_of v (ltb (rlx + 1) (count b.pivots b.size).0) _ _
              (Keeps-after stamp_of v
                (lift (shrink s tid rlx garbage blocks (count b.pivots b.size).1)) _
                (λ r.
                  Keeps-after stamp_of v (write_all f s tid rlx garbage (take b.size b.blocks) r.1)
                    _ (λ u. Keeps-pure stamp_of v (record b { pivots = r.2 }) e')))
              (Keeps-if stamp_of v (ltb (count b.pivots b.size).0 (rlx / 2)) _ _
                (Keeps-after stamp_of v
                  (lift
                    (grow s rlx garbage (count b.pivots b.size).0 blocks (count b.pivots b.size).1))
                  _ (λ r. Keeps-pure stamp_of v (record b { pivots = r.1 }) e'))
                (Keeps-pure stamp_of v (record b { pivots = (count b.pivots b.size).1 }) e'))))

  abbrev merged_stamp : Pointer × BlockArray → ℕ
  merged_stamp r = r.1.version

  abbrev loop_stamp : ℕ × Pointer × BlockArray → ℕ
  loop_stamp r = r.2.version

  Keeps-merge_with :
      (a : BlockArray) (i : ℕ) (q r : Pointer)
      → a.version ≡ v
      → Keeps merged_stamp v (merge_with f s tid rlx garbage a i q r)
  unfolding merge_with
  Keeps-merge_with a i q r e = Keeps-after merged_stamp v (deref q) _ (λ b.
      Keeps-after merged_stamp v (deref r) _ (λ c.
        Keeps-after merged_stamp v (alloc f tid (b.power_of_2 + 1)) _ (λ m.
          Keeps-after merged_stamp v (deref m) _ (λ dst.
            Keeps-after merged_stamp v (write m _) _ (λ u. Keeps-pure merged_stamp v _ e)))))

  Keeps-merge_loop :
      (a : BlockArray) (i : ℕ) (q : Pointer)
      → a.version ≡ v
      → Keeps loop_stamp v (merge_loop f s tid rlx garbage a i q)
  unfolding merge_loop
  Keeps-merge_loop a zero q e = Keeps-pure loop_stamp v _ e
  Keeps-merge_loop a (suc i) q e =
      Keeps-elim loop_stamp v (nth a i) _ _ (Keeps-merge_loop a i q e) (λ r.
        Keeps-after loop_stamp v (deref q) _ (λ b. Keeps-after loop_stamp v (deref r) _ (λ c.
          Keeps-if loop_stamp v _ _ _ (Keeps-pure loop_stamp v _ e) (
            Keeps-after loop_stamp v (check (capacity c == capacity b)) _ (λ u.
              Keeps-bind loop_stamp v merged_stamp (merge_with f s tid rlx garbage a i q r) _
                (Keeps-merge_with a i q r e) (λ m e'. Keeps-merge_loop m.1 i m.0 e'))))))

  -- The array that `insert` returns has the version of the one it is given.
  pub insert-version :
      (a b : BlockArray) (q : Pointer) (h h' : Pools)
      → a.version ≡ v
      → insert f s tid rlx garbage a q h ≡ some (b, h')
      → b.version ≡ v
  unfolding insert
  insert-version a b q h h' e =
      Keeps-if stamp_of v (a.size == 0) _ _
        (Keeps-bind stamp_of v stamp_of (block_set s rlx a 0 q) _ (Keeps-block_set v s rlx a 0 q e)
          Keeps-finish)
        (Keeps-after stamp_of v (deref q) _ (λ c.
          Keeps-after stamp_of v (find_place f s tid rlx garbage a (capacity c) 0 a.size) _ (λ i.
            Keeps-after stamp_of v (check (ltb i max_blocks)) _ (λ u.
              Keeps-bind stamp_of v loop_stamp (merge_loop f s tid rlx garbage a i q) _
                (Keeps-merge_loop a i q e)
                (λ m e'.
                  Keeps-bind stamp_of v stamp_of (block_insert s rlx m.2 m.0 m.1) _
                    (Keeps-block_insert v s rlx m.2 m.0 m.1 e') Keeps-finish)))))
        h b h'
