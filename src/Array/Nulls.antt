-- ===== src/Array/Nulls.antt =====
-- `block_array::remove_null_blocks`: what is left of the array, with the ranges of its pivots.
use klsm.Base.{
  ℕ, zero, suc, ◌+◌, ◌≤◌, ◌<◌, ◌≡◌, ◌≢◌, refl, sym, ◌∙◌, ap, ap₂, inl, inr, ◌==◌, Option, none,
  some, List, [], ◌∷◌, ◌++◌, length, get_or, set, arith, Bool-cases, Option-cases, length-set,
  get_or-set_self, get_or-set_ne, append-nil, append_assoc, length-append,
}
use klsm.Pivots
use klsm.Pivots.{Pivots}
use klsm.Pool.{Pointer}
use klsm.Array.{BlockArray, nth, remove_loop, remove_null_blocks}

-- A block with the lower and the upper bound of its range.
abbrev pub Row : Type 0
Row = Pointer × ℕ × ℕ

abbrev pub range_of : Pivots → ℕ → Option Pointer → Option Row
range_of p k none = none
range_of p k (some q) = some (q, get_or p.lower k 0, get_or p.upper k 0)

abbrev pub row : BlockArray → ℕ → Option Row
row a k = range_of a.pivots k (nth a k)

range_of-cong :
    (p r : Pivots) (k : ℕ) (q : Option Pointer)
    → get_or p.lower k 0 ≡ get_or r.lower k 0
    → get_or p.upper k 0 ≡ get_or r.upper k 0
    → range_of p k q ≡ range_of r k q
range_of-cong p r k none l u = refl
range_of-cong p r k (some q) l u = ap₂ (λ x y. some (q, x, y)) l u

abbrev cons? : Option Row → List Row → List Row
cons? none rs = rs
cons? (some r) rs = r ∷ rs

-- The rows that are there, at the `n` indexes from `i` on.
abbrev pub present : (ℕ → Option Row) → ℕ → ℕ → List Row
present f i zero = []
present f i (suc n) = cons? (f i) (present f (i + 1) n)

present-cong :
    (f g : ℕ → Option Row) (i n : ℕ)
    → ((k : ℕ) → i ≤ k → k < i + n → f k ≡ g k)
    → present f i n ≡ present g i n
present-cong f g i zero h = refl
present-cong f g i (suc n) h =
    ap₂ cons? (h i (omega arith) (omega arith))
      (present-cong f g (i + 1) n (λ k a b. h k (omega arith) (omega arith)))

append-cons? : (r : Option Row) (xs ys : List Row) → cons? r (xs ++ ys) ≡ cons? r xs ++ ys
append-cons? none xs ys = refl
append-cons? (some r) xs ys = refl

present-snoc :
    (f : ℕ → Option Row) (i n : ℕ) → present f i (suc n) ≡ present f i n ++ cons? (f (i + n)) []
present-snoc f i zero = let e : i ≡ i + 0 = omega arith in ap (λ k. cons? (f k) []) e
present-snoc f i (suc n) =
    let e : i + 1 + n ≡ i + suc n = omega arith in
    ap (cons? (f i)) (present-snoc f (i + 1) n ∙ ap (λ k. present f (i + 1) n ++ cons? (f k) []) e)
    ∙ append-cons? (f i) (present f (i + 1) n) (cons? (f (i + suc n)) [])

copy_self :
    (p : Pivots) (src dst : ℕ)
    → dst < length p.lower
    → dst < length p.upper
    → (get_or (Pivots.copy p src dst).lower dst 0 ≡ get_or p.lower src 0)
      × (get_or (Pivots.copy p src dst).upper dst 0 ≡ get_or p.upper src 0)
unfolding Pivots.copy
copy_self p src dst l u = elim (Bool-cases (src == dst)) [
  | inl e ↦
      let same : dst ≡ src = ground arith in
      rw e (ap (λ k. get_or p.lower k 0) same, ap (λ k. get_or p.upper k 0) same)
  | inr e ↦ rw e (get_or-set_self p.lower dst _ 0 l, get_or-set_self p.upper dst _ 0 u)
]

copy_other :
    (p : Pivots) (src dst k : ℕ)
    → dst ≢ k
    → (get_or (Pivots.copy p src dst).lower k 0 ≡ get_or p.lower k 0)
      × (get_or (Pivots.copy p src dst).upper k 0 ≡ get_or p.upper k 0)
unfolding Pivots.copy
copy_other p src dst k h = elim (Bool-cases (src == dst)) [
  | inl e ↦ rw e (refl, refl)
  | inr e ↦ rw e (get_or-set_ne p.lower _ 0 h, get_or-set_ne p.upper _ 0 h)
]

length-copy :
    (p : Pivots) (src dst : ℕ)
    → (length (Pivots.copy p src dst).lower ≡ length p.lower)
      × (length (Pivots.copy p src dst).upper ≡ length p.upper)
unfolding Pivots.copy
length-copy p src dst = elim (Bool-cases (src == dst)) [
  | inl e ↦ rw e (refl, refl)
  | inr e ↦ rw e (length-set p.lower dst _, length-set p.upper dst _)
]

-- The first `n` indexes lie in all three arrays.
record Holds (n : ℕ) (a : BlockArray) : Type 0 where
  in_blocks : n ≤ length a.blocks
  in_lower : n ≤ length a.pivots.lower
  in_upper : n ≤ length a.pivots.upper

Holds-eq : {n m : ℕ} {a : BlockArray} → Holds n a → n ≡ m → Holds m a
Holds-eq h e = record {
  in_blocks = omega (arith, h.in_blocks, e);
  in_lower = omega (arith, h.in_lower, e);
  in_upper = omega (arith, h.in_upper, e);
}

module _ (a : BlockArray) (src dst : ℕ) (q : Pointer) where
  -- The array after one block was moved down.
  abbrev moved : BlockArray
  moved = record a { blocks = set a.blocks dst (some q); pivots = Pivots.copy a.pivots src dst }

  row-moved_self : (n : ℕ) → Holds n a → dst < n → nth a src ≡ some q → row moved dst ≡ row a src
  row-moved_self n h below there =
      let (l, u) =
        copy_self a.pivots src dst (omega (arith, h.in_lower)) (omega (arith, h.in_upper)) in
      let b : nth moved dst ≡ some q =
        get_or-set_self a.blocks dst (some q) none (omega (arith, h.in_blocks)) in
      ap (range_of (Pivots.copy a.pivots src dst) dst) b
      ∙ ap₂ (λ x y. some (q, x, y)) l u
      ∙ sym (ap (range_of a.pivots src) there)

  row-moved_other : (k : ℕ) → dst ≢ k → row moved k ≡ row a k
  row-moved_other k ne =
      let (l, u) = copy_other a.pivots src dst k ne in
      ap (range_of (Pivots.copy a.pivots src dst) k) (get_or-set_ne a.blocks (some q) none ne)
      ∙ range_of-cong (Pivots.copy a.pivots src dst) a.pivots k (nth a k) l u

  moved-Holds : (n : ℕ) → Holds n a → Holds n moved
  moved-Holds n h =
      let (l, u) = length-copy a.pivots src dst in
      record {
        in_blocks = omega (arith, length-set a.blocks dst (some q), h.in_blocks);
        in_lower = omega (arith, l, h.in_lower);
        in_upper = omega (arith, u, h.in_upper);
      }

  -- One more row in front, and the same rows behind.
  present-moved_front :
      (n : ℕ)
      → Holds n a
      → dst < n
      → nth a src ≡ some q
      → present (row moved) 0 (suc dst) ≡ present (row a) 0 dst ++ cons? (row a src) []
  present-moved_front n h below there =
      let e : 0 + dst ≡ dst = omega arith in
      present-snoc (row moved) 0 dst
      ∙ ap₂ (λ xs r. xs ++ cons? r [])
          (present-cong (row moved) (row a) 0 dst
            (λ k _ b. row-moved_other k (λ same. absurd (omega (arith, same)))))
          (ap (row moved) e ∙ row-moved_self n h below there)

  present-moved_back :
      (left : ℕ) → dst ≤ src → present (row moved) (src + 1) left ≡ present (row a) (src + 1) left
  present-moved_back left h =
      present-cong (row moved) (row a) (src + 1) left
        (λ k b _. row-moved_other k (λ same. absurd (omega (arith, same))))

record Kept (a : BlockArray) (src dst left : ℕ) (a' : BlockArray) : Type 0 where
  rows : present (row a') 0 a'.size ≡ present (row a) 0 dst ++ present (row a) src left
  full : length (present (row a) 0 dst) ≡ dst → length (present (row a') 0 a'.size) ≡ a'.size

remove_loop-Kept :
    (a : BlockArray) (src dst left : ℕ)
    → dst ≤ src
    → Holds (src + left) a
    → Kept a src dst left (remove_loop a src dst left)
unfolding remove_loop
remove_loop-Kept a src dst zero le h = record {
  rows = sym (append-nil (present (row a) 0 dst));
  full = λ e. e;
}
remove_loop-Kept a src dst (suc left) le h = elim (Option-cases (nth a src)) [
  | inl e ↦
      let k = remove_loop-Kept a (src + 1) dst left (omega arith) (Holds-eq h (omega arith)) in
      let gone : row a src ≡ none = ap (range_of a.pivots src) e in
      rw (e, remove_loop)
        (record {
          rows =
              k.rows
              ∙ ap (λ r. present (row a) 0 dst ++ cons? r (present (row a) (src + 1) left))
                  (sym gone);
          full = k.full;
        })
  | inr (q, e) ↦
      let k =
        remove_loop-Kept (moved a src dst q) (src + 1) (dst + 1) left (omega arith)
          (moved-Holds a src dst q (src + 1 + left) (Holds-eq h (omega arith))) in
      let next : dst + 1 ≡ suc dst = omega arith in
      let front =
        ap (present (row (moved a src dst q)) 0) next
        ∙ present-moved_front a src dst q (src + suc left) h (omega arith) e in
      let there : row a src ≡ some (q, get_or a.pivots.lower src 0, get_or a.pivots.upper src 0) =
        ap (range_of a.pivots src) e in
      rw (e, remove_loop)
        (record {
          rows =
              k.rows
              ∙ ap₂ ◌++◌ front (present-moved_back a src dst q left le)
              ∙ append_assoc (present (row a) 0 dst) (cons? (row a src) [])
                  (present (row a) (src + 1) left)
              ∙ ap (λ xs. present (row a) 0 dst ++ xs)
                  (sym (append-cons? (row a src) [] (present (row a) (src + 1) left)));
          full = λ whole. k.full (
              ap length front
              ∙ length-append (present (row a) 0 dst) (cons? (row a src) [])
              ∙ ap₂ ◌+◌ whole (ap (λ r. length (cons? r [])) there));
        })
]

-- If the arrays of blocks and pivots reach as far as the array's size, removing null pointers leaves
-- the blocks that are there, in their order and each with its range, and no null pointer among them.
pub remove_null_blocks_lem :
    (a : BlockArray)
    → a.size ≤ length a.blocks
    → a.size ≤ length a.pivots.lower
    → a.size ≤ length a.pivots.upper
    → let a' = remove_null_blocks a in
      (present (row a') 0 a'.size ≡ present (row a) 0 a.size)
      × (length (present (row a') 0 a'.size) ≡ a'.size)
unfolding remove_null_blocks
remove_null_blocks_lem a b l u =
    let k =
      remove_loop-Kept a 0 0 a.size (omega arith)
        (record { in_blocks = omega arith; in_lower = omega arith; in_upper = omega arith }) in
    (k.rows, k.full refl)
