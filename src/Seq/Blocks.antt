-- ===== src/Seq/Blocks.antt =====
-- `LSMBlock`: what a block holds, and what each operation makes of it.
use klsm.Base.{
  Perm, ◌++◌, ℕ, zero, suc, subst, ap₂, ◌+◌, ◌-◌, ◌*◌, ◌/◌, ◌≤◌, ◌<◌, ◌≡◌, refl, sym, ap, ◌∙◌, List,
  [], ◌∷◌, arith, Bool, true, false, Option, none, some, Option-cases, length, length-map,
  length-set, length-overlay, length-replicate, inl, inr, map, overlay, keep, drop, set, ◌==◌,
}
use klsm.Seq.{Elem, SeqBlock, seq_block, merge, popped, set_unused, merge_elems}
use klsm.Seq.Window.{
  IsWritten, stored, IsWindow, merge_values-perm, IsSorted, merge_values, merge_values-IsSorted,
  length-merge_values, merge_elems-IsWritten, overlay-IsTail, stored-window, stored-popped,
  length-IsWindow,
}

-- A block in use with these values, in order.
pub record Holds (b : SeqBlock) (vs : List ℕ) : Type 0 where
  pub window : IsWindow b.elems b.first vs
  pub sized : b.size ≡ length vs
  pub allocated : length b.elems ≡ b.capacity
  pub taken : b.used ≡ true
  pub ordered : IsSorted vs

-- A block that may be handed out.
pub record IsIdle (b : SeqBlock) : Type 0 where
  pub clear : stored b.elems ≡ []
  pub allocated : length b.elems ≡ b.capacity
  pub free : b.used ≡ false
  pub from_start : b.first ≡ 0
  pub empty : b.size ≡ 0

stored-replicate :
    (unset n : ℕ) → stored (klsm.Base.replicate n (record { value = unset; used = false })) ≡ []
unfolding stored
stored-replicate unset zero = refl
stored-replicate unset (suc n) = stored-replicate unset n

pub seq_block-IsIdle : (unset n : ℕ) → IsIdle (seq_block unset n)
unfolding seq_block
seq_block-IsIdle unset n = record {
  clear = stored-replicate unset n;
  allocated = length-replicate n _;
  free = refl;
  from_start = refl;
  empty = refl;
}

-- Results by name: the block that `put`, `merge` or `shrink` fills, and a source that is let go.
abbrev pub filled : SeqBlock → List Elem → ℕ → SeqBlock
filled b es n = record {
  prev = none;
  next = none;
  elems = es;
  first = 0;
  size = n;
  capacity = b.capacity;
  used = true;
}

abbrev pub released : SeqBlock → List Elem → SeqBlock
released b es = record b { elems = es; used = false; first = 0; size = 0 }

abbrev pub merged : SeqBlock → SeqBlock → SeqBlock → SeqBlock
merged m l r = filled m (overlay (merge_elems l.elems r.elems) m.elems) (l.size + r.size)

module _ {m l r : SeqBlock} {ls rs : List ℕ} (idle : IsIdle m) (left : Holds l ls)
    (right : Holds r rs) (twice : m.capacity ≡ l.capacity * 2)
    (same : l.capacity ≡ r.capacity) where
  pub merge-eq :
      merge m l r
      ≡ some (merged m l r, released l (map popped l.elems), released r (map popped r.elems))
  unfolding merge set_unused
  merge-eq = rw (idle.free, left.taken, right.taken) (ground arith)

  fits : length (merge_values ls rs) ≤ length m.elems
  fits = omega (
    arith,
    length-merge_values ls rs,
    length-IsWindow l.elems l.first ls left.window,
    length-IsWindow r.elems r.first rs right.window,
    idle,
    left,
    right,
  )

  pub merged-Holds : Holds (merged m l r) (merge_values ls rs)
  merged-Holds = record {
    window =
        overlay-IsTail (merge_elems l.elems r.elems) m.elems (merge_values ls rs)
          (subst (λ xs. IsWritten (merge_elems l.elems r.elems) xs)
            (ap₂ merge_values (stored-window l.elems l.first ls left.window)
              (stored-window r.elems r.first rs right.window))
            (merge_elems-IsWritten l.elems r.elems))
          idle.clear fits;
    sized = omega (arith, length-merge_values ls rs, left, right);
    allocated = length-overlay (merge_elems l.elems r.elems) m.elems ∙ idle.allocated;
    taken = refl;
    ordered = merge_values-IsSorted ls rs left.ordered right.ordered;
  }

pub released-IsIdle :
    (b : SeqBlock) (es : List Elem)
    → stored es ≡ []
    → length es ≡ b.capacity
    → IsIdle (released b es)
released-IsIdle b es clear full = record {
  clear = clear;
  allocated = full;
  free = refl;
  from_start = refl;
  empty = refl;
}

pub popped-IsIdle :
    {b : SeqBlock} {vs : List ℕ} → Holds b vs → IsIdle (released b (map popped b.elems))
popped-IsIdle {b} h =
    released-IsIdle b (map popped b.elems) (stored-popped b.elems)
      (length-map b.elems popped ∙ h.allocated)

module _ {m l r : SeqBlock} {ls rs : List ℕ} (idle : IsIdle m) (left : Holds l ls)
    (right : Holds r rs) (twice : m.capacity ≡ l.capacity * 2)
    (same : l.capacity ≡ r.capacity) where
  -- An idle block of twice the capacity takes the values of two blocks of one capacity, sorted, and
  -- the two become idle.
  pub merge_lem :
      (m' l' r' : SeqBlock) × (vs : List ℕ) × (merge m l r ≡ some (m', l', r'))
      × Holds m' vs
      × Perm vs (ls ++ rs)
      × IsIdle l'
      × IsIdle r'
      × (m'.capacity ≡ m.capacity)
  merge_lem = (
    merged m l r,
    released l (map popped l.elems),
    released r (map popped r.elems),
    merge_values ls rs,
    merge-eq idle left right twice same,
    merged-Holds idle left right twice same,
    merge_values-perm ls rs,
    popped-IsIdle left,
    popped-IsIdle right,
    refl,
  )
