-- ===== src/Block/Order.antt =====
-- The order of a block's cells, the cells that are live in a store, and the invariant of a block.
use mathlib.Core.List.{filter}
use mathlib.Core.List.Perm
use klsm.Base.{
  Perm, ℕ, zero, suc, ◌-◌, ◌^◌, ◌≤◌, ◌≡◌, refl, Bool, true, false, List, [], ◌∷◌, ◌++◌, arith,
  length, length-slice, drop, keep, All,
}
use klsm.Block.{BlockItem, Block, capacity, size, contents}

-- No key is below `k`.
abbrev pub AtLeast : ℕ → List BlockItem → Type 0
AtLeast k cs = All (λ c. k ≤ c.key) cs

abbrev pub IsSorted : List BlockItem → Type 0
IsSorted [] = Unit {0}
IsSorted (c ∷ cs) = AtLeast c.key cs × IsSorted cs

-- What the assertions of block_inl.h rely on: the array has its capacity, the scope lies inside it.
-- Levels go up to 47 (`block_pool::MAX_POWER_OF_2`), so no index wraps.
pub record IsValid (b : Block) : Type 0 where
  pub allocated : length b.block_items ≡ capacity b
  pub ordered : b.first ≤ b.last
  pub within : b.last ≤ capacity b
  pub small : capacity b ≤ 2 ^ 48

pub AtLeast-mono : (j k : ℕ) (cs : List BlockItem) → j ≤ k → AtLeast k cs → AtLeast j cs
AtLeast-mono j k [] h a = tt
AtLeast-mono j k (c ∷ cs) h a = (omega arith, AtLeast-mono j k cs h a.1)

pub keep-AtLeast :
    (k : ℕ) (p : BlockItem → Bool) (cs : List BlockItem) → AtLeast k cs → AtLeast k (keep p cs)
keep-AtLeast k p [] a = tt
keep-AtLeast k p (c ∷ cs) a = ground (arith, keep-AtLeast k p cs a.1)

-- Dropping cells keeps the order.
pub keep-IsSorted :
    (p : BlockItem → Bool) (cs : List BlockItem) → IsSorted cs → IsSorted (keep p cs)
keep-IsSorted p [] h = tt
keep-IsSorted p (c ∷ cs) h = ground (arith, keep-AtLeast c.key p cs h.0, keep-IsSorted p cs h.1)

pub drop-IsSorted : (n : ℕ) (cs : List BlockItem) → IsSorted cs → IsSorted (drop n cs)
drop-IsSorted zero cs h = h
drop-IsSorted (suc n) [] h = tt
drop-IsSorted (suc n) (c ∷ cs) h = drop-IsSorted n cs h.1

-- A scope is as long as `size` says, which does not wrap.
pub length-contents :
    {b : Block} → IsValid b → (length (contents b) ≡ b.last - b.first) × (size b ≡ b.last - b.first)
length-contents {b} v =
    (length-slice b.block_items b.first b.last v.ordered (omega arith), omega arith)

pub keep-append {ℓ} :
    {A : Type ℓ} (p : A → Bool) (xs ys : List A) → keep p (xs ++ ys) ≡ keep p xs ++ keep p ys
keep-append p [] ys = refl
keep-append p (x ∷ xs) ys = ground (arith, keep-append p xs ys)

pub keep_idempotent {ℓ} : {A : Type ℓ} (p : A → Bool) (xs : List A) → keep p (keep p xs) ≡ keep p xs
keep_idempotent p [] = refl
keep_idempotent p (x ∷ xs) = ground (arith, keep_idempotent p xs)

dec_true : (b : Bool) → Dec (b ≡ true)
dec_true true = yes refl
dec_true false = no (λ e. cc)

keep-eq-filter {ℓ} :
    {A : Type ℓ} (p : A → Bool) (xs : List A) → keep p xs ≡ filter (λ x. dec_true (p x)) xs
unfolding dec_true
keep-eq-filter p [] = refl
keep-eq-filter p (x ∷ xs) = ground (arith, keep-eq-filter p xs)

-- Filtering respects the order's irrelevance.
pub keep-perm {ℓ} :
    {A : Type ℓ} (p : A → Bool) {xs ys : List A} → Perm xs ys → Perm (keep p xs) (keep p ys)
keep-perm p {xs} {ys} h =
    rw (keep-eq-filter p xs, keep-eq-filter p ys) (Perm.filter (λ x. dec_true (p x)) h)
