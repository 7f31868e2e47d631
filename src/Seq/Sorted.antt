-- ===== src/Seq/Sorted.antt =====
-- The reference for the sequential LSM: a sorted list of keys.
use mathlib.Core.List.Perm
use mathlib.Core.List.{Permᴰ}
use mathlib.Core.Logic.{∥∥₁_elim}
use native.Mathlib.Bridge.{le_prop}
use native.Mathlib.Nat.{ℕ_set}
use klsm.Base.{
  length, suc, ◌∙◌, ℕ, ◌≤◌, ◌≡◌, refl, ap, ap₂, subst, arith, ltb, if◌then◌else◌, List, [], ◌∷◌,
  Option, none, some, inl, inr, Bool-cases, Perm,
}
use klsm.Seq.Window.{AtLeast, AtLeast-mono, IsSorted}
use klsm.Seq.Delete.{TakesLeast}

permd_length : {xs ys : List ℕ} → Permᴰ xs ys → length xs ≡ length ys
permd_length Permᴰ.nil = refl
permd_length (Permᴰ.cons e p) = ap suc (permd_length p)
permd_length (Permᴰ.swap a b) = refl
permd_length (Permᴰ.trans p q) = permd_length p ∙ permd_length q

-- Lists with the same elements have one length.
pub perm_length : {xs ys : List ℕ} → Perm xs ys → length xs ≡ length ys
perm_length {xs} {ys} p = ∥∥₁_elim p (ℕ_set (length xs) (length ys)) permd_length

unfoldable pub insert_sorted : ℕ → List ℕ → List ℕ
insert_sorted k [] = k ∷ []
insert_sorted k (x ∷ xs) =
    let rest = insert_sorted k xs in if ltb x k then x ∷ rest else k ∷ (x ∷ xs)

pub insert_sorted-perm : (k : ℕ) (xs : List ℕ) → Perm (insert_sorted k xs) (k ∷ xs)
unfolding insert_sorted
insert_sorted-perm k [] = Perm.refl (k ∷ [])
insert_sorted-perm k (x ∷ xs) = elim (Bool-cases (ltb x k)) [
  | inl e ↦
      rw (e, insert_sorted) (Perm.trans (Perm.cons x (insert_sorted-perm k xs)) (Perm.swap k x xs))
  | inr e ↦ rw (e, insert_sorted) (Perm.refl (k ∷ (x ∷ xs)))
]

insert_sorted-AtLeast :
    (j k : ℕ) (xs : List ℕ) → j ≤ k → AtLeast j xs → AtLeast j (insert_sorted k xs)
unfolding insert_sorted
insert_sorted-AtLeast j k [] h a = (h, tt)
insert_sorted-AtLeast j k (x ∷ xs) h a = elim (Bool-cases (ltb x k)) [
  | inl e ↦ rw (e, insert_sorted) (a.0, insert_sorted-AtLeast j k xs h a.1)
  | inr e ↦ rw (e, insert_sorted) (h, a)
]

pub insert_sorted-IsSorted : (k : ℕ) (xs : List ℕ) → IsSorted xs → IsSorted (insert_sorted k xs)
unfolding insert_sorted
insert_sorted-IsSorted k [] s = (tt, tt)
insert_sorted-IsSorted k (x ∷ xs) s = elim (Bool-cases (ltb x k)) [
  | inl e ↦
      rw (e, insert_sorted)
        (insert_sorted-AtLeast x k xs (ground arith) s.0, insert_sorted-IsSorted k xs s.1)
  | inr e ↦
      let h : k ≤ x = ground arith in rw (e, insert_sorted) ((h, AtLeast-mono k x xs h s.0), s)
]

AtLeast-prop : (k : ℕ) (vs : List ℕ) → IsProp (AtLeast k vs)
AtLeast-prop k [] a b = refl
AtLeast-prop k (v ∷ vs) a b = ap₂ (λ x y. (x, y)) (le_prop a.0 b.0) (AtLeast-prop k vs a.1 b.1)

AtLeast-Permᴰ : (k : ℕ) {us vs : List ℕ} → Permᴰ us vs → AtLeast k us → AtLeast k vs
AtLeast-Permᴰ k Permᴰ.nil a = a
AtLeast-Permᴰ k (Permᴰ.cons e d) a = (subst (λ v. k ≤ v) e a.0, AtLeast-Permᴰ k d a.1)
AtLeast-Permᴰ k (Permᴰ.swap e f) a = (subst (λ v. k ≤ v) f a.1.0, (subst (λ v. k ≤ v) e a.0, a.1.1))
AtLeast-Permᴰ k (Permᴰ.trans d e) a = AtLeast-Permᴰ k e (AtLeast-Permᴰ k d a)

pub AtLeast-perm : (k : ℕ) {us vs : List ℕ} → Perm us vs → AtLeast k us → AtLeast k vs
AtLeast-perm k {us} {vs} p a = ∥∥₁_elim p (AtLeast-prop k vs) (λ d. AtLeast-Permᴰ k d a)

cons≢nil : (x : ℕ) (xs : List ℕ) → Perm (x ∷ xs) [] → ⊥
cons≢nil x xs p = cc (Perm.eq-nil p)

-- What is taken out of a list, with the same keys in order beside it.
abbrev pub Agrees : Option ℕ → List ℕ → List ℕ → Type 0
Agrees r us [] = (r ≡ none) × Perm us []
Agrees r us (x ∷ xs) = (r ≡ some x) × Perm us xs

pub least-first :
    (r : Option ℕ) (vs us xs : List ℕ)
    → TakesLeast vs r us
    → Perm vs xs
    → IsSorted xs
    → Agrees r us xs
least-first none vs us [] t p s = (refl, rw t.1 Perm.nil)
least-first none vs us (x ∷ xs) t p s =
    absurd (cons≢nil x xs (Perm.symm (subst (λ vs. Perm vs (x ∷ xs)) t.0 p)))
least-first (some y) vs us [] t p s = absurd (cons≢nil y us (Perm.trans (Perm.symm t.1) p))
least-first (some y) vs us (x ∷ xs) t p s =
    let below : y ≤ x = (AtLeast-perm y p t.0).0 in
    let above : x ≤ y = (AtLeast-perm x (Perm.trans (Perm.symm p) t.1) (omega arith, s.0)).0 in
    let e : y ≡ x = omega arith in
    (
      ap some e,
      Perm.cons_inv (subst (λ y. Perm (y ∷ us) (x ∷ xs)) e (Perm.trans (Perm.symm t.1) p)),
    )
