-- ===== src/Seq/Window.antt =====
-- The elements of an `LSMBlock`: which are in use, and the loops of `merge` and `shrink` on them.
use mathlib.Core.List.Perm
use klsm.Base.{
  ℕ, zero, suc, ◌+◌, ◌≤◌, ◌≡◌, refl, ap, inl, inr, Perm, perm_middle, append-nil, List, [], ◌∷◌,
  ◌++◌, arith, ltb, true, false, Bool-cases, some, length, overlay, keep, map, drop, get_elem?, set,
  All, length-map,
}
use klsm.Seq.{Elem, popped, in_use, merge_elems, pop_from}

-- The values that are in use, in order.
unfoldable pub stored : List Elem → List ℕ
stored [] = []
stored (e ∷ es) = let rest = stored es in elim e.used [ true ↦ e.value ∷ rest | false ↦ rest ]

-- The array begins with these values in use, and nothing else of it is in use.
abbrev pub IsTail : List Elem → List ℕ → Type 0
IsTail es [] = stored es ≡ []
IsTail [] (v ∷ vs) = ⊥
IsTail (e ∷ es) (v ∷ vs) = (e.used ≡ true) × (e.value ≡ v) × IsTail es vs

-- These values are in use from an index on, and nothing else is.
abbrev pub IsWindow : List Elem → ℕ → List ℕ → Type 0
IsWindow es zero vs = IsTail es vs
IsWindow [] (suc n) vs = ⊥
IsWindow (e ∷ es) (suc n) vs = (e.used ≡ false) × IsWindow es n vs

abbrev pub AtLeast : ℕ → List ℕ → Type 0
AtLeast k vs = All (λ v. k ≤ v) vs

abbrev pub IsSorted : List ℕ → Type 0
IsSorted [] = Unit {0}
IsSorted (v ∷ vs) = AtLeast v vs × IsSorted vs

-- The reference: two sorted lists are merged, the second before the first where they are equal.
unfoldable pub merge_values : List ℕ → List ℕ → List ℕ
merge_values [] ys = ys
merge_values (x ∷ xs) [] = x ∷ xs
merge_values (x ∷ xs) (y ∷ ys) = elim (ltb x y) [
  | true ↦ x ∷ merge_values xs (y ∷ ys)
  | false ↦ y ∷ merge_values (x ∷ xs) ys
]

pub AtLeast-mono : (j k : ℕ) (vs : List ℕ) → j ≤ k → AtLeast k vs → AtLeast j vs
AtLeast-mono j k [] h a = tt
AtLeast-mono j k (v ∷ vs) h a = (omega arith, AtLeast-mono j k vs h a.1)

merge_values-AtLeast :
    (k : ℕ) (xs ys : List ℕ) → AtLeast k xs → AtLeast k ys → AtLeast k (merge_values xs ys)
unfolding merge_values
merge_values-AtLeast k [] ys a b = b
merge_values-AtLeast k (x ∷ xs) [] a b = a
merge_values-AtLeast k (x ∷ xs) (y ∷ ys) a b =
    ground
      (arith, merge_values-AtLeast k xs (y ∷ ys) a.1 b, merge_values-AtLeast k (x ∷ xs) ys a b.1)

pub merge_values-IsSorted :
    (xs ys : List ℕ) → IsSorted xs → IsSorted ys → IsSorted (merge_values xs ys)
unfolding merge_values
merge_values-IsSorted [] ys a b = b
merge_values-IsSorted (x ∷ xs) [] a b = a
merge_values-IsSorted (x ∷ xs) (y ∷ ys) a b = elim (Bool-cases (ltb x y)) [
  | inl e ↦
      rw (e, merge_values)
        (
          merge_values-AtLeast x xs (y ∷ ys) a.0
              (ground arith, AtLeast-mono x y ys (ground arith) b.0),
          merge_values-IsSorted xs (y ∷ ys) a.1 b,
        )
  | inr e ↦
      rw (e, merge_values)
        (
          merge_values-AtLeast y (x ∷ xs) ys (ground arith, AtLeast-mono y x xs (ground arith) a.0)
              b.0,
          merge_values-IsSorted (x ∷ xs) ys a b.1,
        )
]

pub merge_values-perm : (xs ys : List ℕ) → Perm (merge_values xs ys) (xs ++ ys)
unfolding merge_values
merge_values-perm [] ys = Perm.refl ys
merge_values-perm (x ∷ xs) [] = rw append-nil (Perm.refl (x ∷ xs))
merge_values-perm (x ∷ xs) (y ∷ ys) = elim (Bool-cases (ltb x y)) [
  | inl e ↦ rw (e, merge_values) (Perm.cons x (merge_values-perm xs (y ∷ ys)))
  | inr e ↦
      rw (e, merge_values)
        (Perm.trans (Perm.cons y (merge_values-perm (x ∷ xs) ys))
          (Perm.symm (perm_middle (x ∷ xs) ys)))
]

pub length-merge_values : (xs ys : List ℕ) → length (merge_values xs ys) ≡ length xs + length ys
unfolding merge_values
length-merge_values [] ys = omega arith
length-merge_values (x ∷ xs) [] = omega arith
length-merge_values (x ∷ xs) (y ∷ ys) =
    ground (arith, length-merge_values xs (y ∷ ys), length-merge_values (x ∷ xs) ys)

-- What the loops write: elements in use with given values.
abbrev pub IsWritten : List Elem → List ℕ → Type 0
IsWritten [] [] = Unit {0}
IsWritten [] (v ∷ vs) = ⊥
IsWritten (e ∷ es) [] = ⊥
IsWritten (e ∷ es) (v ∷ vs) = (e.used ≡ true) × (e.value ≡ v) × IsWritten es vs

pub keep-IsWritten : (es : List Elem) → IsWritten (keep in_use es) (stored es)
unfolding stored
keep-IsWritten [] = tt
keep-IsWritten (e ∷ es) = ground (arith, keep-IsWritten es)

pub merge_values-nil : (xs : List ℕ) → merge_values xs [] ≡ xs
unfolding merge_values
merge_values-nil [] = refl
merge_values-nil (x ∷ xs) = refl

pub merge_elems-IsWritten :
    (ls rs : List Elem) → IsWritten (merge_elems ls rs) (merge_values (stored ls) (stored rs))
unfolding stored merge_values merge_elems
merge_elems-IsWritten [] rs = keep-IsWritten rs
merge_elems-IsWritten (l ∷ ls) [] =
    rw (merge_values-nil (stored (l ∷ ls))) (keep-IsWritten (l ∷ ls))
merge_elems-IsWritten (l ∷ ls) (r ∷ rs) =
    ground (arith, merge_elems-IsWritten ls (r ∷ rs), merge_elems-IsWritten (l ∷ ls) rs)

pub stored-window : (es : List Elem) (n : ℕ) (vs : List ℕ) → IsWindow es n vs → stored es ≡ vs
unfolding stored
stored-window es zero [] h = h
stored-window [] zero (v ∷ vs) h = absurd h
stored-window (e ∷ es) zero (v ∷ vs) h = ground (arith, stored-window es zero vs h.2)
stored-window [] (suc n) vs h = absurd h
stored-window (e ∷ es) (suc n) vs h = ground (arith, stored-window es n vs h.1)

pub stored-drop :
    (es : List Elem) (n : ℕ) (vs : List ℕ) → IsWindow es n vs → stored (drop n es) ≡ vs
unfolding stored
stored-drop es zero vs h = stored-window es zero vs h
stored-drop [] (suc n) vs h = absurd h
stored-drop (e ∷ es) (suc n) vs h = stored-drop es n vs h.1

pub stored-popped : (es : List Elem) → stored (map popped es) ≡ []
unfolding stored
stored-popped [] = refl
stored-popped (e ∷ es) = stored-popped es

pub stored-pop_from :
    (es : List Elem) (n : ℕ) (vs : List ℕ) → IsWindow es n vs → stored (pop_from n es) ≡ []
unfolding stored pop_from
stored-pop_from es zero vs h = stored-popped es
stored-pop_from [] (suc n) vs h = refl
stored-pop_from (e ∷ es) (suc n) vs h = ground (arith, stored-pop_from es n vs h.1)

stored-tail : (e : Elem) (es : List Elem) → stored (e ∷ es) ≡ [] → stored es ≡ []
unfolding stored
stored-tail e es h = ground arith

-- Writing to a clear array from the front.
pub overlay-IsTail :
    (ws es : List Elem) (vs : List ℕ)
    → IsWritten ws vs
    → stored es ≡ []
    → length vs ≤ length es
    → IsTail (overlay ws es) vs
unfolding stored
overlay-IsTail [] es [] w h k = h
overlay-IsTail [] es (v ∷ vs) w h k = absurd w
overlay-IsTail (x ∷ ws) es [] w h k = absurd w
overlay-IsTail (x ∷ ws) [] (v ∷ vs) w h k = absurd (omega arith)
overlay-IsTail (x ∷ ws) (e ∷ es) (v ∷ vs) w h k =
    (w.0, w.1, overlay-IsTail ws es vs w.2 (stored-tail e es h) (omega arith))

pub length-IsTail : (es : List Elem) (vs : List ℕ) → IsTail es vs → length vs ≤ length es
length-IsTail es [] h = omega arith
length-IsTail [] (v ∷ vs) h = absurd h
length-IsTail (e ∷ es) (v ∷ vs) h = omega (arith, length-IsTail es vs h.2)

pub length-IsWindow :
    (es : List Elem) (n : ℕ) (vs : List ℕ) → IsWindow es n vs → length vs + n ≤ length es
length-IsWindow es zero vs h = omega (arith, length-IsTail es vs h)
length-IsWindow [] (suc n) vs h = absurd h
length-IsWindow (e ∷ es) (suc n) vs h = omega (arith, length-IsWindow es n vs h.1)

pub length-pop_from : (es : List Elem) (n : ℕ) → length (pop_from n es) ≡ length es
unfolding pop_from
length-pop_from es zero = length-map es popped
length-pop_from [] (suc n) = refl
length-pop_from (e ∷ es) (suc n) = ap suc (length-pop_from es n)

-- The first element of the window, and the window without it.
pub get_elem?-IsWindow :
    (es : List Elem) (n : ℕ) (v : ℕ) (vs : List ℕ)
    → IsWindow es n (v ∷ vs)
    → (e : Elem) × (get_elem? es n ≡ some e)
      × (e.used ≡ true)
      × (e.value ≡ v)
      × IsWindow (set es n (popped e)) (suc n) vs
get_elem?-IsWindow [] zero v vs h = absurd h
get_elem?-IsWindow (e ∷ es) zero v vs h = (e, refl, h.0, h.1, (refl, h.2))
get_elem?-IsWindow [] (suc n) v vs h = absurd h
get_elem?-IsWindow (x ∷ es) (suc n) v vs h =
    let (e, r, u, w, k) = get_elem?-IsWindow es n v vs h.1 in (e, r, u, w, (h.0, k))
