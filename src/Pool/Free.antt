-- ===== src/Pool/Free.antt =====
-- `block_pool::free_local_except`: an insertion gives back what it allocated.
use native.Mathlib.Decide.{ℕ_discrete}
use klsm.Base.{
  subst, not, ◌&&◌, ℕ, ◌≡◌, ◌∙◌, sym, ap, inl, inr, Bool, true, false, Option, some, List, [], ◌∷◌,
  if◌then◌else◌, ◌==◌, get_elem?, arith, Bool-cases, Option-cases, get_elem?-lt, get_elem?-set_self,
  get_elem?-set_ne,
}
use klsm.Pool.{
  Slot, Pool, Status, is_local, free_slot, free_loop, listed, free_local_except, is_that, free_at,
}

-- Every slot in the state local is among the local indexes.
abbrev pub Tracked : Pool → Type 0
Tracked p =
    (j : ℕ) (s : Slot)
    → get_elem? p.slots j ≡ some s
    → is_local s.status ≡ true
    → listed j p.local_ixs ≡ true

-- What becomes of a slot whose index is listed or not.
abbrev pub freed : Option ℕ → ℕ → Bool → Slot → Slot
freed that j hit s = if hit then (if is_that that j then s else free_slot s) else s

free_at-at :
    (that : Option ℕ) (k : ℕ) (slots : List Slot) (j : ℕ) (s : Slot)
    → get_elem? slots j ≡ some s
    → get_elem? (free_at that k slots) j ≡ some (freed that j (j == k) s)
unfolding free_at
free_at-at that k slots j s h = elim (ℕ_discrete k j) [
  | yes same ↦
      let here : get_elem? slots k ≡ some s = rw same h in
      let hit : (j == k) ≡ true = ground arith in
      elim (Bool-cases (is_that that k)) [
        | inl e ↦ rw (hit, e) (h ∙ ap some (sym (rw (subst (λ m. is_that that m ≡ true) same e))))
        | inr e ↦
            rw (hit, e)
              (rw (here, free_at)
                (rw (same) (
                  get_elem?-set_self slots j (free_slot s) (get_elem?-lt slots j h)
                  ∙ ap some (sym (rw (subst (λ m. is_that that m ≡ false) same e))))))
      ]
  | no differ ↦
      let miss : (j == k) ≡ false = ground arith in
      elim (Bool-cases (is_that that k)) [
        | inl e ↦ rw (miss, e) h
        | inr e ↦
            rw (miss, e)
              (elim (Option-cases (get_elem? slots k)) [
                | inl n ↦ rw (n, free_at) h
                | inr (t, n) ↦ rw (n, free_at) (get_elem?-set_ne slots (free_slot t) differ ∙ h)
              ])
      ]
]

freed_twice :
    (that : Option ℕ) (j : ℕ) (a b : Bool) (s : Slot)
    → freed that j b (freed that j a s) ≡ freed that j (if a then true else b) s
freed_twice that j a b s = ground arith

-- What the loop leaves at one index.
free_loop-at :
    (that : Option ℕ) (js : List ℕ) (slots : List Slot) (j : ℕ) (s : Slot)
    → get_elem? slots j ≡ some s
    → get_elem? (free_loop that js slots) j ≡ some (freed that j (listed j js) s)
unfolding free_loop listed
free_loop-at that [] slots j s h = h
free_loop-at that (k ∷ js) slots j s h =
    free_loop-at that js (free_at that k slots) j (freed that j (j == k) s)
      (free_at-at that k slots j s h)
    ∙ ap some (freed_twice that j (j == k) (listed j js) s)

-- If all local slots are among the local indexes, freeing leaves no slot local but the one that is
-- kept; a slot that is not local stays as it is, and so does the kept one; the rest become free with
-- their blocks and versions.
pub free_local_except_lem :
    (p : Pool) (that : Option ℕ)
    → Tracked p
    → (j : ℕ) (s : Slot) → get_elem? p.slots j ≡ some s
    → get_elem? (free_local_except p that).slots j
      ≡ some (
          if is_local s.status && not (is_that that j)
          then record s { status = Status.free }
          else s)
unfolding free_local_except
free_local_except_lem p that tracked j s h =
    free_loop-at that p.local_ixs p.slots j s h
    ∙ ap some (elim (Bool-cases (is_local s.status)) [
      | inl e ↦ rw (tracked j s h e, e) (ground arith)
      | inr e ↦ rw e (ground arith)
    ])
