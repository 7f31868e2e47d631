-- ===== src/Storage/Laws.antt =====
-- The laws of access to blocks through pointers, and of the rows that `get_block` adds.
use native.Mathlib.Decide.{ℕ_discrete}
use klsm.Base.{
  ℕ, suc, ◌≡◌, ◌<◌, ◌≢◌, refl, ap₂, false, some, List, [], ◌∷◌, if◌then◌else◌, length, get_elem?,
  set, arith, All, get_elem?-set_self, get_elem?-set_ne, get_elem?-lt, Option-cases, inl, inr,
  Bool-cases,
}
use klsm.Block.{Block, BlockPtr}
use klsm.Storage.{Storage, load, store, choose}

-- The blocks of a row that are in use.
abbrev pub in_use : List Block → ℕ
in_use [] = 0
in_use (b ∷ bs) = let rest = in_use bs in if b.used then suc rest else rest

-- Row `k` and those behind it hold `n` blocks each, of the row's power of two.
abbrev pub Rows : ℕ → ℕ → List (List Block) → Type 0
Rows n k [] = Unit {0}
Rows n k (row ∷ rows) = (length row ≡ n) × All (λ b. b.power_of_2 ≡ k) row × Rows n (suc k) rows

-- If a block of a row is free, `choose` gives the index of a free one.
pub choose_lem :
    (row : List Block)
    → in_use row < length row
    → (b : Block) × (get_elem? row (choose row) ≡ some b) × (b.used ≡ false)
unfolding choose
choose_lem [] h = absurd (omega arith)
choose_lem (b ∷ []) h = (b, refl, ground arith)
choose_lem (b ∷ c ∷ bs) h = elim (Bool-cases b.used) [
  | inl e ↦ let (d, at, free) = choose_lem (c ∷ bs) (ground arith) in (d, rw e at, free)
  | inr e ↦ (b, rw e, e)
]

pub load-row :
    (st : Storage) (i j : ℕ) {c : Block}
    → load st (i, j) ≡ some c
    → (row : List Block) × (get_elem? st.blocks i ≡ some row) × (get_elem? row j ≡ some c)
unfolding load
load-row st i j h = elim (Option-cases (get_elem? st.blocks i)) [
  | inl e ↦ absurd (ground arith)
  | inr (row, e) ↦ (row, e, ground arith)
]

pub load-store_self :
    (st : Storage) (p : BlockPtr) (b : Block) {c : Block}
    → load st p ≡ some c
    → load (store st p b) p ≡ some b
unfolding load store
load-store_self st (i, j) b h =
    let (row, e, at) = load-row st i j h in
    let there : get_elem? (set st.blocks i (set row j b)) i ≡ some (set row j b) =
      get_elem?-set_self st.blocks i (set row j b) (get_elem?-lt st.blocks i e) in
    rw (e, store) (rw (there, load) (get_elem?-set_self row j b (get_elem?-lt row j at)))

pub load-store_ne :
    (st : Storage) (p q : BlockPtr) (b : Block) → p ≢ q → load (store st p b) q ≡ load st q
unfolding load store
load-store_ne st (i, j) (k, l) b h = elim (Option-cases (get_elem? st.blocks i)) [
  | inl e ↦ rw (e, store)
  | inr (row, e) ↦ elim (ℕ_discrete i k) [
    | yes same ↦
        let there : get_elem? (set st.blocks i (set row j b)) k ≡ some (set row j b) =
          rw (← same) (get_elem?-set_self st.blocks i (set row j b) (get_elem?-lt st.blocks i e)) in
        let here : get_elem? st.blocks k ≡ some row = rw (← same) e in
        rw (e, store)
          (rw (there, load) (rw (here, load) (get_elem?-set_ne row b (λ js. h (ap₂ pair same js)))))
    | no differ ↦ rw (e, store) (rw (get_elem?-set_ne st.blocks (set row j b) differ, load) refl)
  ]
]
  where
    pair : ℕ → ℕ → BlockPtr
    pair x y = (x, y)

pub load-eq :
    (st : Storage) (i j : ℕ) {row : List Block}
    → get_elem? st.blocks i ≡ some row
    → load st (i, j) ≡ get_elem? row j
unfolding load
load-eq st i j e = rw (e, load)

pub store-blocks :
    (st : Storage) (i j : ℕ) (b : Block) {row : List Block}
    → get_elem? st.blocks i ≡ some row
    → (store st (i, j) b).blocks ≡ set st.blocks i (set row j b)
unfolding store
store-blocks st i j b e = rw (e, store)
