-- ===== src/Tests/Sequential.antt =====
-- The sequential LSM.
use klsm.Seq.Window.{stored}
use klsm.Seq.Blocks.{Holds, IsIdle, seq_block-IsIdle, merge_lem}
use klsm.Base.{
  true, false, arith, Perm, ◌++◌, ℕ, zero, suc, ◌≡◌, refl, Option, none, some, List, [], ◌∷◌,
}
use klsm.Seq.{Ptr, Elem, SeqBlock, seq_block}
use klsm.Seq.Lsm.{Lsm, lsm, insert, delete_min}

abbrev unset : ℕ → ℕ → SeqBlock
unset i j = seq_block 0 0

abbrev insert_all : List ℕ → Lsm → Option Lsm
insert_all [] w = some w
insert_all (k ∷ ks) w = elim (insert 0 20 k w) [ none ↦ none | some (_, w') ↦ insert_all ks w' ]

abbrev delete_all : ℕ → Lsm → List (Option ℕ)
delete_all zero w = []
delete_all (suc n) w = elim (delete_min 0 20 w) [ none ↦ [] | some (v, w') ↦ v ∷ delete_all n w' ]

abbrev sort : List ℕ → List (Option ℕ)
sort ks = elim (insert_all ks (lsm unset)) [ none ↦ [] | some w ↦ delete_all 6 w ]

sort_five : sort (3 ∷ 1 ∷ 2 ∷ 5 ∷ 4 ∷ []) ≡ some 1 ∷ some 2 ∷ some 3 ∷ some 4 ∷ some 5 ∷ none ∷ []
unfolding insert delete_min lsm seq_block klsm.Seq.put klsm.Seq.merge klsm.Seq.peek klsm.Seq.pop
    klsm.Seq.shrink klsm.Seq.set_unused
sort_five = refl

abbrev pub cell_of : ℕ → Elem
cell_of v = record { value = v; used = true }

abbrev no_cell : Elem
no_cell = record { value = 0; used = false }

abbrev pub a_block : List Elem → ℕ → ℕ → ℕ → SeqBlock
a_block es i n c = record {
  prev = none;
  next = none;
  elems = es;
  first = i;
  size = n;
  capacity = c;
  used = true;
}

abbrev pub two_nine : SeqBlock
two_nine = a_block (cell_of 2 ∷ cell_of 9 ∷ []) 0 2 2

abbrev only_five : SeqBlock
only_five = a_block (no_cell ∷ cell_of 5 ∷ []) 1 1 2

abbrev pub fresh : ℕ → SeqBlock
fresh n = seq_block 0 n

pub two_nine-Holds : Holds two_nine (2 ∷ 9 ∷ [])
unfolding stored
two_nine-Holds = record {
  window = (refl, refl, (refl, refl, refl));
  sized = refl;
  allocated = refl;
  taken = refl;
  ordered = ((omega arith, tt), (tt, tt));
}

only_five-Holds : Holds only_five (5 ∷ [])
unfolding stored
only_five-Holds = record {
  window = (refl, (refl, refl, refl));
  sized = refl;
  allocated = refl;
  taken = refl;
  ordered = (tt, tt);
}

pub fresh-IsIdle : (n : ℕ) → IsIdle (fresh n)
fresh-IsIdle n = seq_block-IsIdle 0 n

merge_lem_example :
    (m' l' r' : SeqBlock) × (vs : List ℕ) × (klsm.Seq.merge (fresh 4) two_nine only_five
      ≡ some (m', l', r'))
    × Holds m' vs
    × Perm vs ((2 ∷ 9 ∷ []) ++ (5 ∷ []))
    × IsIdle l'
    × IsIdle r'
    × (m'.capacity ≡ (fresh 4).capacity)
unfolding seq_block
merge_lem_example = merge_lem (fresh-IsIdle 4) two_nine-Holds only_five-Holds refl refl
