-- ===== src/Tests/Chains.antt =====
-- Lists of blocks of the sequential LSM.
use klsm.Seq.Window.{stored}
use klsm.Seq.Blocks.{Holds, IsIdle}
use klsm.Base.{inl, inr, ◌⊎◌, ◌<◌, ◌^◌, arith, Perm, ℕ, zero, suc, ◌≡◌, refl, some, List, [], ◌∷◌}
use klsm.Seq.{Ptr, SeqBlock, seq_block}
use klsm.Seq.Store.{IsPool}
use klsm.Seq.Chain.{Node, IsIn, IsLsm, all_values}
use klsm.Seq.Insert.{insert_lem}
use klsm.Seq.Lsm.{Lsm, lsm, insert}
use klsm.Seq.Delete.{Deletes, delete_min_lem}
use klsm.Seq.Replay.{Call, inserting, deleting, Runs, run-replay}
use klsm.Tests.Sequential.{cell_of, a_block, two_nine, fresh, two_nine-Holds, fresh-IsIdle}

-- A list with one block, of level 0.
abbrev only_three : SeqBlock
only_three = a_block (cell_of 3 ∷ []) 0 1 1

abbrev some_blocks : ℕ → ℕ → SeqBlock
some_blocks i zero = only_three
some_blocks i (suc j) = fresh 1

abbrev one_block : Lsm
one_block = record { head = some (0, 0); levels = 1; blocks = some_blocks }

abbrev three : Node
three = record { ptr = (0, 0); values = 3 ∷ [] }

only_three-Holds : Holds only_three (3 ∷ [])
unfolding stored
only_three-Holds = record {
  window = (refl, refl, refl);
  sized = refl;
  allocated = refl;
  taken = refl;
  ordered = (tt, tt);
}

one_block-sized : (p : Ptr) → p.0 < 1 → (some_blocks p.0 p.1).capacity ≡ 2 ^ p.0
unfolding seq_block
one_block-sized (zero, zero) h = refl
one_block-sized (zero, suc j) h = refl
one_block-sized (suc i, j) h = absurd (omega arith)

one_block-idle : (p : Ptr) → p.0 < 1 → IsIn p (three ∷ []) ⊎ IsIdle (some_blocks p.0 p.1)
one_block-idle (zero, zero) h = inl (inl refl)
one_block-idle (zero, suc j) h = inr (fresh-IsIdle 1)
one_block-idle (suc i, j) h = absurd (omega arith)

one_block-IsPool : IsPool one_block (λ p. IsIn p (three ∷ []))
one_block-IsPool = record {
  bounded = omega arith;
  sized = one_block-sized;
  idle = one_block-idle;
  in_use = λ p b. elim b [ inl e ↦ rw e refl | inr x ↦ absurd x ];
  allocated = λ p b. elim b [ inl e ↦ rw e (omega arith) | inr x ↦ absurd x ];
}

one_block-IsLsm : IsLsm one_block (three ∷ [])
one_block-IsLsm = record {
  pool = one_block-IsPool;
  chain = (refl, record { holds = only_three-Holds; half = omega arith }, omega arith, refl, refl);
  top = inl (omega arith);
}

insert_lem_example :
    (w' : Lsm) × (ms : List Node) × (insert 0 2 1 one_block ≡ some (tt, w'))
    × IsLsm w' ms
    × Perm (all_values ms) (1 ∷ all_values (three ∷ []))
insert_lem_example = insert_lem 0 2 1 one_block-IsLsm (omega arith) (omega arith)

-- A list with one block, of level 1.
abbrev pair : Node
pair = record { ptr = (1, 0); values = 2 ∷ 9 ∷ [] }

pair-inside : (p : Ptr) → IsIn p (pair ∷ []) → p.0 < 2
pair-inside p (inl e) = rw e (omega arith)
pair-inside p (inr x) = absurd x

abbrev high_blocks : ℕ → ℕ → SeqBlock
high_blocks zero j = fresh 1
high_blocks (suc zero) zero = two_nine
high_blocks (suc zero) (suc j) = fresh 2
high_blocks (suc (suc i)) j = fresh 0

abbrev high : Lsm
high = record { head = some (1, 0); levels = 2; blocks = high_blocks }

high-sized : (p : Ptr) → p.0 < 2 → (high_blocks p.0 p.1).capacity ≡ 2 ^ p.0
unfolding seq_block
high-sized (zero, j) h = refl
high-sized (suc zero, zero) h = refl
high-sized (suc zero, suc j) h = refl
high-sized (suc (suc i), j) h = absurd (omega arith)

high-idle : (p : Ptr) → p.0 < 2 → IsIn p (pair ∷ []) ⊎ IsIdle (high_blocks p.0 p.1)
high-idle (zero, j) h = inr (fresh-IsIdle 1)
high-idle (suc zero, zero) h = inl (inl refl)
high-idle (suc zero, suc j) h = inr (fresh-IsIdle 2)
high-idle (suc (suc i), j) h = absurd (omega arith)

high-IsLsm : IsLsm high (pair ∷ [])
high-IsLsm = record {
  pool = record {
    bounded = omega arith;
    sized = high-sized;
    idle = high-idle;
    in_use = λ p b. elim b [ inl e ↦ rw e refl | inr x ↦ absurd x ];
    allocated = pair-inside;
  };
  chain = (refl, record { holds = two_nine-Holds; half = omega arith }, omega arith, refl, refl);
  top = inl (omega arith);
}

delete_min_lem_example : Deletes 0 3 high (pair ∷ [])
delete_min_lem_example = delete_min_lem 0 3 high-IsLsm (omega arith)

abbrev some_calls : List Call
some_calls =
    inserting 5
    ∷ inserting 3
    ∷ inserting 7
    ∷ deleting
    ∷ inserting 1
    ∷ deleting
    ∷ deleting
    ∷ deleting
    ∷ deleting
    ∷ []

run-replay_example : Runs 0 some_calls (lsm high_blocks) []
run-replay_example = run-replay 0 high_blocks some_calls (omega arith)
