-- ===== src/KLsm.antt =====
-- k_lsm/k_lsm.h and k_lsm_inl.h: the thread-local LSM in front of the shared one, as one thread uses
-- them while no other thread takes a step. dist_lsm and shared_lsm only forward to the thread's part.
pub mod Choice
use klsm.Base.{ℕ, zero, suc, ltb, leb, Bool, true, false, Option, none, some, if◌then◌else◌}
use klsm.Base.State.{◌>>=◌, ◌>>◌, pure}
use klsm.Item.{Taken}
use klsm.Block.{Block, BlockItem, Store}
use klsm.Storage.{Fresh}
use klsm.Dist
use klsm.Dist.{World, Env, M, items}
use klsm.Dist.Peek
use klsm.Dist.Peek.{spy_random, take_best}
use klsm.Shared
use klsm.Shared.{SharedLsm, SharedEnv}

-- What the program leaves open for the two parts, and the rounds that the shared LSM's loops get.
pub record KEnv : Type 0 where
  pub fresh : Fresh
  pub tid : ℕ
  pub rlx : ℕ
  pub at : ℕ → ℕ
  pub shared : SharedEnv
  pub rounds : ℕ

-- The shared LSM's part as the thread-local LSM sees it.
abbrev pub hand_in : KEnv → Store → Block → SharedLsm → Option SharedLsm
hand_in k s b x = elim (Shared.insert_copy k.shared s k.rounds k.rounds b x) [
  | none ↦ none
  | some r ↦ some (r.1)
]

abbrev pub dist_env : KEnv → Env SharedLsm
dist_env k = record {
  fresh = k.fresh;
  tid = k.tid;
  rlx = k.rlx;
  at = k.at;
  slsm = some (hand_in k);
}

unfoldable pub insert : KEnv → ℕ → ℕ → ℕ → M SharedLsm (Unit {0})
insert k fuel key val = Dist.insert (dist_env k) fuel key val

-- `m_shared.find_min`.
unfoldable pub find_min_shared : KEnv → M SharedLsm (Option BlockItem)
find_min_shared k w = elim (Shared.peek k.shared w.items k.rounds k.rounds w.shared) [
  | none ↦ none
  | some (best, x) ↦ some (best, record w { shared = x })
]

-- Which of the two candidates is taken.
unfoldable pub choose : Option BlockItem → Option BlockItem → Option BlockItem
choose (some d) (some g) = if leb d.key g.key then some d else some g
choose (some d) none = some d
choose none (some g) = some g
choose none none = none

-- The loop of `delete_min`, in which the candidates of the last round are kept; `none` for false
-- without a `take`.
unfoldable pub delete_min_loop :
    KEnv → ℕ → ℕ → (ℕ → Option Block) → ℕ → Option BlockItem → M SharedLsm (Option Taken)
delete_min_loop k fuel num_threads head_of zero best_dist = λ w. none
delete_min_loop k fuel num_threads head_of (suc rounds) best_dist = do
  d ← Peek.peek (dist_env k) fuel best_dist
  g ← find_min_shared k
  elim (choose d g) [
    | some c ↦ do t ← take_best c; pure (some t)
    | none ↦ do
      n ← spy_random (dist_env k) num_threads head_of
      elim (ltb 0 n) [
        | true ↦ delete_min_loop k fuel num_threads head_of rounds d
        | false ↦ pure none
      ]
  ]

unfoldable pub delete_min : KEnv → ℕ → ℕ → (ℕ → Option Block) → ℕ → M SharedLsm (Option Taken)
unfolding delete_min_loop
delete_min k fuel num_threads head_of rounds =
    delete_min_loop k fuel num_threads head_of rounds none
