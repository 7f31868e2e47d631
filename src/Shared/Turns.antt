-- ===== src/Shared/Turns.antt =====
-- `shared_lsm_local::insert_block`: the thread's two arrays take turns.
use klsm.Base.{ℕ, ◌%◌, ◌≡◌, ◌≢◌}
use klsm.Pool
use klsm.Packed.{default_alignment}
use klsm.Shared.{SharedLsm, SharedEnv, version_at}
use klsm.Shared.Rounds.{Points, next_place}

-- Where the thread's two arrays lie.
pub record IsPlaced (e : SharedEnv) : Type 0 where
  pub odds : e.odds % default_alignment ≡ 0
  pub evens : e.evens % default_alignment ≡ 0
  pub apart : e.evens ≢ e.odds

-- The global array is aligned and matched by the pointer. If it is the thread's array for even
-- versions, then its version is even, and if it is that for odd ones, odd.
pub record IsInTurn (e : SharedEnv) (w : SharedLsm) : Type 0 where
  pub place : ℕ
  pub points : Points w place
  pub even : place ≡ e.evens → version_at w place % 2 ≡ 0
  pub odd : place ≡ e.odds → version_at w place % 2 ≡ 1

module _ {e : SharedEnv} (placed : IsPlaced e) {w : SharedLsm} (turn : IsInTurn e w) where
  abbrev pub next : ℕ
  next = next_place e (version_at w turn.place)
