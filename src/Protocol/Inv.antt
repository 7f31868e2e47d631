-- ===== src/Protocol/Inv.antt =====
-- What holds of the shared memory and of each thread in the protocol of the shared LSM.
use klsm.Base.{ℕ, ◌+◌, ◌%◌, ◌≤◌, ◌<◌, ◌≡◌, ◌≢◌, ◌^◌, ◌⊎◌, Option, none, some, true, false}
use klsm.Protocol.{
  Pointer, Shared, Copy, Pc, idle, loaded, seen, testing, searching, reloaded, reseen, copying,
  copied, confirming, ready, writing, filling, comparing, swapping, array_at, pool_of, first_pivot,
}

-- The number of publications so far.
abbrev pub now : Shared → ℕ
now sh = sh.global.stamp

-- The array still has what was published under the pointer's version.
pub record Intact (sh : Shared) (g : Pointer) : Type 0 where
  pub same : (array_at sh g).stamp ≡ g.stamp
  pub finished : (array_at sh g).done ≡ true
  pub content : (k : ℕ) → (array_at sh g).cell k ≡ sh.history g.stamp k

-- Its owner has begun to overwrite it.
pub record Lost (sh : Shared) (g : Pointer) : Type 0 where
  pub above : g.stamp < (array_at sh g).stamp
  pub below : (array_at sh g).stamp ≤ now sh + 1
  pub outdated : g.stamp < now sh

-- A pointer that was global.
pub record WasGlobal (sh : Shared) (g : Pointer) : Type 0 where
  pub past : g.stamp ≤ now sh
  pub parity : g.parity ≡ g.stamp % 2
  pub same_owner : g.stamp ≡ now sh → g.owner ≡ sh.global.owner
  pub content : Intact sh g ⊎ Lost sh g

-- The arrays of a thread have versions up to `bound`.
abbrev pub UpTo : Shared → ℕ → ℕ → Type 0
UpTo sh t bound = (b : ℕ) → (sh.arrays t b).stamp ≤ bound

-- The first `k` words of the copy, but for the pivots, are those that were published under version `v`.
abbrev pub Holds : Shared → Copy → ℕ → ℕ → Type 0
Holds sh l v k = (j : ℕ) → j < k → j < first_pivot → l.cell j ≡ sh.history v j

-- The copy is of contents that were published, but for the pivots.
pub record IsSnapshot (width : ℕ) (sh : Shared) (l : Copy) : Type 0 where
  pub past : l.stamp ≤ now sh
  pub content : Holds sh l l.stamp width

-- A version that was read from an array which was global as `g`.
abbrev pub SeenAt : Shared → Pointer → ℕ → Type 0
SeenAt sh g u = (u ≡ g.stamp) ⊎ ((g.stamp < u) × (u ≤ now sh + 1))

module _ (width t : ℕ) (sh : Shared) (l : Copy) where
  pub record Begun (g : Pointer) : Type 0 where
    pub was : WasGlobal sh g
    pub own : UpTo sh t g.stamp

  -- During the test of freshness.
  pub record Fresh (g : Pointer) : Type 0 where
    pub begun : Begun g
    pub snapshot : IsSnapshot width sh l
    pub older : l.stamp ≤ g.stamp

  pub record Copying (g : Pointer) (u k : ℕ) : Type 0 where
    pub begun : Begun g
    pub observed : u ≡ g.stamp
    pub within : k ≤ width
    pub version : SeenAt sh g l.stamp
    pub content : (array_at sh g).stamp ≡ g.stamp → Holds sh l g.stamp k

  pub record Copied (g : Pointer) (u : ℕ) : Type 0 where
    pub begun : Begun g
    pub observed : u ≡ g.stamp
    pub version : SeenAt sh g l.stamp
    pub content : l.stamp ≡ g.stamp → Holds sh l g.stamp width

  -- With a fresh copy.
  pub record Ready (g : Pointer) (u : ℕ) : Type 0 where
    pub was : WasGlobal sh g
    pub observed : u ≡ g.stamp
    pub version : l.stamp ≡ g.stamp
    pub content : Holds sh l g.stamp width

  -- While the new array is written, under version `v`.
  pub record Writing (g : Pointer) (u v : ℕ) : Type 0 where
    pub ready : Ready g u
    pub own : (b : ℕ) → b ≢ pool_of u → (sh.arrays t b).stamp ≤ g.stamp
    pub new : (sh.arrays t (pool_of u)).stamp ≡ v
    pub open_still : (sh.arrays t (pool_of u)).done ≡ false

  abbrev pub IsSafe : Pc → Type 0
  IsSafe idle = UpTo sh t (now sh) × IsSnapshot width sh l
  IsSafe (loaded g) = Fresh g
  IsSafe (seen g u) = Fresh g × (now sh ≡ g.stamp → u ≡ g.stamp)
  IsSafe (testing g u p) =
      Fresh g × WasGlobal sh p × (g.stamp ≤ p.stamp) × (p.stamp ≡ g.stamp → u ≡ g.stamp)
  IsSafe searching = UpTo sh t (now sh)
  IsSafe (reloaded g) = Begun g
  IsSafe (reseen g u) = Begun g × SeenAt sh g u
  IsSafe (copying g u k) = Copying g u k
  IsSafe (copied g u) = Copied g u
  IsSafe (confirming g u p) = Copied g u
  IsSafe (ready g u) = Ready g u × UpTo sh t g.stamp
  IsSafe (writing g u) = Writing g u g.stamp
  IsSafe (filling g u) = Writing g u (g.stamp + 1)
  IsSafe (comparing g u p) = Writing g u (g.stamp + 1) × WasGlobal sh p × (g.stamp ≤ p.stamp)
  IsSafe (swapping g u) = Writing g u (g.stamp + 1)

-- The program compares only the low bits of versions. A thread is in time if fewer than 2047 arrays
-- were published since it loaded the pointer, and its copy is less than 2^32 versions old.
abbrev pub started : Pc → Option ℕ
started idle = none
started searching = none
started (loaded g) = some g.stamp
started (seen g u) = some g.stamp
started (testing g u p) = some g.stamp
started (reloaded g) = some g.stamp
started (reseen g u) = some g.stamp
started (copying g u k) = some g.stamp
started (copied g u) = some g.stamp
started (confirming g u p) = some g.stamp
started (ready g u) = some g.stamp
started (writing g u) = some g.stamp
started (filling g u) = some g.stamp
started (comparing g u p) = some g.stamp
started (swapping g u) = some g.stamp

abbrev pub Since : Shared → Option ℕ → Type 0
Since sh none = Unit
Since sh (some m) = now sh + 1 < m + 2048

pub record InTime (sh : Shared) (pc : Pc) (l : Copy) : Type 0 where
  pub since : Since sh (started pc)
  pub copy : now sh + 1 < l.stamp + 2 ^ 32

-- The array that the global pointer names is as it was published.
pub record IsCurrent (sh : Shared) : Type 0 where
  pub intact : Intact sh sh.global
  pub parity : sh.global.parity ≡ now sh % 2
