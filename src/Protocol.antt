-- ===== src/Protocol.antt =====
-- shared_lsm/shared_lsm_local_inl.h: how threads refresh their copies of the global block array and
-- publish new arrays, one access to shared memory at a time, interleaved in any order.
-- A thread owns two arrays, for odd and even versions. Versions are kept whole here and cut where
-- the program compares them: to 32 bits as `version_t`, and to the low bits of a packed pointer.
-- An array's contents are the words that `copy_from` copies: `m_size`, the block pointers and, from
-- word `first_pivot` on, `m_pivots`. Pointers at and after `m_size`, which `copy_from` passes over and
-- nothing reads, count as null; words that the constructors leave uninitialised are taken to be 0.
-- What an insertion writes into its own array is left open, and so is what `peek` writes into the
-- pivots of the local copy.
pub mod Inv
pub mod Change
pub mod Writes
pub mod Moves
pub mod Own
pub mod Safety
pub mod Runs
use klsm.Base.{
  ℕ, zero, suc, ◌+◌, ◌%◌, ◌^◌, ◌≤◌, ◌<◌, ◌≡◌, ◌≢◌, ◌==◌, Bool, true, false, ◌&&◌, if◌then◌else◌,
}
use klsm.Packed.{default_alignment, low}

-- `version_t`.
abbrev pub word : ℕ → ℕ
word v = v % 2 ^ 32

-- `version & MASK`.
abbrev pub low_bits : ℕ → ℕ
low_bits v = low default_alignment v

-- The words in front of `m_pivots`: `m_size`, and `MAX_BLOCKS` pointers.
abbrev pub first_pivot : ℕ
first_pivot = 1 + 32

-- A packed pointer: whose array, which of the two, and the version that is packed.
pub record Pointer : Type 0 where
  pub owner : ℕ
  pub parity : ℕ
  pub stamp : ℕ

-- Equality of packed pointers.
abbrev pub same_packed : Pointer → Pointer → Bool
same_packed a b =
    (a.owner == b.owner) && ((a.parity == b.parity) && (low_bits a.stamp == low_bits b.stamp))

-- `done` marks an array that was published and not written since; the program has no such field.
pub record Array : Type 0 where
  pub stamp : ℕ
  pub done : Bool
  pub cell : ℕ → ℕ

-- `history` holds the contents under which each version was published; the program does not keep it.
pub record Shared : Type 0 where
  pub global : Pointer
  pub arrays : ℕ → ℕ → Array
  pub history : ℕ → ℕ → ℕ

abbrev pub array_at : Shared → Pointer → Array
array_at sh p = sh.arrays p.owner p.parity

-- `m_local_array_copy`.
pub record Copy : Type 0 where
  pub stamp : ℕ
  pub cell : ℕ → ℕ

-- Where a thread stands, with the local variables that are live there: `g` is `observed_packed`,
-- `u` is `observed_version`, and `p` the pointer that `global_array.version()` has loaded.
pub data Pc : Type 0 where
  idle : Pc
  loaded : (g : Pointer) → Pc
  seen : (g : Pointer) (u : ℕ) → Pc
  testing : (g : Pointer) (u : ℕ) (p : Pointer) → Pc
  searching : Pc
  reloaded : (g : Pointer) → Pc
  reseen : (g : Pointer) (u : ℕ) → Pc
  copying : (g : Pointer) (u k : ℕ) → Pc
  copied : (g : Pointer) (u : ℕ) → Pc
  confirming : (g : Pointer) (u : ℕ) (p : Pointer) → Pc
  ready : (g : Pointer) (u : ℕ) → Pc
  writing : (g : Pointer) (u : ℕ) → Pc
  filling : (g : Pointer) (u : ℕ) → Pc
  comparing : (g : Pointer) (u : ℕ) (p : Pointer) → Pc
  swapping : (g : Pointer) (u : ℕ) → Pc

-- `(observed_version & 1) ? m_array_pool_evens : m_array_pool_odds`.
abbrev pub pool_of : ℕ → ℕ
pool_of u = if (word u % 2) == 1 then 0 else 1

abbrev pub put : (ℕ → ℕ → Array) → ℕ → ℕ → Array → ℕ → ℕ → Array
put f t b a i c = if i == t then (if c == b then a else f i c) else f i c

abbrev pub put_cell : (ℕ → ℕ) → ℕ → ℕ → ℕ → ℕ
put_cell f k v j = if j == k then v else f j

abbrev pub write_array : Shared → ℕ → ℕ → Array → Shared
write_array sh t b a = record sh { arrays = put sh.arrays t b a }

-- The global pointer names the array of thread `t`, whose contents go down in history.
abbrev pub publish_array : Shared → ℕ → ℕ → Shared
publish_array sh t b = record {
  global = record { owner = t; parity = b; stamp = (sh.arrays t b).stamp };
  arrays = put sh.arrays t b (record (sh.arrays t b) { done = true });
  history = λ v. if v == (sh.arrays t b).stamp then (sh.arrays t b).cell else sh.history v;
}

-- One access of thread `t` to shared memory, with `width` words to an array.
pub data Move (width t : ℕ) (sh : Shared) (l : Copy) : Pc → Shared → Pc → Copy → Type 0 where
  -- `refresh_local_array_copy`, the loads in front of its loop and the test of freshness.
  load : Move width t sh l idle sh (loaded sh.global) l
  see : {g : Pointer} → Move width t sh l (loaded g) sh (seen g (array_at sh g).stamp) l
  test : {g : Pointer} {u : ℕ} → Move width t sh l (seen g u) sh (testing g u sh.global) l
  fresh :
      {g p : Pointer} {u : ℕ}
      → word l.stamp ≡ word (array_at sh p).stamp
      → Move width t sh l (testing g u p) sh (ready g u) l
  stale :
      {g p : Pointer} {u : ℕ}
      → word l.stamp ≢ word (array_at sh p).stamp
      → Move width t sh l (testing g u p) sh searching l
  -- Its loop.
  reload : Move width t sh l searching sh (reloaded sh.global) l
  resee : {g : Pointer} → Move width t sh l (reloaded g) sh (reseen g (array_at sh g).stamp) l
  mismatch :
      {g : Pointer} {u : ℕ}
      → low_bits g.stamp ≢ low_bits (word u)
      → Move width t sh l (reseen g u) sh searching l
  match :
      {g : Pointer} {u : ℕ}
      → low_bits g.stamp ≡ low_bits (word u)
      → Move width t sh l
          (reseen g u)
          sh
          (copying g u 0)
          (record l { stamp = (array_at sh g).stamp })
  -- `copy_from` of the global array.
  copy_cell :
      {g : Pointer} {u k : ℕ}
      → k < width
      → Move width t sh l
          (copying g u k)
          sh
          (copying g u (suc k))
          (record l { cell = put_cell l.cell k ((array_at sh g).cell k) })
  copy_again :
      {g : Pointer} {u k : ℕ}
      → k ≡ width
      → word (array_at sh g).stamp ≢ word l.stamp
      → Move width t sh l
          (copying g u k)
          sh
          (copying g u 0)
          (record l { stamp = (array_at sh g).stamp })
  copy_done :
      {g : Pointer} {u k : ℕ}
      → k ≡ width
      → word (array_at sh g).stamp ≡ word l.stamp
      → Move width t sh l (copying g u k) sh (copied g u) l
  confirm : {g : Pointer} {u : ℕ} → Move width t sh l (copied g u) sh (confirming g u sh.global) l
  accept :
      {g p : Pointer} {u : ℕ}
      → word (array_at sh p).stamp ≡ word u
      → word u ≡ word l.stamp
      → Move width t sh l (confirming g u p) sh (ready g u) l
  reject :
      {g p : Pointer} {u : ℕ}
      → ((word (array_at sh p).stamp ≡ word u) × (word u ≡ word l.stamp) → ⊥)
      → Move width t sh l (confirming g u p) sh searching l
  -- `m_local_array_copy.peek()`, which may rewrite the pivots of the copy; `peek` of the shared LSM
  -- then ends, or starts anew.
  leave :
      {g : Pointer} {u : ℕ} (cell : ℕ → ℕ)
      → ((k : ℕ) → k < first_pivot → cell k ≡ l.cell k)
      → Move width t sh l (ready g u) sh idle (record l { cell = cell })
  -- `insert_block`: `copy_from` of the local copy begins with its version.
  write :
      {g : Pointer} {u : ℕ}
      → Move width t sh l
          (ready g u)
          (write_array sh t
            (pool_of u)
            (record (sh.arrays t (pool_of u)) { stamp = l.stamp; done = false }))
          (writing g u)
          l
  write_cell :
      {g : Pointer} {u : ℕ} (k v : ℕ)
      → Move width t sh l
          (writing g u)
          (write_array sh t (pool_of u) (record (sh.arrays t (pool_of u)) {
            cell = put_cell (sh.arrays t (pool_of u)).cell k v;
          }))
          (writing g u)
          l
  increment :
      {g : Pointer} {u : ℕ}
      → Move width t sh l
          (writing g u)
          (write_array sh t
            (pool_of u)
            (record (sh.arrays t (pool_of u)) { stamp = (sh.arrays t (pool_of u)).stamp + 1 }))
          (filling g u)
          l
  -- `insert` into the new array.
  fill_cell :
      {g : Pointer} {u : ℕ} (k v : ℕ)
      → Move width t sh l
          (filling g u)
          (write_array sh t (pool_of u) (record (sh.arrays t (pool_of u)) {
            cell = put_cell (sh.arrays t (pool_of u)).cell k v;
          }))
          (filling g u)
          l
  compare : {g : Pointer} {u : ℕ} → Move width t sh l (filling g u) sh (comparing g u sh.global) l
  moved :
      {g p : Pointer} {u : ℕ}
      → word u ≢ word (array_at sh p).stamp
      → Move width t sh l (comparing g u p) sh idle l
  steady :
      {g p : Pointer} {u : ℕ}
      → word u ≡ word (array_at sh p).stamp
      → Move width t sh l (comparing g u p) sh (swapping g u) l
  -- `compare_exchange_strong`.
  swap :
      {g : Pointer} {u : ℕ}
      → same_packed sh.global g ≡ true
      → Move width t sh l (swapping g u) (publish_array sh t (pool_of u)) idle l
  lose :
      {g : Pointer} {u : ℕ}
      → same_packed sh.global g ≡ false
      → Move width t sh l (swapping g u) sh idle l

pub record Thread : Type 0 where
  pub pc : Pc
  pub copy : Copy

-- Thread 0 only owns the initial array, and never moves.
pub record System : Type 0 where
  pub shared : Shared
  pub threads : ℕ → Thread

abbrev pub update_thread : (ℕ → Thread) → ℕ → Thread → ℕ → Thread
update_thread f t a i = if i == t then a else f i

pub data Step (width : ℕ) (s : System) : System → Type 0 where
  moves :
      (t : ℕ) {sh : Shared} {pc : Pc} {l : Copy}
      → 0 < t
      → Move width t s.shared (s.threads t).copy (s.threads t).pc sh pc l
      → Step width s (record {
        shared = sh;
        threads = update_thread s.threads t (record { pc = pc; copy = l });
      })

abbrev pub empty_array : Bool → Array
empty_array done = record { stamp = 0; done = done; cell = λ k. 0 }

abbrev pub initial : System
initial = record {
  shared = record {
    global = record { owner = 0; parity = 0; stamp = 0 };
    arrays = λ t b. empty_array (t == 0);
    history = λ v k. 0;
  };
  threads = λ t. record { pc = Pc.idle; copy = record { stamp = 0; cell = λ k. 0 } };
}

pub data Reach (width : ℕ) : System → Type 0 where
  start : Reach width initial
  later : {s s' : System} → Reach width s → Step width s s' → Reach width s'
