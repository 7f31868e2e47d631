-- ===== src/Item/Races.antt =====
-- components/item_inl.h, `initialize` and `take` of one item by its owner and any number of takers,
-- one access to the item at a time, interleaved in any order. Each access is seen by all threads at
-- once, which the relaxed memory orders of the source do not promise.
-- Versions are kept whole here and cut to 32 bits where the program compares them. A taker has the
-- version from a reference that the owner made after `initialize` returned.
pub mod Once
use klsm.Base.{ℕ, ◌+◌, ◌%◌, ◌^◌, ◌≤◌, ◌<◌, ◌≡◌, ◌≢◌, ◌==◌, Bool, true, false, if◌then◌else◌}

-- `version_t`.
abbrev pub word : ℕ → ℕ
word v = v % 2 ^ 32

-- `keys`, `vals` and `takes` record what each version was initialised with and how often it was
-- taken; the program keeps no such record.
pub record Cell : Type 0 where
  pub version : ℕ
  pub key : ℕ
  pub val : ℕ
  pub keys : ℕ → ℕ
  pub vals : ℕ → ℕ
  pub takes : ℕ → ℕ

-- Where the owner stands in `initialize`.
pub data Owner : Type 0 where
  resting : Owner
  counted : (k x : ℕ) → Owner  -- after the version was incremented
  keyed : (k x : ℕ) → Owner  -- after the key was written

-- Where a taker stands in `take`.
pub data Taker : Type 0 where
  away : Taker
  holding : (v : ℕ) → Taker
  got_key : (v k : ℕ) → Taker
  got_val : (v k x : ℕ) → Taker

abbrev pub record_at : (ℕ → ℕ) → ℕ → ℕ → ℕ → ℕ
record_at f v k w = if w == v then k else f w

-- A step of the owner.
pub data Initialize (c : Cell) : Owner → Cell → Owner → Type 0 where
  count :
      (k x : ℕ)
      → word c.version % 2 ≡ 0
      → Initialize c resting
          (record c {
            version = c.version + 1;
            keys = record_at c.keys (c.version + 1) k;
            vals = record_at c.vals (c.version + 1) x;
          })
          (counted k x)
  write_key : {k x : ℕ} → Initialize c (counted k x) (record c { key = k }) (keyed k x)
  write_val : {k x : ℕ} → Initialize c (keyed k x) (record c { val = x }) resting

-- A version of which there are references: the owner has finished initialising it.
abbrev pub IsOffered : Cell → Owner → ℕ → Type 0
IsOffered c resting v = (v % 2 ≡ 1) × (v ≤ c.version)
IsOffered c _ v = (v % 2 ≡ 1) × (v < c.version)

-- A step of a taker.
pub data Take (c : Cell) (o : Owner) : Taker → Cell → Taker → Type 0 where
  obtain : (v : ℕ) → IsOffered c o v → Take c o away c (holding v)
  read_key : {v : ℕ} → Take c o (holding v) c (got_key v c.key)
  read_val : {v k : ℕ} → Take c o (got_key v k) c (got_val v k c.val)
  win :
      {v k x : ℕ}
      → word c.version ≡ word v
      → Take c o
          (got_val v k x)
          (record c { version = c.version + 1; takes = record_at c.takes v (c.takes v + 1) })
          away
  lose : {v k x : ℕ} → word c.version ≢ word v → Take c o (got_val v k x) c away

pub record Race : Type 0 where
  pub cell : Cell
  pub owner : Owner
  pub takers : ℕ → Taker

abbrev pub update_taker : (ℕ → Taker) → ℕ → Taker → ℕ → Taker
update_taker f i a j = if j == i then a else f j

pub data Step (r : Race) : Race → Type 0 where
  initializes :
      {c : Cell} {o : Owner}
      → Initialize r.cell r.owner c o
      → Step r (record r { cell = c; owner = o })
  takes_step :
      (i : ℕ) {c : Cell} {a : Taker}
      → Take r.cell r.owner (r.takers i) c a
      → Step r (record r { cell = c; takers = update_taker r.takers i a })

-- A new item; its key and value are what the memory held.
abbrev pub new_race : ℕ → ℕ → Race
new_race k x = record {
  cell = record { version = 0; key = k; val = x; keys = λ v. 0; vals = λ v. 0; takes = λ v. 0 };
  owner = resting;
  takers = λ i. away;
}

pub data Reach (k x : ℕ) : Race → Type 0 where
  start : Reach k x (new_race k x)
  later : {r r' : Race} → Reach k x r → Step r r' → Reach k x r'
