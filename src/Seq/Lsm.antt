-- ===== src/Seq/Lsm.antt =====
-- sequential_lsm/lsm.cpp, class `LSM`: a doubly linked list of blocks of rising capacity, out of two
-- blocks for each level. `none` is an assertion that fails or a read through a null pointer.
-- The loops take fuel: they go along the list; the one in `unused_block` shifts a word of 64 bits.
-- A capacity is a `uint32_t` that becomes an `int` and then a `size_t` in `unused_block`. Printing is
-- not modelled.
use klsm.Base.{
  ℕ, zero, suc, ◌+◌, ◌-◌, ◌*◌, ◌/◌, ◌%◌, ◌^◌, ltb, ◌==◌, Bool, true, false, not, ◌&&◌, ◌||◌, Option,
  none, some, if◌then◌else◌,
}
use klsm.Base.State.{Step, pure, lift, ◌>>=◌, ◌>>◌}
use klsm.Seq
use klsm.Seq.{Ptr, SeqBlock, seq_block, assert}

-- `levels` is `m_blocks.size()`; what `blocks` says of higher levels has no meaning.
pub record Lsm : Type 0 where
  pub head : Option Ptr
  pub levels : ℕ
  pub blocks : ℕ → ℕ → SeqBlock

abbrev pub M : Type 0 → Type 0
M A = Step Lsm A

abbrev pub state : M Lsm
state w = some (w, w)

abbrev pub put_head : Option Ptr → M (Unit {0})
put_head p w = some (tt, record w { head = p })

abbrev pub update_block : (ℕ → ℕ → SeqBlock) → Ptr → SeqBlock → ℕ → ℕ → SeqBlock
update_block f p b i j = if (i == p.0) && (j == p.1) then b else f i j

unfoldable pub load : Ptr → M SeqBlock
load p w = if ltb p.0 w.levels then some (w.blocks p.0 p.1, w) else none

unfoldable pub store : Ptr → SeqBlock → M (Unit {0})
store p b w = some (tt, record w { blocks = update_block w.blocks p b })

-- `new LSM()`; the destructor and `clear` leave the same.
unfoldable pub lsm : (ℕ → ℕ → SeqBlock) → Lsm
lsm unset = record { head = none; levels = 0; blocks = unset }

-- `while (m > 1) { m >>= 1; i++; }`
unfoldable pub log_loop : ℕ → ℕ → ℕ → ℕ
log_loop zero m i = i
log_loop (suc fuel) m i = let rest = log_loop fuel (m / 2) (i + 1) in if ltb 1 m then rest else i

-- `m_blocks.push_back` of two new blocks.
unfoldable pub push_blocks : ℕ → ℕ → M (Unit {0})
push_blocks unset n w = some (
  tt,
  record w {
    levels = w.levels + 1;
    blocks = λ i j. if i == w.levels then seq_block unset n else w.blocks i j;
  },
)

abbrev pub check : Bool → M (Unit {0})
check b = lift (assert b (some tt))

-- `size_t m = n` for a `const int n` that is made from a `uint32_t`: from 2^31 on it is negative.
abbrev pub size_of : ℕ → ℕ
size_of n = if ltb n (2 ^ 31) then n else n + (2 ^ 64 - 2 ^ 32)

unfoldable pub unused_block : ℕ → ℕ → M Ptr
unfolding log_loop push_blocks load
unused_block unset n = do
  let i = log_loop 64 (size_of n) 0
  w ← state
  if ltb i w.levels then pure tt else (do check (w.levels == i); push_blocks unset n)
  a ← load (i, 0)
  b ← load (i, 1)
  if a.used then (do check (not b.used); pure (i, 1)) else pure (i, 0)

abbrev pub with_next : Option Ptr → SeqBlock → SeqBlock
with_next p b = record b { next = p }

abbrev pub with_prev : Option Ptr → SeqBlock → SeqBlock
with_prev p b = record b { prev = p }

unfoldable pub modify : (SeqBlock → SeqBlock) → Ptr → M (Unit {0})
unfolding load store
modify f p = do b ← load p; store p (f b)

unfoldable pub insert_between : Ptr → Option Ptr → Option Ptr → M (Unit {0})
unfolding modify
insert_between n prev next = do
  elim prev [ none ↦ put_head (some n) | some p ↦ modify (with_next (some n)) p ]
  elim next [ none ↦ pure tt | some p ↦ modify (with_prev (some n)) p ]
  modify (with_prev prev) n
  modify (with_next next) n

-- `merged->merge(lhs, rhs)` for a new block.
unfoldable pub merge_blocks : ℕ → Ptr → Ptr → M Ptr
unfolding unused_block load store
merge_blocks unset lhs rhs = do
  a ← load lhs
  m ← unused_block unset (a.capacity * 2 % 2 ^ 32)
  c ← load m
  l ← load lhs
  r ← load rhs
  (c', l', r') ← lift (Seq.merge c l r)
  store m c'
  store lhs l'
  store rhs r'
  pure m

-- The loop of `insert`.
unfoldable pub insert_loop : ℕ → ℕ → Ptr → M Ptr
unfolding merge_blocks load
insert_loop unset zero new_block = λ w. none
insert_loop unset (suc fuel) new_block = do
  w ← state
  elim w.head [
    | none ↦ pure new_block
    | some h ↦ do
      a ← load h
      b ← load new_block
      if a.capacity == b.capacity
          then (do
            m ← merge_blocks unset h new_block
            a' ← load h
            put_head a'.next
            insert_loop unset fuel m)
          else pure new_block
  ]

unfoldable pub insert : ℕ → ℕ → ℕ → M (Unit {0})
unfolding unused_block load store insert_loop insert_between
insert unset fuel key = do
  n ← unused_block unset 1
  b ← load n
  b' ← lift (Seq.put b key)
  store n b'
  m ← insert_loop unset fuel n
  w ← state
  insert_between m none w.head

-- The loop of `delete_min`: the block with the least first element.
unfoldable pub best_loop : ℕ → Ptr → Option Ptr → M Ptr
unfolding load
best_loop zero best l = λ w. none
best_loop (suc fuel) best none = pure best
best_loop (suc fuel) best (some l) = do
  a ← load l
  b ← load best
  lhs ← lift (Seq.peek a)
  rhs ← lift (Seq.peek b)
  elim lhs [
    | none ↦ (λ w. none)
    | some x ↦ elim rhs [
      | none ↦ (λ w. none)
      | some y ↦ best_loop fuel (if ltb x y then l else best) a.next
    ]
  ]

unfoldable pub prune_last_block : M (Unit {0})
unfolding load
prune_last_block = do
  w ← state
  a ← load (w.levels - 2, 0)
  b ← load (w.levels - 2, 1)
  check (a.used || b.used)
  (λ v. some (tt, record v { levels = w.levels - 1 }))

abbrev pub is_head : Option Ptr → Ptr → Bool
is_head none p = false
is_head (some h) p = (h.0 == p.0) && (h.1 == p.1)

-- An empty block at the head leaves the list.
unfoldable pub unlink_head : Ptr → M (Unit {0})
unfolding load store modify
unlink_head best = do
  b ← load best
  check (elim b.prev [ none ↦ true | some p ↦ false ])
  put_head b.next
  elim b.next [ none ↦ pure tt | some n ↦ modify (with_prev none) n ]
  c ← load best
  c' ← lift (Seq.set_unused c)
  store best c'

-- A block that is less than half full is shrunk, and merged with the one in front of it if they are
-- then of one size; or else, if it was the last one, the last level is deleted.
unfoldable pub shrink_best : ℕ → Ptr → M (Unit {0})
unfolding unused_block load store insert_between merge_blocks prune_last_block
shrink_best unset best = do
  b ← load best
  n ← unused_block unset (b.capacity / 2)
  c ← load n
  (c', b') ← lift (Seq.shrink c b)
  store n c'
  store best b'
  insert_between n b'.prev b'.next
  rhs ← load n
  elim rhs.prev [
    | none ↦ elim b.next [ none ↦ prune_last_block | some x ↦ pure tt ]
    | some p ↦ do
      lhs ← load p
      if lhs.capacity == rhs.capacity
          then (do
            m ← merge_blocks unset p n
            l ← load p
            r ← load n
            insert_between m l.prev r.next)
          else elim b.next [ none ↦ prune_last_block | some x ↦ pure tt ]
  ]

-- `delete_min`: `none` in the result for false.
unfoldable pub delete_min : ℕ → ℕ → M (Option ℕ)
unfolding best_loop load store unlink_head shrink_best
delete_min unset fuel = do
  w ← state
  elim w.head [
    | none ↦ pure none
    | some h ↦ do
      a ← load h
      best ← best_loop fuel h a.next
      b ← load best
      (v, b') ← lift (Seq.pop b)
      check (elim v [ none ↦ false | some x ↦ true ])
      store best b'
      if (b'.size == 0) && is_head w.head best
          then unlink_head best
          else if ltb b'.size (b'.capacity / 2)
          then shrink_best unset best
          else pure tt
      pure v
  ]
