-- ===== src/Alloc.antt =====
-- util/mm.h: the item allocator, a ring of chunks of `BlockSize` items that are reused when the
-- `ReuseCheck` allows. An item is named by its chunk's number times `BlockSize` plus its index.
-- The chunk that `new` returns gets the next number. The destructor is not modelled, nor is
-- the wrap of the two counters, which count items in memory.
pub mod Acquire
use klsm.Base.{
  ℕ, zero, suc, ◌+◌, ◌-◌, ◌*◌, min, ltb, Bool, true, false, ◌||◌, Option, none, some, List, [], ◌∷◌,
  ◌++◌, if◌then◌else◌,
}

-- `m_head` and the chunks that follow it in the order of `m_next`, round to the head again.
pub record Allocator : Type 0 where
  pub head : ℕ
  pub ring : List ℕ
  pub offset : ℕ
  pub amortized : ℕ
  pub total_size : ℕ
  pub new_block : Bool
  pub chunks : ℕ

abbrev pub amortization : ℕ
amortization = 1

abbrev pub address : ℕ → ℕ → ℕ → ℕ
address block_size chunk ix = chunk * block_size + ix

-- `m_head = m_head->m_next`.
abbrev pub rotate : ℕ → List ℕ → ℕ × List ℕ
rotate head [] = (head, [])
rotate head (c ∷ cs) = (c, cs ++ head ∷ [])

-- `block_size` and `is_reusable` are the template's parameters.
module _ (block_size : ℕ) (is_reusable : ℕ → Bool) where
  unfoldable pub allocator : Allocator
  allocator = record {
    head = 0;
    ring = [];
    offset = 0;
    amortized = 0;
    total_size = block_size;
    new_block = true;
    chunks = 1;
  }

  -- The inner loop, with the rounds that are left until `m_offset` is `BlockSize`.
  unfoldable pub scan : Allocator → ℕ → Option ℕ × Allocator
  scan a zero = (none, a)
  scan a (suc left) =
      let next = record a { offset = a.offset + 1 } in
      let rest = scan next left in
      if a.new_block || is_reusable (address block_size a.head a.offset)
      then (
        some (address block_size a.head a.offset),
        record next { amortized = a.amortized + (1 + amortization) },
      )
      else rest

  -- What follows a chunk without a free item: a new chunk, or the next one of the ring.
  unfoldable pub advance : Allocator → Allocator
  advance a =
      if ltb a.amortized block_size
      then record a {
        head = a.chunks;
        ring = a.ring ++ a.head ∷ [];
        chunks = a.chunks + 1;
        total_size = a.total_size + block_size;
        new_block = true;
        offset = 0;
      }
      else record a {
        head = (rotate a.head a.ring).0;
        ring = (rotate a.head a.ring).1;
        amortized = min a.amortized (a.total_size * amortization) - block_size;
        new_block = false;
        offset = 0;
      }

  -- The outer loop on fuel; `none` means that the fuel ran out.
  unfoldable pub acquire : ℕ → Allocator → Option (ℕ × Allocator)
  acquire zero a = none
  acquire (suc fuel) a =
      let (found, a') = scan a (block_size - a.offset) in
      elim found [ some p ↦ some (p, a') | none ↦ acquire fuel (advance a') ]
