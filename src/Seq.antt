-- ===== src/Seq.antt =====
-- sequential_lsm/lsm.cpp, classes `LSMElem` and `LSMBlock`, at the `uint32_t` that the file
-- instantiates. `none` is an assertion that fails. `m_first`, `m_size` and `m_capacity` are `uint32_t`
-- in the source; here they are numbers without a bound, which do not wrap while capacities are below
-- 2^31, as they are in an LSM that meets its invariant.
-- A block is named by its level and by which of the level's two blocks it is.
pub mod Window
pub mod Blocks
pub mod Filling
pub mod Popping
pub mod Store
pub mod Pool
pub mod Merging
pub mod Chain
pub mod Round
pub mod Loop
pub mod Between
pub mod Splice
pub mod Link
pub mod Insert
pub mod Least
pub mod Taken
pub mod Shorter
pub mod Unlink
pub mod Shrink
pub mod Close
pub mod Placing
pub mod Stays
pub mod Behind
pub mod Rejoin
pub mod Joined
pub mod Merges
pub mod Delete
pub mod Sorted
pub mod Replay
pub mod Lsm
use klsm.Base.{
  ℕ, zero, suc, ◌+◌, ◌-◌, ◌*◌, ◌/◌, ltb, ◌==◌, Bool, true, false, not, ◌&&◌, Option, none, some,
  List, [], ◌∷◌, ◌++◌, if◌then◌else◌, map, keep, overlay, slice, drop, replicate, get_elem?, set,
}

-- `LSMElem`.
pub record Elem : Type 0 where
  pub value : ℕ
  pub used : Bool

abbrev pub Ptr : Type 0
Ptr = ℕ × ℕ

-- `LSMBlock`.
pub record SeqBlock : Type 0 where
  pub prev : Option Ptr
  pub next : Option Ptr
  pub elems : List Elem
  pub first : ℕ
  pub size : ℕ
  pub capacity : ℕ
  pub used : Bool

-- What the constructor leaves; `unset` is what the memory of a value held.
unfoldable pub seq_block : ℕ → ℕ → SeqBlock
seq_block unset n = record {
  prev = none;
  next = none;
  elems = replicate n (record { value = unset; used = false });
  first = 0;
  size = 0;
  capacity = n;
  used = false;
}

abbrev pub assert : {A : Type 0} → Bool → Option A → Option A
assert true a = a
assert false a = none

-- `LSMElem::pop`, for the elements that a loop has moved elsewhere.
abbrev pub popped : Elem → Elem
popped e = record e { used = false }

-- `LSMElem::put`.
unfoldable pub put_elem : Elem → ℕ → Option Elem
put_elem e v = assert (not e.used) (some (record { value = v; used = true }))

unfoldable pub put : SeqBlock → ℕ → Option SeqBlock
unfolding put_elem
put b v = assert ((b.capacity == 1) && ((b.size == 0) && not b.used)) (elim (get_elem? b.elems 0) [
  | none ↦ none
  | some e ↦ elim (put_elem e v) [
    | none ↦ none
    | some e' ↦ some (record {
      prev = none;
      next = none;
      elems = set b.elems 0 e';
      first = 0;
      size = 1;
      capacity = b.capacity;
      used = true;
    })
  ]
])

unfoldable pub set_unused : SeqBlock → Option SeqBlock
set_unused b = assert b.used (some (record b { used = false; first = 0; size = 0 }))

abbrev pub in_use : Elem → Bool
in_use e = e.used

-- The three loops of `merge`: the elements that are written, in order.
unfoldable pub merge_elems : List Elem → List Elem → List Elem
merge_elems [] rs = keep in_use rs
merge_elems (l ∷ ls) [] = keep in_use (l ∷ ls)
merge_elems (l ∷ ls) (r ∷ rs) = elim l.used [
  | false ↦ merge_elems ls (r ∷ rs)
  | true ↦ elim r.used [
    | false ↦ merge_elems (l ∷ ls) rs
    | true ↦ elim (ltb l.value r.value) [
      | true ↦ l ∷ merge_elems ls (r ∷ rs)
      | false ↦ r ∷ merge_elems (l ∷ ls) rs
    ]
  ]
]

-- `merge`: the block and its two sources, which are set unused with all their elements popped.
unfoldable pub merge : SeqBlock → SeqBlock → SeqBlock → Option (SeqBlock × SeqBlock × SeqBlock)
unfolding merge_elems set_unused
merge m lhs rhs =
    assert ((m.capacity == lhs.capacity * 2) && ((lhs.capacity == rhs.capacity) && not m.used))
      (elim (set_unused (record lhs { elems = map popped lhs.elems })) [
        | none ↦ none
        | some lhs' ↦ elim (set_unused (record rhs { elems = map popped rhs.elems })) [
          | none ↦ none
          | some rhs' ↦ some (
            record {
              prev = none;
              next = none;
              elems = overlay (merge_elems lhs.elems rhs.elems) m.elems;
              first = 0;
              size = lhs.size + rhs.size;
              capacity = m.capacity;
              used = true;
            },
            lhs',
            rhs',
          )
        ]
      ])

-- The elements after `n`, popped.
unfoldable pub pop_from : ℕ → List Elem → List Elem
pop_from zero es = map popped es
pop_from (suc n) [] = []
pop_from (suc n) (e ∷ es) = e ∷ pop_from n es

-- `shrink`: the block and its source.
unfoldable pub shrink : SeqBlock → SeqBlock → Option (SeqBlock × SeqBlock)
unfolding pop_from set_unused
shrink b that =
    assert ((b.size == 0) && ((b.capacity == that.capacity / 2) && not b.used))
      (elim (set_unused (record that { elems = pop_from that.first that.elems })) [
        | none ↦ none
        | some that' ↦ some (
          record {
            prev = none;
            next = none;
            elems = overlay (keep in_use (drop that.first that.elems)) b.elems;
            first = 0;
            size = that.size;
            capacity = b.capacity;
            used = true;
          },
          that',
        )
      ])

-- `peek`: `some none` for false. An element that is not in use fails an assertion.
unfoldable pub peek : SeqBlock → Option (Option ℕ)
peek b = if b.size == 0 then some none else elim (get_elem? b.elems b.first) [
  | none ↦ none
  | some e ↦ assert e.used (some (some e.value))
]

unfoldable pub pop : SeqBlock → Option (Option ℕ × SeqBlock)
pop b = if b.size == 0 then some (none, b) else elim (get_elem? b.elems b.first) [
  | none ↦ none
  | some e ↦ assert e.used (
      some (
        some e.value,
        record b { elems = set b.elems b.first (popped e); size = b.size - 1; first = b.first + 1 },
      ))
]
