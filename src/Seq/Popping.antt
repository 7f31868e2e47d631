-- ===== src/Seq/Popping.antt =====
-- `LSMBlock::peek` and `pop`: the first value of a block.
use klsm.Base.{
  ℕ, suc, ◌+◌, ◌-◌, ◌≡◌, refl, ◌∙◌, List, ◌∷◌, arith, false, some, length-set, set, ◌==◌,
}
use klsm.Seq.{Elem, SeqBlock, peek, pop, popped}
use klsm.Seq.Window.{get_elem?-IsWindow}
use klsm.Seq.Blocks.{Holds}

module _ {b : SeqBlock} {v : ℕ} {vs : List ℕ} (held : Holds b (v ∷ vs)) where
  not_empty : (b.size == 0) ≡ false
  not_empty = ground (arith, held.sized)

  next_index : b.first + 1 ≡ suc b.first
  next_index = omega arith

  abbrev pub left_over : Elem → SeqBlock
  left_over e = record b {
    elems = set b.elems b.first (popped e);
    size = b.size - 1;
    first = b.first + 1;
  }

  pub pop-eq :
      (e : Elem) × (peek b ≡ some (some v))
      × (pop b ≡ some (some v, left_over e))
      × Holds (left_over e) vs
  unfolding peek pop
  pop-eq =
      let (e, r, u, w, k) = get_elem?-IsWindow b.elems b.first v vs held.window in
      (
        e,
        rw (not_empty, r, u, w) refl,
        rw (not_empty, r, u, w) refl,
        record {
          window = rw next_index k;
          sized = omega (arith, held);
          allocated = length-set b.elems b.first (popped e) ∙ held.allocated;
          taken = held.taken;
          ordered = held.ordered.1;
        },
      )
