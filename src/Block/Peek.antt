-- ===== src/Block/Peek.antt =====
-- `block::peek`: the least live cell of a sorted block, and what becomes of the scope.
use klsm.Base.{
  ℕ, suc, ◌+◌, ◌≤◌, ◌≡◌, refl, sym, inl, inr, Bool, Option, none, some, List, [], ◌∷◌, arith,
  if◌then◌else◌, Bool-cases, length, drop, keep, ◌==◌, head?, drop-slice,
}
use klsm.Block.{BlockItem, Block, Store, contents, live, taken, peek_loop, peek_at, peek}
use klsm.Block.Order.{AtLeast, IsSorted, IsValid, keep-IsSorted, length-contents}

-- How many taken cells stand in front of the first live one.
unfoldable pub skipped : Store → List BlockItem → ℕ
skipped s [] = 0
skipped s (c ∷ cs) = let rest = skipped s cs in if taken s c then suc rest else 0

skipped-le : (s : Store) (cs : List BlockItem) → skipped s cs ≤ length cs
unfolding skipped
skipped-le s [] = omega arith
skipped-le s (c ∷ cs) = ground (arith, skipped-le s cs)

-- Nothing live is skipped.
keep-drop-skipped :
    (s : Store) (cs : List BlockItem) → keep (live s) (drop (skipped s cs) cs) ≡ keep (live s) cs
unfolding skipped
keep-drop-skipped s [] = refl
keep-drop-skipped s (c ∷ cs) = ground (arith, keep-drop-skipped s cs)

peek_loop-eq :
    (s : Store) (owner : Bool) (cs : List BlockItem) (ix first : ℕ)
    → peek_loop s owner cs ix first ≡ (
      head? (keep (live s) cs),
      ix + skipped s cs,
      (if owner then (if skipped s cs == 0 then first else ix + skipped s cs) else first),
    )
unfolding peek_loop skipped
peek_loop-eq s owner [] ix first = ground arith
peek_loop-eq s owner (c ∷ cs) ix first =
    ground (arith, peek_loop-eq s owner cs (ix + 1) (if owner then ix + 1 else first))

-- The item is the least of those listed, or there is none to list.
abbrev pub IsLeast : Option BlockItem → List BlockItem → Type 0
IsLeast p [] = p ≡ none
IsLeast p (c ∷ cs) = (p ≡ some c) × AtLeast c.key cs

IsLeast-head? : (cs : List BlockItem) → IsSorted cs → IsLeast (head? cs) cs
IsLeast-head? [] h = refl
IsLeast-head? (c ∷ cs) h = (refl, h.0)

-- The scope that `peek` leaves, called by the owner or by another thread.
peek-eq :
    (s : Store) (tid : ℕ) (b : Block)
    → peek s tid b ≡ (
      head? (keep (live s) (contents b)),
      record b { first = if tid == b.owner_tid then b.first + skipped s (contents b) else b.first },
    )
unfolding peek peek_at
peek-eq s tid b =
    rw (peek_loop-eq s (tid == b.owner_tid) (contents b) b.first b.first) (ground arith)

-- A scope behind the taken cells in front begins with the first live cell.
head?-drop-skipped :
    (s : Store) (cs : List BlockItem) → head? (drop (skipped s cs) cs) ≡ head? (keep (live s) cs)
unfolding skipped
head?-drop-skipped s [] = refl
head?-drop-skipped s (c ∷ cs) = ground (arith, head?-drop-skipped s cs)

-- The block with `n` cells fewer in front.
abbrev advance : Block → ℕ → Block
advance b n = record b { first = b.first + n }

contents-advance : (b : Block) (n : ℕ) → contents (advance b n) ≡ drop n (contents b)
contents-advance b n = sym (drop-slice n b.first b.last b.block_items)

advance-IsValid : {b : Block} (n : ℕ) → IsValid b → n ≤ length (contents b) → IsValid (advance b n)
advance-IsValid {b} n v h = omega (arith, length-contents v)

module _ (s : Store) (tid : ℕ) {b : Block} (valid : IsValid b)
    (sorted : IsSorted (contents b)) where
  -- `peek` returns the live cell with the least key, if there is one. The block stays valid and keeps
  -- its live cells; if its owner calls, the scope then starts at a live cell or is empty.
  pub peek_lem :
      let (p, b') = peek s tid b in
      IsLeast p (keep (live s) (contents b))
      × IsValid b'
      × (keep (live s) (contents b') ≡ keep (live s) (contents b))
      × (tid ≡ b.owner_tid → p ≡ head? (contents b'))
  peek_lem =
      let least : IsLeast (head? (keep (live s) (contents b))) (keep (live s) (contents b)) =
        IsLeast-head? (keep (live s) (contents b)) (keep-IsSorted (live s) (contents b) sorted) in
      let n = skipped s (contents b) in
      elim (Bool-cases (tid == b.owner_tid)) [
        | inl e ↦
            rw (peek-eq s tid b, e)
              (
                least,
                advance-IsValid n valid (skipped-le s (contents b)),
                rw (contents-advance b n) (keep-drop-skipped s (contents b)),
                λ _. rw (contents-advance b n) (sym (head?-drop-skipped s (contents b))),
              )
        | inr e ↦ rw (peek-eq s tid b, e) (least, valid, refl, λ own. absurd (ground arith))
      ]
