-- ===== src/Seq/Store.antt =====
-- `LSM`'s blocks behind pointers: what is read after a write, and the choice of an unused block.
use klsm.Base.{
  less_than_power, power-lt, half_power, ℕ, zero, suc, ◌+◌, ◌^◌, ◌≤◌, ◌<◌, ◌≡◌, refl, sym, ap₂,
  subst, if◌then◌else◌, ◌&&◌, ◌≢◌, ltb, ◌==◌, arith, true, false, Bool-cases, some, inl, inr, ◌⊎◌,
  lt→ltb, max,
}
use klsm.Base.State.{◌>>=◌}
use klsm.Seq.{Ptr, SeqBlock, seq_block}
use klsm.Seq.Lsm.{
  Lsm, load, store, modify, update_block, size_of, log_loop, push_blocks, unused_block,
}
use klsm.Seq.Blocks.{IsIdle, seq_block-IsIdle}

abbrev pub at : (ℕ → ℕ → SeqBlock) → Ptr → SeqBlock
at f p = f p.0 p.1

pub update_self : (f : ℕ → ℕ → SeqBlock) (p : Ptr) (b : SeqBlock) → at (update_block f p b) p ≡ b
update_self f p b = ground arith

pub update_other :
    (f : ℕ → ℕ → SeqBlock) (p q : Ptr) (b : SeqBlock) → q ≢ p → at (update_block f p b) q ≡ at f q
update_other f p q b h = elim (Bool-cases ((q.0 == p.0) && (q.1 == p.1))) [
  | inl e ↦ absurd (h (ap₂ (λ i j. (i, j)) (ground arith) (ground arith)))
  | inr e ↦ rw e refl
]

pub load-eq : (w : Lsm) (p : Ptr) → p.0 < w.levels → load p w ≡ some (at w.blocks p, w)
unfolding load
load-eq w p h = rw (lt→ltb p.0 w.levels h) refl

pub modify-eq :
    (f : SeqBlock → SeqBlock) (w : Lsm) (p : Ptr)
    → p.0 < w.levels
    → modify f p w ≡ some (tt, record w { blocks = update_block w.blocks p (f (at w.blocks p)) })
unfolding modify store
modify-eq f w p h = rw (◌>>=◌, load-eq w p h) refl

log_loop-eq : (fuel i a : ℕ) → i < fuel → log_loop fuel (2 ^ i) a ≡ a + i
unfolding log_loop
log_loop-eq zero i a h = absurd (omega arith)
log_loop-eq (suc fuel) zero a h = omega arith
log_loop-eq (suc fuel) (suc i) a h =
    rw
      (
        half_power i,
        lt→ltb 1 (2 ^ suc i) (omega (arith, less_than_power i)),
        log_loop-eq fuel i (a + 1) (omega arith),
      )
      (omega arith)

module _ (unset : ℕ) (w : Lsm) (i : ℕ) where
  pub log-eq : i < 31 → log_loop 64 (size_of (2 ^ i)) 0 ≡ i
  log-eq h =
      let below : 2 ^ i < 2 ^ 31 = power-lt i 31 h in
      rw (lt→ltb (2 ^ i) (2 ^ 31) below) (omega (arith, log_loop-eq 64 i 0 (omega arith)))

  unused_first :
      i < 31
      → i < w.levels
      → (w.blocks i 0).used ≡ false
      → unused_block unset (2 ^ i) w ≡ some ((i, 0), w)
  unfolding unused_block
  unused_first l h u =
      rw (log-eq l, lt→ltb i w.levels h)
        (rw (◌>>=◌, load-eq w (i, 0) h) (rw (◌>>=◌, load-eq w (i, 1) h) (rw u refl)))

  unused_second :
      i < 31
      → i < w.levels
      → (w.blocks i 0).used ≡ true
      → (w.blocks i 1).used ≡ false
      → unused_block unset (2 ^ i) w ≡ some ((i, 1), w)
  unfolding unused_block
  unused_second l h u v =
      rw (log-eq l, lt→ltb i w.levels h)
        (rw (◌>>=◌, load-eq w (i, 0) h) (rw (◌>>=◌, load-eq w (i, 1) h) (rw (u, v) refl)))

pub eq_self : (n : ℕ) → (n == n) ≡ true
eq_self n = ground arith

not_less_self : (n : ℕ) → ltb n n ≡ false
not_less_self n = ground arith

-- The state with two new blocks of the level after the last.
abbrev pub grown : ℕ → Lsm → Lsm
grown unset w = record w {
  levels = w.levels + 1;
  blocks = λ a b. if a == w.levels then seq_block unset (2 ^ w.levels) else w.blocks a b;
}

unused_new :
    (unset : ℕ) (w : Lsm)
    → w.levels < 31
    → unused_block unset (2 ^ w.levels) w ≡ some ((w.levels, 0), grown unset w)
unfolding unused_block push_blocks seq_block
unused_new unset w h =
    rw (log-eq unset w w.levels h, not_less_self w.levels, eq_self w.levels)
      (rw (◌>>=◌, load-eq (grown unset w) (w.levels, 0) (omega arith))
        (rw (◌>>=◌, load-eq (grown unset w) (w.levels, 1) (omega arith))
          (rw (eq_self w.levels) refl)))

-- Blocks have their level's capacity, which an `int` can hold; those that are not busy are idle.
pub record IsPool (w : Lsm) (Busy : Ptr → Type 0) : Type 0 where
  pub bounded : w.levels ≤ 31
  pub sized : (p : Ptr) → p.0 < w.levels → (at w.blocks p).capacity ≡ 2 ^ p.0
  pub idle : (p : Ptr) → p.0 < w.levels → Busy p ⊎ IsIdle (at w.blocks p)
  pub in_use : (p : Ptr) → Busy p → (at w.blocks p).used ≡ true
  pub allocated : (p : Ptr) → Busy p → p.0 < w.levels

-- What `unused_block` promises for a level.
pub record Handed (i : ℕ) (w : Lsm) (p : Ptr) (w' : Lsm) : Type 0 where
  pub level : p.0 ≡ i
  pub low : i < 31
  pub inside : i < w'.levels
  pub which : (p.1 ≡ 0) ⊎ (p.1 ≡ 1)
  pub idle : IsIdle (at w'.blocks p)
  pub head : w'.head ≡ w.head
  pub more : w.levels ≤ w'.levels
  pub same : (p : Ptr) → p.0 < w.levels → at w'.blocks p ≡ at w.blocks p
  pub bound : w'.levels ≤ max w.levels (suc i)
  pub fresh :
      (p : Ptr)
      → w.levels ≤ p.0
      → p.0 < w'.levels
      → IsIdle (at w'.blocks p) × ((at w'.blocks p).capacity ≡ 2 ^ p.0)

Handed-here :
    {i : ℕ} (j : ℕ) {w : Lsm}
    → (j ≡ 0) ⊎ (j ≡ 1)
    → i < 31
    → i < w.levels
    → IsIdle (w.blocks i j)
    → Handed i w (i, j) w
Handed-here j one l h idle = record {
  low = l;
  which = one;
  level = refl;
  inside = h;
  idle = idle;
  head = refl;
  more = omega arith;
  same = λ p k. refl;
  bound = omega arith;
  fresh = λ p k l. absurd (omega arith);
}

pub not_equal : (a n : ℕ) → a < n → (a == n) ≡ false
not_equal a n h = ground arith

Handed-new : (unset : ℕ) (w : Lsm) → w.levels < 31 → Handed w.levels w (w.levels, 0) (grown unset w)
unfolding seq_block
Handed-new unset w l = record {
  low = l;
  which = inl refl;
  level = refl;
  inside = omega arith;
  idle = rw (eq_self w.levels) (seq_block-IsIdle unset (2 ^ w.levels));
  head = refl;
  more = omega arith;
  same = λ p k. rw (not_equal p.0 w.levels k) refl;
  bound = omega arith;
  fresh = λ p k l.
      let e : p.0 ≡ w.levels = omega arith in
      rw (e, eq_self w.levels) (seq_block-IsIdle unset (2 ^ w.levels), refl);
}

module _ (unset : ℕ) {w : Lsm} {Busy : Ptr → Type 0} (pool : IsPool w Busy) where
  -- If the two blocks of a level below 31 are not both busy, `unused_block` hands out an idle one.
  pub unused_block_lem :
      (i : ℕ)
      → i < 31
      → i ≤ w.levels
      → (Busy (i, 0) → Busy (i, 1) → ⊥)
      → (p : Ptr) × (w' : Lsm) × (unused_block unset (2 ^ i) w ≡ some (p, w')) × Handed i w p w'
  unused_block_lem i low h once = elim (Bool-cases (ltb i w.levels)) [
    | inr e ↦
        let same : i ≡ w.levels = ground arith in
        subst
          (λ i.
            (p : Ptr) × (w' : Lsm) × (unused_block unset (2 ^ i) w ≡ some (p, w'))
            × Handed i w p w')
          (sym same)
          (
            (w.levels, 0),
            grown unset w,
            unused_new unset w (omega arith),
            Handed-new unset w (omega arith),
          )
    | inl e ↦
        let below : i < w.levels = ground arith in
        elim (pool.idle (i, 0) below) [
          | inr idle ↦ (
            (i, 0),
            w,
            unused_first unset w i low below idle.free,
            Handed-here 0 (inl refl) low below idle,
          )
          | inl busy ↦ elim (pool.idle (i, 1) below) [
            | inl both ↦ absurd (once busy both)
            | inr idle ↦ (
              (i, 1),
              w,
              unused_second unset w i low below (pool.in_use (i, 0) busy) idle.free,
              Handed-here 1 (inr refl) low below idle,
            )
          ]
        ]
  ]
