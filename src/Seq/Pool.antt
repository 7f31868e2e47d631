-- ===== src/Seq/Pool.antt =====
-- `LSM::m_blocks`: which blocks are busy after a block was handed out, filled or released.
use klsm.Base.{
  Option, ℕ, ◌<◌, ◌^◌, ◌≡◌, ◌≢◌, refl, sym, ap₂, subst, ◌==◌, ◌&&◌, Bool-cases, arith, true, inl,
  inr, ◌⊎◌, ltb,
}
use klsm.Seq.{Ptr, SeqBlock}
use klsm.Seq.Lsm.{Lsm, update_block}
use klsm.Seq.Blocks.{IsIdle}
use klsm.Seq.Store.{at, update_self, update_other, IsPool, Handed}

pub same_pointer : (p q : Ptr) → (q ≡ p) ⊎ (q ≢ p)
same_pointer p q = elim (Bool-cases ((q.0 == p.0) && (q.1 == p.1))) [
  | inl e ↦ inl (ap₂ (λ i j. (i, j)) (ground arith) (ground arith))
  | inr e ↦ inr (λ h. ground arith)
]

abbrev pub stored_at : Lsm → Ptr → SeqBlock → Lsm
stored_at w p b = record w { blocks = update_block w.blocks p b }

-- A property of all blocks after a write.
pub at-stored :
    (P : Ptr → SeqBlock → Type 0) (w : Lsm) (p : Ptr) (b : SeqBlock)
    → P p b
    → (q : Ptr) → (q ≢ p → P q (at w.blocks q))
    → P q (at (stored_at w p b).blocks q)
at-stored P w p b hp q hq = elim (same_pointer p q) [
  | inl e ↦
      subst (λ q. P q (at (stored_at w p b).blocks q)) (sym e) (rw (update_self w.blocks p b) hp)
  | inr n ↦ rw (update_other w.blocks p q b n) (hq n)
]

module _ {w : Lsm} {Busy : Ptr → Type 0} (pool : IsPool w Busy) where
  pub Handed-IsPool : {i : ℕ} {p : Ptr} {w' : Lsm} → Handed i w p w' → IsPool w' Busy
  Handed-IsPool {w'} h = record {
    bounded = omega (arith, pool.bounded, h.bound, h.low);
    sized = λ q k. elim (Bool-cases (ltb q.0 w.levels)) [
      | inl e ↦ rw (h.same q (ground arith)) (pool.sized q (ground arith))
      | inr e ↦ (h.fresh q (ground arith) k).1
    ];
    idle = λ q k. elim (Bool-cases (ltb q.0 w.levels)) [
      | inl e ↦ rw (h.same q (ground arith)) (pool.idle q (ground arith))
      | inr e ↦ inr (h.fresh q (ground arith) k).0
    ];
    in_use = λ q b. rw (h.same q (pool.allocated q b)) (pool.in_use q b);
    allocated = λ q b. omega (arith, pool.allocated q b, h.more);
  }

  -- The block that was handed out is not busy.
  pub Handed-apart : {i : ℕ} {p : Ptr} {w' : Lsm} → Handed i w p w' → Busy p → ⊥
  Handed-apart {p} h b =
      let u = pool.in_use p b in let v = h.idle.free in let e = h.same p (pool.allocated p b) in cc

  module _ (p : Ptr) (inside : p.0 < w.levels) (b : SeqBlock) (size : b.capacity ≡ 2 ^ p.0) where
    pub filled-IsPool : b.used ≡ true → IsPool (stored_at w p b) (λ q. (q ≡ p) ⊎ Busy q)
    filled-IsPool u = record {
      bounded = pool.bounded;
      sized = λ q k. at-stored (λ q x. x.capacity ≡ 2 ^ q.0) w p b size q (λ n. pool.sized q k);
      idle = λ q k.
          at-stored (λ q x. ((q ≡ p) ⊎ Busy q) ⊎ IsIdle x) w p b (inl (inl refl)) q
            (λ n. elim (pool.idle q k) [ inl y ↦ inl (inr y) | inr z ↦ inr z ]);
      in_use = λ q y.
          at-stored (λ q x. x.used ≡ true) w p b u q
            (λ n. elim y [ inl e ↦ absurd (n e) | inr z ↦ pool.in_use q z ]);
      allocated = λ q y. elim y [ inl e ↦ rw e inside | inr z ↦ pool.allocated q z ];
    }

    pub released-IsPool : IsIdle b → IsPool (stored_at w p b) (λ q. Busy q × (q ≢ p))
    released-IsPool i = record {
      bounded = pool.bounded;
      sized = λ q k. at-stored (λ q x. x.capacity ≡ 2 ^ q.0) w p b size q (λ n. pool.sized q k);
      idle = λ q k.
          at-stored (λ q x. (Busy q × (q ≢ p)) ⊎ IsIdle x) w p b (inr i) q
            (λ n. elim (pool.idle q k) [ inl y ↦ inl (y, n) | inr z ↦ inr z ]);
      in_use = λ q y. rw (update_other w.blocks p q b y.1) (pool.in_use q y.0);
      allocated = λ q y. pool.allocated q y.0;
    }

-- The same pool with its busy blocks described in another way, whatever the head is.
pub map-IsPool :
    {w : Lsm} {B C : Ptr → Type 0} (o : Option Ptr)
    → ((p : Ptr) → B p → C p)
    → ((p : Ptr) → C p → B p)
    → IsPool w B
    → IsPool (record w { head = o }) C
map-IsPool o to from pool = record {
  bounded = pool.bounded;
  sized = pool.sized;
  idle = λ p k. elim (pool.idle p k) [ inl b ↦ inl (to p b) | inr i ↦ inr i ];
  in_use = λ p c. pool.in_use p (from p c);
  allocated = λ p c. pool.allocated p (from p c);
}
