-- ===== src/KLsm/Choice.antt =====
-- k_lsm_inl.h, `delete_min`: which item it takes.
use klsm.Base.{
  sym, ℕ, suc, ◌==◌, ◌<◌, lt→ltb, ◌≤◌, ◌≡◌, ◌≢◌, refl, arith, leb, Bool-cases, Option, none, some,
  inl, inr, ◌⊎◌, if◌then◌else◌,
}
use klsm.Base.State.{◌>>=◌}
use klsm.Block.{Block, BlockItem, Store, take_item}
use klsm.Item.{Taken}
use klsm.Dist.{World, Env}
use klsm.Dist.Peek
use klsm.Dist.Peek.{take_best, spy_random}
use klsm.Shared.{SharedLsm}
use klsm.KLsm.{KEnv, dist_env, find_min_shared, choose, delete_min_loop, delete_min}

-- A candidate of one of the two LSMs, with a key that neither candidate's is below.
pub record IsBest (c : BlockItem) (d g : Option BlockItem) : Type 0 where
  pub offered : (d ≡ some c) ⊎ (g ≡ some c)
  pub dist : (x : BlockItem) → d ≡ some x → c.key ≤ x.key
  pub shared : (x : BlockItem) → g ≡ some x → c.key ≤ x.key

same-key : (x y : BlockItem) → some x ≡ some y → y.key ≡ x.key
same-key x y e = cc

none≢some : (x : BlockItem) → none ≡ some x → ⊥
none≢some x e = cc

choose-IsBest :
    (d g : Option BlockItem)
    → (d ≢ none) ⊎ (g ≢ none)
    → (c : BlockItem) × (choose d g ≡ some c) × IsBest c d g
unfolding choose
choose-IsBest none none h = absurd (elim h [ inl n ↦ n refl | inr n ↦ n refl ])
choose-IsBest (some x) none h = (
  x,
  refl,
  record {
    offered = inl refl;
    dist = λ z e. omega (arith, same-key x z e);
    shared = λ z e. absurd (none≢some z e);
  },
)
choose-IsBest none (some y) h = (
  y,
  refl,
  record {
    offered = inr refl;
    dist = λ z e. absurd (none≢some z e);
    shared = λ z e. omega (arith, same-key y z e);
  },
)
choose-IsBest (some x) (some y) h = elim (Bool-cases (leb x.key y.key)) [
  | inl e ↦
      let below : x.key ≤ y.key = ground arith in
      (
        x,
        rw e refl,
        record {
          offered = inl refl;
          dist = λ z h. omega (arith, same-key x z h);
          shared = λ z h. omega (arith, same-key y z h, below);
        },
      )
  | inr e ↦
      let below : y.key ≤ x.key = ground arith in
      (
        y,
        rw e refl,
        record {
          offered = inr refl;
          dist = λ z h. omega (arith, same-key x z h, below);
          shared = λ z h. omega (arith, same-key y z h);
        },
      )
]

choose-none : (d g : Option BlockItem) → d ≡ none → g ≡ none → choose d g ≡ none
unfolding choose
choose-none d g e e' = rw (e, e') refl

none-cases : (d g : Option BlockItem) → ((d ≡ none) × (g ≡ none)) ⊎ ((d ≢ none) ⊎ (g ≢ none))
none-cases none none = inl (refl, refl)
none-cases none (some y) = inr (inr (λ e. none≢some y (sym e)))
none-cases (some x) g = inr (inl (λ e. none≢some x (sym e)))

spy_random-alone :
    (e : Env SharedLsm) (num_threads : ℕ) (head_of : ℕ → Option Block) (w : World SharedLsm)
    → num_threads < 2
    → spy_random e num_threads head_of w ≡ some (0, w)
unfolding spy_random
spy_random-alone e num_threads head_of w h = rw (lt→ltb num_threads 2 h) refl

-- What is taken when the candidates are `d` and `g`, or that there are none.
abbrev pub Takes : Store → Option BlockItem → Option BlockItem → Option Taken → Type 0
Takes s d g none = (d ≡ none) × (g ≡ none)
Takes s d g (some t) = (c : BlockItem) × (t ≡ take_item s c) × IsBest c d g

module _ (k : KEnv) (fuel num_threads : ℕ) (head_of : ℕ → Option Block) where
  -- If the thread-local LSM finds `d` and the shared one `g`, either of which may be none, and the
  -- thread is the only one or they are not both none, then `delete_min` returns in its first round:
  -- it takes a candidate whose key no candidate is below, or there was none.
  pub delete_min-IsBest :
      (w v u : World SharedLsm) (d g : Option BlockItem) (rounds : ℕ)
      → Peek.peek (dist_env k) fuel none w ≡ some (d, v)
      → find_min_shared k v ≡ some (g, u)
      → (num_threads < 2) ⊎ ((d ≢ none) ⊎ (g ≢ none))
      → (r : Option Taken) × (w' : World SharedLsm) × (delete_min k fuel num_threads head_of
            (suc rounds)
            w
          ≡ some (r, w'))
        × Takes u.items d g r
  unfolding delete_min delete_min_loop take_best
  delete_min-IsBest w v u d g rounds found offered returns = elim (none-cases d g) [
    | inr some_found ↦
        let (c, e, best) = choose-IsBest d g some_found in
        (
          some (take_item u.items c),
          record u { items = λ q. if q == c.item then (take_item u.items c).left else u.items q },
          rw (◌>>=◌, found) (rw (◌>>=◌, offered) (rw e refl)),
          (c, refl, best),
        )
    | inl neither ↦
        let alone : num_threads < 2 = elim returns [
          | inl h ↦ h
          | inr h ↦ absurd (elim h [ inl n ↦ n neither.0 | inr n ↦ n neither.1 ])
        ] in
        (
          none,
          u,
          rw (◌>>=◌, found)
              (rw (◌>>=◌, offered)
                (rw (choose-none d g neither.0 neither.1)
                  (rw (◌>>=◌, spy_random-alone (dist_env k) num_threads head_of u alone) refl))),
          neither,
        )
  ]
