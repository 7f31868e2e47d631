-- ===== src/Item/Races/Once.antt =====
-- In every run whose takers are in time, a version is taken at most once and with its own contents.
use native.Mathlib.Decide.{ℕ_discrete}
use klsm.Base.{
  ℕ, ◌+◌, ◌%◌, ◌^◌, ◌≤◌, ◌<◌, ◌≡◌, ◌≢◌, ◌∙◌, ap, ◌==◌, if◌then◌else◌, arith, subst, ltb, ◌&&◌,
}
use klsm.Item.Races.{
  Cell, Owner, resting, counted, keyed, Taker, away, holding, got_key, got_val, Initialize, count,
  write_key, write_val, Take, obtain, read_key, read_val, win, lose, Race, initializes, takes_step,
  Reach, start, later, IsOffered, update_taker, word, record_at,
}

-- The contents are those of the version while it is in use.
abbrev IsKept : Cell → Owner → Type 0
IsKept c resting = c.version % 2 ≡ 1 → (c.key ≡ c.keys c.version) × (c.val ≡ c.vals c.version)
IsKept c (counted k x) = (c.version % 2 ≡ 1) × (k ≡ c.keys c.version) × (x ≡ c.vals c.version)
IsKept c (keyed k x) = (c.version % 2 ≡ 1) × (c.key ≡ c.keys c.version) × (x ≡ c.vals c.version)

-- What a taker has read belongs to its version if that is still the item's.
abbrev IsTrue : Cell → Owner → Taker → Type 0
IsTrue c o away = Unit {0}
IsTrue c o (holding v) = IsOffered c o v
IsTrue c o (got_key v k) = IsOffered c o v × (c.version ≡ v → k ≡ c.keys v)
IsTrue c o (got_val v k x) = IsOffered c o v × (c.version ≡ v → (k ≡ c.keys v) × (x ≡ c.vals v))

-- A version was taken once if it was in use and has passed, and else never.
abbrev pub TakenOnce : Cell → Type 0
TakenOnce c = (v : ℕ) → c.takes v ≡ (if (v % 2 == 1) && ltb v c.version then 1 else 0)

record Inv (r : Race) : Type 0 where
  kept : IsKept r.cell r.owner
  once : TakenOnce r.cell
  honest : (i : ℕ) → IsTrue r.cell r.owner (r.takers i)

-- The taker compares within 2^32 versions of the one it holds.
abbrev pub InTime : Cell → Taker → Type 0
InTime c (got_val v k x) = c.version < v + 2 ^ 32
InTime c _ = Unit {0}

abbrev pub AllInTime : {k x : ℕ} {r : Race} → Reach k x r → Type 0
AllInTime start = Unit {0}
AllInTime (later r (initializes m)) = AllInTime r
AllInTime (later {r = s} r (takes_step i m)) = AllInTime r × InTime s.cell (s.takers i)

-- Steps of the owner.
IsKept-Initialize : {c c' : Cell} {o o' : Owner} → Initialize c o c' o' → IsKept c o → IsKept c' o'
IsKept-Initialize (count k x e) h = ground arith
IsKept-Initialize write_key h = (h.0, h.1, h.2)
IsKept-Initialize write_val h = λ odd. (h.1, h.2)

TakenOnce-Initialize :
    {c c' : Cell} {o o' : Owner} → Initialize c o c' o' → TakenOnce c → TakenOnce c'
TakenOnce-Initialize {c} (count k x e) h v = h v ∙ ground arith
TakenOnce-Initialize write_key h v = h v
TakenOnce-Initialize write_val h v = h v

IsTrue-Initialize :
    {c c' : Cell} {o o' : Owner}
    → Initialize c o c' o'
    → (a : Taker) → IsTrue c o a
    → IsTrue c' o' a
IsTrue-Initialize m away h = tt
IsTrue-Initialize (count k x e) (holding v) h = omega (arith, h.0, h.1)
IsTrue-Initialize write_key (holding v) h = h
IsTrue-Initialize write_val (holding v) h = omega (arith, h.0, h.1)
IsTrue-Initialize (count k x e) (got_key v y) (h, t) = (omega arith, λ e2. absurd (omega arith))
IsTrue-Initialize write_key (got_key v y) h = h
IsTrue-Initialize write_val (got_key v y) (h, t) = (omega arith, λ e2. absurd (omega arith))
IsTrue-Initialize (count k x e) (got_val v y z) (h, t) = (omega arith, λ e2. absurd (omega arith))
IsTrue-Initialize write_key (got_val v y z) h = h
IsTrue-Initialize write_val (got_val v y z) (h, t) = (omega arith, λ e2. absurd (omega arith))

-- The item holds what it was initialised with while an offered version is current.
current_key :
    (c : Cell) (o : Owner) (v : ℕ)
    → IsKept c o
    → IsOffered c o v
    → c.version ≡ v
    → (c.key ≡ c.keys v) × (c.val ≡ c.vals v)
current_key c resting v kept (odd, le) e =
    let now = kept (omega arith) in (now.0 ∙ ap c.keys e, now.1 ∙ ap c.vals e)
current_key c (counted k x) v kept (odd, le) e = absurd (omega arith)
current_key c (keyed k x) v kept (odd, le) e = absurd (omega arith)

IsOffered-le : (c : Cell) (o : Owner) (v : ℕ) → IsOffered c o v → (v % 2 ≡ 1) × (v ≤ c.version)
IsOffered-le c resting v h = h
IsOffered-le c (counted k x) v h = omega (arith, h.0, h.1)
IsOffered-le c (keyed k x) v h = omega (arith, h.0, h.1)

-- In time, a `take` that succeeds does so on the version it holds, and after `initialize` has ended.
win-here :
    (c : Cell) (o : Owner) (v : ℕ)
    → IsOffered c o v
    → c.version < v + 2 ^ 32
    → word c.version ≡ word v
    → c.version ≡ v
win-here c o v h time e = omega (arith, (IsOffered-le c o v h).1)

-- Steps of a taker.
record After (c : Cell) (o : Owner) (c' : Cell) (a : Taker) : Type 0 where
  kept : IsKept c' o
  once : TakenOnce c'
  honest : IsTrue c' o a
  others : (b : Taker) → IsTrue c o b → IsTrue c' o b

-- The item after version `v` was taken.
abbrev won : Cell → ℕ → Cell
won c v = record c { version = c.version + 1; takes = record_at c.takes v (c.takes v + 1) }

module _ (c : Cell) {v : ℕ} (e : c.version ≡ v) where
  IsKept-won : (o : Owner) → IsKept c o → IsOffered c o v → IsKept (won c v) o
  IsKept-won resting kept (odd, le) = λ odd2. absurd (omega arith)
  IsKept-won (counted k x) kept (odd, le) = absurd (omega arith)
  IsKept-won (keyed k x) kept (odd, le) = absurd (omega arith)

  IsOffered-won : (o : Owner) (u : ℕ) → IsOffered c o u → IsOffered (won c v) o u
  IsOffered-won resting u t = omega (arith, t.0, t.1)
  IsOffered-won (counted k x) u t = omega (arith, t.0, t.1)
  IsOffered-won (keyed k x) u t = omega (arith, t.0, t.1)

  IsTrue-won : (o : Owner) → IsOffered c o v → (b : Taker) → IsTrue c o b → IsTrue (won c v) o b
  IsTrue-won o offered away t = tt
  IsTrue-won o offered (holding u) t = IsOffered-won o u t
  IsTrue-won o offered (got_key u k) (t, h) =
      (IsOffered-won o u t, λ e2. absurd (omega (arith, (IsOffered-le c o u t).1)))
  IsTrue-won o offered (got_val u k x) (t, h) =
      (IsOffered-won o u t, λ e2. absurd (omega (arith, (IsOffered-le c o u t).1)))

module _ (c : Cell) (o : Owner) (kept : IsKept c o) (once : TakenOnce c) where
  quiet : (a : Taker) → IsTrue c o a → After c o c a
  quiet a h = record { kept = kept; once = once; honest = h; others = λ b t. t }

  After-win : (v : ℕ) → IsOffered c o v → c.version ≡ v → After c o (won c v) away
  After-win v offered e = record {
    kept = IsKept-won c e o kept offered;
    once = λ w. ground (arith, once w, (IsOffered-le c o v offered).0);
    honest = tt;
    others = λ b t. IsTrue-won c e o offered b t;
  }

Take-After :
    {c : Cell} {o : Owner} {c' : Cell} {a a' : Taker}
    → Take c o a c' a'
    → IsKept c o
    → TakenOnce c
    → InTime c a
    → IsTrue c o a
    → After c o c' a'
Take-After {c} {o} (obtain v h) kept once time t = quiet c o kept once (holding v) h
Take-After {c} {o} (read_key {v}) kept once time t =
    quiet c o kept once (got_key v c.key) (t, λ e. (current_key c o v kept t e).0)
Take-After {c} {o} (read_val {v} {k}) kept once time (t, h) =
    quiet c o kept once (got_val v k c.val) (t, λ e. (h e, (current_key c o v kept t e).1))
Take-After {c} {o} (win {v} e) kept once time (t, h) =
    After-win c o kept once v t (win-here c o v t time e)
Take-After {c} {o} (lose ne) kept once time t = quiet c o kept once away tt

update_self : (f : ℕ → Taker) (i j : ℕ) (a : Taker) → j ≡ i → update_taker f i a j ≡ a
update_self f i j a e = ground (arith, e)

update_other : (f : ℕ → Taker) (i j : ℕ) (a : Taker) → j ≢ i → update_taker f i a j ≡ f j
update_other f i j a ne = ground (arith, ne)

Reach-Inv : {k x : ℕ} {r : Race} (run : Reach k x r) → AllInTime run → Inv r
Reach-Inv start time = record {
  kept = λ odd. absurd (omega arith);
  once = λ v. ground arith;
  honest = λ i. tt;
}
Reach-Inv (later run (initializes m)) time =
    let inv = Reach-Inv run time in
    record {
      kept = IsKept-Initialize m inv.kept;
      once = TakenOnce-Initialize m inv.once;
      honest = λ i. IsTrue-Initialize m _ (inv.honest i);
    }
Reach-Inv (later {r = s} run (takes_step i {c} {a} m)) (time, in_time) =
    let inv = Reach-Inv run time in
    let after = Take-After m inv.kept inv.once in_time (inv.honest i) in
    record {
      kept = after.kept;
      once = after.once;
      honest = λ j. elim (ℕ_discrete j i) [
        | yes e ↦ rw (update_self s.takers i j a e) after.honest
        | no ne ↦ rw (update_other s.takers i j a ne) (after.others (s.takers j) (inv.honest j))
      ];
    }

module _ {k x : ℕ} {r : Race} (run : Reach k x r) (time : AllInTime run) where
  -- In a run whose takers are in time, every version under which the item was in use and which has
  -- passed was taken exactly once, and no other version was taken.
  pub takes_once :
      (v : ℕ) → r.cell.takes v ≡ (if (v % 2 == 1) && ltb v r.cell.version then 1 else 0)
  takes_once v = (Reach-Inv run time).once v

  -- In a run whose takers are in time, a taker that is in time and whose exchange is about to succeed
  -- has read the key and the value with which its version was initialised, and nobody has taken that
  -- version before.
  pub take-contents :
      (i v y z : ℕ)
      → r.takers i ≡ got_val v y z
      → r.cell.version < v + 2 ^ 32
      → word r.cell.version ≡ word v
      → (y ≡ r.cell.keys v) × (z ≡ r.cell.vals v) × (r.cell.takes v ≡ 0)
  take-contents i v y z e in_time same =
      let inv = Reach-Inv run time in
      let (offered, h) = subst (IsTrue r.cell r.owner) e (inv.honest i) in
      let here = win-here r.cell r.owner v offered in_time same in
      ((h here).0, (h here).1, inv.once v ∙ ground (arith, here))
