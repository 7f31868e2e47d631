-- ===== src/Protocol/Change.antt =====
-- What one thread's writes and its publication leave to the others.
use klsm.Base.{ℕ, ◌+◌, ◌≤◌, ◌≡◌, ◌≢◌, sym, ◌∙◌, ap, inl, inr, arith}
use klsm.Protocol.{
  Pointer, Shared, Copy, Pc, idle, loaded, seen, testing, searching, reloaded, reseen, copying,
  copied, confirming, ready, writing, filling, comparing, swapping, array_at, pool_of,
}
use klsm.Protocol.Inv.{
  now, WasGlobal, UpTo, Holds, IsSnapshot, SeenAt, Begun, Fresh, Copying, Copied, Ready, Writing,
  IsSafe,
}

-- What every thread but `t` may rely on.
pub record Grows (t : ℕ) (sh sh' : Shared) : Type 0 where
  pub later : now sh ≤ now sh'
  pub history : (v k : ℕ) → v ≤ now sh → sh'.history v k ≡ sh.history v k
  pub kept : (g : Pointer) → WasGlobal sh g → WasGlobal sh' g
  pub others : (j b : ℕ) → j ≢ t → sh'.arrays j b ≡ sh.arrays j b
  pub intact :
      (g : Pointer)
      → WasGlobal sh g
      → (array_at sh' g).stamp ≡ g.stamp
      → (array_at sh g).stamp ≡ g.stamp

module _ {t : ℕ} {sh sh' : Shared} (grows : Grows t sh sh') where
  pub Holds-Grows : (l : Copy) (v k : ℕ) → v ≤ now sh → Holds sh l v k → Holds sh' l v k
  Holds-Grows l v k h content j below fixed = content j below fixed ∙ sym (grows.history v j h)

  pub Ready-Grows :
      (width j : ℕ) (l : Copy) (g : Pointer) (u : ℕ)
      → Ready width j sh l g u
      → Ready width j sh' l g u
  Ready-Grows width j l g u r = record {
    was = grows.kept g r.was;
    observed = r.observed;
    version = r.version;
    content = Holds-Grows l g.stamp width r.was.past r.content;
  }

  SeenAt-Grows : (g : Pointer) (u : ℕ) → SeenAt sh g u → SeenAt sh' g u
  SeenAt-Grows g u (inl e) = inl e
  SeenAt-Grows g u (inr (a, b)) = inr (a, omega (arith, grows.later))

  module _ (width j : ℕ) (other : j ≢ t) (l : Copy) where
    UpTo-Grows : (n m : ℕ) → n ≤ m → UpTo sh j n → UpTo sh' j m
    UpTo-Grows n m h own b = omega (arith, ap (λ a. a.stamp) (grows.others j b other), own b)

    IsSnapshot-Grows : IsSnapshot width sh l → IsSnapshot width sh' l
    IsSnapshot-Grows s = record {
      past = omega (arith, grows.later, s.past);
      content = Holds-Grows l l.stamp width s.past s.content;
    }

    Begun-Grows : (g : Pointer) → Begun width j sh l g → Begun width j sh' l g
    Begun-Grows g b = record {
      was = grows.kept g b.was;
      own = UpTo-Grows g.stamp g.stamp (omega arith) b.own;
    }

    Fresh-Grows : (g : Pointer) → Fresh width j sh l g → Fresh width j sh' l g
    Fresh-Grows g f = record {
      begun = Begun-Grows g f.begun;
      snapshot = IsSnapshot-Grows f.snapshot;
      older = f.older;
    }

    Copying-Grows :
        (g : Pointer) (u k : ℕ) → Copying width j sh l g u k → Copying width j sh' l g u k
    Copying-Grows g u k c = record {
      begun = Begun-Grows g c.begun;
      observed = c.observed;
      within = c.within;
      version = SeenAt-Grows g l.stamp c.version;
      content = λ same.
          Holds-Grows l g.stamp k c.begun.was.past (c.content (grows.intact g c.begun.was same));
    }

    Copied-Grows : (g : Pointer) (u : ℕ) → Copied width j sh l g u → Copied width j sh' l g u
    Copied-Grows g u c = record {
      begun = Begun-Grows g c.begun;
      observed = c.observed;
      version = SeenAt-Grows g l.stamp c.version;
      content = λ same. Holds-Grows l g.stamp width c.begun.was.past (c.content same);
    }

    Writing-Grows :
        (g : Pointer) (u v : ℕ) → Writing width j sh l g u v → Writing width j sh' l g u v
    Writing-Grows g u v w = record {
      ready = Ready-Grows width j l g u w.ready;
      own = λ b ne. omega (arith, ap (λ a. a.stamp) (grows.others j b other), w.own b ne);
      new = ap (λ a. a.stamp) (grows.others j (pool_of u) other) ∙ w.new;
      open_still = ap (λ a. a.done) (grows.others j (pool_of u) other) ∙ w.open_still;
    }

    -- The other threads stay safe.
    pub IsSafe-Grows : (pc : Pc) → IsSafe width j sh l pc → IsSafe width j sh' l pc
    IsSafe-Grows idle (own, s) = (UpTo-Grows (now sh) (now sh') grows.later own, IsSnapshot-Grows s)
    IsSafe-Grows (loaded g) f = Fresh-Grows g f
    IsSafe-Grows (seen g u) (f, h) =
        (Fresh-Grows g f, λ e. h (omega (arith, e, grows.later, f.begun.was.past)))
    IsSafe-Grows (testing g u p) (f, was, le, h) = (Fresh-Grows g f, grows.kept p was, le, h)
    IsSafe-Grows searching own = UpTo-Grows (now sh) (now sh') grows.later own
    IsSafe-Grows (reloaded g) b = Begun-Grows g b
    IsSafe-Grows (reseen g u) (b, s) = (Begun-Grows g b, SeenAt-Grows g u s)
    IsSafe-Grows (copying g u k) c = Copying-Grows g u k c
    IsSafe-Grows (copied g u) c = Copied-Grows g u c
    IsSafe-Grows (confirming g u p) c = Copied-Grows g u c
    IsSafe-Grows (ready g u) (r, own) =
        (Ready-Grows width j l g u r, UpTo-Grows g.stamp g.stamp (omega arith) own)
    IsSafe-Grows (writing g u) w = Writing-Grows g u g.stamp w
    IsSafe-Grows (filling g u) w = Writing-Grows g u (g.stamp + 1) w
    IsSafe-Grows (comparing g u p) (w, was, le) =
        (Writing-Grows g u (g.stamp + 1) w, grows.kept p was, le)
    IsSafe-Grows (swapping g u) w = Writing-Grows g u (g.stamp + 1) w
