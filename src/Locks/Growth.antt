-- ===== src/Locks/Growth.antt =====
-- The virtual set under the calls of several threads, in whatever order.
use alpaca_vrr.Base.{
  ℕ, ◌≤◌, ◌≡◌, ap, true, List, [], ◌∷◌, ◌++◌, Option, none, some, Run, done, oops, Returns,
  Returns-mono, Returns-done, bind_run, arith,
}
use alpaca_vrr.Vset.{Vset, Cell, Sign, Bump, vset_add}
use alpaca_vrr.Vset.Members.{IsValid, Added, vset_add-Added, vset_remove_lem}
use alpaca_vrr.Locks.{VsetCall, add, remove, perform, performs}

module _ (sort : (Cell → Cell → Sign) → List ℕ → List ℕ) (junk : ℕ → ℕ) (me : ℕ) where
  -- A valid set from `v`, with as many nodes counted or more.
  abbrev pub Grown : Vset → Vset → Type 0
  Grown v w = IsValid w × (v.vset_size ≤ w.vset_size)

  pub perform-Grown :
      (c : VsetCall) (v : Vset) → IsValid v → Returns (perform sort junk me c v) (Grown v)
  unfolding perform
  perform-Grown (add node) v h =
      go (vset_add sort junk true me node v) (vset_add-Added sort junk me node v h)
    where
      go :
          (o : Run (Option Bump × Vset))
          → Returns o (Added me node v)
          → Returns (bind_run o (λ r. done r.1)) (Grown v)
      go (done (none, w)) (valid, old, e) = (valid, omega (arith, ap (λ (u : Vset). u.vset_size) e))
      go (done (some b, w)) (valid, new, e, k) = (valid, omega (arith, e))
      go (oops f) q = q
  perform-Grown (remove node) v h =
      let r = vset_remove_lem node node v h in (r.2, omega (arith, r.3))

  -- In whatever order the calls come, each returns.
  pub performs-Grown :
      (cs : List VsetCall) (v : Vset) → IsValid v → Returns (performs sort junk me cs v) (Grown v)
  unfolding performs
  performs-Grown [] v h = (h, omega arith)
  performs-Grown (c ∷ cs) v h =
      go (perform sort junk me c v) (perform-Grown c v h) (λ w valid. performs-Grown cs w valid)
    where
      go :
          (o : Run Vset)
          → Returns o (Grown v)
          → ((w : Vset) → IsValid w → Returns (performs sort junk me cs w) (Grown w))
          → Returns (bind_run o (performs sort junk me cs)) (Grown v)
      go (done w) (valid, le) next =
          Returns-mono (Grown w) (Grown v) (performs sort junk me cs w) (next w valid)
            (λ u g. (g.0, omega (arith, le, g.1)))
      go (oops f) q next = q

  -- The set after the calls.
  pub performs-done :
      (cs : List VsetCall) (v : Vset)
      → IsValid v
      → (w : Vset) × (performs sort junk me cs v ≡ done w) × Grown v w
  performs-done cs v h = Returns-done (Grown v) (performs sort junk me cs v) (performs-Grown cs v h)

pub performs-append :
    (sort : (Cell → Cell → Sign) → List ℕ → List ℕ) (junk : ℕ → ℕ) (me : ℕ) (cs ds : List VsetCall)
    (v w : Vset)
    → performs sort junk me cs v ≡ done w
    → performs sort junk me (cs ++ ds) v ≡ performs sort junk me ds w
unfolding performs
performs-append sort junk me [] ds v w e = ap (λ o. bind_run o (performs sort junk me ds)) e
performs-append sort junk me (c ∷ cs) ds v w e =
    go (perform sort junk me c v) e (λ u k. performs-append sort junk me cs ds u w k)
  where
    go :
        (o : Run Vset)
        → bind_run o (performs sort junk me cs) ≡ done w
        → ((u : Vset)
            → performs sort junk me cs u ≡ done w
            → performs sort junk me (cs ++ ds) u ≡ performs sort junk me ds w)
        → bind_run o (performs sort junk me (cs ++ ds)) ≡ performs sort junk me ds w
    go (done u) e next = next u e
    go (oops f) e next = cc
