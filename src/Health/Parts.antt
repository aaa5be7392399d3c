-- ===== src/Health/Parts.antt =====
-- The primitives of the world keep it healthy, given memory.
use alpaca_vrr.Base.{
  [], ℕ, ◌≤◌, ◌≡◌, refl, sym, inl, inr, true, Option, none, some, List, Run, done, oops, Returns,
  Bool-cases, arith, length, length-map, map, select, length-select-le, bind_run, subst,
}
use alpaca_vrr.Rt
use alpaca_vrr.Rt.Defs.{inorder}
use alpaca_vrr.Rt.Sorted.{Rising}
use alpaca_vrr.Rt.Add.{rt_add_route-Rising}
use alpaca_vrr.Rt.Remove.{rt_remove_route-Rising}
use alpaca_vrr.Pset
use alpaca_vrr.Pset.{PsetEntry, vrr_pset_size, is_proxy}
use alpaca_vrr.Pset.Laws.{proxies, Proxy, pset_get_proxy-Proxy}
use alpaca_vrr.Vset
use alpaca_vrr.Vset.{Vset, VsetEntry, VsetCopy, Bump}
use alpaca_vrr.Vset.Size.{fill_array-Filled, vset_should_add-returns}
use alpaca_vrr.Vset.Members.{IsValid, Added, vset_add-Added}
use alpaca_vrr.World.{
  ◌>>=◌, get, lift, World, Env, added, drawn, read_array, alloc, get_random, add_route, vset_copy,
  should_add, add_to_vset, get_proxy, remove_route,
}
use alpaca_vrr.Health.Rules.{Ensures-returns}
use alpaca_vrr.Health.Hearing.{few}
use alpaca_vrr.Health.{Scope, Healthy, Runs, Ensures, Keeps}

-- A copied array that can be read.
abbrev pub CanRead : VsetCopy → Type 0
CanRead c = (xs : List ℕ) × (read_array c ≡ done xs)

-- A copy of our own virtual set.
abbrev pub Readable : Scope → VsetCopy → Type 0
Readable sc c = (sc.low ≤ c.count) × CanRead c

pub no_cells : CanRead (record { count = 0; cells = none })
unfolding read_array
no_cells = ([], refl)

pub own_cells : (n : ℕ) (xs : List ℕ) → CanRead (record { count = n; cells = some xs })
unfolding read_array
own_cells n xs = (xs, refl)

-- Health is about the table, the two sets and the snapshot alone.
pub same :
    {sc : Scope} {w v : World}
    → Healthy sc w
    → v.rt_root ≡ w.rt_root
    → v.pset ≡ w.pset
    → v.pstate ≡ w.pstate
    → v.vset ≡ w.vset
    → v.pset_updates ≡ w.pset_updates
    → Healthy sc v
same {sc} {w} h r p s e u = record {
  routes = subst (λ t. Rising (inorder t)) (sym r) h.routes;
  near = rw (p, s, u) h.near;
  ring = subst IsValid (sym e) h.ring;
  counted = subst (λ (x : Vset). sc.low ≤ x.vset_size) (sym e) h.counted;
}

module _ (env : Env) (ample : (n : ℕ) → env.kmalloc n ≡ true) (sc : Scope) where
  pub alloc-Ensures : Ensures sc (alloc env) (λ b. b ≡ true)
  unfolding alloc
  alloc-Ensures = record { runs = λ w h. (same h refl refl refl refl refl, ample w.allocs) }

  pub get_random-Keeps : Keeps sc (get_random env)
  unfolding get_random
  get_random-Keeps = record { runs = λ w h. (same h refl refl refl refl refl, tt) }

  add_route-Runs : (ea eb na nb pid : ℕ) → Runs sc (add_route env ea eb na nb pid) (λ _. Unit {0})
  unfolding add_route
  add_route-Runs ea eb na nb pid w h = (
    record {
      routes = rt_add_route-Rising env.rb env.kmalloc ea eb na nb pid w.rt_root w.allocs h.routes;
      near = h.near;
      ring = h.ring;
      counted = h.counted;
    },
    tt,
  )

  pub add_route-Keeps : (ea eb na nb pid : ℕ) → Keeps sc (add_route env ea eb na nb pid)
  add_route-Keeps ea eb na nb pid = Ensures-returns (add_route-Runs ea eb na nb pid)

  vset_copy-Runs : Runs sc (vset_copy env) (Readable sc)
  unfolding vset_copy alloc read_array Vset.vset_get_all ◌>>=◌ get lift
  vset_copy-Runs w h =
      let (cells, e, f) =
        fill_array-Filled env.junk w.vset.vset_size (map (λ (x : VsetEntry). x.node) w.vset.entries)
          (omega (arith, length-map (λ (x : VsetEntry). x.node) w.vset.entries, h.ring.sized)) in
      rw (ample w.allocs, e) (same h refl refl refl refl refl, (h.counted, (cells, refl)))

  pub vset_copy-Ensures : Ensures sc (vset_copy env) (Readable sc)
  vset_copy-Ensures = Ensures-returns vset_copy-Runs

  should_add-Runs : (node : ℕ) → Runs sc (should_add env node) (λ _. Unit {0})
  unfolding should_add lift
  should_add-Runs node w h =
      let (b, e) = vset_should_add-returns env.sort env.junk w.me node w.vset h.ring.sized in
      rw e (h, tt)

  pub should_add-Keeps : (node : ℕ) → Keeps sc (should_add env node)
  should_add-Keeps node = Ensures-returns (should_add-Runs node)

  add_to_vset-Runs : (node : ℕ) → Runs sc (add_to_vset env node) (λ _. Unit {0})
  unfolding add_to_vset
  add_to_vset-Runs node w h = elim (Bool-cases (Vset.vset_has node w.vset.entries)) [
    | inl old ↦ rw old (h, tt)
    | inr new ↦
        rw (new, ample w.allocs)
          (go (Vset.vset_add env.sort env.junk true w.me node w.vset)
            (vset_add-Added env.sort env.junk w.me node w.vset h.ring))
  ]
    where
      go :
          (o : Run (Option Bump × Vset))
          → Returns o (Added w.me node w.vset)
          → Returns (bind_run o (added w)) (λ r. Healthy sc r.1 × Unit {0})
      go (done (none, v)) (ok, old, e) = (
        record {
          routes = h.routes;
          near = h.near;
          ring = ok;
          counted = subst (λ (z : Vset). sc.low ≤ z.vset_size) (sym e) h.counted;
        },
        tt,
      )
      go (done (some b, v)) (ok, new, e, k) = (
        record {
          routes = h.routes;
          near = h.near;
          ring = ok;
          counted = omega (arith, e, h.counted);
        },
        tt,
      )
      go (oops e) g = absurd g

  pub add_to_vset-Keeps : (node : ℕ) → Keeps sc (add_to_vset env node)
  add_to_vset-Keeps node = Ensures-returns (add_to_vset-Runs node)

  remove-Healthy :
      (ea pid : ℕ) (w : World)
      → Healthy sc w
      → Healthy sc (record w { rt_root = (Rt.rt_remove_route ea pid w.rt_root).1 })
  remove-Healthy ea pid w h = record {
    routes = rt_remove_route-Rising ea pid w.rt_root h.routes;
    near = h.near;
    ring = h.ring;
    counted = h.counted;
  }

  pub remove_route-Keeps : (ea pid : ℕ) → Keeps sc (remove_route ea pid)
  unfolding remove_route
  remove_route-Keeps ea pid = record { runs = λ w h. (remove-Healthy ea pid w h, tt) }

  length-proxies : (ps : List PsetEntry) → length (proxies ps) ≤ length ps
  length-proxies ps = omega (
    arith,
    length-map (λ (x : PsetEntry). x.node) (select is_proxy ps),
    length-select-le is_proxy ps,
  )

  -- In a healthy world there are never too many proxies to choose from.
  get_proxy-Runs : Runs sc (get_proxy env) (λ _. Unit {0})
  unfolding get_proxy
  get_proxy-Runs w h =
      go (Pset.pset_get_proxy (env.random w.draws) w.pset)
        (pset_get_proxy-Proxy (env.random w.draws) w.pset)
    where
      go :
          (o : Run (Option ℕ))
          → Proxy (env.random w.draws) (proxies w.pset) o
          → Returns (bind_run o (drawn w)) (λ r. Healthy sc r.1 × Unit {0})
      go (done none) p = (h, tt)
      go (done (some a)) p = (same h refl refl refl refl refl, tt)
      go (oops e) p = absurd (omega (arith, p.1, few h.near sc.room, length-proxies w.pset))

  pub get_proxy-Keeps : Keeps sc (get_proxy env)
  get_proxy-Keeps = Ensures-returns get_proxy-Runs
