-- ===== src/Checks/Meetings.antt =====
-- The node 5 joins by its neighbour, the node 9.
use alpaca_vrr.Base.{
  ℕ, ◌≡◌, refl, inl, true, false, some, subst, bytes_eq, List, [], ◌∷◌, arith, ◌==◌, if◌then◌else◌,
}
use alpaca_vrr.Rt.Defs.{leaf}
use alpaca_vrr.Rt.{rt_get_next_exclude}
use alpaca_vrr.Pset.{pset_get_mac, pset_get_status, pset_lookup_mac}
use alpaca_vrr.Vset.{vset_init, vset_has}
use alpaca_vrr.Snapshot.Classes.{classify}
use alpaca_vrr.World.{World, Env}
use alpaca_vrr.Health.{Scope, Healthy}
use alpaca_vrr.Joining.Meeting.{Newcomer}
use alpaca_vrr.Joining.Answering.{Welcoming}
use alpaca_vrr.Joining.Together.{Meets, exchange-Meets}
use alpaca_vrr.Travel.{Fresh}
use alpaca_vrr.Travel.Relay.{Linked}
use alpaca_vrr.Checks.Samples.{entry}
use alpaca_vrr.Checks.Worlds.{world}
use alpaca_vrr.Checks.Travels.{kernels}
use alpaca_vrr.Checks.Trips.{net}

abbrev envs : ℕ → Env
envs n = record (kernels n) { random = λ k. 7 }

abbrev other : ℕ → ℕ
other n = if n == 5 then 9 else 5

abbrev worlds : ℕ → World
worlds n = record world {
  node = record (world.node) { id = n; active = 0; dev_list = (b'a' ∷ []) ∷ [] };
  me = n;
  rt_root = leaf;
  pset = entry (other n) 0 1 0 ∷ [];
  vset = vset_init;
  pstate = classify (entry (other n) 0 1 0 ∷ []);
  pset_updates = [];
}

abbrev scope_of : ℕ → Scope
scope_of n = record { heard = n ∷ []; room = omega arith; low = 0; strict = true }

new-Healthy : Healthy (scope_of 9) (worlds 5)
unfolding vset_init
new-Healthy = record {
  routes = tt;
  near = record {
    distinct = (tt, tt);
    known = ((refl, omega arith), tt);
    snapshot = refl;
    asked = tt;
  };
  ring = record { distinct = tt; sized = omega arith };
  counted = omega arith;
}

old-Healthy : Healthy (scope_of 5) (worlds 9)
unfolding vset_init
old-Healthy = record {
  routes = tt;
  near = record {
    distinct = (tt, tt);
    known = ((refl, omega arith), tt);
    snapshot = refl;
    asked = tt;
  };
  ring = record { distinct = tt; sized = omega arith };
  counted = omega arith;
}

newcomer : Newcomer (scope_of 9) 5 (worlds 5)
unfolding pset_get_status
newcomer = record { healthy = new-Healthy; empty = refl; stranger = refl }

welcoming : Welcoming (scope_of 5) 5 (worlds 9)
unfolding pset_get_status rt_get_next_exclude vset_has vset_init
welcoming = record {
  healthy = old-Healthy;
  near = omega arith;
  no_way = refl;
  new = refl;
  room = omega arith;
}

there : Linked net envs worlds 5 9
unfolding pset_get_mac
there = record {
  named = omega arith;
  mac = 9 ∷ [];
  address = refl;
  owned = refl;
  up = inl (5 ∷ [], refl);
}

back : Linked net envs worlds 9 5
unfolding pset_get_mac
back = record {
  named = omega arith;
  mac = 5 ∷ [];
  address = refl;
  owned = refl;
  up = inl (9 ∷ [], refl);
}

empty-Fresh : (n : ℕ) → Fresh 9 5 7 n (worlds n)
empty-Fresh n = record {
  sorted = tt;
  newest_src = tt;
  newest_dst = tt;
  no_loop_src = tt;
  no_loop_dst = tt;
}

heard :
    (addr : List ℕ)
    → some (9 ∷ []) ≡ some addr
    → (bytes_eq (5 ∷ []) addr ≡ false) × (pset_lookup_mac addr (worlds 5).pset ≡ some 9)
unfolding pset_lookup_mac
heard addr e =
    subst (λ z. (bytes_eq (5 ∷ []) z ≡ false) × (pset_lookup_mac z (worlds 5).pset ≡ some 9))
      (only e) (refl, refl)
  where
    only : some (9 ∷ []) ≡ some addr → 9 ∷ [] ≡ addr
    only q = cc

exchange-Meets_example : (vp : World) × (va : World) × Meets net envs worlds 5 9 vp va
unfolding back
exchange-Meets_example =
    exchange-Meets net (λ fs h. h) envs worlds (λ n k. refl) 5 9 (omega arith) (omega arith)
      {sc_a = scope_of 9} {sc_p = scope_of 5} refl refl refl newcomer welcoming there back
      (λ name addr e. heard addr e) (omega arith) (omega arith) (omega arith) (omega arith)
      (omega arith) (empty-Fresh 9) (empty-Fresh 5)
