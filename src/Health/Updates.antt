-- ===== src/Health/Updates.antt =====
-- The work queue of the hello packets keeps the world healthy, given memory.
use alpaca_vrr.Base.{
  ℕ, ◌+◌, ◌≤◌, ◌<◌, ◌≡◌, refl, inl, inr, true, false, ◌&&◌, ◌||◌, not, List, [], ◌∷◌, Returns,
  Returns-done, All, Bool-cases, ==_iff, ◌==◌,
}
use alpaca_vrr.Pset
use alpaca_vrr.Pset.{PsetEntry, pset_unknown, pset_linked, flag}
use alpaca_vrr.Pset.Keys.{pset_contains-Absent}
use alpaca_vrr.Snapshot.Classes.{classify}
use alpaca_vrr.Snapshot.Failures.{update-classify}
use alpaca_vrr.World.{World, Env, PsetUpdate, ◌>>=◌, ◌>>◌, refresh}
use alpaca_vrr.Receive.Hello.{
  trans_missing, next_state, add_neighbour, apply_update, ask_proxy, handle_updates,
  pset_update_handler,
}
use alpaca_vrr.Receive.Hello.Machine.{next_state-total}
use alpaca_vrr.Health.{Scope, IsHeard, Healthy, Runs, Keeps}
use alpaca_vrr.Health.Hearing.{few, pset_get_status-Known, contains-unknown, Neighbours-update}
use alpaca_vrr.Health.Rules.{
  Ensures-bind, Ensures-then, Ensures-lift, Ensures-get, Ensures-returns, Keeps-modify, Keeps-pure,
}
use alpaca_vrr.Health.Sending.{send_setup_req-Keeps}

module _ (env : Env) (ample : (n : ℕ) → env.kmalloc n ≡ true) (sc : Scope) where
  refresh-Healthy :
      (w : World)
      → Healthy sc (record w { pstate = classify w.pset })
      → Returns (refresh env w) (λ r. Healthy sc r.1 × Unit {0})
  unfolding refresh
  refresh-Healthy w h = rw (update-classify w.pset (few h.near sc.room)) (h, tt)

  module _ (u : PsetUpdate) (next : ℕ) (s : IsHeard sc.heard u.node) (k : next < pset_unknown) where
    abbrev newcomer : PsetEntry
    newcomer = record {
      node = u.node;
      status = next;
      active = flag u.active;
      mac = u.mac;
      fail_count = 0;
    }

    add_neighbour-Healthy :
        (w : World)
        → Healthy sc w
        → Pset.pset_contains u.node w.pset ≡ false
        → Returns ((add_neighbour env u next >> refresh env) w) (λ r. Healthy sc r.1 × Unit {0})
    unfolding add_neighbour Pset.pset_add ◌>>◌ ◌>>=◌
    add_neighbour-Healthy w h new =
        rw (new, ample w.allocs)
          (refresh-Healthy (record w { pset = newcomer ∷ w.pset; allocs = w.allocs + 1 })
            (record {
              routes = h.routes;
              near = record {
                distinct = (pset_contains-Absent u.node w.pset new, h.near.distinct);
                known = ((s, k), h.near.known);
                snapshot = refl;
                asked = h.near.asked;
              };
              ring = h.ring;
              counted = h.counted;
            }))

    apply_update-Runs : Runs sc (apply_update env u next) (λ _. Unit {0})
    unfolding apply_update
    apply_update-Runs w h = elim (Bool-cases (Pset.pset_get_status u.node w.pset == pset_unknown)) [
      | inl new ↦ rw new (
          add_neighbour-Healthy w h
            (contains-unknown sc.heard u.node w.pset h.near.known ((==_iff _ _).0 new)))
      | inr old ↦
          elim (Bool-cases (
            not (Pset.pset_get_status u.node w.pset == next)
            || not (Pset.pset_get_active u.node w.pset == u.active))) [
              | inl change ↦
                  rw (old, change)
                    (refresh-Healthy
                      (record w { pset = (Pset.pset_update_status u.node next u.active w.pset).1 })
                      (record {
                        routes = h.routes;
                        near = Neighbours-update u.node next u.active k h.near;
                        ring = h.ring;
                        counted = h.counted;
                      }))
              | inr same ↦ rw (old, same) (h, tt)
            ]
    ]

  ask_proxy-Keeps : (u : PsetUpdate) (next : ℕ) → Keeps sc (ask_proxy env u next)
  unfolding ask_proxy
  ask_proxy-Keeps u next = record {
    runs = λ w h.
        elim (Bool-cases (w.node.active == 0 && not (u.active == 0) && next == pset_linked)) [
          | inl ask ↦ rw ask (
              (Ensures-then (send_setup_req-Keeps env ample sc w.node.id w.node.id u.node)
                  (Keeps-pure tt)).runs
                w h)
          | inr quiet ↦ rw quiet (h, tt)
        ];
  }

  handle_updates-Keeps :
      (us : List PsetUpdate)
      → All (λ u. IsHeard sc.heard u.node × (u.trans ≤ trans_missing)) us
      → Keeps sc (handle_updates env us)
  unfolding handle_updates
  handle_updates-Keeps [] a = Keeps-pure tt
  handle_updates-Keeps (u ∷ us) a =
      let rest = handle_updates-Keeps us a.1 in
      Ensures-bind Ensures-get λ w h.
        let status = Pset.pset_get_status u.node w.pset in
        let (n, e, k) =
          Returns-done (λ n. n < pset_unknown) (next_state status u.trans)
            (next_state-total status u.trans
              (pset_get_status-Known sc.heard u.node w.pset h.near.known) a.0.1) in
        Ensures-bind (Ensures-lift {Q = λ n. n < pset_unknown} e k) λ next less.
          Ensures-then (Ensures-returns (apply_update-Runs u next a.0.0 less))
            (Ensures-then (ask_proxy-Keeps u next) rest)

  pub pset_update_handler-Keeps : Keeps sc (pset_update_handler env)
  unfolding pset_update_handler
  pset_update_handler-Keeps = Ensures-bind Ensures-get λ w h.
      Ensures-then (handle_updates-Keeps w.pset_updates h.near.asked) (
        Keeps-modify λ v g. record {
          routes = g.routes;
          near = record {
            distinct = g.near.distinct;
            known = g.near.known;
            snapshot = g.near.snapshot;
            asked = tt;
          };
          ring = g.ring;
          counted = g.counted;
        })
