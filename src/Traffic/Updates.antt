-- ===== src/Traffic/Updates.antt =====
-- The work queue of vrr_input.c sends well-formed packets.
use alpaca_vrr.Base.{
  ℕ, ◌+◌, Bool, true, false, List, [], ◌∷◌, ◌==◌, if◌then◌else◌, done, oops, not, ◌&&◌, ◌||◌, Run,
  bind_run,
}
use alpaca_vrr.Pset
use alpaca_vrr.Pset.{PsetEntry, pset_unknown, pset_linked}
use alpaca_vrr.Snapshot.{PsetState, pset_state_update}
use alpaca_vrr.World.{World, Env, PsetUpdate, pure, ◌>>◌, refresh}
use alpaca_vrr.World.Steps.{
  Moves, Steps-bind, Steps-then, Steps-pure, Steps-lift, Steps-get, Steps-modify,
}
use alpaca_vrr.Send.{send_setup_req}
use alpaca_vrr.Receive.Hello.{
  next_state, add_neighbour, apply_update, ask_proxy, handle_updates, pset_update_handler,
}
use alpaca_vrr.Traffic.{Good, Sends}
use alpaca_vrr.Traffic.Senders.{order, send_setup_req-Sends}

module _ (env : Env) where
  -- The snapshot.
  pub refresh-Sends : Sends (refresh env)
  unfolding refresh
  refresh-Sends = record { moves = λ w. go w (pset_state_update w.pset) }
    where
      go :
          (w : World) (o : Run PsetState)
          → Moves Good w (bind_run o (λ s. done (tt {0}, record w { pstate = s })))
      go w (done s) = λ h. h
      go w (oops e) = tt

  add_neighbour-Sends : (u : PsetUpdate) (status : ℕ) → Sends (add_neighbour env u status)
  unfolding add_neighbour
  add_neighbour-Sends u status = record { moves = λ w. tested w (Pset.pset_contains u.node w.pset) }
    where
      go :
          (w : World) (o : Run (Bool × List PsetEntry))
          → Moves Good w
              (bind_run o (λ r. done (tt {0}, record w { pset = r.1; allocs = w.allocs + 1 })))
      go w (done r) = λ h. h
      go w (oops e) = tt

      tested :
          (w : World) (b : Bool)
          → Moves Good w (
              if b
              then done (tt {0}, w)
              else bind_run
                  (Pset.pset_add (env.kmalloc w.allocs) u.node u.mac status u.active w.pset)
                  (λ r. done (tt {0}, record w { pset = r.1; allocs = w.allocs + 1 })))
      tested w true = λ h. h
      tested w false = go w _

  apply_update-Sends : (u : PsetUpdate) (next : ℕ) → Sends (apply_update env u next)
  unfolding apply_update
  apply_update-Sends u next = record {
    moves = λ w. tested w (Pset.pset_get_status u.node w.pset == pset_unknown) (
        not (Pset.pset_get_status u.node w.pset == next)
        || not (Pset.pset_get_active u.node w.pset == u.active));
  }
    where
      tested :
          (w : World) (b c : Bool)
          → Moves Good w (
              if b
              then (add_neighbour env u next >> refresh env) w
              else if c
              then refresh env
                  (record w { pset = (Pset.pset_update_status u.node next u.active w.pset).1 })
              else done (tt {0}, w))
      tested w true c = (Steps-then order (add_neighbour-Sends u next) refresh-Sends).moves w
      tested w false true =
          refresh-Sends.moves
            (record w { pset = (Pset.pset_update_status u.node next u.active w.pset).1 })
      tested w false false = λ h. h

  ask_proxy-Sends : (u : PsetUpdate) (next : ℕ) → Sends (ask_proxy env u next)
  unfolding ask_proxy
  ask_proxy-Sends u next = record {
    moves = λ w. tested w (w.node.active == 0 && not (u.active == 0) && next == pset_linked);
  }
    where
      tested :
          (w : World) (b : Bool)
          → Moves Good w (
              if b
              then (send_setup_req env w.node.id w.node.id u.node >> pure (tt {0})) w
              else done (tt {0}, w))
      tested w true =
          (Steps-then order (send_setup_req-Sends env w.node.id w.node.id u.node)
              (Steps-pure order tt)).moves
            w
      tested w false = λ h. h

  handle_updates-Sends : (us : List PsetUpdate) → Sends (handle_updates env us)
  unfolding handle_updates
  handle_updates-Sends [] = Steps-pure order tt
  handle_updates-Sends (u ∷ us) =
      let rest = handle_updates-Sends us in
      Steps-bind order (Steps-get order) λ w.
        Steps-bind order
          (Steps-lift order (next_state (Pset.pset_get_status u.node w.pset) u.trans))
          λ next.
            Steps-then order (apply_update-Sends u next)
              (Steps-then order (ask_proxy-Sends u next) rest)

  pub pset_update_handler-Sends : Sends (pset_update_handler env)
  unfolding pset_update_handler
  pset_update_handler-Sends =
      Steps-bind order (Steps-get order)
        λ w. Steps-then order (handle_updates-Sends w.pset_updates) (Steps-modify _ (λ v h. h))
