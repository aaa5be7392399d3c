-- ===== src/Joining/Arrival.antt =====
-- A setup at its end: `vrr_rcv_setup` of vrr_input.c at the node that the setup is for.
use alpaca_vrr.Base.{
  ℕ, ◌+◌, ◌≤◌, ◌≡◌, refl, inl, inr, ◌⊎◌, Bool, true, false, some, Run, done, oops, Returns,
  Returns-mono, bind_run, ge→ltb, if◌then◌else◌,
}
use alpaca_vrr.Rt.Spec.{rt_add_route-succeeds}
use alpaca_vrr.Vset.{vrr_vset_size}
use alpaca_vrr.Wire.{Skb}
use alpaca_vrr.World.{
  World, Env, pure, ◌>>=◌, ◌>>◌, get, modify, alloc, add_route, case_option, continue_with,
}
use alpaca_vrr.Send.{vrr_add}
use alpaca_vrr.Receive.Setup.{setup_ends, setup_sender, activate, finish_setup, vrr_rcv_setup}
use alpaca_vrr.Receive.Forwarded.{source, target, path_id_of, size_of, set_of, grown}
use alpaca_vrr.Health.{Scope, Healthy}
use alpaca_vrr.Health.Parts.{same, add_route-Keeps}
use alpaca_vrr.Joining.{core}
use alpaca_vrr.Joining.Add.{Decides, vrr_add-Decides, moved}

module _ (env : Env) (skb : Skb) (w : World) (sender : ℕ) where
  -- The world with the route laid, which ends here.
  abbrev pub laid : World
  laid = grown env skb w sender 0

  -- The source of the setup is added to the virtual set, and the node is active; or the source is not
  -- wanted, and only the route is new.
  abbrev pub Joins : Bool × World → Type 0
  Joins (false, v) = ⊥
  Joins (true, v) =
      ((d : World) × Decides env (source env skb w) laid (true, d)
        × (core v ≡ core (activate env d)))
      ⊎ Decides env (source env skb w) laid (false, v)

  module _ (ample : (n : ℕ) → env.kmalloc n ≡ true) {sc : Scope} (strict : sc.strict ≡ true)
      (h : Healthy sc w) where
    laid-Healthy : Healthy sc laid
    unfolding add_route
    laid-Healthy =
        ((add_route-Keeps env ample sc (source env skb w) (target env skb w) sender 0
            (path_id_of env skb w).0).runs
          w h).0

    -- With memory at hand, in a healthy world: a setup for this node from a known sender, with a
    -- virtual set of the size allowed, is answered by the route from its source to this node in the
    -- table. Then `vrr_add` decides on the source. Either the virtual set is what `vset_add` leaves
    -- for it, with the source in it unless `vset_add` bumped that same node out, and the node turns
    -- active; or nothing else has changed but the frames and the counts.
    pub vrr_rcv_setup-Joins :
        setup_sender skb w ≡ some sender
        → setup_ends (target env skb w) w ≡ true
        → (size_of env skb w).0 ≤ vrr_vset_size
        → Returns (vrr_rcv_setup env skb w) Joins
    unfolding vrr_rcv_setup finish_setup ◌>>=◌ ◌>>◌ get pure case_option alloc add_route modify
    vrr_rcv_setup-Joins from on small =
        rw
          (
            from,
            on,
            rt_add_route-succeeds env.rb env.kmalloc w.me ample (source env skb w)
                (target env skb w) sender 0 (path_id_of env skb w).0 w.rt_root w.allocs,
            ge→ltb vrr_vset_size (size_of env skb w).0 small,
            ample laid.allocs,
          )
          (ended (vrr_add env src (set_of env skb w) after) (
            Returns-mono (Decides env src after) (Decides env src laid)
              (vrr_add env src (set_of env skb w) after)
              (vrr_add-Decides env ample strict src (set_of env skb w) after
                (same laid-Healthy refl refl refl refl refl))
              (moved env src laid after refl)))
      where
        src : ℕ
        src = source env skb w

        after : World
        after = record laid { allocs = laid.allocs + 1 }

        ended :
            (o : Run (Bool × World))
            → Returns o (Decides env src laid)
            → Returns
                (bind_run o (
                  continue_with
                    (λ in_set. if in_set then modify (activate env) >> pure true else pure true)))
                Joins
        ended (done (true, d)) q = inl (d, q, refl)
        ended (done (false, d)) q = inr q
        ended (oops e) q = q
