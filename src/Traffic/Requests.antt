-- ===== src/Traffic/Requests.antt =====
-- What is sent to tear a path down, and for the nodes of another virtual set.
use alpaca_vrr.Base.{
  ℕ, ◌∷◌, [], List, ◌==◌, not, ◌&&◌, if◌then◌else◌, done, oops, null_deref, arith,
}
use alpaca_vrr.Pset
use alpaca_vrr.World.{Env, remove_route}
use alpaca_vrr.World.Steps.{
  Steps-bind, Steps-then, Steps-pure, Steps-lift, Steps-get, Steps-case, Steps-if,
}
use alpaca_vrr.Send.{
  teardown_vset, teardown_hop, tear_down_path, send_hpkt, request_setups, vrr_add, no_id,
}
use alpaca_vrr.Traffic.{Sends}
use alpaca_vrr.Traffic.Senders.{
  order, alloc-Sends, vset_copy-Sends, should_add-Sends, get_proxy-Sends, add_to_vset-Sends,
  send_packet-Sends, send_setup_req-Sends, send_teardown-Sends,
}

pub remove_route-Sends : (ea pid : ℕ) → Sends (remove_route ea pid)
unfolding remove_route
remove_route-Sends ea pid = record { moves = λ w h. h }

module _ (env : Env) where
  teardown_vset-Sends : (sender : ℕ) → Sends (teardown_vset env sender)
  unfolding teardown_vset
  teardown_vset-Sends sender = Steps-if (sender == 0) (Steps-pure order _) (vset_copy-Sends env)

  teardown_hop-Sends :
      (pid endpoint sender hop : ℕ) → Sends (teardown_hop env pid endpoint sender hop)
  unfolding teardown_hop
  teardown_hop-Sends pid endpoint sender hop = Steps-bind order (Steps-get order) λ w.
      Steps-if (not (hop == 0) && Pset.pset_contains hop w.pset)
        (Steps-bind order (teardown_vset-Sends sender) λ vset.
          Steps-then order (send_teardown-Sends env pid endpoint vset hop) (Steps-pure order tt))
        (Steps-pure order tt)

  pub tear_down_path-Sends :
      (pid endpoint sender : ℕ) → Sends (tear_down_path env pid endpoint sender)
  unfolding tear_down_path
  tear_down_path-Sends pid endpoint sender =
      Steps-bind order (remove_route-Sends endpoint pid) λ route.
        Steps-case route (Steps-pure order _) λ r e.
          Steps-then order (teardown_hop-Sends pid endpoint sender r.na) (
            Steps-then order (teardown_hop-Sends pid endpoint sender r.nb) (
              Steps-then order (teardown_hop-Sends pid endpoint sender sender)
                (Steps-pure order _)))

  pub send_hpkt-Sends : Sends (send_hpkt env)
  unfolding send_hpkt
  send_hpkt-Sends = Steps-bind order (Steps-get order) λ w.
      Steps-bind order (alloc-Sends env) λ memory.
        Steps-then order (Steps-lift order (if memory then done tt else oops null_deref))
          (send_packet-Sends env _ _ _ _ _ (omega arith))

  request_setups-Sends : (ids : List ℕ) → Sends (request_setups env ids)
  unfolding request_setups
  request_setups-Sends [] = Steps-pure order tt
  request_setups-Sends (id ∷ ids) =
      let rest = request_setups-Sends ids in
      Steps-bind order (should_add-Sends env id) λ wanted.
        Steps-if wanted
          (Steps-bind order (get_proxy-Sends env) λ proxy. Steps-bind order (Steps-get order) λ w.
            Steps-then order
              (Steps-case proxy (Steps-pure order _) λ p e. send_setup_req-Sends env w.node.id id p)
              rest)
          rest

  pub vrr_add-Sends : (src : ℕ) (ids : List ℕ) → Sends (vrr_add env src ids)
  unfolding vrr_add
  vrr_add-Sends src ids = Steps-then order (request_setups-Sends ids) (
      Steps-bind order (Steps-if (src == no_id) (Steps-pure order _) (should_add-Sends env src))
        λ wanted.
          Steps-if wanted (Steps-then order (add_to_vset-Sends env src) (Steps-pure order _))
            (Steps-pure order _))
