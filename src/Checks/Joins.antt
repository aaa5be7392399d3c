-- ===== src/Checks/Joins.antt =====
-- Examples of setups and setup requests where they end.
use alpaca_vrr.Base.{refl, [], ◌∷◌, arith, Returns}
use alpaca_vrr.Rt.Defs.{RtEntry, leaf, node}
use alpaca_vrr.Rt.{rt_get_next_exclude, rt_remove_route, route_list_search_rmv}
use alpaca_vrr.World.{World}
use alpaca_vrr.Health.{Healthy}
use alpaca_vrr.Receive.Teardown.{teardown_end, vrr_rcv_teardown}
use alpaca_vrr.Joining.Leaving.{Leaves, vrr_rcv_teardown-Leaves}
use alpaca_vrr.Pset.{pset_get_status, pset_lookup_mac}
use alpaca_vrr.Wire.{ntoh, read_word, put_words, htonl}
use alpaca_vrr.Send.{vrr_add}
use alpaca_vrr.Receive.Setup.{setup_ends, setup_sender, vrr_rcv_setup, vrr_rcv_setup_req}
use alpaca_vrr.Joining.Add.{Decides, vrr_add-Decides}
use alpaca_vrr.Joining.Arrival.{Joins, vrr_rcv_setup-Joins}
use alpaca_vrr.Joining.Request.{Grants, vrr_rcv_setup_req-Grants}
use alpaca_vrr.Checks.Worlds.{kernel, world, scope, world-Healthy, packet_of}

vrr_add-Decides_example : Returns (vrr_add kernel 9 (8 ∷ 4 ∷ []) world) (Decides kernel 9 world)
vrr_add-Decides_example =
    vrr_add-Decides kernel (λ n. refl) {sc = scope} refl 9 (8 ∷ 4 ∷ []) world world-Healthy

vrr_rcv_setup-Joins_example :
    Returns
      (vrr_rcv_setup kernel (packet_of 3 (3 ∷ 0 ∷ 1 ∷ 8 ∷ [])) world)
      (Joins kernel (packet_of 3 (3 ∷ 0 ∷ 1 ∷ 8 ∷ [])) world 5)
unfolding read_word put_words htonl ntoh setup_ends setup_sender pset_get_status pset_lookup_mac
vrr_rcv_setup-Joins_example =
    vrr_rcv_setup-Joins kernel (packet_of 3 (3 ∷ 0 ∷ 1 ∷ 8 ∷ [])) world 5 (λ n. refl) {sc = scope}
      refl world-Healthy refl refl (omega arith)

vrr_rcv_setup_req-Grants_example :
    Returns
      (vrr_rcv_setup_req kernel (packet_of 2 (6 ∷ 1 ∷ 8 ∷ [])) world)
      (Grants kernel (packet_of 2 (6 ∷ 1 ∷ 8 ∷ [])) world)
unfolding read_word put_words htonl ntoh rt_get_next_exclude
vrr_rcv_setup_req-Grants_example =
    vrr_rcv_setup_req-Grants kernel (packet_of 2 (6 ∷ 1 ∷ 8 ∷ [])) world (λ n. refl) {sc = scope}
      refl (omega arith) world-Healthy refl (omega arith)

-- The path 3 from the node 9 ends here, and the node 3 is its other end.
abbrev path_end : RtEntry
path_end = record { ea = 9; eb = 3; na = 9; nb = 0; path_id = 3 }

abbrev ended : World
ended = record world {
  rt_root = node 0 leaf (record { endpoint = 9; routes = path_end ∷ [] }) leaf;
}

ended-Healthy : Healthy scope ended
ended-Healthy = record {
  routes = (tt, tt);
  near = world-Healthy.near;
  ring = world-Healthy.ring;
  counted = world-Healthy.counted;
}

vrr_rcv_teardown-Leaves_example :
    Returns
      (vrr_rcv_teardown kernel (packet_of 5 (9 ∷ 3 ∷ 0 ∷ [])) ended)
      (Leaves kernel (packet_of 5 (9 ∷ 3 ∷ 0 ∷ [])) ended 3 0)
unfolding read_word put_words htonl ntoh rt_remove_route route_list_search_rmv teardown_end
vrr_rcv_teardown-Leaves_example =
    vrr_rcv_teardown-Leaves kernel (packet_of 5 (9 ∷ 3 ∷ 0 ∷ [])) ended 3 0 (λ n. refl) {sc = scope}
      refl ended-Healthy path_end refl refl (omega arith)
