-- ===== src/Traffic/Dispatch.antt =====
-- Every handler of the module sends well-formed packets.
use alpaca_vrr.Base.{
  use_after_free, ℕ, ◌≡◌, true, false, List, ◌==◌, ltb, leb, done, oops, not, arith, none, some,
  Option, length, Run, bind_run, refl, sym, subst,
}
use alpaca_vrr.Pset.{PsetEntry}
use alpaca_vrr.Snapshot.{PsetState, detect_failures}
use alpaca_vrr.Vset.{vrr_vset_size}
use alpaca_vrr.Wire.{Skb, ntoh, read_word, vrr_nptypes}
use alpaca_vrr.World.{World, Env}
use alpaca_vrr.World.Steps.{
  Moves, Steps-bind, Steps-then, Steps-pure, Steps-lift, Steps-get, Steps-case, Steps-if,
  Steps-modify, Steps-fault,
}
use alpaca_vrr.Send.{no_id}
use alpaca_vrr.Receive.{vrr_rcvfunc, note_alive, refused, drop_skb, vrr_rcv}
use alpaca_vrr.Receive.Setup.{hop_towards, vrr_rcv_setup_fail}
use alpaca_vrr.Receive.Teardown.{teardown_end, vrr_rcv_teardown}
use alpaca_vrr.Timer.{detect, count_timeout, vrr_workqueue_handler}
use alpaca_vrr.Sockets.Calls.{address_for, send_message}
use alpaca_vrr.Traffic.{IsPacket, Good, Sends}
use alpaca_vrr.Traffic.Senders.{
  order, alloc-Sends, vrr_output-Sends, built-IsPacket, send_setup_fail-Sends, send_teardown-Sends,
}
use alpaca_vrr.Traffic.Requests.{remove_route-Sends, send_hpkt-Sends, vrr_add-Sends}
use alpaca_vrr.Traffic.Receivers.{
  vrr_rcv_data-Sends, vrr_rcv_hello-Sends, vrr_rcv_setup_req-Sends, vrr_rcv_setup-Sends,
  end_teardown-Sends,
}

-- The bytes of a message are as many as the call says.
abbrev pub IsMessage : Option (List ℕ) → ℕ → Type 0
IsMessage none len = Unit {0}
IsMessage (some bytes) len = length bytes ≡ len

module _ (env : Env) where
  module _ (skb : Skb) where
    vrr_rcv_setup_fail-Sends : Sends (vrr_rcv_setup_fail env skb)
    unfolding vrr_rcv_setup_fail
    vrr_rcv_setup_fail-Sends =
        let src = ntoh 0 skb.header.src_id in
        let dst = ntoh 0 skb.header.dest_id in
        let (proxy, b1) = read_word (env.junk 0) skb.payload in
        let (vset_size, b2) = read_word (env.junk 1) b1 in
        Steps-if (ltb vrr_vset_size vset_size) (Steps-pure order false) (
          Steps-bind order (alloc-Sends env) λ memory. Steps-bind order (Steps-get order) λ w.
            Steps-if (not memory) (Steps-pure order false) (
              Steps-if (not (hop_towards dst proxy w == 0))
                (Steps-then order (send_setup_fail-Sends env _ _ _ _ _) (Steps-pure order true))
                (Steps-if (dst == w.node.id)
                  (Steps-then order (Steps-lift order _)
                    (Steps-then order (vrr_add-Sends env no_id _) (Steps-pure order true)))
                  (Steps-pure order true))))

    vrr_rcv_teardown-Sends : Sends (vrr_rcv_teardown env skb)
    unfolding vrr_rcv_teardown
    vrr_rcv_teardown-Sends =
        let (ea, b1) = read_word (env.junk 0) skb.payload in
        let (pid, b2) = read_word (env.junk 1) b1 in
        let (vset_size, b3) = read_word (env.junk 2) b2 in
        Steps-bind order (remove_route-Sends ea pid) λ route.
          Steps-bind order (Steps-lift order (teardown_end route (ntoh 0 skb.header.src_id))) λ r.
            Steps-if (ltb vrr_vset_size vset_size) (Steps-pure order false) (
              Steps-bind order (alloc-Sends env) λ memory.
                Steps-if (not memory) (Steps-pure order false) (
                  Steps-if (r.1 == 0) (end_teardown-Sends env r.0 (some _)) (
                    Steps-then order (send_teardown-Sends env pid ea _ r.1)
                      (Steps-pure order true))))

    module _ (p : IsPacket skb.header skb.payload) where
      vrr_rcvfunc-Sends : (t : ℕ) → Sends (vrr_rcvfunc env t skb)
      unfolding vrr_rcvfunc
      vrr_rcvfunc-Sends t = Steps-if (t == 0) (vrr_rcv_data-Sends env skb p) (
          Steps-if (t == 1) (vrr_rcv_hello-Sends env skb p) (
            Steps-if (t == 2) (vrr_rcv_setup_req-Sends env skb p) (
              Steps-if (t == 3) (vrr_rcv_setup-Sends env skb p)
                (Steps-if (t == 4) vrr_rcv_setup_fail-Sends vrr_rcv_teardown-Sends))))

      drop_skb-Sends : Sends (drop_skb env skb)
      unfolding drop_skb
      drop_skb-Sends =
          Steps-bind order (Steps-get order)
            λ w. Steps-if (refused env skb w) (Steps-fault use_after_free) (Steps-pure order false)

      pub vrr_rcv-Sends : Sends (vrr_rcv env skb)
      unfolding vrr_rcv
      vrr_rcv-Sends = Steps-if (leb vrr_nptypes skb.header.pkt_type) (Steps-pure order false) (
          Steps-then order (Steps-modify (note_alive env (ntoh 0 skb.header.src_id)) (λ w h. h)) (
            Steps-bind order (vrr_rcvfunc-Sends skb.header.pkt_type)
              λ ok. Steps-if ok (Steps-pure order true) drop_skb-Sends))

  detect-Sends : Sends detect
  unfolding detect
  detect-Sends = record { moves = λ w. go w (detect_failures w.pset w.pstate) }
    where
      go :
          (w : World) (o : Run (List PsetEntry × PsetState))
          → Moves Good w (bind_run o (λ r. done (tt {0}, record w { pset = r.0; pstate = r.1 })))
      go w (done r) = λ h. h
      go w (oops e) = tt

  pub vrr_workqueue_handler-Sends : Sends (vrr_workqueue_handler env)
  unfolding vrr_workqueue_handler count_timeout
  vrr_workqueue_handler-Sends =
      Steps-then order detect-Sends
        (Steps-then order (Steps-modify _ (λ w h. h)) (send_hpkt-Sends env))

  pub send_message-Sends :
      (dest : Option ℕ) (bytes : Option (List ℕ)) (len : ℕ)
      → IsMessage bytes len
      → Sends (send_message env dest bytes len)
  unfolding send_message
  send_message-Sends dest bytes len m = Steps-case dest (Steps-pure order _) λ addr e.
      Steps-bind order (Steps-get order) λ w.
        Steps-case (address_for env.junk addr w) (Steps-pure order _) λ mac i.
          Steps-bind order (alloc-Sends env) λ skb. Steps-if (not skb) (Steps-pure order _) (
            Steps-case bytes (Steps-pure order _) λ b k.
              Steps-then order
                (vrr_output-Sends env _ b (
                  built-IsPacket w.node.version _ b (omega arith)
                    (sym (subst (λ o. IsMessage o len) k m)) (λ q. absurd (q refl))))
                (Steps-pure order _))
