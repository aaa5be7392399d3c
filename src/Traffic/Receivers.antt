-- ===== src/Traffic/Receivers.antt =====
-- The receivers of vrr_input.c send well-formed packets where they got one.
use alpaca_vrr.Base.{ℕ, true, false, List, [], ◌∷◌, ◌==◌, ltb, not, Option}
use alpaca_vrr.Rt
use alpaca_vrr.Pset
use alpaca_vrr.Sockets
use alpaca_vrr.Vset.{VsetCopy, vrr_vset_size}
use alpaca_vrr.Wire.{VrrHeader, Skb, ntoh, read_word}
use alpaca_vrr.World.{Env}
use alpaca_vrr.World.Steps.{
  Steps-bind, Steps-then, Steps-pure, Steps-lift, Steps-get, Steps-case, Steps-if, Steps-modify,
}
use alpaca_vrr.Send.{no_id}
use alpaca_vrr.Receive.{vrr_forward, vrr_rcv_data}
use alpaca_vrr.Receive.Hello.{parse_hello, update_of, enqueue, vrr_rcv_hello}
use alpaca_vrr.Receive.Setup.{
  hop_towards, setup_sender, vrr_forward_setup_req, vrr_local_rcv_setup, vrr_local_rcv_setup_fail,
  vrr_rcv_setup_req, activate, finish_setup, vrr_rcv_setup,
}
use alpaca_vrr.Receive.Teardown.{end_teardown}
use alpaca_vrr.Traffic.{IsPacket, Sends}
use alpaca_vrr.Traffic.Senders.{
  order, alloc-Sends, vset_copy-Sends, get_random-Sends, add_route-Sends, get_proxy-Sends,
  vrr_output-Sends, send_setup_req-Sends, send_setup-Sends, send_setup_fail-Sends,
}
use alpaca_vrr.Traffic.Requests.{tear_down_path-Sends, vrr_add-Sends}

-- The address of the next hop does not matter.
addressed-IsPacket :
    (header : VrrHeader) (payload mac : List ℕ)
    → IsPacket header payload
    → IsPacket (record header { dest_mac = mac }) payload
addressed-IsPacket header payload mac p = record {
  typed = p.typed;
  protocol = p.protocol;
  source = p.source;
  destination = p.destination;
  sized = p.sized;
  aligned = p.aligned;
}

module _ (env : Env) where
  vrr_local_rcv_setup-Sends :
      (dst pid proxy : ℕ) (vset : VsetCopy) → Sends (vrr_local_rcv_setup env dst pid proxy vset)
  unfolding vrr_local_rcv_setup
  vrr_local_rcv_setup-Sends dst pid proxy vset = Steps-bind order (Steps-get order) λ w.
      Steps-bind order (add_route-Sends env _ _ _ _ _) λ b.
        Steps-if (not b) (Steps-then order (tear_down_path-Sends env _ _ _) (Steps-pure order true))
          (Steps-if (hop_towards dst proxy w == 0) (Steps-pure order true)
            (Steps-then order (send_setup-Sends env _ _ _ _ vset _) (Steps-pure order true)))

  vrr_local_rcv_setup_fail-Sends :
      (dst proxy : ℕ) (vset : VsetCopy) → Sends (vrr_local_rcv_setup_fail env dst proxy vset)
  unfolding vrr_local_rcv_setup_fail
  vrr_local_rcv_setup_fail-Sends dst proxy vset = Steps-bind order (alloc-Sends env) λ ovset.
      Steps-bind order (Steps-get order) λ w. Steps-then order (Steps-lift order _) (
        Steps-then order (vrr_add-Sends env no_id (dst ∷ [])) (
          Steps-if (hop_towards dst proxy w == 0) (Steps-pure order true)
            (Steps-then order (send_setup_fail-Sends env _ _ _ vset _) (Steps-pure order true))))

  finish_setup-Sends :
      (src dst pid proxy nh : ℕ) (bytes : List ℕ)
      → Sends (finish_setup env src dst pid proxy nh bytes)
  unfolding finish_setup
  finish_setup-Sends src dst pid proxy nh bytes =
      let (vset_size, b1) = read_word (env.junk 2) bytes in
      Steps-if (ltb vrr_vset_size vset_size) (Steps-pure order false) (
        Steps-bind order (alloc-Sends env) λ memory.
          Steps-if (not memory) (Steps-pure order false) (
            Steps-if (not (nh == 0))
              (Steps-then order (send_setup-Sends env _ _ _ _ _ _) (Steps-pure order true))
              (Steps-bind order (vrr_add-Sends env src _) λ b.
                Steps-if b
                  (Steps-then order (Steps-modify (activate env) (λ w h. h))
                    (Steps-pure order true))
                  (Steps-pure order true))))

  pub end_teardown-Sends :
      (endpt : ℕ) (vset : Option (List ℕ)) → Sends (end_teardown env endpt vset)
  unfolding end_teardown
  end_teardown-Sends endpt vset = Steps-then order (Steps-modify _ (λ w h. h)) (
      Steps-case vset
        (Steps-bind order (get_proxy-Sends env) λ proxy. Steps-bind order (Steps-get order) λ w.
          Steps-case proxy (Steps-pure order true) λ p e.
            Steps-then order (send_setup_req-Sends env w.node.id endpt p) (Steps-pure order true))
        λ cells e. Steps-then order (vrr_add-Sends env 0 cells) (Steps-pure order true))

  module _ (skb : Skb) (p : IsPacket skb.header skb.payload) where
    vrr_forward-Sends : Sends (vrr_forward env skb)
    unfolding vrr_forward
    vrr_forward-Sends = Steps-bind order (Steps-get order) λ w.
        Steps-if (Rt.rt_get_next w.me w.rt_root (ntoh 0 skb.header.dest_id) == 0)
          (Steps-pure order false)
          (Steps-case
            (Pset.pset_get_mac (Rt.rt_get_next w.me w.rt_root (ntoh 0 skb.header.dest_id)) w.pset)
            (Steps-pure order false)
            λ mac e.
              Steps-then order
                (vrr_output-Sends env _ _ (addressed-IsPacket skb.header skb.payload mac p))
                (Steps-pure order true))

    pub vrr_rcv_data-Sends : Sends (vrr_rcv_data env skb)
    unfolding vrr_rcv_data
    vrr_rcv_data-Sends = Steps-bind order (Steps-get order) λ w.
        Steps-if (ntoh 0 skb.header.dest_id == w.node.id)
          (Steps-case (Sockets.vrr_find_sock (ntoh 0 skb.header.src_id) w.socks)
            (Steps-pure order false)
            λ sk e. Steps-then order (Steps-modify _ (λ v h. h)) (Steps-pure order _))
          (Steps-then order vrr_forward-Sends (Steps-pure order true))

    pub vrr_rcv_hello-Sends : Sends (vrr_rcv_hello env skb)
    unfolding vrr_rcv_hello
    vrr_rcv_hello-Sends = Steps-bind order (Steps-get order) λ w.
        Steps-case (parse_hello env.junk w.node.id skb.payload) (Steps-pure order false) λ r e.
          Steps-bind order (alloc-Sends env) λ update.
            Steps-if update
              (Steps-then order (Steps-modify (enqueue (update_of skb r.0 r.1)) (λ v h. h))
                (Steps-pure order true))
              (Steps-pure order false)

    pub vrr_rcv_setup_req-Sends : Sends (vrr_rcv_setup_req env skb)
    unfolding vrr_rcv_setup_req vrr_forward_setup_req
    vrr_rcv_setup_req-Sends = Steps-bind order (Steps-get order) λ w.
        let src = ntoh 0 skb.header.src_id in
        let nh = Rt.rt_get_next_exclude w.me w.rt_root (ntoh 0 skb.header.dest_id) src in
        let (proxy, b1) = read_word (env.junk 0) skb.payload in
        let (vset_size, b2) = read_word (env.junk 1) b1 in
        Steps-if (not (nh == 0))
          (Steps-then order
            (Steps-bind order (Steps-get order) λ v.
              Steps-case (Pset.pset_get_mac nh v.pset) (Steps-pure order tt)
                λ mac e. vrr_output-Sends env _ _ (addressed-IsPacket skb.header skb.payload mac p))
            (Steps-pure order true))
          (Steps-if (ltb vrr_vset_size vset_size) (Steps-pure order false) (
            Steps-bind order (alloc-Sends env) λ memory.
              Steps-if (not memory) (Steps-pure order false) (
                Steps-bind order (vset_copy-Sends env) λ ovset.
                  Steps-bind order (vrr_add-Sends env src _) λ b.
                    Steps-then order
                      (Steps-if b
                        (Steps-bind order (get_random-Sends env)
                          λ pid. vrr_local_rcv_setup-Sends src pid proxy ovset)
                        (vrr_local_rcv_setup_fail-Sends src proxy ovset))
                      (Steps-pure order true))))

    pub vrr_rcv_setup-Sends : Sends (vrr_rcv_setup env skb)
    unfolding vrr_rcv_setup
    vrr_rcv_setup-Sends = Steps-bind order (Steps-get order) λ w.
        Steps-case (setup_sender skb w)
          (Steps-then order (tear_down_path-Sends env _ _ _) (Steps-pure order true))
          λ sender e. Steps-bind order (add_route-Sends env _ _ _ _ _) λ b.
            Steps-if b (finish_setup-Sends _ _ _ _ _ _)
              (Steps-then order (tear_down_path-Sends env _ _ _) (Steps-pure order true))
