-- ===== src/Joining/Senders.antt =====
-- The senders are quiet, whatever the allocator does.
use alpaca_vrr.Base.{
  ℕ, refl, List, [], ◌∷◌, oops, done, null_deref, out_of_bounds, true, not, ◌==◌, if◌then◌else◌,
}
use alpaca_vrr.Pset
use alpaca_vrr.Vset.{VsetCopy}
use alpaca_vrr.Wire.{VrrHeader}
use alpaca_vrr.World.{Env, read_array, pure, ◌>>=◌}
use alpaca_vrr.Send.{
  emit, output_loop, vrr_output, send_packet, send_setup_req, send_to, send_setup, send_setup_fail,
  send_teardown, request_setups, vrr_add, no_id,
}
use alpaca_vrr.Receive.Setup.{hop_towards, vrr_local_rcv_setup_fail}
use alpaca_vrr.Joining.{Quiet}
use alpaca_vrr.Joining.Rules.{
  Quiet-bind, Quiet-then, Quiet-case, Quiet-pure, Quiet-lift, Quiet-if, Quiet-get, Quiet-modify,
  alloc-Quiet, vset_copy-Quiet, should_add-Quiet, get_proxy-Quiet,
}

module _ (env : Env) where
  output_loop-Quiet :
      (header : VrrHeader) (payload : List ℕ) (names : List (List ℕ))
      → Quiet (output_loop env header payload names)
  unfolding output_loop
  output_loop-Quiet header payload [] = Quiet-pure tt
  output_loop-Quiet header payload (name ∷ names) =
      let rest = output_loop-Quiet header payload names in
      Quiet-case (env.dev_get_by_name name) rest λ addr. Quiet-bind (alloc-Quiet env) λ clone.
        Quiet-if clone (Quiet-then (Quiet-modify (emit name addr header payload) (λ w. refl)) rest)
          rest

  vrr_output-Quiet : (header : VrrHeader) (payload : List ℕ) → Quiet (vrr_output env header payload)
  unfolding vrr_output
  vrr_output-Quiet header payload =
      Quiet-bind Quiet-get λ w. output_loop-Quiet header payload w.node.dev_list

  pub send_packet-Quiet :
      (t src dst : ℕ) (mac words : List ℕ) → Quiet (send_packet env t src dst mac words)
  unfolding send_packet
  send_packet-Quiet t src dst mac words = Quiet-bind (alloc-Quiet env) λ skb.
      Quiet-bind Quiet-get
        λ w. Quiet-if skb (Quiet-then (vrr_output-Quiet _ _) (Quiet-pure _)) (Quiet-pure _)

  pub send_setup_req-Quiet : (src dest proxy : ℕ) → Quiet (send_setup_req env src dest proxy)
  unfolding send_setup_req
  send_setup_req-Quiet src dest proxy = Quiet-bind Quiet-get λ w.
      Quiet-bind (vset_copy-Quiet env) λ vset. Quiet-bind (alloc-Quiet env) λ memory.
        Quiet-bind (Quiet-lift (if memory then read_array vset else oops null_deref))
          λ cells. send_packet-Quiet _ _ _ _ _

  pub send_to-Quiet :
      (t src dst : ℕ) (head : List ℕ) (vset : VsetCopy) (to : ℕ)
      → Quiet (send_to env t src dst head vset to)
  unfolding send_to
  send_to-Quiet t src dst head vset to = Quiet-bind Quiet-get λ w.
      Quiet-case (Pset.pset_get_mac to w.pset) (Quiet-pure _)
        λ mac. Quiet-bind (Quiet-lift (read_array vset)) λ cells. send_packet-Quiet _ _ _ _ _

  pub request_setups-Quiet : (ids : List ℕ) → Quiet (request_setups env ids)
  unfolding request_setups
  request_setups-Quiet [] = Quiet-pure tt
  request_setups-Quiet (id ∷ ids) =
      let rest = request_setups-Quiet ids in
      Quiet-bind (should_add-Quiet env id) λ wanted.
        Quiet-if wanted
          (Quiet-bind (get_proxy-Quiet env) λ proxy. Quiet-bind Quiet-get λ w.
            Quiet-then (Quiet-case proxy (Quiet-pure _) λ p. send_setup_req-Quiet w.node.id id p)
              rest)
          rest

  pub send_setup-Quiet :
      (src dest pid proxy : ℕ) (vset : VsetCopy) (to : ℕ)
      → Quiet (send_setup env src dest pid proxy vset to)
  unfolding send_setup
  send_setup-Quiet src dest pid proxy vset to = send_to-Quiet _ _ _ _ vset to

  pub send_setup_fail-Quiet :
      (src dest proxy : ℕ) (vset : VsetCopy) (to : ℕ)
      → Quiet (send_setup_fail env src dest proxy vset to)
  unfolding send_setup_fail
  send_setup_fail-Quiet src dest proxy vset to = send_to-Quiet _ _ _ _ vset to

  pub send_teardown-Quiet :
      (pid endpoint : ℕ) (vset : VsetCopy) (to : ℕ) → Quiet (send_teardown env pid endpoint vset to)
  unfolding send_teardown
  send_teardown-Quiet pid endpoint vset to = Quiet-bind Quiet-get λ w. send_to-Quiet _ _ _ _ vset to

  -- Without a node to take in, `vrr_add` only sends requests.
  request-Quiet : (ids : List ℕ) → Quiet (vrr_add env no_id ids)
  unfolding vrr_add ◌>>=◌ pure
  request-Quiet ids = Quiet-then (request_setups-Quiet ids) (record { moves = λ w. refl })

  pub vrr_local_rcv_setup_fail-Quiet :
      (dst proxy : ℕ) (vset : VsetCopy) → Quiet (vrr_local_rcv_setup_fail env dst proxy vset)
  unfolding vrr_local_rcv_setup_fail
  vrr_local_rcv_setup_fail-Quiet dst proxy vset = Quiet-bind (alloc-Quiet env) λ ovset.
      Quiet-bind Quiet-get λ w.
        Quiet-then
          (Quiet-lift (
            if not ovset
            then oops null_deref
            else if vset.count == 0
            then oops out_of_bounds
            else done tt))
          (Quiet-then (request-Quiet (dst ∷ [])) (
            Quiet-if (hop_towards dst proxy w == 0) (Quiet-pure true)
              (Quiet-then (send_setup_fail-Quiet _ _ _ _ _) (Quiet-pure true))))
