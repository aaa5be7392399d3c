-- ===== src/Health/Sending.antt =====
-- The senders keep the world healthy, given memory.
use alpaca_vrr.Base.{
  ℕ, ◌≡◌, refl, Bool, true, false, List, [], ◌∷◌, done, oops, null_deref, if◌then◌else◌, not, ◌&&◌,
  ◌==◌,
}
use alpaca_vrr.Pset
use alpaca_vrr.Vset.{VsetCopy}
use alpaca_vrr.Wire.{VrrHeader}
use alpaca_vrr.World.{Env, modify}
use alpaca_vrr.Send.{
  emit, output_loop, vrr_output, send_packet, send_setup_req, send_to, send_setup, send_setup_fail,
  send_teardown, teardown_vset, teardown_hop, tear_down_path, send_hpkt, request_setups, vrr_add,
  no_id,
}
use alpaca_vrr.Health.{Scope, Ensures, Keeps}
use alpaca_vrr.Health.Rules.{
  Ensures-bind, Ensures-then, Ensures-case, Ensures-pure, Ensures-if, Ensures-mono, Ensures-get,
  Keeps-modify, Keeps-pure, Keeps-lift,
}
use alpaca_vrr.Health.Parts.{
  CanRead, no_cells, same, alloc-Ensures, vset_copy-Ensures, should_add-Keeps, add_to_vset-Keeps,
  remove_route-Keeps, get_proxy-Keeps,
}

module _ (env : Env) (ample : (n : ℕ) → env.kmalloc n ≡ true) (sc : Scope) where
  emit-Keeps :
      (name addr : List ℕ) (header : VrrHeader) (payload : List ℕ)
      → Keeps sc (modify (emit name addr header payload))
  emit-Keeps name addr header payload = Keeps-modify (λ w h. same h refl refl refl refl refl)

  output_loop-Keeps :
      (header : VrrHeader) (payload : List ℕ) (names : List (List ℕ))
      → Keeps sc (output_loop env header payload names)
  unfolding output_loop
  output_loop-Keeps header payload [] = Keeps-pure tt
  output_loop-Keeps header payload (name ∷ names) =
      let rest = output_loop-Keeps header payload names in
      Ensures-case (env.dev_get_by_name name) rest λ addr e.
        Ensures-bind (alloc-Ensures env ample sc) λ clone q.
          Ensures-if clone (λ _. Ensures-then (emit-Keeps name addr header payload) rest)
            (λ _. rest)

  pub vrr_output-Keeps :
      (header : VrrHeader) (payload : List ℕ) → Keeps sc (vrr_output env header payload)
  unfolding vrr_output
  vrr_output-Keeps header payload =
      Ensures-bind Ensures-get λ w h. output_loop-Keeps header payload w.node.dev_list

  pub send_packet-Keeps :
      (t src dst : ℕ) (mac words : List ℕ) → Keeps sc (send_packet env t src dst mac words)
  unfolding send_packet
  send_packet-Keeps t src dst mac words = Ensures-bind (alloc-Ensures env ample sc) λ skb q.
      Ensures-bind Ensures-get λ w h.
        Ensures-if skb (λ _. Ensures-then (vrr_output-Keeps _ _) (Keeps-pure true))
          (λ _. Keeps-pure false)

  pub send_setup_req-Keeps : (src dest proxy : ℕ) → Keeps sc (send_setup_req env src dest proxy)
  unfolding send_setup_req
  send_setup_req-Keeps src dest proxy = Ensures-bind Ensures-get λ w h.
      Ensures-bind (vset_copy-Ensures env ample sc) λ vset r.
        Ensures-bind (alloc-Ensures env ample sc) λ memory q.
          Ensures-bind (Keeps-lift {a = r.1.0} (rw q r.1.1)) λ cells u. send_packet-Keeps _ _ _ _ _

  pub send_to-Keeps :
      (t src dst : ℕ) (head : List ℕ) (vset : VsetCopy) (to : ℕ)
      → CanRead vset
      → Keeps sc (send_to env t src dst head vset to)
  unfolding send_to
  send_to-Keeps t src dst head vset to r = Ensures-bind Ensures-get λ w h.
      Ensures-case (Pset.pset_get_mac to w.pset) (Keeps-pure false)
        λ mac e. Ensures-bind (Keeps-lift r.1) λ cells u. send_packet-Keeps _ _ _ _ _

  pub send_setup-Keeps :
      (src dest pid proxy : ℕ) (vset : VsetCopy) (to : ℕ)
      → CanRead vset
      → Keeps sc (send_setup env src dest pid proxy vset to)
  unfolding send_setup
  send_setup-Keeps src dest pid proxy vset to r = send_to-Keeps _ _ _ _ vset to r

  pub send_setup_fail-Keeps :
      (src dest proxy : ℕ) (vset : VsetCopy) (to : ℕ)
      → CanRead vset
      → Keeps sc (send_setup_fail env src dest proxy vset to)
  unfolding send_setup_fail
  send_setup_fail-Keeps src dest proxy vset to r = send_to-Keeps _ _ _ _ vset to r

  pub send_teardown-Keeps :
      (pid endpoint : ℕ) (vset : VsetCopy) (to : ℕ)
      → CanRead vset
      → Keeps sc (send_teardown env pid endpoint vset to)
  unfolding send_teardown
  send_teardown-Keeps pid endpoint vset to r =
      Ensures-bind Ensures-get λ w h. send_to-Keeps _ _ _ _ vset to r

  teardown_vset-Ensures : (sender : ℕ) → Ensures sc (teardown_vset env sender) CanRead
  unfolding teardown_vset
  teardown_vset-Ensures sender =
      Ensures-if (sender == 0) (λ e. Ensures-pure _ no_cells)
        (λ e. Ensures-mono (vset_copy-Ensures env ample sc) (λ c r. r.1))

  teardown_hop-Keeps :
      (pid endpoint sender hop : ℕ) → Keeps sc (teardown_hop env pid endpoint sender hop)
  unfolding teardown_hop
  teardown_hop-Keeps pid endpoint sender hop = Ensures-bind Ensures-get λ w h.
      Ensures-if (not (hop == 0) && Pset.pset_contains hop w.pset)
        (λ e.
          Ensures-bind (teardown_vset-Ensures sender)
            λ vset r. Ensures-then (send_teardown-Keeps pid endpoint vset hop r) (Keeps-pure tt))
        (λ e. Keeps-pure tt)

  pub tear_down_path-Keeps :
      (pid endpoint sender : ℕ) → Keeps sc (tear_down_path env pid endpoint sender)
  unfolding tear_down_path
  tear_down_path-Keeps pid endpoint sender =
      Ensures-bind (remove_route-Keeps env ample sc endpoint pid) λ route u.
        Ensures-case route (Keeps-pure false) λ r e.
          Ensures-then (teardown_hop-Keeps pid endpoint sender r.na) (
            Ensures-then (teardown_hop-Keeps pid endpoint sender r.nb)
              (Ensures-then (teardown_hop-Keeps pid endpoint sender sender) (Keeps-pure true)))

  unlifted : (b : Bool) → b ≡ true → (if b then done tt else oops null_deref) ≡ done (tt {0})
  unlifted b q = rw q

  pub send_hpkt-Keeps : Keeps sc (send_hpkt env)
  unfolding send_hpkt
  send_hpkt-Keeps = Ensures-bind Ensures-get λ w h.
      Ensures-bind (alloc-Ensures env ample sc)
        λ memory q. Ensures-then (Keeps-lift (unlifted memory q)) (send_packet-Keeps _ _ _ _ _)

  pub request_setups-Keeps : (ids : List ℕ) → Keeps sc (request_setups env ids)
  unfolding request_setups
  request_setups-Keeps [] = Keeps-pure tt
  request_setups-Keeps (id ∷ ids) =
      let rest = request_setups-Keeps ids in
      Ensures-bind (should_add-Keeps env ample sc id) λ wanted u.
        Ensures-if wanted
          (λ e. Ensures-bind (get_proxy-Keeps env ample sc) λ proxy v.
            Ensures-bind Ensures-get λ w h.
              Ensures-then
                (Ensures-case proxy (Keeps-pure true) λ p i. send_setup_req-Keeps w.node.id id p)
                rest)
          (λ e. rest)

  pub vrr_add-Keeps : (src : ℕ) (vset : List ℕ) → Keeps sc (vrr_add env src vset)
  unfolding vrr_add
  vrr_add-Keeps src vset = Ensures-then (request_setups-Keeps vset) (
      Ensures-bind
        (Ensures-if (src == no_id) (λ e. Keeps-pure false) (λ e. should_add-Keeps env ample sc src))
        λ wanted u.
          Ensures-if wanted
            (λ e. Ensures-then (add_to_vset-Keeps env ample sc src) (Keeps-pure true))
            (λ e. Keeps-pure false))
