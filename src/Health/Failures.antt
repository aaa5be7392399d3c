-- ===== src/Health/Failures.antt =====
-- The receivers that may fault: in a world where that is allowed, they keep it healthy if they
-- return.
use alpaca_vrr.Base.{ℕ, ◌≤◌, ◌≡◌, true, false, Option, List, not, ◌==◌, ltb, subst, sym}
use alpaca_vrr.Vset
use alpaca_vrr.Vset.{vrr_vset_size}
use alpaca_vrr.Vset.Members.{vset_remove_lem}
use alpaca_vrr.Wire.{Skb, ntoh, read_word}
use alpaca_vrr.World.{World, Env}
use alpaca_vrr.Send.{no_id}
use alpaca_vrr.Receive.Setup.{hop_towards, vrr_rcv_setup_fail}
use alpaca_vrr.Receive.Teardown.{teardown_end, end_teardown, vrr_rcv_teardown}
use alpaca_vrr.Health.{Scope, Healthy, Keeps}
use alpaca_vrr.Health.Rules.{
  Ensures-bind, Ensures-then, Ensures-case, Ensures-if, Ensures-get, Ensures-try, Keeps-modify,
  Keeps-pure,
}
use alpaca_vrr.Health.Parts.{own_cells, alloc-Ensures, remove_route-Keeps, get_proxy-Keeps}
use alpaca_vrr.Health.Sending.{
  send_setup_req-Keeps, send_setup_fail-Keeps, send_teardown-Keeps, vrr_add-Keeps,
}

module _ (env : Env) (ample : (n : ℕ) → env.kmalloc n ≡ true) (sc : Scope) where
  pub vrr_rcv_setup_fail-Keeps :
      sc.strict ≡ false → (skb : Skb) → Keeps sc (vrr_rcv_setup_fail env skb)
  unfolding vrr_rcv_setup_fail
  vrr_rcv_setup_fail-Keeps s skb =
      let proxy = read_word (env.junk 0) skb.payload in
      let size = read_word (env.junk 1) proxy.1 in
      let dst = ntoh 0 skb.header.dest_id in
      Ensures-if (ltb vrr_vset_size size.0) (λ e. Keeps-pure false)
        λ e. Ensures-bind (alloc-Ensures env ample sc) λ memory q. Ensures-bind Ensures-get λ w h.
          Ensures-if (not memory) (λ i. Keeps-pure false)
            λ i.
              Ensures-if (not (hop_towards dst proxy.0 w == 0))
                (λ j.
                  Ensures-then
                    (send_setup_fail-Keeps env ample sc _ dst proxy.0 _ _ (own_cells size.0 _))
                    (Keeps-pure true))
                λ j.
                  Ensures-if (dst == w.node.id)
                    (λ k.
                      Ensures-then (Ensures-try _ s)
                        (Ensures-then (vrr_add-Keeps env ample sc no_id _) (Keeps-pure true)))
                    (λ k. Keeps-pure true)

  pub vset_remove-Healthy :
      (node : ℕ) (w : World)
      → Healthy sc w
      → Healthy sc (record w { vset = (Vset.vset_remove node w.vset).1 })
  vset_remove-Healthy node w h =
      let (found, rest, valid, size) = vset_remove_lem node 0 w.vset h.ring in
      record {
        routes = h.routes;
        near = h.near;
        ring = valid;
        counted = subst (λ (n : ℕ). sc.low ≤ n) (sym size) h.counted;
      }

  end_teardown-Keeps : (endpt : ℕ) (vset : Option (List ℕ)) → Keeps sc (end_teardown env endpt vset)
  unfolding end_teardown
  end_teardown-Keeps endpt vset = Ensures-then (Keeps-modify (vset_remove-Healthy endpt)) (
      Ensures-case vset
        (Ensures-bind (get_proxy-Keeps env ample sc) λ proxy u. Ensures-bind Ensures-get λ w h.
          Ensures-case proxy (Keeps-pure true) λ p e.
            Ensures-then (send_setup_req-Keeps env ample sc w.node.id endpt p) (Keeps-pure true))
        λ cells e. Ensures-then (vrr_add-Keeps env ample sc 0 cells) (Keeps-pure true))

  pub vrr_rcv_teardown-Keeps : sc.strict ≡ false → (skb : Skb) → Keeps sc (vrr_rcv_teardown env skb)
  unfolding vrr_rcv_teardown
  vrr_rcv_teardown-Keeps s skb =
      let ea = read_word (env.junk 0) skb.payload in
      let pid = read_word (env.junk 1) ea.1 in
      let size = read_word (env.junk 2) pid.1 in
      Ensures-bind (remove_route-Keeps env ample sc ea.0 pid.0) λ route u.
        Ensures-bind (Ensures-try (teardown_end route (ntoh 0 skb.header.src_id)) s)
          λ (endpt, next) e.
            Ensures-if (ltb vrr_vset_size size.0) (λ i. Keeps-pure false)
              λ i. Ensures-bind (alloc-Ensures env ample sc) λ memory q.
                Ensures-if (not memory) (λ j. Keeps-pure false)
                  λ j.
                    Ensures-if (next == 0) (λ k. end_teardown-Keeps endpt _)
                      λ k.
                        Ensures-then
                          (send_teardown-Keeps env ample sc pid.0 ea.0 _ next (own_cells size.0 _))
                          (Keeps-pure true)
