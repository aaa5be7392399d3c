-- ===== src/Health/Setups.antt =====
-- The receivers of setup requests and setups keep the world healthy, given memory.
use alpaca_vrr.Base.{
  inl, inr, ◌⊎◌, ◌≡◌, false, ℕ, ◌≤◌, ◌≡◌, refl, true, false, List, not, ◌==◌, arith, ltb,
}
use alpaca_vrr.Rt
use alpaca_vrr.Vset.{vrr_vset_size}
use alpaca_vrr.Wire.{Skb, ntoh, read_word}
use alpaca_vrr.World.{World, Env}
use alpaca_vrr.Receive.Setup.{
  setup_sender, vrr_rcv_setup_req, activate, finish_setup, vrr_rcv_setup,
}
use alpaca_vrr.Health.{Scope, Healthy, Keeps}
use alpaca_vrr.Health.Rules.{
  Ensures-bind, Ensures-then, Ensures-case, Ensures-if, Ensures-get, Keeps-modify, Keeps-pure,
}
use alpaca_vrr.Health.Parts.{
  own_cells, same, alloc-Ensures, get_random-Keeps, add_route-Keeps, vset_copy-Ensures,
}
use alpaca_vrr.Health.Receiving.{
  vrr_forward_setup_req-Keeps, vrr_local_rcv_setup-Keeps, vrr_local_rcv_setup_fail-Keeps,
}
use alpaca_vrr.Health.Sending.{send_setup-Keeps, tear_down_path-Keeps, vrr_add-Keeps}

module _ (env : Env) (ample : (n : ℕ) → env.kmalloc n ≡ true) (sc : Scope) where
  first_count :
      (1 ≤ sc.low) ⊎ (sc.strict ≡ false) → (n : ℕ) → sc.low ≤ n → (1 ≤ n) ⊎ (sc.strict ≡ false)
  first_count (inl l) n h = inl (omega arith)
  first_count (inr s) n h = inr s

  -- The copy of our set that goes back has a cell if a node was ever counted into the set.
  pub vrr_rcv_setup_req-Keeps :
      (1 ≤ sc.low) ⊎ (sc.strict ≡ false) → (skb : Skb) → Keeps sc (vrr_rcv_setup_req env skb)
  unfolding vrr_rcv_setup_req
  vrr_rcv_setup_req-Keeps l skb = Ensures-bind Ensures-get λ w h.
      let src = ntoh 0 skb.header.src_id in
      let nh = Rt.rt_get_next_exclude w.me w.rt_root (ntoh 0 skb.header.dest_id) src in
      let proxy = read_word (env.junk 0) skb.payload in
      let size = read_word (env.junk 1) proxy.1 in
      Ensures-if (not (nh == 0))
        (λ e. Ensures-then (vrr_forward_setup_req-Keeps env ample sc skb nh) (Keeps-pure true))
        λ e.
          Ensures-if (ltb vrr_vset_size size.0) (λ i. Keeps-pure false)
            λ i. Ensures-bind (alloc-Ensures env ample sc) λ memory q.
              Ensures-if (not memory) (λ j. Keeps-pure false)
                λ j. Ensures-bind (vset_copy-Ensures env ample sc) λ ovset r.
                  Ensures-bind (vrr_add-Keeps env ample sc src _) λ added u.
                    Ensures-then
                      (Ensures-if added
                        (λ k.
                          Ensures-bind (get_random-Keeps env ample sc) λ pid v.
                            vrr_local_rcv_setup-Keeps env ample sc src pid proxy.0 ovset r.1)
                        (λ k.
                          vrr_local_rcv_setup_fail-Keeps env ample sc src proxy.0 ovset r.1
                            (first_count l ovset.count r.0)))
                      (Keeps-pure true)

  activate-Healthy : (w : World) → Healthy sc w → Healthy sc (activate env w)
  activate-Healthy w h = same h refl refl refl refl refl

  finish_setup-Keeps :
      (src dst pid proxy nh : ℕ) (bytes : List ℕ)
      → Keeps sc (finish_setup env src dst pid proxy nh bytes)
  unfolding finish_setup
  finish_setup-Keeps src dst pid proxy nh bytes =
      let size = read_word (env.junk 2) bytes in
      Ensures-if (ltb vrr_vset_size size.0) (λ e. Keeps-pure false)
        λ e. Ensures-bind (alloc-Ensures env ample sc) λ memory q.
          Ensures-if (not memory) (λ i. Keeps-pure false)
            λ i.
              Ensures-if (not (nh == 0))
                (λ j.
                  Ensures-then
                    (send_setup-Keeps env ample sc src dst pid proxy _ nh (own_cells size.0 _))
                    (Keeps-pure true))
                λ j. Ensures-bind (vrr_add-Keeps env ample sc src _) λ added u.
                  Ensures-if added
                    (λ k. Ensures-then (Keeps-modify activate-Healthy) (Keeps-pure true))
                    (λ k. Keeps-pure true)

  pub vrr_rcv_setup-Keeps : (skb : Skb) → Keeps sc (vrr_rcv_setup env skb)
  unfolding vrr_rcv_setup
  vrr_rcv_setup-Keeps skb = Ensures-bind Ensures-get λ w h.
      Ensures-case (setup_sender skb w)
        (Ensures-then (tear_down_path-Keeps env ample sc _ _ _) (Keeps-pure true))
        λ sender e. Ensures-bind (add_route-Keeps env ample sc _ _ _ _ _) λ added u.
          Ensures-if added (λ i. finish_setup-Keeps _ _ _ _ _ _)
            (λ i. Ensures-then (tear_down_path-Keeps env ample sc _ _ _) (Keeps-pure true))
