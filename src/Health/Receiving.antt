-- ===== src/Health/Receiving.antt =====
-- The receivers keep the world healthy, given memory.
use alpaca_vrr.Base.{
  inl, inr, ◌⊎◌, ℕ, ◌≤◌, ◌≡◌, refl, Bool, true, false, [], ◌∷◌, done, oops, if◌then◌else◌, not,
  ◌==◌, null_deref, out_of_bounds, arith, List, ◌++◌, some, All,
}
use alpaca_vrr.Pset
use alpaca_vrr.Rt
use alpaca_vrr.Sockets
use alpaca_vrr.Vset.{VsetCopy}
use alpaca_vrr.Wire.{Skb, ntoh}
use alpaca_vrr.World.{lift, World, Env, PsetUpdate}
use alpaca_vrr.Send.{no_id}
use alpaca_vrr.Receive.{vrr_forward, vrr_rcv_data}
use alpaca_vrr.Receive.Hello.{
  vrr_rcv_hello, parse_hello, parse_lists, read_trans, update_of, enqueue, trans_missing,
}
use alpaca_vrr.Receive.Setup.{
  hop_towards, vrr_forward_setup_req, vrr_local_rcv_setup, vrr_local_rcv_setup_fail,
}
use alpaca_vrr.Health.{Scope, IsHeard, Healthy, Keeps}
use alpaca_vrr.Health.Rules.{
  Ensures-bind, Ensures-then, Ensures-case, Ensures-if, Ensures-get, Ensures-try, Ensures-forget,
  Keeps-modify, Keeps-pure, Keeps-lift,
}
use alpaca_vrr.Health.Parts.{CanRead, same, alloc-Ensures, add_route-Keeps}
use alpaca_vrr.Health.Sending.{
  vrr_output-Keeps, send_setup-Keeps, send_setup_fail-Keeps, tear_down_path-Keeps, vrr_add-Keeps,
}

-- A transition that is read is one of the three.
parse_hello_trans :
    (junk : ℕ → ℕ) (me : ℕ) (bytes : List ℕ) {a t : ℕ}
    → parse_hello junk me bytes ≡ some (a, t)
    → t ≤ trans_missing
unfolding parse_hello parse_lists read_trans
parse_hello_trans junk me bytes h = ground arith

asked-append :
    (heard : List ℕ) (us : List PsetUpdate) (u : PsetUpdate)
    → All (λ v. IsHeard heard v.node × (v.trans ≤ trans_missing)) us
    → IsHeard heard u.node
    → u.trans ≤ trans_missing
    → All (λ v. IsHeard heard v.node × (v.trans ≤ trans_missing)) (us ++ u ∷ [])
asked-append heard [] u a s t = ((s, t), tt)
asked-append heard (v ∷ us) u a s t = (a.0, asked-append heard us u a.1 s t)

enqueue-Healthy :
    {sc : Scope} (u : PsetUpdate)
    → IsHeard sc.heard u.node
    → u.trans ≤ trans_missing
    → (w : World) → Healthy sc w
    → Healthy sc (enqueue u w)
enqueue-Healthy {sc} u s t w h = record {
  routes = h.routes;
  near = record {
    distinct = h.near.distinct;
    known = h.near.known;
    snapshot = h.near.snapshot;
    asked = asked-append sc.heard w.pset_updates u h.near.asked s t;
  };
  ring = h.ring;
  counted = h.counted;
}

module _ (env : Env) (ample : (n : ℕ) → env.kmalloc n ≡ true) (sc : Scope) where
  vrr_forward-Keeps : (skb : Skb) → Keeps sc (vrr_forward env skb)
  unfolding vrr_forward
  vrr_forward-Keeps skb = Ensures-bind Ensures-get λ w h.
      let nh = Rt.rt_get_next w.me w.rt_root (ntoh 0 skb.header.dest_id) in
      Ensures-if (nh == 0) (λ e. Keeps-pure false)
        λ e.
          Ensures-case (Pset.pset_get_mac nh w.pset) (Keeps-pure false)
            λ mac i. Ensures-then (vrr_output-Keeps env ample sc _ _) (Keeps-pure true)

  pub vrr_rcv_data-Keeps : (skb : Skb) → Keeps sc (vrr_rcv_data env skb)
  unfolding vrr_rcv_data
  vrr_rcv_data-Keeps skb = Ensures-bind Ensures-get λ w h.
      Ensures-if (ntoh 0 skb.header.dest_id == w.node.id)
        (λ e.
          Ensures-case (Sockets.vrr_find_sock (ntoh 0 skb.header.src_id) w.socks) (Keeps-pure false)
            λ sk i.
              Ensures-then (Keeps-modify (λ v g. same g refl refl refl refl refl)) (Keeps-pure _))
        (λ e. Ensures-then (vrr_forward-Keeps skb) (Keeps-pure true))

  -- The sender has to be one of those that may be heard.
  pub vrr_rcv_hello-Keeps :
      (skb : Skb) → IsHeard sc.heard (ntoh 0 skb.header.src_id) → Keeps sc (vrr_rcv_hello env skb)
  unfolding vrr_rcv_hello update_of
  vrr_rcv_hello-Keeps skb s = Ensures-bind Ensures-get λ w h.
      Ensures-case (parse_hello env.junk w.node.id skb.payload) (Keeps-pure false)
        λ (active, trans) i. Ensures-bind (alloc-Ensures env ample sc) λ update q.
          Ensures-if update
            (λ e.
              Ensures-then
                (Keeps-modify (
                  enqueue-Healthy (update_of skb active trans) s
                    (parse_hello_trans env.junk w.node.id skb.payload i)))
                (Keeps-pure true))
            (λ e. Keeps-pure false)

  pub vrr_forward_setup_req-Keeps :
      (skb : Skb) (nh : ℕ) → Keeps sc (vrr_forward_setup_req env skb nh)
  unfolding vrr_forward_setup_req
  vrr_forward_setup_req-Keeps skb nh = Ensures-bind Ensures-get λ w h.
      Ensures-case (Pset.pset_get_mac nh w.pset) (Keeps-pure tt)
        λ mac i. vrr_output-Keeps env ample sc _ _

  pub vrr_local_rcv_setup-Keeps :
      (dst pid proxy : ℕ) (vset : VsetCopy)
      → CanRead vset
      → Keeps sc (vrr_local_rcv_setup env dst pid proxy vset)
  unfolding vrr_local_rcv_setup
  vrr_local_rcv_setup-Keeps dst pid proxy vset r = Ensures-bind Ensures-get λ w h.
      Ensures-bind (add_route-Keeps env ample sc _ _ _ _ _) λ added u.
        Ensures-if (not added)
          (λ e. Ensures-then (tear_down_path-Keeps env ample sc _ _ _) (Keeps-pure true))
          λ e.
            Ensures-if (hop_towards dst proxy w == 0) (λ i. Keeps-pure true)
              λ i. Ensures-then (send_setup-Keeps env ample sc _ _ _ _ vset _ r) (Keeps-pure true)

  -- The write to the first cell of the copy.
  first_cell :
      (memory : Bool) (vset : VsetCopy)
      → memory ≡ true
      → 1 ≤ vset.count
      → (if not memory
          then oops null_deref
          else if vset.count == 0
          then oops out_of_bounds
          else done tt)
        ≡ done (tt {0})
  first_cell memory vset q h = ground arith

  first_cell-Keeps :
      (memory : Bool) (vset : VsetCopy)
      → memory ≡ true
      → (1 ≤ vset.count) ⊎ (sc.strict ≡ false)
      → Keeps sc (
          lift {A = Unit {0}} (
            if not memory
            then oops null_deref
            else if vset.count == 0
            then oops out_of_bounds
            else done tt))
  first_cell-Keeps memory vset q (inl c) = Keeps-lift (first_cell memory vset q c)
  first_cell-Keeps memory vset q (inr s) = Ensures-forget (Ensures-try _ s)

  pub vrr_local_rcv_setup_fail-Keeps :
      (dst proxy : ℕ) (vset : VsetCopy)
      → CanRead vset
      → (1 ≤ vset.count) ⊎ (sc.strict ≡ false)
      → Keeps sc (vrr_local_rcv_setup_fail env dst proxy vset)
  unfolding vrr_local_rcv_setup_fail
  vrr_local_rcv_setup_fail-Keeps dst proxy vset r c =
      Ensures-bind (alloc-Ensures env ample sc) λ ovset q. Ensures-bind Ensures-get λ w h.
        Ensures-then (first_cell-Keeps ovset vset q c) (
          Ensures-then (vrr_add-Keeps env ample sc no_id (dst ∷ [])) (
            Ensures-if (hop_towards dst proxy w == 0) (λ i. Keeps-pure true)
              λ i.
                Ensures-then (send_setup_fail-Keeps env ample sc _ _ _ vset _ r) (Keeps-pure true)))
