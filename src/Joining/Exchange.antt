-- ===== src/Joining/Exchange.antt =====
-- How a new node joins by a neighbour: `send_setup_req` of vrr_core.c there, and what `vrr_rcv` of
-- vrr_input.c makes of the request and of the setup that answers it.
use alpaca_vrr.Base.{
  ℕ, ◌≡◌, refl, ap, ◌∙◌, bind_run, Bool, true, false, Option, none, some, List, [], ◌∷◌, Run, done,
  ◌==◌, if◌then◌else◌, leb, arith,
}
use alpaca_vrr.Pset.{PsetEntry, pset_get_status, pset_lookup_mac, pset_reset_fail_count}
use alpaca_vrr.Wire.{Skb, ntoh, vrr_nptypes}
use alpaca_vrr.World.{World, Env, Frame, pure, ◌>>=◌, ◌>>◌, modify}
use alpaca_vrr.Send.{send_setup_req}
use alpaca_vrr.Receive.{drop_skb, vrr_rcv, vrr_rcvfunc, note_alive}
use alpaca_vrr.Receive.Setup.{vrr_rcv_setup, vrr_rcv_setup_req}
use alpaca_vrr.Travel.Relay.{Network, arrival, carried}

-- Both worlds when the setup has come back.
pub record Joined : Type 0 where
  pub granted : Run (Bool × World)
  pub joined : Run (Bool × World)

module _ (net : Network) (envs : ℕ → Env) (worlds : ℕ → World) where
  -- A frame of what the node `n` has sent arrives, if it is for `a`.
  unfoldable pub setup_back : ℕ → Run (Bool × World) → ℕ → Run (Bool × World) → Option Joined
  setup_back a asked n granted = elim (carried net (worlds n) granted) [
    | none ↦ none
    | some g ↦
        if net.owner g.dest_mac == a
        then some (record {
          granted = granted;
          joined = bind_run asked (λ r. vrr_rcv (envs a) (arrival g) r.1);
        })
        else none
  ]

  -- A frame of the request arrives.
  unfoldable pub request_on : ℕ → Run (Bool × World) → Option Joined
  request_on a asked = elim (carried net (worlds a) asked) [
    | none ↦ none
    | some f ↦
        let n = net.owner f.dest_mac in
        setup_back a asked n (vrr_rcv (envs n) (arrival f) (worlds n))
  ]

  -- The node `a` asks `p`: none if no frame of the request arrives, or none for `a` after it.
  unfoldable pub exchange : ℕ → ℕ → Option Joined
  exchange a p =
      request_on a (send_setup_req (envs a) (worlds a).node.id (worlds a).node.id p (worlds a))

  request_on-carried :
      (a : ℕ) (asked : Run (Bool × World)) (f : Frame)
      → carried net (worlds a) asked ≡ some f
      → request_on a asked ≡ (
          let n = net.owner f.dest_mac in
          setup_back a asked n (vrr_rcv (envs n) (arrival f) (worlds n)))
  unfolding request_on
  request_on-carried a asked f e = rw (request_on, e) refl

  setup_back-carried :
      (a n : ℕ) (asked granted : Run (Bool × World)) (g : Frame)
      → carried net (worlds n) granted ≡ some g
      → (net.owner g.dest_mac == a) ≡ true
      → setup_back a asked n granted
        ≡ some (record {
          granted = granted;
          joined = bind_run asked (λ r. vrr_rcv (envs a) (arrival g) r.1);
        })
  unfolding setup_back
  setup_back-carried a n asked granted g e o = rw (setup_back, e, o) refl

  pub exchange-runs :
      (a p : ℕ) (asked granted : Bool × World) (f g : Frame)
      → send_setup_req (envs a) (worlds a).node.id (worlds a).node.id p (worlds a) ≡ done asked
      → carried net (worlds a) (done asked) ≡ some f
      → net.owner f.dest_mac ≡ p
      → vrr_rcv (envs p) (arrival f) (worlds p) ≡ done granted
      → carried net (worlds p) (done granted) ≡ some g
      → (net.owner g.dest_mac == a) ≡ true
      → exchange a p
        ≡ some (record { granted = done granted; joined = vrr_rcv (envs a) (arrival g) asked.1 })
  unfolding exchange
  exchange-runs a p asked granted f g e1 c1 o1 e2 c2 o2 =
      ap (request_on a) e1
      ∙ request_on-carried a (done asked) f c1
      ∙ ap (λ n. setup_back a (done asked) n (vrr_rcv (envs n) (arrival f) (worlds n))) o1
      ∙ ap (setup_back a (done asked) p) e2
      ∙ setup_back-carried a p (done asked) (done granted) g c2 o2

-- The call of the handler, on the world in which the sender was noted.
module _ (env : Env) (skb : Skb) (w : World) where
  abbrev pub noted : World
  noted = note_alive env (ntoh 0 skb.header.src_id) w

  dispatched :
      (t n : ℕ)
      → t ≡ n
      → (if leb vrr_nptypes t then pure false else (do
        modify (note_alive env (ntoh 0 skb.header.src_id))
        ok ← vrr_rcvfunc env t skb
        if ok then pure true else drop_skb env skb))
          w
        ≡ (if leb vrr_nptypes n then pure false else (do
          modify (note_alive env (ntoh 0 skb.header.src_id))
          ok ← vrr_rcvfunc env n skb
          if ok then pure true else drop_skb env skb))
            w
  dispatched t n e = rw e refl

  pub vrr_rcv-setup_req :
      (v : World)
      → skb.header.pkt_type ≡ 2
      → vrr_rcv_setup_req env skb noted ≡ done (true, v)
      → vrr_rcv env skb w ≡ done (true, v)
  unfolding vrr_rcv vrr_rcvfunc ◌>>=◌ ◌>>◌ modify pure
  vrr_rcv-setup_req v e run = dispatched skb.header.pkt_type 2 e ∙ rw run refl

  pub vrr_rcv-setup :
      (v : World)
      → skb.header.pkt_type ≡ 3
      → vrr_rcv_setup env skb noted ≡ done (true, v)
      → vrr_rcv env skb w ≡ done (true, v)
  unfolding vrr_rcv vrr_rcvfunc ◌>>=◌ ◌>>◌ modify pure
  vrr_rcv-setup v e run = dispatched skb.header.pkt_type 3 e ∙ rw run refl

-- The searches of the physical set do not see the count.
module _ (src : ℕ) where
  pub pset_get_status-reset :
      (node : ℕ) (ps : List PsetEntry)
      → pset_get_status node (pset_reset_fail_count src ps).1 ≡ pset_get_status node ps
  unfolding pset_get_status pset_reset_fail_count
  pset_get_status-reset node [] = refl
  pset_get_status-reset node (e ∷ ps) = ground (arith, pset_get_status-reset node ps)

  pub pset_lookup_mac-reset :
      (mac : List ℕ) (ps : List PsetEntry)
      → pset_lookup_mac mac (pset_reset_fail_count src ps).1 ≡ pset_lookup_mac mac ps
  unfolding pset_lookup_mac pset_reset_fail_count
  pset_lookup_mac-reset mac [] = refl
  pset_lookup_mac-reset mac (e ∷ ps) = ground (arith, pset_lookup_mac-reset mac ps)
