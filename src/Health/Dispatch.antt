-- ===== src/Health/Dispatch.antt =====
-- A received packet, and the periodic work, keep the world healthy, given memory.
use alpaca_vrr.Base.{
  ◌⊎◌, ◌<◌, ==_iff, inl, inr, ℕ, ◌≤◌, ◌≡◌, refl, true, false, List, Returns, ◌==◌, arith, leb,
}
use alpaca_vrr.Wire.{vrr_hello, vrr_setup_req, vrr_setup, vrr_nptypes, Skb, ntoh}
use alpaca_vrr.World.{World, Env}
use alpaca_vrr.Receive.{vrr_rcvfunc, note_alive, refused, drop_skb, vrr_rcv}
use alpaca_vrr.Sockets.{vrr_find_sock}
use alpaca_vrr.Wire.{vrr_data}
use alpaca_vrr.Base.{Bool-cases, Option-cases, use_after_free}
use alpaca_vrr.Health.{Scope, IsHeard, Healthy, Keeps}
use alpaca_vrr.Health.Rules.{
  returns, Ensures-returns, Ensures-then, Ensures-if, Keeps-modify, Keeps-pure, Ensures-bind,
  Ensures-get, Keeps-fault,
}
use alpaca_vrr.Health.Parts.{same}
use alpaca_vrr.Health.Receiving.{vrr_rcv_data-Keeps, vrr_rcv_hello-Keeps}
use alpaca_vrr.Receive.Hello.{pset_update_handler}
use alpaca_vrr.Health.Updates.{pset_update_handler-Keeps}
use alpaca_vrr.Health.Failures.{vrr_rcv_setup_fail-Keeps, vrr_rcv_teardown-Keeps}
use alpaca_vrr.Health.Setups.{vrr_rcv_setup_req-Keeps, vrr_rcv_setup-Keeps}
use alpaca_vrr.Snapshot.{empty_state}
use alpaca_vrr.Health.Hearing.{few, Neighbours-reset, Neighbours-age}
use alpaca_vrr.Snapshot.Failures.{detect_failures-age}
use alpaca_vrr.Pset.{vrr_pset_size}
use alpaca_vrr.Base.{length}
use alpaca_vrr.Health.Sending.{send_hpkt-Keeps}
use alpaca_vrr.Timer.{detect, count_timeout, vrr_workqueue_handler, boot}
use alpaca_vrr.Node.{VrrNode}
use alpaca_vrr.Vset.{vset_init}

pub note_alive-Healthy :
    (env : Env) (sc : Scope) (src : ℕ) (w : World)
    → Healthy sc w
    → Healthy sc (note_alive env src w)
note_alive-Healthy env sc src w h = record {
  routes = h.routes;
  near = Neighbours-reset src h.near;
  ring = h.ring;
  counted = h.counted;
}

detect-Keeps : (sc : Scope) → Keeps sc detect
unfolding detect
detect-Keeps sc = Ensures-returns go
  where
    go : (w : World) → Healthy sc w → Returns (detect w) (λ r. Healthy sc r.1 × Unit {0})
    go w h =
        rw (h.near.snapshot, detect_failures-age w.pset (few h.near sc.room))
          (
            record {
              routes = h.routes;
              near = Neighbours-age h.near;
              ring = h.ring;
              counted = h.counted;
            },
            tt,
          )

-- A hello comes from a node that may be heard.
abbrev pub Expected : List ℕ → Skb → Type 0
Expected heard skb = skb.header.pkt_type ≡ vrr_hello → IsHeard heard (ntoh 0 skb.header.src_id)

-- The socket layer takes the packet if it is data, for whatever socket.
abbrev pub IsWelcome : Env → Skb → Type 0
IsWelcome env skb = skb.header.pkt_type ≡ vrr_data → (sk : ℕ) → env.sk_receive_skb sk skb ≡ true

-- A failed setup or a teardown may fault, and so may a setup request before any node was counted
-- into the virtual set, and data that the socket layer refuses.
abbrev pub MayTake : Env → Scope → Skb → Type 0
MayTake env sc skb =
    ((skb.header.pkt_type ≤ vrr_setup)
      × (skb.header.pkt_type ≡ vrr_setup_req → 1 ≤ sc.low)
      × IsWelcome env skb)
    ⊎ (sc.strict ≡ false)

refused-welcome :
    (env : Env) (skb : Skb) (w : World) → IsWelcome env skb → refused env skb w ≡ false
refused-welcome env skb w h = elim (Bool-cases (skb.header.pkt_type == 0)) [
  | inr other ↦ rw other refl
  | inl is_data ↦ elim (Option-cases (vrr_find_sock (ntoh 0 skb.header.src_id) w.socks)) [
    | inl nobody ↦ rw (is_data, nobody) (ground arith)
    | inr (sk, found) ↦
        rw (is_data, found, h ((==_iff skb.header.pkt_type 0).0 is_data) sk) (ground arith)
  ]
]

module _ (env : Env) (ample : (n : ℕ) → env.kmalloc n ≡ true) (sc : Scope) where
  counted_first :
      (skb : Skb)
      → MayTake env sc skb
      → skb.header.pkt_type ≡ vrr_setup_req
      → (1 ≤ sc.low) ⊎ (sc.strict ≡ false)
  counted_first skb (inl m) e = inl (m.1 e)
  counted_first skb (inr s) e = inr s

  beyond_setup :
      (skb : Skb) → MayTake env sc skb → vrr_setup < skb.header.pkt_type → sc.strict ≡ false
  beyond_setup skb (inl m) h = absurd (omega (arith, m.0, h))
  beyond_setup skb (inr s) h = s

  vrr_rcvfunc-Keeps :
      (skb : Skb)
      → MayTake env sc skb
      → Expected sc.heard skb
      → Keeps sc (vrr_rcvfunc env skb.header.pkt_type skb)
  unfolding vrr_rcvfunc
  vrr_rcvfunc-Keeps skb m x =
      let t = skb.header.pkt_type in
      Ensures-if (t == 0) (λ e. vrr_rcv_data-Keeps env ample sc skb)
        λ e0.
          Ensures-if (t == 1) (λ e. vrr_rcv_hello-Keeps env ample sc skb (x ((==_iff t 1).0 e)))
            λ e1.
              Ensures-if (t == 2)
                (λ e.
                  vrr_rcv_setup_req-Keeps env ample sc (counted_first skb m ((==_iff t 2).0 e)) skb)
                λ e2.
                  Ensures-if (t == 3) (λ e. vrr_rcv_setup-Keeps env ample sc skb)
                    λ e3.
                      let s = beyond_setup skb m (ground arith) in
                      Ensures-if (t == 4) (λ e. vrr_rcv_setup_fail-Keeps env ample sc s skb)
                        λ e4. vrr_rcv_teardown-Keeps env ample sc s skb

  drop_skb-Keeps : (skb : Skb) → MayTake env sc skb → Keeps sc (drop_skb env skb)
  unfolding drop_skb
  drop_skb-Keeps skb m = Ensures-bind Ensures-get λ w h.
      Ensures-if (refused env skb w) (λ e. Keeps-fault use_after_free (unwelcome w m e))
        (λ e. Keeps-pure false)
    where
      unwelcome : (w : World) → MayTake env sc skb → refused env skb w ≡ true → sc.strict ≡ false
      unwelcome w (inl k) e = let welcome = refused-welcome env skb w k.2 in absurd (cc)
      unwelcome w (inr s) e = s

  pub vrr_rcv-Keeps :
      (skb : Skb) → MayTake env sc skb → Expected sc.heard skb → Keeps sc (vrr_rcv env skb)
  unfolding vrr_rcv
  vrr_rcv-Keeps skb m x =
      Ensures-if (leb vrr_nptypes skb.header.pkt_type) (λ e. Keeps-pure false)
        λ e. Ensures-then (Keeps-modify (note_alive-Healthy env sc (ntoh 0 skb.header.src_id))) (
          Ensures-bind (vrr_rcvfunc-Keeps skb m x)
            λ ok r. Ensures-if ok (λ q. Keeps-pure true) (λ q. drop_skb-Keeps skb m))

  pub vrr_workqueue_handler-Keeps : Keeps sc (vrr_workqueue_handler env)
  unfolding vrr_workqueue_handler count_timeout
  vrr_workqueue_handler-Keeps = Ensures-then (detect-Keeps sc) (
      Ensures-then (Keeps-modify (λ w h. same h refl refl refl refl refl))
        (send_hpkt-Keeps env ample sc))

  module _ (strict : sc.strict ≡ true) where
    pub vrr_rcv-returns :
        (skb : Skb)
        → skb.header.pkt_type ≤ vrr_setup
        → (skb.header.pkt_type ≡ vrr_setup_req → 1 ≤ sc.low)
        → IsWelcome env skb
        → Expected sc.heard skb
        → (w : World) → Healthy sc w
        → Returns (vrr_rcv env skb w) (λ r. Healthy sc r.1)
    vrr_rcv-returns skb h l t x = returns (vrr_rcv-Keeps skb (inl (h, l, t)) x) strict

    -- With memory at hand, in a healthy world, the periodic work ages the neighbours, counts for the
    -- activation and sends the hello without a fault, and leaves the world healthy.
    pub vrr_workqueue_handler-returns :
        (w : World) → Healthy sc w → Returns (vrr_workqueue_handler env w) (λ r. Healthy sc r.1)
    vrr_workqueue_handler-returns = returns vrr_workqueue_handler-Keeps strict

    -- With memory at hand, in a healthy world, the work queue handles all that the hellos asked for
    -- without a fault, never overruns the table of transitions or the arrays of the snapshot, and
    -- leaves the world healthy.
    pub pset_update_handler-returns :
        (w : World) → Healthy sc w → Returns (pset_update_handler env w) (λ r. Healthy sc r.1)
    pset_update_handler-returns = returns (pset_update_handler-Keeps env ample sc) strict

-- The world at the start is healthy.
pub boot-Healthy :
    (heard : List ℕ) (room : length heard ≤ vrr_pset_size) (node : VrrNode) (allocs draws : ℕ)
    → Healthy
        (record { heard = heard; room = room; low = 0; strict = false })
        (boot node allocs draws)
unfolding boot empty_state vset_init
boot-Healthy heard room node allocs draws = record {
  routes = tt;
  near = record { distinct = tt; known = tt; snapshot = refl; asked = tt };
  ring = record { distinct = tt; sized = omega arith };
  counted = omega arith;
}
