-- ===== src/Reach/Safety.antt =====
-- Every reachable world is healthy, and what is safe in it.
use alpaca_vrr.Base.{
  ℕ, ◌≤◌, ◌≡◌, refl, sym, inr, true, false, Option, List, done, oops, Run, Returns, Returns-mono,
  length, arith, subst,
}
use alpaca_vrr.Pset.{vrr_pset_size}
use alpaca_vrr.Node.{VrrNode}
use alpaca_vrr.Wire.{Skb, vrr_setup_req, vrr_setup}
use alpaca_vrr.World.{World, Env, M}
use alpaca_vrr.Timer.{boot, vrr_workqueue_handler}
use alpaca_vrr.Receive.{vrr_rcv}
use alpaca_vrr.Receive.Hello.{pset_update_handler}
use alpaca_vrr.Sockets.Calls.{send_message, vrr_sendmsg}
use alpaca_vrr.Sockets.Delivery.{
  EndsFrom, vrr_sendmsg-EndsFrom, send_message-Keeps, send_message-returns,
}
use alpaca_vrr.Health.{Scope, Healthy, Ends, Keeps}
use alpaca_vrr.Health.Parts.{same}
use alpaca_vrr.Health.Updates.{pset_update_handler-Keeps}
use alpaca_vrr.Health.Dispatch.{
  Expected, IsWelcome, vrr_rcv-Keeps, vrr_workqueue_handler-Keeps, vrr_rcv-returns,
  vrr_workqueue_handler-returns, pset_update_handler-returns, boot-Healthy,
}
use alpaca_vrr.Reach.{Step, packet, period, queue, connect, sendmsg, Reach, here, next}

-- What a handler that keeps the world healthy leaves when it returns.
Keeps-done :
    {A : Type 0} {sc : Scope} {m : M A} {w v : World} {a : A}
    → Keeps sc m
    → Healthy sc w
    → m w ≡ done (a, v)
    → Healthy sc v
Keeps-done {sc = sc} {w = w} k h e = (subst (Ends sc (λ _. Unit {0})) e (k.runs w h)).0

Returns-both :
    {A : Type 0} (P Q : A → Type 0) (m : Run A)
    → Returns m P
    → ((r : A) → m ≡ done r → Q r)
    → Returns m (λ r. P r × Q r)
Returns-both P Q (done r) h f = (h, f r refl)
Returns-both P Q (oops e) h f = h

-- The surroundings for any run: faults are allowed, for a step that faults is none.
abbrev pub lax : (heard : List ℕ) → length heard ≤ vrr_pset_size → Scope
lax heard room = record { heard = heard; room = room; low = 0; strict = false }

-- What a handler leaves is healthy.
abbrev pub Fine {ℓ} :
    {A : Type ℓ} (heard : List ℕ) → length heard ≤ vrr_pset_size → A × World → Type 0
Fine heard room r = Healthy (lax heard room) r.1

module _ (env : Env) (ample : (n : ℕ) → env.kmalloc n ≡ true) (heard : List ℕ)
    (room : length heard ≤ vrr_pset_size) where
  Step-Healthy :
      {w v : World} → Step env heard w v → Healthy (lax heard room) w → Healthy (lax heard room) v
  Step-Healthy (packet skb b x e) h =
      Keeps-done (vrr_rcv-Keeps env ample (lax heard room) skb (inr refl) x) h e
  Step-Healthy (period b e) h =
      Keeps-done (vrr_workqueue_handler-Keeps env ample (lax heard room)) h e
  Step-Healthy (queue e) h = Keeps-done (pset_update_handler-Keeps env ample (lax heard room)) h e
  Step-Healthy (connect size sock addr addrlen e) h =
      subst (Healthy (lax heard room)) (sym e) (same h refl refl refl refl refl)
  Step-Healthy (sendmsg dest bytes len r e) h =
      Keeps-done (send_message-Keeps env ample (lax heard room) dest bytes len) h e

  Reach-Healthy :
      {w v : World} → Healthy (lax heard room) w → Reach env heard w v → Healthy (lax heard room) v
  Reach-Healthy h here = h
  Reach-Healthy h (next r s) = Step-Healthy s (Reach-Healthy h r)

  -- With memory at hand, where hellos come from at most VRR_PSET_SIZE nodes: every world that can be
  -- reached from the start, by any calls in any order, those of `vrr_sendmsg` up to the end of its call
  -- of `vrr_output`, is healthy.
  pub boot-Reach-Healthy :
      (node : VrrNode) (allocs draws : ℕ) {v : World}
      → Reach env heard (boot node allocs draws) v
      → Healthy (lax heard room) v
  boot-Reach-Healthy node allocs draws = Reach-Healthy (boot-Healthy heard room node allocs draws)

  -- The surroundings in which no fault is allowed, and the nodes counted so far.
  abbrev strict : World → Scope
  strict w = record { heard = heard; room = room; low = w.vset.vset_size; strict = true }

  Healthy-strict : {w : World} → Healthy (lax heard room) w → Healthy (strict w) w
  Healthy-strict h = record {
    routes = h.routes;
    near = h.near;
    ring = h.ring;
    counted = omega arith;
  }

  Returns-Fine :
      {A : Type 0} (v : World) (m : Run (A × World))
      → Returns m (λ r. Healthy (strict v) r.1)
      → Returns m (Fine heard room)
  Returns-Fine v m h =
      Returns-mono (λ r. Healthy (strict v) r.1) (Fine heard room) m h
        (λ r g. record { routes = g.routes; near = g.near; ring = g.ring; counted = omega arith })

  pub boot-Reach-returns :
      (node : VrrNode) (allocs draws : ℕ) (skb : Skb) (dest : Option ℕ) (bytes : Option (List ℕ))
      (len : ℕ) {v : World}
      → Reach env heard (boot node allocs draws) v
      → skb.header.pkt_type ≤ vrr_setup
      → (skb.header.pkt_type ≡ vrr_setup_req → 1 ≤ v.vset.vset_size)
      → IsWelcome env skb
      → Expected heard skb
      → Returns (vrr_rcv env skb v) (Fine heard room)
        × Returns (vrr_workqueue_handler env v) (Fine heard room)
        × Returns (pset_update_handler env v) (Fine heard room)
        × Returns
            (send_message env dest bytes len v)
            (λ r. Fine heard room r × EndsFrom r (vrr_sendmsg env dest bytes len v))
  boot-Reach-returns node allocs draws skb dest bytes len {v} r t l welcome x =
      let h = Healthy-strict (boot-Reach-Healthy node allocs draws r) in
      (
        Returns-Fine v (vrr_rcv env skb v)
            (vrr_rcv-returns env ample (strict v) refl skb t l welcome x v h),
        Returns-Fine v (vrr_workqueue_handler env v)
            (vrr_workqueue_handler-returns env ample (strict v) refl v h),
        Returns-Fine v (pset_update_handler env v)
            (pset_update_handler-returns env ample (strict v) refl v h),
        Returns-both _ _ (send_message env dest bytes len v)
            (Returns-Fine v (send_message env dest bytes len v)
              (send_message-returns env ample (strict v) refl dest bytes len v h))
            (vrr_sendmsg-EndsFrom env dest bytes len v),
      )
