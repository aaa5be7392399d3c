-- ===== src/Checks/Networks.antt =====
-- A network in which the node 1 says hello, the node 2 hears it, and handles what it has heard.
use alpaca_vrr.Base.{ℕ, ◌≡◌, refl, inl, Bool, true, [], ◌∷◌, All, done, ◌==◌, if◌then◌else◌, arith}
use alpaca_vrr.Node.{VrrNode, active_timeout}
use alpaca_vrr.Snapshot.{detect_failures, empty_state}
use alpaca_vrr.World.{World, Frame, ◌>>=◌, ◌>>◌, modify}
use alpaca_vrr.Timer.{boot, detect, count_timeout, vrr_workqueue_handler}
use alpaca_vrr.Send.Frames.{send_hpkt-frames}
use alpaca_vrr.Travel.{Among}
use alpaca_vrr.Travel.Relay.{arrival}
use alpaca_vrr.Traffic.{IsFrame}
use alpaca_vrr.Traffic.Typing.{
  deliver, period, NetReach, start, after, Others, boot-NetReach-IsFrame,
}
use alpaca_vrr.Base.{Returns-done, ==_ne}
use alpaca_vrr.Health.{Scope, Healthy}
use alpaca_vrr.Health.Dispatch.{vrr_rcv-returns}
use alpaca_vrr.Receive.{vrr_rcv}
use alpaca_vrr.Vset.{vset_init}
use alpaca_vrr.Wire.{build_header, ntoh, htonl}
use alpaca_vrr.Checks.Worlds.{kernel, world}

abbrev nodes : ℕ → VrrNode
nodes n = record (world.node) { id = n }

abbrev begun : ℕ → World
begun n = boot (nodes n) 0 0

-- The node 1 after its tick.
abbrev Ticks : World → Type 0
Ticks v = (vrr_workqueue_handler kernel (begun 1) ≡ done (true, v)) × ((f : Frame) × Among f v.sent)

ticks : (v : World) × Ticks v
unfolding vrr_workqueue_handler detect count_timeout active_timeout boot detect_failures empty_state
    ◌>>=◌ ◌>>◌ modify
ticks = (_, (send_hpkt-frames kernel (λ n. refl) _, (_, inl refl)))

abbrev hello : Frame
hello = ticks.1.1.0

abbrev scope : Scope
scope = record { heard = 1 ∷ []; room = omega arith; low = 0; strict = true }

begun-Healthy : Healthy scope (begun 2)
unfolding boot vset_init empty_state
begun-Healthy = record {
  routes = tt;
  near = record { distinct = tt; known = tt; snapshot = refl; asked = tt };
  ring = record { distinct = tt; sized = omega arith };
  counted = omega arith;
}

-- The node 2 after the frame.
hears : (r : Bool × World) × (vrr_rcv kernel (arrival hello) (begun 2) ≡ done r) × Healthy scope r.1
unfolding ticks build_header ntoh htonl boot
hears =
    Returns-done (λ r. Healthy scope r.1) (vrr_rcv kernel (arrival hello) (begun 2))
      (vrr_rcv-returns kernel (λ n. refl) scope refl (arrival hello) (omega arith)
        (λ e. absurd (omega (arith, e))) (λ e sk. refl) (λ e. refl) (begun 2) begun-Healthy)

abbrev said : ℕ → World
said n = if n == 1 then ticks.0 else begun n

abbrev heard : ℕ → World
heard n = if n == 2 then hears.0.1 else said n

said-Others : Others 1 begun said
said-Others m d = rw (==_ne m 1 d) refl

heard-Others : Others 2 said heard
heard-Others m d = rw (==_ne m 2 d) refl

told : NetReach (λ n. kernel) begun said
told = after start (period 1 true ticks.1.0 said-Others)

run : NetReach (λ n. kernel) begun heard
run = after told (deliver 2 1 hello hears.0.0 ticks.1.1.1 hears.1 heard-Others)

boot-NetReach-IsFrame_example : All IsFrame (heard 1).sent
boot-NetReach-IsFrame_example =
    boot-NetReach-IsFrame (λ n. kernel) nodes (λ n. 0) (λ n. 0) {vs = heard} run 1
