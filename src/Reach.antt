-- ===== src/Reach.antt =====
-- The module as a state machine: its handlers run one after another, in any order and on any input,
-- and the worlds that can be reached so.
--
-- A call that faults ends the run, so only calls that return are steps. Of `vrr_sendmsg` the part with
-- its call of `vrr_output` is a step, as if the second free of the buffer behind it did no harm. Hellos come from the nodes
-- of `heard`: each identifier heard takes a cell of the arrays of the snapshot for ever, unless it
-- falls silent.
pub mod Safety
use alpaca_vrr.Base.{ℕ, ◌≡◌, Bool, Option, List, done}
use alpaca_vrr.Wire.{Skb}
use alpaca_vrr.World.{World, Env}
use alpaca_vrr.Sockets.Calls.{Socket, SockaddrVrr, vrr_connect, Outcome, send_message}
use alpaca_vrr.Receive.{vrr_rcv}
use alpaca_vrr.Receive.Hello.{pset_update_handler}
use alpaca_vrr.Timer.{vrr_workqueue_handler}
use alpaca_vrr.Health.Dispatch.{Expected}

module _ (env : Env) (heard : List ℕ) where
  pub data Step (w v : World) : Type 0 where
    packet :
        (skb : Skb) (b : Bool) → Expected heard skb → vrr_rcv env skb w ≡ done (b, v) → Step w v
    period : (b : Bool) → vrr_workqueue_handler env w ≡ done (b, v) → Step w v
    queue : pset_update_handler env w ≡ done (tt {0}, v) → Step w v
    connect :
        (size : ℕ) (sock : Socket) (addr : Option SockaddrVrr) (addrlen : ℕ)
        → v ≡ record w { socks = (vrr_connect size sock addr addrlen w.socks).2 }
        → Step w v
    sendmsg :
        (dest : Option ℕ) (bytes : Option (List ℕ)) (len : ℕ) (r : Outcome)
        → send_message env dest bytes len w ≡ done (r, v)
        → Step w v

  pub data Reach (w : World) : World → Type 0 where
    here : Reach w w
    next : {u v : World} → Reach w u → Step u v → Reach w v
