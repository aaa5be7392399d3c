-- ===== src/Traffic/Typing.antt =====
-- A network of nodes, each with its own kernel, that make calls in any order: every packet comes from
-- a frame that some node has sent, to any nodes, any number of times or not at all. Of `vrr_sendmsg`
-- the part with its call of `vrr_output` is a step, as if the second free of the buffer did no harm.
use alpaca_vrr.Base.{
  ℕ, ◌≡◌, ◌≢◌, sym, subst, List, [], ◌∷◌, All, Bool, Option, done, inl, inr, Bool-cases, ◌==◌,
  ==_iff, true, false,
}
use alpaca_vrr.Node.{VrrNode}
use alpaca_vrr.World.{World, Env, Frame, M}
use alpaca_vrr.World.Steps.{Moves}
use alpaca_vrr.Timer.{boot, vrr_workqueue_handler}
use alpaca_vrr.Receive.{vrr_rcv}
use alpaca_vrr.Receive.Hello.{pset_update_handler}
use alpaca_vrr.Sockets.Calls.{Socket, SockaddrVrr, vrr_connect, Outcome, send_message}
use alpaca_vrr.Travel.{Among}
use alpaca_vrr.Travel.Relay.{arrival}
use alpaca_vrr.Traffic.{IsFrame, Good, Sends}
use alpaca_vrr.Traffic.Updates.{pset_update_handler-Sends}
use alpaca_vrr.Traffic.Dispatch.{
  IsMessage, vrr_rcv-Sends, vrr_workqueue_handler-Sends, send_message-Sends,
}

Sends-done : {A : Type 0} {m : M A} {w v : World} {a : A} → Sends m → m w ≡ done (a, v) → Good w v
Sends-done {w = w} s e = subst (Moves Good w) e (s.moves w)

Among-IsFrame : (f : Frame) (fs : List Frame) → Among f fs → All IsFrame fs → IsFrame f
Among-IsFrame f [] a h = absurd a
Among-IsFrame f (g ∷ fs) (inl same) h = subst IsFrame (sym same) h.0
Among-IsFrame f (g ∷ fs) (inr later) h = Among-IsFrame f fs later h.1

-- The nodes but one are as they were.
abbrev pub Others : ℕ → (ℕ → World) → (ℕ → World) → Type 0
Others n ws vs = (m : ℕ) → m ≢ n → vs m ≡ ws m

module _ (envs : ℕ → Env) where
  pub data NetStep (ws vs : ℕ → World) : Type 0 where
    deliver :
        (n k : ℕ) (f : Frame) (b : Bool)
        → Among f (ws k).sent
        → vrr_rcv (envs n) (arrival f) (ws n) ≡ done (b, vs n)
        → Others n ws vs
        → NetStep ws vs
    period :
        (n : ℕ) (b : Bool)
        → vrr_workqueue_handler (envs n) (ws n) ≡ done (b, vs n)
        → Others n ws vs
        → NetStep ws vs
    queue :
        (n : ℕ)
        → pset_update_handler (envs n) (ws n) ≡ done (tt {0}, vs n)
        → Others n ws vs
        → NetStep ws vs
    connect :
        (n size : ℕ) (sock : Socket) (addr : Option SockaddrVrr) (addrlen : ℕ)
        → vs n ≡ record (ws n) { socks = (vrr_connect size sock addr addrlen (ws n).socks).2 }
        → Others n ws vs
        → NetStep ws vs
    sendmsg :
        (n : ℕ) (dest : Option ℕ) (bytes : Option (List ℕ)) (len : ℕ) (r : Outcome)
        → IsMessage bytes len
        → send_message (envs n) dest bytes len (ws n) ≡ done (r, vs n)
        → Others n ws vs
        → NetStep ws vs

  pub data NetReach (ws : ℕ → World) : (ℕ → World) → Type 0 where
    start : NetReach ws ws
    after : {us vs : ℕ → World} → NetReach ws us → NetStep us vs → NetReach ws vs

  abbrev AllGood : (ℕ → World) → Type 0
  AllGood ws = (n : ℕ) → All IsFrame (ws n).sent

  moved_one :
      (n : ℕ) (ws vs : ℕ → World) → AllGood ws → Good (ws n) (vs n) → Others n ws vs → AllGood vs
  moved_one n ws vs h g o m = elim (Bool-cases (m == n)) [
    | inl same ↦ subst (λ k. All IsFrame (vs k).sent) (sym ((==_iff m n).0 same)) (g (h n))
    | inr other ↦
        subst (λ (w : World). All IsFrame w.sent)
          (sym (o m (λ q. differs other ((==_iff m n).1 q)))) (h m)
  ]
    where
      differs : (m == n) ≡ false → (m == n) ≢ true
      differs d q = cc

  NetStep-AllGood : {ws vs : ℕ → World} → NetStep ws vs → AllGood ws → AllGood vs
  NetStep-AllGood {ws} {vs} (deliver n k f b a e o) h =
      moved_one n ws vs h
        (Sends-done (vrr_rcv-Sends (envs n) (arrival f) (Among-IsFrame f (ws k).sent a (h k)).0) e)
        o
  NetStep-AllGood {ws} {vs} (period n b e o) h =
      moved_one n ws vs h (Sends-done (vrr_workqueue_handler-Sends (envs n)) e) o
  NetStep-AllGood {ws} {vs} (queue n e o) h =
      moved_one n ws vs h (Sends-done (pset_update_handler-Sends (envs n)) e) o
  NetStep-AllGood {ws} {vs} (connect n size sock addr addrlen e o) h =
      moved_one n ws vs h (subst (λ (w : World). Good (ws n) w) (sym e) (λ g. g)) o
  NetStep-AllGood {ws} {vs} (sendmsg n dest bytes len r m e o) h =
      moved_one n ws vs h (Sends-done (send_message-Sends (envs n) dest bytes len m) e) o

  NetReach-AllGood : {ws vs : ℕ → World} → NetReach ws vs → AllGood ws → AllGood vs
  NetReach-AllGood start h = h
  NetReach-AllGood (after r s) h = NetStep-AllGood s (NetReach-AllGood r h)

  -- In a network of any nodes that have just started, whatever calls the nodes make in whatever
  -- order, whatever frames arrive, where and how often, whether or not memory is at hand, and where
  -- the bytes of a user's message are as many as the call says, which counts up to the end of its call
  -- of `vrr_output`: every frame that any node has ever
  -- sent goes to the address in its header, has a type of packet that exists, the protocol number of
  -- the module, two identifiers of four bytes and the length of its payload in 16 bits, and its
  -- payload is of whole words unless it is data.
  pub boot-NetReach-IsFrame :
      (nodes : ℕ → VrrNode) (allocs draws : ℕ → ℕ) {vs : ℕ → World}
      → NetReach (λ n. boot (nodes n) (allocs n) (draws n)) vs
      → (n : ℕ) → All IsFrame (vs n).sent
  unfolding boot
  boot-NetReach-IsFrame nodes allocs draws r = NetReach-AllGood r (λ n. tt)
