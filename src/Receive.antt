-- ===== src/Receive.antt =====
-- The packets that a node receives: `vrr_rcv` of vrr_input.c, which checks the type, notes that
-- the sender lives, and calls the handler. A handler's result of 0 is true.
pub mod Hello
pub mod Setup
pub mod Teardown
pub mod Forwarded
pub mod Data
use alpaca_vrr.Base.{
  ℕ, ◌+◌, Bool, true, false, Option, none, some, List, [], ◌∷◌, ◌==◌, if◌then◌else◌, ltb, leb, Run,
  done, oops, not, ◌&&◌, use_after_free,
}
use alpaca_vrr.Rt
use alpaca_vrr.Pset
use alpaca_vrr.Sockets
use alpaca_vrr.Node.{reset_active_timeout}
use alpaca_vrr.Wire.{VrrHeader, Skb, ntoh, vrr_nptypes}
use alpaca_vrr.World.{case_option, World, Env, M, pure, fault, ◌>>=◌, ◌>>◌, get, modify}
use alpaca_vrr.Send.{vrr_output}
use Hello.{vrr_rcv_hello}
use Setup.{vrr_rcv_setup_req, vrr_rcv_setup, vrr_rcv_setup_fail}
use Teardown.{vrr_rcv_teardown}

module _ (env : Env) where
  -- The header is rewritten in place, and the packet sent on as it is. The next hop 0 is none.
  unfoldable pub vrr_forward : Skb → M Bool
  vrr_forward skb = do
    w ← get
    let nh = Rt.rt_get_next w.me w.rt_root (ntoh 0 skb.header.dest_id)
    if nh == 0
        then pure false
        else case_option (Pset.pset_get_mac nh w.pset) (pure false)
            λ mac. vrr_output env (record skb.header { dest_mac = mac }) skb.payload >> pure true

  -- For this node, the packet goes to the socket connected to its source, and what the socket
  -- layer answers is the result; else it is forwarded, whatever comes of that.
  unfoldable pub vrr_rcv_data : Skb → M Bool
  vrr_rcv_data skb = do
    w ← get
    if ntoh 0 skb.header.dest_id == w.node.id
        then (case_option (Sockets.vrr_find_sock (ntoh 0 skb.header.src_id) w.socks) (pure false)
            λ sk. do
              modify (λ v. record v { delivered = (sk, skb) ∷ v.delivered })
              pure (env.sk_receive_skb sk skb))
        else (do vrr_forward skb; pure true)

  -- The table `vrr_rcvfunc`.
  unfoldable pub vrr_rcvfunc : ℕ → Skb → M Bool
  vrr_rcvfunc pkt_type skb =
      if pkt_type == 0
      then vrr_rcv_data skb
      else if pkt_type == 1
      then vrr_rcv_hello env skb
      else if pkt_type == 2
      then vrr_rcv_setup_req env skb
      else if pkt_type == 3
      then vrr_rcv_setup env skb
      else if pkt_type == 4
      then vrr_rcv_setup_fail env skb
      else vrr_rcv_teardown env skb

  abbrev pub note_alive : ℕ → World → World
  note_alive src w = record w {
    node = reset_active_timeout w.node;
    pset = (Pset.pset_reset_fail_count src w.pset).1;
  }

  -- The socket layer says that it drops a packet only where `vrr_backlog_rcv` does, which has freed
  -- the packet then.
  abbrev pub refused : Skb → World → Bool
  refused skb w =
      skb.header.pkt_type == 0
      && ntoh 0 skb.header.dest_id == w.node.id
      && elim (Sockets.vrr_find_sock (ntoh 0 skb.header.src_id) w.socks) [
        | none ↦ false
        | some sk ↦ not (env.sk_receive_skb sk skb)
      ]

  -- The label `drop`: the packet is freed, which must not have been freed before.
  unfoldable pub drop_skb : Skb → M Bool
  drop_skb skb = do w ← get; if refused skb w then fault use_after_free else pure false

  -- True for NET_RX_SUCCESS, false for NET_RX_DROP.
  unfoldable pub vrr_rcv : Skb → M Bool
  vrr_rcv skb = if leb vrr_nptypes skb.header.pkt_type then pure false else (do
    modify (note_alive (ntoh 0 skb.header.src_id))
    ok ← vrr_rcvfunc skb.header.pkt_type skb
    if ok then pure true else drop_skb skb)
