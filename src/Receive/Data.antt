-- ===== src/Receive/Data.antt =====
-- Data packets for other nodes: `vrr_rcv_data` of vrr_input.c with `vrr_forward` of vrr_output.c.
use alpaca_vrr.Base.{
  ℕ, ◌≡◌, ◌≢◌, refl, inl, inr, true, none, some, ◌==◌, if◌then◌else◌, done, Bool-cases,
  Option-cases, ==_ne,
}
use alpaca_vrr.Rt.{rt_get_next}
use alpaca_vrr.Pset.{pset_get_mac}
use alpaca_vrr.Wire.{Skb, ntoh}
use alpaca_vrr.World.{World, Env, pure, ◌>>=◌, ◌>>◌, get, case_option}
use alpaca_vrr.Send.{vrr_output}
use alpaca_vrr.Send.Frames.{sending, frames, output_loop-sending}
use alpaca_vrr.Receive.{vrr_forward, vrr_rcv_data}

module _ (env : Env) (skb : Skb) (w : World) where
  abbrev pub hop_of : ℕ
  hop_of = rt_get_next w.me w.rt_root (ntoh 0 skb.header.dest_id)

  -- The world with the packet sent on, with the address of the next hop in its header, if there is
  -- one and it is a neighbour.
  abbrev pub sent_on : World
  sent_on = if hop_of == 0 then w else elim (pset_get_mac hop_of w.pset) [
    | none ↦ w
    | some mac ↦
        sending w (frames env (record (skb.header) { dest_mac = mac }) skb.payload w.node.dev_list)
  ]

  -- With memory at hand, a data packet for another node is sent on unchanged by each interface that
  -- is there, to the next hop that the table gives for its destination, or dropped where there is no
  -- next hop or it is no neighbour; nothing else changes but the count of allocations.
  pub vrr_rcv_data-sent_on :
      ((n : ℕ) → env.kmalloc n ≡ true)
      → ntoh 0 skb.header.dest_id ≢ w.node.id
      → vrr_rcv_data env skb w ≡ done (true, sent_on)
  unfolding vrr_rcv_data vrr_forward vrr_output ◌>>=◌ ◌>>◌ get pure case_option
  vrr_rcv_data-sent_on ample other = elim (Bool-cases (hop_of == 0)) [
    | inl nowhere ↦ rw (==_ne (ntoh 0 skb.header.dest_id) w.node.id other, nowhere) refl
    | inr way ↦ elim (Option-cases (pset_get_mac hop_of w.pset)) [
      | inl far ↦ rw (==_ne (ntoh 0 skb.header.dest_id) w.node.id other, way, far) refl
      | inr (mac, near) ↦ rw (
        ==_ne (ntoh 0 skb.header.dest_id) w.node.id other,
        way,
        near,
        output_loop-sending env ample (record (skb.header) { dest_mac = mac }) skb.payload
            w.node.dev_list w,
      )
    ]
  ]
