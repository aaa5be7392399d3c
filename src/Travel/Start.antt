-- ===== src/Travel/Start.antt =====
-- `vrr_local_rcv_setup` of vrr_input.c with a next hop: what it lays and sends.
use alpaca_vrr.Base.{ℕ, ◌+◌, ◌*◌, ◌≡◌, ◌≢◌, true, some, List, ◌∷◌, done, length, ==_ne}
use alpaca_vrr.Rt.Spec.{rt_add_route-succeeds}
use alpaca_vrr.Pset.{pset_get_mac}
use alpaca_vrr.Vset.{VsetCopy}
use alpaca_vrr.Wire.{VrrHeader, build_header, put_words, vrr_setup}
use alpaca_vrr.World.{
  World, Env, pure, ◌>>=◌, ◌>>◌, get, lift, read_array, alloc, add_route, case_option,
}
use alpaca_vrr.Send.{vrr_output, send_packet, send_to, send_setup}
use alpaca_vrr.Send.Frames.{sending, frames, output_loop-sending}
use alpaca_vrr.Receive.Setup.{hop_towards, vrr_local_rcv_setup}
use alpaca_vrr.Joining.Request.{routed}

module _ (env : Env) (dst pid proxy : ℕ) (vset : VsetCopy) (cells : List ℕ) (w : World) where
  abbrev pub first_words : List ℕ
  first_words = pid ∷ proxy ∷ vset.count ∷ cells

  abbrev pub first_header : List ℕ → VrrHeader
  first_header mac = build_header w.node.version (record {
    src = w.node.id;
    dst = dst;
    data_len = length first_words * 4;
    pkt_type = vrr_setup;
    dest_mac = mac;
  })

  pub vrr_local_rcv_setup-sends :
      ((n : ℕ) → env.kmalloc n ≡ true)
      → (mac : List ℕ) → read_array vset ≡ done cells
      → hop_towards dst proxy w ≢ 0
      → pset_get_mac (hop_towards dst proxy w) w.pset ≡ some mac
      → vrr_local_rcv_setup env dst pid proxy vset w
        ≡ done (
          true,
          sending
              (record (routed env dst pid proxy w) {
                allocs = (routed env dst pid proxy w).allocs + 1;
              })
              (frames env (first_header mac) (put_words first_words) w.node.dev_list),
        )
  unfolding vrr_local_rcv_setup ◌>>=◌ ◌>>◌ get pure case_option alloc lift add_route send_setup
      send_to send_packet vrr_output
  vrr_local_rcv_setup-sends ample mac readable some_hop at = rw (
    rt_add_route-succeeds env.rb env.kmalloc w.me ample w.node.id dst w.node.id
        (hop_towards dst proxy w) pid w.rt_root w.allocs,
    ==_ne (hop_towards dst proxy w) 0 some_hop,
    at,
    readable,
    ample (routed env dst pid proxy w).allocs,
    output_loop-sending env ample (first_header mac) (put_words first_words) w.node.dev_list
        (record (routed env dst pid proxy w) { allocs = (routed env dst pid proxy w).allocs + 1 }),
  )
