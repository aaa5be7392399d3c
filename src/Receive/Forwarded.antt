-- ===== src/Receive/Forwarded.antt =====
-- A setup on its way: what a node between the ends does with it.
use alpaca_vrr.Base.{
  ℕ, ◌+◌, ◌*◌, ◌≤◌, ◌≡◌, ◌≢◌, true, false, some, List, ◌∷◌, done, length, ge→ltb, ==_ne,
}
use alpaca_vrr.Rt.{rt_add_route}
use alpaca_vrr.Rt.Spec.{rt_add_route-succeeds}
use alpaca_vrr.Pset.{pset_get_mac}
use alpaca_vrr.Vset.{vrr_vset_size}
use alpaca_vrr.Wire.{
  Skb, VrrHeader, build_header, ntoh, read_word, read_words, put_words, vrr_setup,
}
use alpaca_vrr.World.{
  World, Env, pure, ◌>>=◌, ◌>>◌, get, lift, read_array, alloc, add_route, case_option,
}
use alpaca_vrr.Send.{vrr_output, send_packet, send_to, send_setup}
use alpaca_vrr.Send.Frames.{sending, frames, output_loop-sending}
use alpaca_vrr.Receive.Setup.{hop_towards, setup_ends, setup_sender, finish_setup, vrr_rcv_setup}

module _ (env : Env) (skb : Skb) (w : World) where
  abbrev pub source : ℕ
  source = ntoh 0 skb.header.src_id

  abbrev pub target : ℕ
  target = ntoh 0 skb.header.dest_id

  -- The path id, the proxy, the size of the virtual set and its nodes, as they are read.
  abbrev pub path_id_of : ℕ × List ℕ
  path_id_of = read_word (env.junk 0) skb.payload

  abbrev pub proxy_of : ℕ × List ℕ
  proxy_of = read_word (env.junk 1) path_id_of.1

  abbrev pub size_of : ℕ × List ℕ
  size_of = read_word (env.junk 2) proxy_of.1

  abbrev pub set_of : List ℕ
  set_of = (read_words env.junk size_of.0 size_of.1).0

  abbrev pub setup_words : List ℕ
  setup_words = path_id_of.0 ∷ proxy_of.0 ∷ size_of.0 ∷ set_of

  abbrev pub setup_header : List ℕ → VrrHeader
  setup_header mac = build_header w.node.version (record {
    src = source;
    dst = target;
    data_len = length setup_words * 4;
    pkt_type = vrr_setup;
    dest_mac = mac;
  })

  abbrev pub grown : ℕ → ℕ → World
  grown sender nh =
      let (ret, root, n) =
        rt_add_route env.rb env.kmalloc source target sender nh path_id_of.0 w.rt_root w.allocs in
      record w { rt_root = root; allocs = n }

  -- With memory at hand: a setup from a known sender, with a next hop whose address is known and a
  -- virtual set of the size allowed, is answered by the route between its ends, from the sender to
  -- the next hop, in the table, and a setup of the same ends, path id, proxy and nodes to the next
  -- hop, by each interface that is there.
  pub vrr_rcv_setup-forwards :
      ((n : ℕ) → env.kmalloc n ≡ true)
      → (sender nh : ℕ) (mac : List ℕ) → setup_sender skb w ≡ some sender
      → setup_ends target w ≡ false
      → hop_towards target proxy_of.0 w ≡ nh
      → nh ≢ 0
      → pset_get_mac nh w.pset ≡ some mac
      → size_of.0 ≤ vrr_vset_size
      → vrr_rcv_setup env skb w
        ≡ done (
          true,
          sending
              (record (grown sender nh) { allocs = (grown sender nh).allocs + 1 + 1 })
              (frames env (setup_header mac) (put_words setup_words) w.node.dev_list),
        )
  unfolding vrr_rcv_setup finish_setup ◌>>=◌ ◌>>◌ get pure case_option alloc lift add_route
      send_setup send_to send_packet vrr_output read_array
  vrr_rcv_setup-forwards ample sender nh mac from on hop some_hop at small = rw (
    from,
    on,
    hop,
    added,
    ge→ltb vrr_vset_size size_of.0 small,
    ample (grown sender nh).allocs,
    ==_ne nh 0 some_hop,
    at,
    ample ((grown sender nh).allocs + 1),
    output_loop-sending env ample (setup_header mac) (put_words setup_words) w.node.dev_list
        (record (grown sender nh) { allocs = (grown sender nh).allocs + 1 + 1 }),
  )
    where
      added :
          (rt_add_route env.rb env.kmalloc source target sender nh path_id_of.0 w.rt_root
            w.allocs).0
          ≡ true
      added =
          rt_add_route-succeeds env.rb env.kmalloc w.me ample source target sender nh path_id_of.0
            w.rt_root w.allocs
