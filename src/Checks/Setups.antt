-- ===== src/Checks/Setups.antt =====
-- Examples of packets that pass a node.
use alpaca_vrr.Base.{◌+◌, ◌≡◌, refl, true, [], ◌∷◌, done, arith}
use alpaca_vrr.Pset.{pset_get_status, pset_get_mac, pset_lookup_mac}
use alpaca_vrr.Wire.{Skb, ntoh, htonl, build_header, read_word, put_words, vrr_setup}
use alpaca_vrr.World.{World}
use alpaca_vrr.Send.Frames.{sending, frames}
use alpaca_vrr.Receive.Setup.{hop_towards, setup_ends, setup_sender, vrr_rcv_setup}
use alpaca_vrr.Receive.Forwarded.{grown, setup_header, setup_words, vrr_rcv_setup-forwards}
use alpaca_vrr.Checks.Samples.{entry}
use alpaca_vrr.Checks.Worlds.{kernel, world}

-- The neighbours are 5 and 7.
abbrev between : World
between = record world { pset = entry 5 0 1 0 ∷ entry 7 0 1 0 ∷ [] }

-- The path 3 from the node 4 to the node 7, by the node 5.
abbrev setup : Skb
setup = record {
  header =
      build_header 1
        (record { src = 4; dst = 7; data_len = 16; pkt_type = vrr_setup; dest_mac = 1 ∷ [] });
  payload = put_words (3 ∷ 0 ∷ 1 ∷ 8 ∷ []);
  source_mac = 5 ∷ [];
  dev_addr = 1 ∷ [];
}

vrr_rcv_setup-forwards_example :
    vrr_rcv_setup kernel setup between
    ≡ done (
      true,
      sending
          (record (grown kernel setup between 5 7) {
            allocs = (grown kernel setup between 5 7).allocs + 1 + 1;
          })
          (frames kernel
            (setup_header kernel setup between (7 ∷ []))
            (put_words (setup_words kernel setup between))
            between.node.dev_list),
    )
unfolding hop_towards setup_ends setup_sender pset_get_status pset_get_mac pset_lookup_mac ntoh
    htonl build_header read_word put_words
vrr_rcv_setup-forwards_example =
    vrr_rcv_setup-forwards kernel setup between (λ n. refl) 5 7 (7 ∷ []) refl refl refl
      (omega arith) refl (omega arith)
