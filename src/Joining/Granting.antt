-- ===== src/Joining/Granting.antt =====
-- A setup request of a neighbour with an empty virtual set, where there is room: `vrr_rcv_setup_req`
-- of vrr_input.c takes it in and answers it by a setup.
use alpaca_vrr.Base.{
  ℕ, ◌+◌, ◌*◌, ◌<◌, ◌≡◌, ◌≢◌, refl, sym, ap, ◌∙◌, subst, bind_run, true, false, some, List, [], ◌∷◌,
  done, length, ==_ne, lt→ltb, le→leb, arith, ◌==◌,
}
use alpaca_vrr.Rt.{rt_get_next_exclude}
use alpaca_vrr.Pset.{pset_get_mac, pset_get_status, pset_unknown}
use alpaca_vrr.Vset.{
  Vset, VsetCopy, no_bump, vrr_vset_size, vset_has, vset_add, vset_bump, insert_vset_node,
  new_entry, vset_should_add, vset_get_all,
}
use alpaca_vrr.Wire.{Skb, VrrHeader, ntoh, build_header, put_words, read_words, vrr_setup_req}
use alpaca_vrr.World.{
  World, Env, pure, continue_with, ◌>>=◌, ◌>>◌, get, lift, read_array, alloc, vset_copy, should_add,
  add_to_vset, get_random,
}
use alpaca_vrr.Send.{vrr_output, send_packet, send_setup_req, vrr_add, request_setups, no_id}
use alpaca_vrr.Send.Frames.{sending, frames, output_loop-sending}
use alpaca_vrr.Receive.Setup.{hop_towards, vrr_rcv_setup_req}
use alpaca_vrr.Joining.Request.{asking, proxy_asked, size_asked, routed}
use alpaca_vrr.Travel.Start.{first_words, first_header, vrr_local_rcv_setup-sends}

-- The set with the node as its newest entry.
abbrev pub with_node : ℕ → ℕ → Vset → Vset
with_node me node v = record {
  entries = new_entry me node ∷ v.entries;
  vset_size = v.vset_size + 1;
}

-- A set with room takes any node that is not in it.
module _ (env : Env) (me node : ℕ) (v : Vset) (new : vset_has node v.entries ≡ false)
    (room : v.vset_size < vrr_vset_size) where
  pub vset_should_add-room : vset_should_add env.sort env.junk me node v ≡ done true
  unfolding vset_should_add
  vset_should_add-room = rw (new, lt→ltb v.vset_size vrr_vset_size room) refl

  pub vset_add-room :
      vset_add env.sort env.junk true me node v ≡ done (some no_bump, with_node me node v)
  unfolding vset_add insert_vset_node vset_bump
  vset_add-room = rw (new, le→leb (v.vset_size + 1) vrr_vset_size (omega arith)) refl

-- What `send_setup_req` sends.
abbrev pub request_words : ℕ → VsetCopy → List ℕ → List ℕ
request_words proxy vset cells = proxy ∷ vset.count ∷ cells

module _ (w : World) where
  abbrev pub request_header : ℕ → ℕ → ℕ → VsetCopy → List ℕ → List ℕ → VrrHeader
  request_header src dest proxy vset cells mac = build_header w.node.version (record {
    src = src;
    dst = dest;
    data_len = length (request_words proxy vset cells) * 4;
    pkt_type = vrr_setup_req;
    dest_mac = mac;
  })

module _ (env : Env) (ample : (n : ℕ) → env.kmalloc n ≡ true) (w : World) where
  pub send_setup_req-sends :
      (src dest proxy : ℕ) (mac : List ℕ) (vset : VsetCopy) (cells : List ℕ)
      → pset_get_mac proxy w.pset ≡ some mac
      → vset_get_all env.junk true w.vset ≡ done vset
      → read_array vset ≡ done cells
      → send_setup_req env src dest proxy w
        ≡ done (
          true,
          sending
              (record w { allocs = w.allocs + 1 + 1 + 1 })
              (frames env
                (request_header w src dest proxy vset cells mac)
                (put_words (request_words proxy vset cells))
                w.node.dev_list),
        )
  unfolding send_setup_req ◌>>=◌ ◌>>◌ get pure alloc lift vset_copy send_packet vrr_output
  send_setup_req-sends src dest proxy mac vset cells known copied readable = rw (
    known,
    ample w.allocs,
    copied,
    ample (w.allocs + 1),
    readable,
    ample (w.allocs + 1 + 1),
    output_loop-sending env ample (request_header w src dest proxy vset cells mac)
        (put_words (request_words proxy vset cells)) w.node.dev_list
        (record w { allocs = w.allocs + 1 + 1 + 1 }),
  )

pub hop_near :
    (dst proxy : ℕ) (v : World)
    → (pset_get_status dst v.pset == pset_unknown) ≡ false
    → hop_towards dst proxy v ≡ dst
unfolding hop_towards
hop_near dst proxy v near = rw near refl

no_words : (junk : ℕ → ℕ) (bytes : List ℕ) → (read_words junk 0 bytes).0 ≡ []
unfolding read_words
no_words junk bytes = ground arith

module _ (env : Env) (skb : Skb) (w : World) (pid : ℕ) where
  -- The world after the source was taken in, where its route is laid.
  abbrev pub taken_in : World
  taken_in = record w {
    vset = with_node w.me (asking env skb w) w.vset;
    allocs = w.allocs + 1 + 1 + 1;
    draws = w.draws + 1;
  }

  abbrev pub answered : VsetCopy → List ℕ → List ℕ → World
  answered ovset cells mac =
      let dst = asking env skb w in
      let proxy = (proxy_asked env skb w).0 in
      let v = routed env dst pid proxy taken_in in
      sending (record v { allocs = v.allocs + 1 })
        (frames env (first_header env dst pid proxy ovset cells taken_in mac)
          (put_words (first_words env dst pid proxy ovset cells taken_in)) w.node.dev_list)

  module _ (ample : (n : ℕ) → env.kmalloc n ≡ true)
      (new : vset_has (asking env skb w) w.vset.entries ≡ false)
      (room : w.vset.vset_size < vrr_vset_size) (random : env.random w.draws ≡ pid) where
    pub vrr_rcv_setup_req-answers :
        (ovset : VsetCopy) (cells mac : List ℕ)
        → rt_get_next_exclude w.me w.rt_root (ntoh 0 skb.header.dest_id) (asking env skb w) ≡ 0
        → (size_asked env skb w).0 ≡ 0
        → asking env skb w ≢ no_id
        → asking env skb w ≢ 0
        → vset_get_all env.junk true w.vset ≡ done ovset
        → read_array ovset ≡ done cells
        → (pset_get_status (asking env skb w) w.pset == pset_unknown) ≡ false
        → pset_get_mac (asking env skb w) w.pset ≡ some mac
        → vrr_rcv_setup_req env skb w ≡ done (true, answered ovset cells mac)
    unfolding vrr_rcv_setup_req ◌>>=◌ ◌>>◌ get pure alloc lift vset_copy vrr_add request_setups
        should_add add_to_vset get_random
    vrr_rcv_setup_req-answers ovset cells mac here none_told id some_id copied readable near known =
        rw
          (
            here,
            none_told,
            ample w.allocs,
            ample (w.allocs + 1),
            copied,
            no_words env.junk (size_asked env skb w).1,
            ==_ne (asking env skb w) no_id id,
            vset_should_add-room env w.me (asking env skb w) w.vset new room,
            new,
            ample (w.allocs + 1 + 1),
            vset_add-room env w.me (asking env skb w) w.vset new room,
            random,
          )
          (ap (λ o. bind_run o (continue_with (λ x. pure true)))
            (vrr_local_rcv_setup-sends env (asking env skb w) pid (proxy_asked env skb w).0 ovset
              cells taken_in ample mac readable (λ z. some_id (sym hop ∙ z))
              (subst (λ k. pset_get_mac k w.pset ≡ some mac) (sym hop) known)))
      where
        hop : hop_towards (asking env skb w) (proxy_asked env skb w).0 taken_in ≡ asking env skb w
        hop = hop_near (asking env skb w) (proxy_asked env skb w).0 taken_in near
