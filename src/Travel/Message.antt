-- ===== src/Travel/Message.antt =====
-- A data packet on its way by the routes of the tables: `vrr_rcv`, `vrr_rcv_data` and `vrr_forward` at
-- one node after the other.
use alpaca_vrr.Base.{
  ℕ, zero, suc, ◌≤◌, ◌≡◌, ◌≢◌, refl, sym, ap, ◌∙◌, true, false, some, List, [], ◌∷◌, done, length,
  arith, subst, if◌then◌else◌, ==_self, ==_ne, leb,
}
use mathlib.Core.List.{append-nil}
use alpaca_vrr.Rt.{rt_get_next}
use alpaca_vrr.Rt.Defs.{Tree}
use alpaca_vrr.Rt.Paths.{walk, last_of}
use alpaca_vrr.Pset.{pset_get_mac}
use alpaca_vrr.Wire.{Skb, VrrHeader, vrr_nptypes, ntoh}
use alpaca_vrr.Node.{reset_active_timeout}
use alpaca_vrr.World.{World, Env, Frame, pure, ◌>>=◌, ◌>>◌, get, modify, case_option}
use alpaca_vrr.Sockets.{vrr_find_sock}
use alpaca_vrr.Sockets.Messages.{arrived}
use alpaca_vrr.Send.Frames.{sending, frames}
use alpaca_vrr.Receive.{vrr_rcv, vrr_rcvfunc, vrr_rcv_data, note_alive, drop_skb}
use alpaca_vrr.Receive.Data.{sent_on, vrr_rcv_data-sent_on}
use alpaca_vrr.Travel.Relay.{
  Network, IsReliable, Trip, Linked, Links, arrival, carried, relay, relay-on, relay-stops,
}
use alpaca_vrr.Travel.Carried.{
  Carries, frames-carried, carried-sending, pset_get_mac-reset, walk-goes_on,
}

-- The world after the packet was noted, and after the socket got it.
abbrev noted : Env → Skb → World → World
noted env skb w = note_alive env (ntoh 0 skb.header.src_id) w

abbrev pub handed : Env → ℕ → Skb → World → World
handed env handle skb w =
    let v = noted env skb w in record v { delivered = (handle, skb) ∷ v.delivered }

module _ (env : Env) (skb : Skb) (w : World) where
  dispatched :
      (t : ℕ)
      → t ≡ 0
      → (if leb vrr_nptypes t then pure false else (do
        modify (note_alive env (ntoh 0 skb.header.src_id))
        ok ← vrr_rcvfunc env t skb
        if ok then pure true else drop_skb env skb))
          w
        ≡ (vrr_rcv_data env skb >>= λ ok. if ok then pure true else drop_skb env skb)
            (noted env skb w)
  unfolding vrr_rcvfunc ◌>>=◌ ◌>>◌ modify
  dispatched t e = rw e refl

  vrr_rcv-data :
      (v : World)
      → skb.header.pkt_type ≡ 0
      → vrr_rcv_data env skb (noted env skb w) ≡ done (true, v)
      → vrr_rcv env skb w ≡ done (true, v)
  unfolding vrr_rcv ◌>>=◌ pure
  vrr_rcv-data v is_data e = dispatched skb.header.pkt_type is_data ∙ rw e refl

  vrr_rcv-sends_on :
      skb.header.pkt_type ≡ 0
      → ((n : ℕ) → env.kmalloc n ≡ true)
      → ntoh 0 skb.header.dest_id ≢ w.node.id
      → vrr_rcv env skb w ≡ done (true, sent_on env skb (noted env skb w))
  unfolding reset_active_timeout
  vrr_rcv-sends_on is_data ample other =
      vrr_rcv-data _ is_data (vrr_rcv_data-sent_on env skb (noted env skb w) ample other)

  vrr_rcv-hands :
      (handle : ℕ)
      → skb.header.pkt_type ≡ 0
      → ntoh 0 skb.header.dest_id ≡ w.node.id
      → vrr_find_sock (ntoh 0 skb.header.src_id) w.socks ≡ some handle
      → env.sk_receive_skb handle skb ≡ true
      → vrr_rcv env skb w ≡ done (true, handed env handle skb w)
  unfolding vrr_rcv_data reset_active_timeout ◌>>=◌ ◌>>◌ modify get pure case_option
  vrr_rcv-hands handle is_data here there takes =
      vrr_rcv-data _ is_data (rw (here, ==_self w.node.id, there) (rw takes refl))

  sent_on-sending :
      (m : ℕ) (mac : List ℕ)
      → rt_get_next w.me w.rt_root (ntoh 0 skb.header.dest_id) ≡ m
      → m ≢ 0
      → pset_get_mac m w.pset ≡ some mac
      → sent_on env skb (noted env skb w)
        ≡ sending
            (noted env skb w)
            (frames env (record (skb.header) { dest_mac = mac }) skb.payload w.node.dev_list)
  unfolding reset_active_timeout
  sent_on-sending m mac way some_hop known =
      rw (way, ==_ne m 0 some_hop, pset_get_mac-reset (ntoh 0 skb.header.src_id) m w.pset, known)

-- The packet is a copy of the message, which keeps its header but for the address of the hop.
abbrev pub IsCopy : VrrHeader → List ℕ → Skb → Type 0
IsCopy header bytes skb =
    (hop : List ℕ) × (source : List ℕ) × (dev : List ℕ) × (skb
      ≡ arrived header bytes hop source dev)

pub copies :
    (header : VrrHeader) (bytes : List ℕ) (h : VrrHeader) (p mac : List ℕ) (f : Frame)
    → Carries h p f
    → h ≡ record header { dest_mac = mac }
    → p ≡ bytes
    → arrival f ≡ arrived header bytes mac f.source_mac f.dest_mac
copies header bytes h p mac f c eh ep = λ i. record {
  header = (c.0 ∙ eh) i;
  payload = (c.1 ∙ ep) i;
  source_mac = f.source_mac;
  dev_addr = f.dest_mac;
}

-- The routing table of each node.
abbrev pub tables : (ℕ → World) → ℕ → Tree
tables worlds n = (worlds n).rt_root

module _ (net : Network) (envs : ℕ → Env) (worlds : ℕ → World) (reliable : IsReliable net)
    (ample : (n k : ℕ) → (envs n).kmalloc k ≡ true) (ids : (n : ℕ) → (worlds n).node.id ≡ n)
    (mes : (n : ℕ) → (worlds n).me ≡ n) (dst handle : ℕ) where
  module _ (header : VrrHeader) (bytes : List ℕ) (h_type : header.pkt_type ≡ 0)
      (h_dst : ntoh 0 header.dest_id ≡ dst)
      (socket : vrr_find_sock (ntoh 0 header.src_id) (worlds dst).socks ≡ some handle)
      (takes : (skb : Skb) → (envs dst).sk_receive_skb handle skb ≡ true) where
    module _ (skb : Skb) (c : IsCopy header bytes skb) where
      copy_type : skb.header.pkt_type ≡ 0
      copy_type = ap (λ (z : Skb). z.header.pkt_type) c.3 ∙ h_type

      copy_dst : ntoh 0 skb.header.dest_id ≡ dst
      copy_dst = ap (λ (z : Skb). ntoh 0 z.header.dest_id) c.3 ∙ h_dst

      -- The next node gets a copy.
      goes_on :
          (n m : ℕ)
          → n ≢ dst
          → rt_get_next n (tables worlds n) dst ≡ m
          → Linked net envs worlds n m
          → (f : Frame) × (carried net (worlds n) (vrr_rcv (envs n) skb (worlds n)) ≡ some f)
            × (net.owner f.dest_mac ≡ m)
            × IsCopy header bytes (arrival f)
      goes_on n m away way l =
          let sent_header : VrrHeader = record (skb.header) { dest_mac = l.mac } in
          let (f, e, (fh, fp, fm)) =
            frames-carried (envs n) sent_header skb.payload net reliable (worlds n).node.dev_list
              l.up in
          let run =
            vrr_rcv-sends_on (envs n) skb (worlds n) copy_type (ample n)
              (λ q. away (sym (ids n) ∙ sym q ∙ copy_dst)) in
          (
            f,
            carried-sending net (worlds n) true _
                  (frames (envs n) sent_header skb.payload (worlds n).node.dev_list) run
                  (ap (λ (z : World). z.sent)
                    (sent_on-sending (envs n) skb (worlds n) m l.mac (rw (mes n, copy_dst) way)
                      l.named l.address))
                ∙ e,
            ap net.owner fm ∙ l.owned,
            (
              l.mac,
              f.source_mac,
              f.dest_mac,
              copies header bytes sent_header skb.payload l.mac f (fh, fp, fm)
                  (ap (λ (z : Skb). record (z.header) { dest_mac = l.mac }) c.3)
                  (ap (λ (z : Skb). z.payload) c.3),
            ),
          )

    -- Where the last call hands the packet to the socket.
    abbrev pub Arrives : List ℕ → Trip → Type 0
    Arrives visits trip =
        (skb : Skb) × IsCopy header bytes skb
        × (trip ≡ record {
          visits = visits;
          last = done (true, handed (envs dst) handle skb (worlds dst));
        })

    hands :
        (skb : Skb)
        → IsCopy header bytes skb
        → vrr_rcv (envs dst) skb (worlds dst)
          ≡ done (true, handed (envs dst) handle skb (worlds dst))
    hands skb c =
        vrr_rcv-hands (envs dst) skb (worlds dst) handle (copy_type skb c)
          (copy_dst skb c ∙ sym (ids dst))
          (ap (λ (z : Skb). vrr_find_sock (ntoh 0 z.header.src_id) (worlds dst).socks) c.3 ∙ socket)
          (takes skb)

    stops :
        (k : ℕ) (skb : Skb)
        → IsCopy header bytes skb
        → Arrives (dst ∷ []) (relay net envs worlds k dst skb)
    unfolding relay
    stops zero skb c = (skb, c, ap (λ o. record { visits = dst ∷ []; last = o }) (hands skb c))
    stops (suc k) skb c = (
      skb,
      c,
      relay-stops net envs worlds k dst skb (
            carried-sending net (worlds dst) _ _ [] (hands skb c)
              (sym (append-nil (worlds dst).sent)))
          ∙ ap (λ o. record { visits = dst ∷ []; last = o }) (hands skb c),
    )

    pub relay-Arrives :
        (n : ℕ) (hops : List ℕ) (k : ℕ) (skb : Skb)
        → length hops ≤ k
        → IsCopy header bytes skb
        → walk (tables worlds) (length (n ∷ hops)) dst n ≡ n ∷ hops
        → last_of n hops ≡ dst
        → Links net envs worlds n hops
        → Arrives (n ∷ hops) (relay net envs worlds k n skb)
    unfolding relay
    relay-Arrives n [] k skb b c w e l =
        subst (λ z. Arrives (z ∷ []) (relay net envs worlds k z skb)) (sym e) (stops k skb c)
    relay-Arrives n (m ∷ hops) zero skb b c w e l = absurd (omega arith)
    relay-Arrives n (m ∷ hops) (suc k) skb b c w e l =
        let (away, way, rest) = walk-goes_on (tables worlds) (length (m ∷ hops)) dst n m hops w in
        let (f, on, owner, c') = goes_on skb c n m away way l.0 in
        let (skb', last, trip) = relay-Arrives m hops k (arrival f) (omega arith) c' rest e l.1 in
        (
          skb',
          last,
          relay-on net envs worlds k n skb f on
              ∙ ap (λ (t : Trip). record t { visits = n ∷ t.visits })
                  (ap (λ z. relay net envs worlds k z (arrival f)) owner ∙ trip),
        )
