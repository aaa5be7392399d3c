-- ===== src/Travel/Delivered.antt =====
-- A message from the call that sends it, by the nodes between, to the call that receives it.
use alpaca_vrr.Base.{
  ℕ, ◌≤◌, ◌<◌, ◌≡◌, ◌≢◌, refl, sym, ap, ◌∙◌, Bool, true, false, Option, some, List, ◌∷◌, ◌++◌, done,
  length, All, subst, ==_ne,
}
use alpaca_vrr.Ids.{word}
use alpaca_vrr.Rt.{rt_get_next}
use alpaca_vrr.Rt.Paths.{walk, last_of}
use alpaca_vrr.Wire.{Skb, ntoh, build_header}
use alpaca_vrr.Wire.Words.{ntohl-htonl}
use alpaca_vrr.World.{World, Env}
use alpaca_vrr.Sockets.{vrr_find_sock}
use alpaca_vrr.Sockets.Calls.{address_for, vrr_sendmsg}
use alpaca_vrr.Sockets.Delivery.{vrr_sendmsg-EndsFrom}
use alpaca_vrr.Base.{oops, use_after_free}
use alpaca_vrr.Sockets.Messages.{data_header, vrr_sendmsg-frames}
use alpaca_vrr.Send.Frames.{frames}
use alpaca_vrr.Travel.Relay.{
  Network, IsReliable, Trip, Linked, Links, arrival, relay, post, post-sends,
}
use alpaca_vrr.Travel.Carried.{frames-carried, carried-sending, walk-goes_on}
use alpaca_vrr.Travel.Message.{tables, handed, IsCopy, copies, relay-Arrives}
use alpaca_vrr.Wire.{htonl}
use alpaca_vrr.Sockets.Queue.{Request, Wake, received, vrr_recvmsg}
use alpaca_vrr.Sockets.Messages.{IsEmpty, arrived-received}

module _ (envs : ℕ → Env) (worlds : ℕ → World) (src dst handle : ℕ) where
  -- The trip of a message by the nodes, with the packet that the socket gets in the end.
  abbrev pub Delivers : List ℕ → List ℕ → Option Trip → Skb → Type 0
  Delivers visits bytes trip skb =
      ((mac : List ℕ) × IsCopy (data_header (worlds src) dst mac (length bytes)) bytes skb)
      × (trip
          ≡ some (record {
            visits = visits;
            last = done (true, handed (envs dst) handle skb (worlds dst));
          }))

module _ (net : Network) (envs : ℕ → Env) (worlds : ℕ → World) (reliable : IsReliable net)
    (ample : (n k : ℕ) → (envs n).kmalloc k ≡ true) (ids : (n : ℕ) → (worlds n).node.id ≡ n)
    (mes : (n : ℕ) → (worlds n).me ≡ n) (src dst : ℕ) (ws : src < word) (wd : dst < word)
    (handle : ℕ) (socket : vrr_find_sock src (worlds dst).socks ≡ some handle)
    (takes : (skb : Skb) → (envs dst).sk_receive_skb handle skb ≡ true) where
  address_for-hop :
      (m : ℕ)
      → src ≢ dst
      → rt_get_next src (tables worlds src) dst ≡ m
      → (l : Linked net envs worlds src m)
      → address_for (envs src).junk dst (worlds src) ≡ some l.mac
  unfolding address_for
  address_for-hop m away way l =
      rw
        (
          ==_ne dst (worlds src).node.id (λ q. away (sym (ids src) ∙ sym q)),
          mes src,
          way,
          ==_ne m 0 l.named,
        )
        l.address

  message-delivered :
      (m : ℕ) (hops bytes : List ℕ) (k : ℕ)
      → length hops ≤ k
      → walk (tables worlds) (length (src ∷ m ∷ hops)) dst src ≡ src ∷ m ∷ hops
      → last_of m hops ≡ dst
      → Links net envs worlds src (m ∷ hops)
      → (skb : Skb) × Delivers envs worlds src dst handle
          (m ∷ hops)
          bytes
          (post net envs worlds k src dst bytes)
          skb
  unfolding build_header
  message-delivered m hops bytes k b w e l =
      let (away, way, rest) = walk-goes_on (tables worlds) (length (m ∷ hops)) dst src m hops w in
      let header = data_header (worlds src) dst l.0.mac (length bytes) in
      let (f, there, c) =
        frames-carried (envs src) header bytes net reliable (worlds src).node.dev_list l.0.up in
      let run =
        vrr_sendmsg-frames (envs src) (ample src) dst l.0.mac bytes (worlds src)
          (address_for-hop m away way l.0) in
      let on =
        carried-sending net (worlds src) _ _
          (frames (envs src) header bytes (worlds src).node.dev_list) run refl
        ∙ there in
      let (skb, last, trip) =
        relay-Arrives net envs worlds reliable ample ids mes dst handle header bytes refl
          (ntohl-htonl dst wd)
          (subst (λ z. vrr_find_sock z (worlds dst).socks ≡ some handle)
            (sym (ap (λ z. ntoh 0 (htonl z)) (ids src) ∙ ntohl-htonl src ws)) socket)
          takes m hops k (arrival f) b
          (
            l.0.mac,
            f.source_mac,
            f.dest_mac,
            copies header bytes header bytes l.0.mac f c refl refl,
          )
          rest e l.1 in
      (
        skb,
        (
          (l.0.mac, last),
          post-sends net envs worlds k src dst bytes f on
              ∙ ap some (
                  ap (λ z. relay net envs worlds k z (arrival f)) (ap net.owner c.2 ∙ l.0.owned)
                  ∙ trip),
        ),
      )

  -- The buffer of the message is freed twice.
  message-freed :
      (m : ℕ) (hops bytes : List ℕ)
      → walk (tables worlds) (length (src ∷ m ∷ hops)) dst src ≡ src ∷ m ∷ hops
      → last_of m hops ≡ dst
      → Links net envs worlds src (m ∷ hops)
      → vrr_sendmsg (envs src) (some dst) (some bytes) (length bytes) (worlds src)
        ≡ oops use_after_free
  message-freed m hops bytes w e l =
      let (away, way, rest) = walk-goes_on (tables worlds) (length (m ∷ hops)) dst src m hops w in
      vrr_sendmsg-EndsFrom (envs src) (some dst) (some bytes) (length bytes) (worlds src) _ (
        vrr_sendmsg-frames (envs src) (ample src) dst l.0.mac bytes (worlds src)
          (address_for-hop m away way l.0))

  -- Nodes with identifiers of their own and memory at hand; two 32-bit identifiers, where the socket
  -- of one is connected to the other and the socket layer takes all packets for it; and a network in which, of the frames of a node, one arrives at
  -- the node that has its address. Where the tables lead from one to the other, each node has an
  -- interface and knows the address of the next node, whose identifier is not 0, then a message of 1
  -- to 65535 bytes is handed to the node after it by each node on that way, and by the last one to the
  -- socket. This is so for `vrr_sendmsg` with its call of `vrr_output`, behind which it frees the
  -- buffer a second time: a fault, which is taken to do the frames no harm. From the queue of the socket, behind packets that say they are empty, `vrr_recvmsg` without MSG_PEEK,
  -- with a buffer that is large enough and can be written to, returns the bytes of the message, and
  -- leaves what stands behind it.
  pub message-received :
      (m : ℕ) (hops bytes : List ℕ) (k : ℕ)
      → length hops ≤ k
      → walk (tables worlds) (length (src ∷ m ∷ hops)) dst src ≡ src ∷ m ∷ hops
      → last_of m hops ≡ dst
      → Links net envs worlds src (m ∷ hops)
      → 0 < length bytes
      → length bytes < 0x1_0000
      → (r : Request) (c : Bool) (zs queue : List Skb) (wakes : List Wake) → r.writable ≡ true
      → r.peek ≡ false
      → length bytes ≤ r.len
      → All IsEmpty zs
      → (skb : Skb) × Delivers envs worlds src dst handle
          (m ∷ hops)
          bytes
          (post net envs worlds k src dst bytes)
          skb
        × (vrr_sendmsg (envs src) (some dst) (some bytes) (length bytes) (worlds src)
            ≡ oops use_after_free)
        × (vrr_recvmsg r c (zs ++ skb ∷ queue) wakes ≡ done (received bytes false, queue))
  message-received m hops bytes k b w e l some_bytes small r c zs queue wakes ok off room empty =
      let (skb, ((mac, (hop, source, dev, same)), trip)) =
        message-delivered m hops bytes k b w e l in
      (
        skb,
        (((mac, (hop, source, dev, same)), trip)),
        message-freed m hops bytes w e l,
        ap (λ z. vrr_recvmsg r c (zs ++ z ∷ queue) wakes) same
            ∙ arrived-received dst mac bytes (worlds src) some_bytes small r c zs queue wakes hop
                source dev ok off room empty,
      )
