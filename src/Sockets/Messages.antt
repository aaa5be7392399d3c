-- ===== src/Sockets/Messages.antt =====
-- Messages from the call that sends them to the call that receives them.
use alpaca_vrr.Base.{
  ℕ, ◌+◌, ◌%◌, ◌≤◌, ◌<◌, ◌≡◌, refl, Bool, true, false, some, List, [], ◌∷◌, ◌++◌, ◌==◌,
  if◌then◌else◌, ltb, ge→ltb, le→leb, length, take, take_all, All, done, arith, inl, inr,
  Bool-cases, ltb→lt, ==_ne, ◌∙◌, ap,
}
use alpaca_vrr.Sockets.Calls.{sent, address_for, send_message, vrr_sendmsg}
use alpaca_vrr.Sockets.Delivery.{vrr_sendmsg-EndsFrom}
use alpaca_vrr.Base.{oops, use_after_free}
use alpaca_vrr.Sockets.Queue.{
  Request, received, Wake, vrr_advance_rx_queue, copy_front, restart, vrr_recvmsg,
}
use alpaca_vrr.Wire.{VrrHeader, Skb, build_header, ntoh, htons, vrr_data}
use alpaca_vrr.World.{World, Env, pure, ◌>>=◌, ◌>>◌, get, case_option, alloc}
use alpaca_vrr.Send.{vrr_output}
use alpaca_vrr.Send.Frames.{sending, frames, output_loop-sending}

-- The header of a message of so many bytes.
abbrev pub data_header : World → ℕ → List ℕ → ℕ → VrrHeader
data_header w addr mac len =
    build_header w.node.version
      (record { src = w.node.id; dst = addr; data_len = len; pkt_type = vrr_data; dest_mac = mac })

-- The packet that says it is empty.
abbrev pub IsEmpty : Skb → Type 0
IsEmpty skb = ntoh 0 skb.header.data_len ≡ 0

-- The length in the header is that of the payload, as far as 16 bits hold it.
abbrev pub IsWhole : Skb → Type 0
IsWhole skb = ntoh 0 skb.header.data_len ≡ length skb.payload % 0x1_0000

restart-skips :
    (r : Request) (c : Bool) (zs queue : List Skb)
    → All IsEmpty zs
    → restart r c (zs ++ queue) ≡ restart r c queue
unfolding restart
restart-skips r c [] queue h = refl
restart-skips r c (z ∷ zs) queue h = rw (h.0) (restart-skips r c zs queue h.1)

copy_front-copies :
    (r : Request) (sz : ℕ) (trunc : Bool) (skb : Skb) (queue : List Skb)
    → r.writable ≡ true
    → r.peek ≡ false
    → sz ≤ length skb.payload
    → copy_front r sz trunc skb queue ≡ done (received (take sz skb.payload) trunc, queue)
unfolding copy_front vrr_advance_rx_queue
copy_front-copies r sz trunc skb queue ok off fits =
    rw (ok, off, le→leb sz (length skb.payload) fits)

-- How much of a packet is copied, and whether that is less than there is.
abbrev pub share : Request → Skb → ℕ
share r skb = let sz = length skb.payload % 0x1_0000 in if ltb r.len sz then r.len else sz

abbrev pub is_cut : Request → Skb → Bool
is_cut r skb = ltb r.len (length skb.payload % 0x1_0000)

restart-front :
    (r : Request) (c : Bool) (skb : Skb) (queue : List Skb)
    → r.writable ≡ true
    → r.peek ≡ false
    → IsWhole skb
    → 0 < length skb.payload % 0x1_0000
    → restart r c (skb ∷ queue)
      ≡ done (received (take (share r skb) skb.payload) (is_cut r skb), queue)
unfolding restart
restart-front r c skb queue ok off h p = elim (Bool-cases (is_cut r skb)) [
  | inl cut ↦ rw (
    h,
    some_bytes,
    cut,
    copy_front-copies r r.len true skb queue ok off
        (omega (arith, short, ltb→lt r.len (length skb.payload % 0x1_0000) cut)),
  )
  | inr all ↦ rw (
    h,
    some_bytes,
    all,
    copy_front-copies r (length skb.payload % 0x1_0000) false skb queue ok off short,
  )
]
  where
    short : length skb.payload % 0x1_0000 ≤ length skb.payload
    short = omega arith

    some_bytes : (length skb.payload % 0x1_0000 == 0) ≡ false
    some_bytes = ==_ne _ 0 (omega arith)

==_zero : (n : ℕ) → (n == 0) ≡ true → n ≡ 0
==_zero n h = ground arith

==_positive : (n : ℕ) → (n == 0) ≡ false → 0 < n
==_positive n h = ground arith

-- With a buffer that can be written to and without MSG_PEEK: packets that say they are empty are
-- passed over, and a packet whose header has the length of its payload in 16 bits is passed over too
-- if those bits are 0; else the call returns as many bytes as the buffer takes, says whether that is
-- not all, and takes the packet out.
pub vrr_recvmsg-front :
    (r : Request) (c : Bool) (zs : List Skb) (skb : Skb) (queue : List Skb) (wakes : List Wake)
    → r.writable ≡ true
    → r.peek ≡ false
    → All IsEmpty zs
    → IsWhole skb
    → vrr_recvmsg r c (zs ++ skb ∷ queue) wakes ≡ (
        if length skb.payload % 0x1_0000 == 0
        then vrr_recvmsg r c queue wakes
        else done (received (take (share r skb) skb.payload) (is_cut r skb), queue))
unfolding vrr_recvmsg
vrr_recvmsg-front r c zs skb queue wakes ok off e h =
    elim (Bool-cases (length skb.payload % 0x1_0000 == 0)) [
      | inl none_left ↦ rw none_left (dropped wakes (==_zero _ none_left))
      | inr some_left ↦ rw some_left (taken wakes (==_positive _ some_left))
    ]
  where
    skipped : restart r c (zs ++ skb ∷ queue) ≡ restart r c (skb ∷ queue)
    skipped = restart-skips r c zs (skb ∷ queue) e

    dropped :
        (ws : List Wake)
        → length skb.payload % 0x1_0000 ≡ 0
        → vrr_recvmsg r c (zs ++ skb ∷ queue) ws ≡ vrr_recvmsg r c queue ws
    dropped [] z = skipped ∙ restart-skips r c (skb ∷ []) queue (h ∙ z, tt)
    dropped (wake ∷ ws) z = rw (skipped, restart-skips r c (skb ∷ []) queue (h ∙ z, tt)) refl

    taken :
        (ws : List Wake)
        → 0 < length skb.payload % 0x1_0000
        → vrr_recvmsg r c (zs ++ skb ∷ queue) ws
          ≡ done (received (take (share r skb) skb.payload) (is_cut r skb), queue)
    taken [] p = skipped ∙ restart-front r c skb queue ok off h p
    taken (wake ∷ ws) p = rw (skipped, restart-front r c skb queue ok off h p)

-- The packet as it arrives, with the link-layer address of its last hop.
abbrev pub arrived : VrrHeader → List ℕ → List ℕ → List ℕ → List ℕ → Skb
arrived header bytes hop source dev = record {
  header = record header { dest_mac = hop };
  payload = bytes;
  source_mac = source;
  dev_addr = dev;
}

pub vrr_sendmsg-frames :
    (env : Env)
    → ((n : ℕ) → env.kmalloc n ≡ true)
    → (addr : ℕ) (mac bytes : List ℕ) (w : World) → address_for env.junk addr w ≡ some mac
    → send_message env (some addr) (some bytes) (length bytes) w
      ≡ done (
        sent (length bytes),
        sending
            (record w { allocs = w.allocs + 1 })
            (frames env (data_header w addr mac (length bytes)) bytes w.node.dev_list),
      )
unfolding send_message vrr_output pure ◌>>=◌ ◌>>◌ alloc get case_option
vrr_sendmsg-frames env ample addr mac bytes w way = rw (
  way,
  ample w.allocs,
  output_loop-sending env ample (data_header w addr mac (length bytes)) bytes w.node.dev_list
      (record w { allocs = w.allocs + 1 }),
)

data_header-IsWhole :
    (w : World) (addr : ℕ) (mac bytes hop source dev : List ℕ)
    → IsWhole (arrived (data_header w addr mac (length bytes)) bytes hop source dev)
unfolding build_header ntoh htons
data_header-IsWhole w addr mac bytes hop source dev = omega arith

-- A copy of a message of 1 to 65535 bytes that stands first is received whole.
pub arrived-received :
    (addr : ℕ) (mac bytes : List ℕ) (w : World)
    → 0 < length bytes
    → length bytes < 0x1_0000
    → (r : Request) (c : Bool) (zs queue : List Skb) (wakes : List Wake) (hop source dev : List ℕ)
    → r.writable ≡ true
    → r.peek ≡ false
    → length bytes ≤ r.len
    → All IsEmpty zs
    → vrr_recvmsg r c
        (zs ++ arrived (data_header w addr mac (length bytes)) bytes hop source dev ∷ queue)
        wakes
      ≡ done (received bytes false, queue)
arrived-received addr mac bytes w some_bytes small r c zs queue wakes hop source dev ok off room e =
    vrr_recvmsg-front r c zs (arrived (data_header w addr mac (length bytes)) bytes hop source dev)
      queue wakes ok off e (data_header-IsWhole w addr mac bytes hop source dev)
    ∙ rw
        (
          ==_ne (length bytes % 0x1_0000) 0 (omega (arith, same)),
          same,
          ge→ltb r.len (length bytes) room,
        )
        (ap (λ b. done (received b false, queue)) (take_all (length bytes) bytes (omega arith)))
  where
    same : length bytes % 0x1_0000 ≡ length bytes
    same = omega (arith, small)

-- With memory at hand and a way to the destination, `vrr_sendmsg`, with its call of `vrr_output`, sends
-- a message of 1 to 65535 bytes by each interface that is there; then it frees the buffer a second
-- time, which is a fault. As long as that does the frames no harm: where a frame of it arrives, by whatever
-- hops, and stands in the queue behind packets that say they are empty, `vrr_recvmsg` without
-- MSG_PEEK, with a buffer that is large enough and can be written to, returns the bytes of the
-- message, and leaves what stands behind it.
pub vrr_sendmsg-received :
    (env : Env)
    → ((n : ℕ) → env.kmalloc n ≡ true)
    → (addr : ℕ) (mac bytes : List ℕ) (w : World) → address_for env.junk addr w ≡ some mac
    → 0 < length bytes
    → length bytes < 0x1_0000
    → (r : Request) (c : Bool) (zs queue : List Skb) (wakes : List Wake) (hop source dev : List ℕ)
    → r.writable ≡ true
    → r.peek ≡ false
    → length bytes ≤ r.len
    → All IsEmpty zs
    → (send_message env (some addr) (some bytes) (length bytes) w
        ≡ done (
          sent (length bytes),
          sending
              (record w { allocs = w.allocs + 1 })
              (frames env (data_header w addr mac (length bytes)) bytes w.node.dev_list),
        ))
      × (vrr_sendmsg env (some addr) (some bytes) (length bytes) w ≡ oops use_after_free)
      × (vrr_recvmsg r c
            (zs ++ arrived (data_header w addr mac (length bytes)) bytes hop source dev ∷ queue)
            wakes
          ≡ done (received bytes false, queue))
vrr_sendmsg-received env ample addr mac bytes w way some_bytes small r c zs queue wakes hop source
      dev ok off room e =
    (
      vrr_sendmsg-frames env ample addr mac bytes w way,
      vrr_sendmsg-EndsFrom env (some addr) (some bytes) (length bytes) w _
          (vrr_sendmsg-frames env ample addr mac bytes w way),
      arrived-received addr mac bytes w some_bytes small r c zs queue wakes hop source dev ok off
          room e,
    )
