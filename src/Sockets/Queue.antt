-- ===== src/Sockets/Queue.antt =====
-- The receive queue of a socket, and its life: `vrr_recvmsg`, `vrr_backlog_rcv`, `vrr_create` and
-- `vrr_release` of af_vrr.c.
--
-- The queue is the list of its packets, the oldest first. The bytes behind a packet's header are its
-- payload, and a copy past them is a fault.
use alpaca_vrr.Base.{
  ℕ, Bool, true, false, not, Option, none, some, List, [], ◌∷◌, ◌==◌, if◌then◌else◌, ◌||◌, ltb, leb,
  length, take, Run, bind_run, ◌⊎◌, inl, inr, done, oops, out_of_bounds,
}
use alpaca_vrr.Sockets.{VrrSock, SockTable, vrr_unhash_sock}
use alpaca_vrr.Sockets.Calls.{
  Errno, Socket, efault, eintr, ewouldblock, erestartsys, eprotonosupport, esocktnosupport, enomem,
}
use alpaca_vrr.Wire.{Skb, ntoh}

-- What a caller of `vrr_recvmsg` gives: the length of the buffer, the flags MSG_DONTWAIT and
-- MSG_PEEK, and whether the buffer is one that `copy_to_user` can write to.
pub record Request : Type 0 where
  pub len : ℕ
  pub dontwait : Bool
  pub peek : Bool
  pub writable : Bool

-- What comes of it: the bytes that are copied, with MSG_TRUNC or without, an error, or the wait.
pub data Answer : Type 0 where
  received : List ℕ → Bool → Answer
  refused : Errno → Answer
  waits : Answer

-- `vrr_advance_rx_queue`
unfoldable pub vrr_advance_rx_queue : List Skb → List Skb
vrr_advance_rx_queue [] = []
vrr_advance_rx_queue (skb ∷ queue) = queue

-- From the packet at the front, `sz` bytes of it. A copy of no bytes cannot fail.
unfoldable pub copy_front : Request → ℕ → Bool → Skb → List Skb → Run (Answer × List Skb)
unfolding vrr_advance_rx_queue
copy_front r sz trunc skb queue =
    if not (r.writable || sz == 0)
    then done (refused efault, skb ∷ queue)
    else if not (leb sz (length skb.payload))
    then oops out_of_bounds
    else if r.peek
    then done (received (take sz skb.payload) trunc, skb ∷ queue)
    else done (received (take sz skb.payload) trunc, vrr_advance_rx_queue (skb ∷ queue))

-- From the label `restart` on, up to the wait or the end. Packets that say they are empty are
-- dropped.
unfoldable pub restart : Request → Bool → List Skb → Run (Answer × List Skb)
restart r connected [] =
    if not connected
    then done (refused eintr, [])
    else if r.dontwait
    then done (refused ewouldblock, [])
    else done (waits, [])
restart r connected (skb ∷ queue) =
    let sz = ntoh 0 skb.header.data_len in
    let rest = restart r connected queue in
    if sz == 0
    then rest
    else if ltb r.len sz
    then copy_front r r.len true skb queue
    else copy_front r sz false skb queue

-- How `wait_event_interruptible` ends: by a signal, or with the state and the queue that are there
-- then.
pub data Wake : Type 0 where
  interrupted : Wake
  woken : Bool → List Skb → Wake

-- What follows where the part up to the wait is over: the end, or the loop again after the wait.
abbrev pub resume :
    (Bool → List Skb → Run (Answer × List Skb)) → Wake → Answer × List Skb → Run (Answer × List Skb)
resume again wake (received bytes trunc, queue) = done (received bytes trunc, queue)
resume again wake (refused e, queue) = done (refused e, queue)
resume again interrupted (waits, queue) = done (refused erestartsys, queue)
resume again (woken connected later) (waits, queue) = again connected later

-- The whole call, with the ends of its waits as far as they are known.
unfoldable pub vrr_recvmsg : Request → Bool → List Skb → List Wake → Run (Answer × List Skb)
vrr_recvmsg r connected queue [] = restart r connected queue
vrr_recvmsg r connected queue (wake ∷ wakes) =
    bind_run (restart r connected queue)
      (resume (λ connected' later. vrr_recvmsg r connected' later wakes) wake)

-- The queue after `sock_queue_rcv_skb`, none if that fails. NET_RX_SUCCESS is true.
unfoldable pub vrr_backlog_rcv :
    (List Skb → Skb → Option (List Skb)) → List Skb → Skb → Bool × List Skb
vrr_backlog_rcv sock_queue_rcv_skb queue skb = elim (sock_queue_rcv_skb queue skb) [
  | none ↦ (false, queue)
  | some queue' ↦ (true, queue')
]

-- For a protocol, whether the type is SOCK_RAW, and what `sk_alloc` gives: an error or the socket.
unfoldable pub vrr_create : ℕ → Bool → Option VrrSock → Errno ⊎ Socket
vrr_create protocol raw sk =
    if not (protocol == 0)
    then inl eprotonosupport
    else if not raw
    then inl esocktnosupport
    else elim sk [ none ↦ inl enomem | some sk' ↦ inr (record { sk = sk'; connected = false }) ]

-- `sk_common_release` takes the socket out by the `unhash` of `vrr_proto`.
unfoldable pub vrr_release :
    ((VrrSock → SockTable → SockTable) → VrrSock → SockTable → SockTable)
    → Socket
    → SockTable
    → SockTable
vrr_release sk_common_release sock socks = sk_common_release vrr_unhash_sock sock.sk socks
