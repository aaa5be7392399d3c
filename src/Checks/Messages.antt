-- ===== src/Checks/Messages.antt =====
-- Examples of the calls of a socket that receive, and of its start.
use alpaca_vrr.Base.{
  use_after_free, ◌≡◌, refl, true, false, some, none, [], ◌∷◌, arith, done, oops, out_of_bounds,
  inl, inr, Returns,
}
use alpaca_vrr.Wire.{Skb, ntoh, build_header}
use alpaca_vrr.World.{World}
use alpaca_vrr.Ids.{get_diff}
use alpaca_vrr.Rt.{rt_get_next, route_list_search}
use alpaca_vrr.Pset.{pset_get_mac}
use alpaca_vrr.Sockets.Calls.{
  sent, address_for, send_message, vrr_sendmsg, eintr, ewouldblock, erestartsys, esocktnosupport,
}
use alpaca_vrr.Sockets.Queue.{
  Request, received, refused, interrupted, woken, vrr_recvmsg, restart, copy_front, vrr_backlog_rcv,
  vrr_create,
}
use alpaca_vrr.Sockets.Messages.{data_header, arrived, vrr_recvmsg-front, vrr_sendmsg-received}
use alpaca_vrr.Sockets.Waiting.{Ended, vrr_recvmsg-ends}
use alpaca_vrr.Send.Frames.{sending, frames}
use alpaca_vrr.Checks.Samples.{entry}
use alpaca_vrr.Checks.Worlds.{kernel, world}

abbrev request : Request
request = record { len = 4; dontwait = false; peek = false; writable = true }

abbrev letter : Skb
letter = arrived (data_header world 9 (5 ∷ []) 2) (b'h' ∷ b'i' ∷ []) (5 ∷ []) (5 ∷ []) (1 ∷ [])

-- Says that it is empty.
abbrev hollow : Skb
hollow = arrived (data_header world 9 (5 ∷ []) 0) [] (5 ∷ []) (5 ∷ []) (1 ∷ [])

-- Says that it has more than it has.
abbrev broken : Skb
broken = arrived (data_header world 9 (5 ∷ []) 3) [] (5 ∷ []) (5 ∷ []) (1 ∷ [])

abbrev impatient : Request
impatient = record request { dontwait = true }

recvmsg_closed : vrr_recvmsg request false (hollow ∷ []) [] ≡ done (refused eintr, [])
unfolding vrr_recvmsg restart ntoh build_header
recvmsg_closed = refl

recvmsg_impatient : vrr_recvmsg impatient true [] [] ≡ done (refused ewouldblock, [])
unfolding vrr_recvmsg restart ntoh build_header
recvmsg_impatient = refl

recvmsg_signal : vrr_recvmsg request true [] (interrupted ∷ []) ≡ done (refused erestartsys, [])
unfolding vrr_recvmsg restart ntoh build_header
recvmsg_signal = refl

recvmsg_woken :
    vrr_recvmsg request true [] (woken true (hollow ∷ letter ∷ []) ∷ [])
    ≡ done (received (b'h' ∷ b'i' ∷ []) false, [])
unfolding vrr_recvmsg restart copy_front ntoh build_header
recvmsg_woken = refl

recvmsg_peeked :
    vrr_recvmsg (record request { len = 1; peek = true }) true (letter ∷ []) []
    ≡ done (received (b'h' ∷ []) true, letter ∷ [])
unfolding vrr_recvmsg restart copy_front ntoh build_header
recvmsg_peeked = refl

recvmsg_past : vrr_recvmsg request true (broken ∷ []) [] ≡ oops out_of_bounds
unfolding vrr_recvmsg restart copy_front ntoh build_header
recvmsg_past = refl

create_stream : vrr_create 0 false none ≡ inl esocktnosupport
unfolding vrr_create
create_stream = refl

backlog_full : vrr_backlog_rcv (λ queue skb. none) (letter ∷ []) letter ≡ (false, letter ∷ [])
unfolding vrr_backlog_rcv
backlog_full = refl

vrr_recvmsg-front_example :
    vrr_recvmsg request true (hollow ∷ letter ∷ hollow ∷ []) []
    ≡ done (received (b'h' ∷ b'i' ∷ []) false, hollow ∷ [])
unfolding ntoh build_header
vrr_recvmsg-front_example =
    vrr_recvmsg-front request true (hollow ∷ []) letter (hollow ∷ []) [] refl refl (refl, tt) refl

vrr_recvmsg-ends_example :
    Returns
      (vrr_recvmsg request true
        (hollow ∷ [])
        (woken true [] ∷ woken true (hollow ∷ letter ∷ []) ∷ []))
      (λ a. Ended a.0)
unfolding ntoh build_header
vrr_recvmsg-ends_example =
    vrr_recvmsg-ends request true (hollow ∷ [])
      (woken true [] ∷ woken true (hollow ∷ letter ∷ []) ∷ []) (refl, tt)
      (tt, ((refl, (refl, tt)), tt)) (inr (inr (inl (inr (inl (omega arith))))))

abbrev near : World
near = record world { pset = entry 7 0 1 0 ∷ [] }

abbrev note : Skb
note = arrived (data_header near 9 (7 ∷ []) 2) (b'h' ∷ b'i' ∷ []) (5 ∷ []) (5 ∷ []) (1 ∷ [])

vrr_sendmsg-received_example :
    (send_message kernel (some 9) (some (b'h' ∷ b'i' ∷ [])) 2 near
      ≡ done (
        sent 2,
        sending
            (record near { allocs = 1 })
            (frames kernel (data_header near 9 (7 ∷ []) 2) (b'h' ∷ b'i' ∷ []) near.node.dev_list),
      ))
    × (vrr_sendmsg kernel (some 9) (some (b'h' ∷ b'i' ∷ [])) 2 near ≡ oops use_after_free)
    × (vrr_recvmsg request true (hollow ∷ note ∷ []) []
        ≡ done (received (b'h' ∷ b'i' ∷ []) false, []))
unfolding address_for rt_get_next route_list_search get_diff pset_get_mac ntoh build_header
vrr_sendmsg-received_example =
    vrr_sendmsg-received kernel (λ n. refl) 9 (7 ∷ []) (b'h' ∷ b'i' ∷ []) near refl (omega arith)
      (omega arith) request true (hollow ∷ []) [] [] (5 ∷ []) (5 ∷ []) (1 ∷ []) refl refl
      (omega arith) (refl, tt)
