-- ===== src/Sockets/Delivery.antt =====
-- What the calls of a user do: a connected socket receives, and what becomes of a message.
use alpaca_vrr.Base.{
  ℕ, ◌≡◌, true, Option, none, some, List, ◌∷◌, done, Returns, ==_self, arith, not,
}
use alpaca_vrr.Sockets.{SockTable, vrr_find_sock, vrr_hash_sock}
use alpaca_vrr.Sockets.Table.{vrr_find_sock-hash}
use alpaca_vrr.Sockets.Calls.{
  SockaddrVrr, Socket, vrr_connect, address_for, send_message, vrr_sendmsg, free_again, Outcome,
  sent, failed,
}
use alpaca_vrr.Wire.{Skb, ntoh}
use alpaca_vrr.Base.{Run, oops, use_after_free, refl}
use alpaca_vrr.World.{World, Env, pure, fault, ◌>>=◌, ◌>>◌, get, modify, case_option}
use alpaca_vrr.Receive.{vrr_rcv_data}
use alpaca_vrr.Health.{Scope, Healthy, Keeps}
use alpaca_vrr.Health.Rules.{
  returns, Ensures-bind, Ensures-then, Ensures-case, Ensures-if, Ensures-get, Keeps-pure,
}
use alpaca_vrr.Health.Parts.{alloc-Ensures}
use alpaca_vrr.Health.Sending.{vrr_output-Keeps}

vrr_connect-hashed :
    (size : ℕ) (sock : Socket) (addr : SockaddrVrr) (addrlen : ℕ) (socks : SockTable)
    → (vrr_connect size sock (some addr) addrlen socks).0 ≡ none
    → (vrr_connect size sock (some addr) addrlen socks).2
      ≡ vrr_hash_sock (record (sock.sk) { rem_addr = addr.svrr_addr }) socks
unfolding vrr_connect
vrr_connect-hashed size sock addr addrlen socks ok = ground arith

-- Once a socket was connected without an error, a data packet for this node from the peer goes to
-- that socket, whatever other sockets there are, and the result is what the socket layer answers.
pub vrr_connect-delivers :
    (env : Env) (size : ℕ) (sock : Socket) (addr : SockaddrVrr) (addrlen : ℕ) (skb : Skb)
    (w : World)
    → (vrr_connect size sock (some addr) addrlen w.socks).0 ≡ none
    → ntoh 0 skb.header.src_id ≡ addr.svrr_addr
    → ntoh 0 skb.header.dest_id ≡ w.node.id
    → let v = record w { socks = (vrr_connect size sock (some addr) addrlen w.socks).2 } in
      vrr_rcv_data env skb v
      ≡ done (
        env.sk_receive_skb sock.sk.handle skb,
        record v { delivered = (sock.sk.handle, skb) ∷ w.delivered },
      )
unfolding vrr_rcv_data ◌>>=◌ ◌>>◌ get modify pure case_option
vrr_connect-delivers env size sock addr addrlen skb w ok from there =
    rw (there, ==_self w.node.id, from, found)
  where
    found :
        vrr_find_sock addr.svrr_addr (vrr_connect size sock (some addr) addrlen w.socks).2
        ≡ some sock.sk.handle
    found = rw (
      vrr_connect-hashed size sock addr addrlen w.socks ok,
      vrr_find_sock-hash,
      ==_self addr.svrr_addr,
    )

-- What `vrr_sendmsg` comes to, by what its part with the call of `vrr_output` gives: the failures are
-- returned, and where the message was sent, the buffer is freed a second time.
abbrev pub EndsFrom : Outcome × World → Run (Outcome × World) → Type 0
EndsFrom (sent n, u) run = run ≡ oops use_after_free
EndsFrom (failed e, u) run = run ≡ done (failed e, u)

pub vrr_sendmsg-EndsFrom :
    (env : Env) (dest : Option ℕ) (bytes : Option (List ℕ)) (len : ℕ) (w : World)
    (r : Outcome × World)
    → send_message env dest bytes len w ≡ done r
    → EndsFrom r (vrr_sendmsg env dest bytes len w)
unfolding vrr_sendmsg free_again ◌>>=◌ pure fault
vrr_sendmsg-EndsFrom env dest bytes len w (sent n, u) e = rw e refl
vrr_sendmsg-EndsFrom env dest bytes len w (failed x, u) e = rw e refl

module _ (env : Env) (ample : (n : ℕ) → env.kmalloc n ≡ true) (sc : Scope) where
  pub send_message-Keeps :
      (dest : Option ℕ) (bytes : Option (List ℕ)) (len : ℕ)
      → Keeps sc (send_message env dest bytes len)
  unfolding send_message
  send_message-Keeps dest bytes len = Ensures-case dest (Keeps-pure _) λ addr e.
      Ensures-bind Ensures-get λ w h.
        Ensures-case (address_for env.junk addr w) (Keeps-pure _) λ mac i.
          Ensures-bind (alloc-Ensures env ample sc) λ skb q.
            Ensures-if (not skb) (λ j. Keeps-pure _)
              λ j.
                Ensures-case bytes (Keeps-pure _)
                  λ b k. Ensures-then (vrr_output-Keeps env ample sc _ b) (Keeps-pure _)

  -- With memory at hand, in a healthy world, `vrr_sendmsg` comes to the label `out_err` or returns
  -- without a fault for any destination and any bytes, and the world is healthy then.
  pub send_message-returns :
      sc.strict ≡ true
      → (dest : Option ℕ) (bytes : Option (List ℕ)) (len : ℕ) (w : World) → Healthy sc w
      → Returns (send_message env dest bytes len w) (λ r. Healthy sc r.1)
  send_message-returns s dest bytes len = returns (send_message-Keeps dest bytes len) s
