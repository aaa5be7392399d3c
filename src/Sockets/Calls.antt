-- ===== src/Sockets/Calls.antt =====
-- The calls of a user on a socket: `__vrr_connect` and `vrr_sendmsg` of af_vrr.c.
--
-- The user's bytes are what memcpy_fromiovec copies, none if it fails.
use alpaca_vrr.Base.{
  use_after_free, ℕ, Bool, true, not, Option, none, some, List, [], ◌∷◌, ◌==◌, if◌then◌else◌,
}
use alpaca_vrr.Pset
use alpaca_vrr.Rt
use alpaca_vrr.Sockets.{VrrSock, SockTable, vrr_hash_sock}
use alpaca_vrr.Wire.{VrrPacket, build_header, vrr_data, pf_vrr}
use alpaca_vrr.World.{World, Env, M, pure, fault, ◌>>=◌, ◌>>◌, get, case_option, alloc}
use alpaca_vrr.Send.{vrr_output}

pub data Errno : Type 0 where
  eisconn einval edestaddrreq ehostunreach efault eintr ewouldblock erestartsys : Errno
  eprotonosupport esocktnosupport enomem : Errno

-- struct sockaddr_vrr
pub record SockaddrVrr : Type 0 where
  pub svrr_family : ℕ
  pub svrr_addr : ℕ

-- struct socket with its struct vrr_sock; `connected` is the state SS_CONNECTED.
pub record Socket : Type 0 where
  pub sk : VrrSock
  pub connected : Bool

-- No error for 0. The length of the structure is `size`.
unfoldable pub vrr_connect :
    ℕ → Socket → Option SockaddrVrr → ℕ → SockTable → Option Errno × Socket × SockTable
vrr_connect size sock none addrlen socks =
    if sock.connected then (some eisconn, sock, socks) else (some einval, sock, socks)
vrr_connect size sock (some addr) addrlen socks =
    let sk : VrrSock = record (sock.sk) { rem_addr = addr.svrr_addr } in
    if sock.connected
    then (some eisconn, sock, socks)
    else if not (addrlen == size)
    then (some einval, sock, socks)
    else if not (addr.svrr_family == pf_vrr)
    then (some einval, sock, socks)
    else (none, record { sk = sk; connected = true }, vrr_hash_sock sk socks)

-- What `vrr_sendmsg` returns: a number of bytes, or an error.
pub data Outcome : Type 0 where
  sent : ℕ → Outcome
  failed : Errno → Outcome

-- The link-layer address for a packet, or none if there is no way to the destination. For a packet
-- to this node itself it is not written.
unfoldable pub address_for : (ℕ → ℕ) → ℕ → World → Option (List ℕ)
address_for j dest w =
    if dest == w.node.id
    then some (j 0 ∷ j 1 ∷ j 2 ∷ j 3 ∷ j 4 ∷ j 5 ∷ [])
    else let nh = Rt.rt_get_next w.me w.rt_root dest in
      if nh == 0 then none else Pset.pset_get_mac nh w.pset

-- From the label `out_err` on: a buffer that `vrr_output` was given, which has freed it, is freed again.
unfoldable pub free_again : Outcome → M Outcome
free_again (sent n) = fault use_after_free
free_again (failed e) = pure (failed e)

module _ (env : Env) where
  -- `vrr_sendmsg` with its call of `vrr_output`, if it comes to that, and no further.
  unfoldable pub send_message : Option ℕ → Option (List ℕ) → ℕ → M Outcome
  send_message dest user_data len = case_option dest (pure (failed edestaddrreq)) λ addr. do
    w ← get
    case_option (address_for env.junk addr w) (pure (failed ehostunreach)) λ mac. do
      skb ← alloc env
      let pkt : VrrPacket = record {
        src = w.node.id;
        dst = addr;
        data_len = len;
        pkt_type = vrr_data;
        dest_mac = mac;
      }
      if not skb
          then pure (failed einval)
          else case_option user_data (pure (failed efault))
              λ bytes. vrr_output env (build_header w.node.version pkt) bytes >> pure (sent len)

  unfoldable pub vrr_sendmsg : Option ℕ → Option (List ℕ) → ℕ → M Outcome
  vrr_sendmsg dest user_data len = send_message dest user_data len >>= free_again
