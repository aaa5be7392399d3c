-- ===== src/Sockets.antt =====
-- The table of connected sockets of af_vrr.c: VRR_HASHSIZE lists, by the low bits of the peer's
-- identifier, newest socket first.
pub mod Table
pub mod Calls
pub mod Delivery
pub mod Queue
pub mod Messages
pub mod Waiting
use alpaca_vrr.Base.{ℕ, ◌%◌, Option, none, some, List, [], ◌∷◌, ◌==◌, if◌then◌else◌, zero, suc}

abbrev pub vrr_hashsize : ℕ
vrr_hashsize = 32

-- struct vrr_sock; `handle` stands for the address of its struct sock.
pub record VrrSock : Type 0 where
  pub handle : ℕ
  pub rem_addr : ℕ

-- The list in each bucket.
abbrev pub SockTable : Type 0
SockTable = ℕ → List VrrSock

unfoldable pub vrr_sock_init : SockTable
vrr_sock_init bucket = []

-- `addr & VRR_HASHMASK`
unfoldable pub vrr_hash_list : ℕ → ℕ
vrr_hash_list addr = addr % vrr_hashsize

abbrev pub find_in : ℕ → List VrrSock → Option ℕ
find_in addr [] = none
find_in addr (sk ∷ rest) =
    let other = find_in addr rest in if sk.rem_addr == addr then some sk.handle else other

unfoldable pub vrr_find_sock : ℕ → SockTable → Option ℕ
unfolding vrr_hash_list
vrr_find_sock addr socks = find_in addr (socks (vrr_hash_list addr))

unfoldable pub vrr_hash_sock : VrrSock → SockTable → SockTable
unfolding vrr_hash_list
vrr_hash_sock sk socks bucket =
    if bucket == vrr_hash_list sk.rem_addr then sk ∷ socks bucket else socks bucket

abbrev pub del_node : ℕ → List VrrSock → List VrrSock
del_node handle [] = []
del_node handle (sk ∷ rest) =
    let rest' = del_node handle rest in if sk.handle == handle then rest else sk ∷ rest'

-- `sk_del_node_init` takes the socket out of the list in which it stands.
unfoldable pub vrr_unhash_sock : VrrSock → SockTable → SockTable
unfolding vrr_hash_list
vrr_unhash_sock sk socks bucket =
    if bucket == vrr_hash_list sk.rem_addr then del_node sk.handle (socks bucket) else socks bucket
