-- ===== src/Sockets/Table.antt =====
-- A socket is found by its peer's identifier, whichever bucket that falls into.
use alpaca_vrr.Base.{ℕ, ◌≡◌, some, ◌==◌, if◌then◌else◌, arith}
use alpaca_vrr.Sockets.{VrrSock, SockTable, vrr_find_sock, vrr_hash_sock, vrr_unhash_sock}

-- After `vrr_hash_sock` the search for the socket's peer gives the socket, and the search for any
-- other peer gives what it gave.
pub vrr_find_sock-hash :
    (sk : VrrSock) (socks : SockTable) (addr : ℕ)
    → vrr_find_sock addr (vrr_hash_sock sk socks)
      ≡ (if sk.rem_addr == addr then some sk.handle else vrr_find_sock addr socks)
unfolding vrr_find_sock vrr_hash_sock
vrr_find_sock-hash sk socks addr = ground arith

-- Hashing a socket and unhashing it again leaves every search as it was.
pub vrr_find_sock-unhash :
    (sk : VrrSock) (socks : SockTable) (addr : ℕ)
    → vrr_find_sock addr (vrr_unhash_sock sk (vrr_hash_sock sk socks)) ≡ vrr_find_sock addr socks
unfolding vrr_find_sock vrr_hash_sock vrr_unhash_sock
vrr_find_sock-unhash sk socks addr = ground arith
