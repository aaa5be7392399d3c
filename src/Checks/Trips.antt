-- ===== src/Checks/Trips.antt =====
-- A message from the node 5 by the node 7 to the node 9, over the tables that the setup left.
use alpaca_vrr.Base.{
  ℕ, ◌≡◌, refl, inl, true, false, some, List, [], ◌∷◌, ◌++◌, arith, done, oops, use_after_free,
}
use alpaca_vrr.Sockets.Calls.{vrr_sendmsg}
use alpaca_vrr.Pset.{pset_get_mac}
use alpaca_vrr.Sockets.{SockTable, vrr_find_sock, vrr_hash_sock, vrr_sock_init}
use alpaca_vrr.Sockets.Queue.{Request, received, vrr_recvmsg}
use alpaca_vrr.Wire.{Skb}
use alpaca_vrr.World.{World}
use alpaca_vrr.Travel.Relay.{Network, Linked, post}
use alpaca_vrr.Travel.Delivered.{Delivers, message-received}
use alpaca_vrr.Checks.Travels.{kernels, worlds, later, followed}

abbrev first_byte : List ℕ → ℕ
first_byte [] = 0
first_byte (b ∷ bs) = b

-- The address of a node is its identifier, and the first frame arrives.
abbrev pub net : Network
net = record { owner = first_byte; choose = λ fs. 0 }

abbrev one_socket : SockTable
one_socket = vrr_hash_sock (record { handle = 100; rem_addr = 5 }) vrr_sock_init

abbrev now : ℕ → World
now n = record (worlds n) { rt_root = (later n).rt_root; socks = one_socket }

found : vrr_find_sock 5 one_socket ≡ some 100
unfolding vrr_find_sock vrr_hash_sock vrr_sock_init
found = refl

first_link : Linked net kernels now 5 7
unfolding pset_get_mac
first_link = record {
  named = omega arith;
  mac = 7 ∷ [];
  address = refl;
  owned = refl;
  up = inl (5 ∷ [], refl);
}

second_link : Linked net kernels now 7 9
unfolding pset_get_mac
second_link = record {
  named = omega arith;
  mac = 9 ∷ [];
  address = refl;
  owned = refl;
  up = inl (7 ∷ [], refl);
}

abbrev whole : Request
whole = record { len = 2; dontwait = false; writable = true; peek = false }

message-received_example :
    (skb : Skb) × Delivers kernels now 5 9 100
      (7 ∷ 9 ∷ [])
      (b'h' ∷ b'i' ∷ [])
      (post net kernels now 1 5 9 (b'h' ∷ b'i' ∷ []))
      skb
    × (vrr_sendmsg (kernels 5) (some 9) (some (b'h' ∷ b'i' ∷ [])) 2 (now 5) ≡ oops use_after_free)
    × (vrr_recvmsg whole true ([] ++ skb ∷ []) [] ≡ done (received (b'h' ∷ b'i' ∷ []) false, []))
message-received_example =
    message-received net kernels now (λ fs h. h) (λ n k. refl) (λ n. refl) (λ n. refl) 5 9
      (omega arith) (omega arith) 100 found (λ skb. refl) 7 (9 ∷ []) (b'h' ∷ b'i' ∷ []) 1
      (omega arith) followed refl (first_link, (second_link, tt)) (omega arith) (omega arith) whole
      true [] [] [] refl refl (omega arith) tt
