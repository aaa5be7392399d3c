-- ===== src/Checks/Worlds.antt =====
-- Examples of whole handlers.
use alpaca_vrr.Base.{ℕ, ◌≡◌, refl, List, ◌∷◌, [], done, Returns, arith, some, true, false, false}
use alpaca_vrr.Wire.{ntoh, Skb, put_words}
use alpaca_vrr.Sockets.{vrr_sock_init}
use alpaca_vrr.Snapshot.Classes.{classify}
use alpaca_vrr.World.{World, Env}
use alpaca_vrr.Send.{send_hpkt}
use alpaca_vrr.Base.{All}
use alpaca_vrr.World.{Frame}
use alpaca_vrr.Send.Hello.{send_hpkt-understood}
use alpaca_vrr.Receive.Hello.{parse_hello, pset_update_handler}
use alpaca_vrr.Receive.{vrr_rcv}
use alpaca_vrr.Sockets.Calls.{SockaddrVrr, Socket, vrr_connect, send_message, vrr_sendmsg}
use alpaca_vrr.Sockets.Delivery.{EndsFrom}
use alpaca_vrr.Sockets.Delivery.{vrr_connect-delivers}
use alpaca_vrr.Receive.{vrr_rcv_data}
use alpaca_vrr.Base.{none}
use alpaca_vrr.Reach.{connect, Reach, here, next}
use alpaca_vrr.Reach.Safety.{lax, Fine, boot-Reach-Healthy, boot-Reach-returns}
use alpaca_vrr.Timer.{boot, vrr_workqueue_handler}
use alpaca_vrr.Health.{Scope, Healthy}
use alpaca_vrr.Health.Dispatch.{vrr_rcv-returns}
use alpaca_vrr.Checks.Samples.{plain_tree, table, entry, ring, unsorted, always, zeros}

abbrev pub kernel : Env
kernel = record {
  rb = plain_tree;
  sort = unsorted;
  kmalloc = always;
  random = zeros;
  junk = zeros;
  dev_get_by_name = λ name. some (1 ∷ []);
  sk_receive_skb = λ sk skb. true;
}

abbrev pub world : World
world = record {
  node = record {
    id = 1;
    vset_size = 4;
    rtable_value = 0;
    version = 1;
    active = 1;
    timeout = 0;
    dev_list = (b'a' ∷ []) ∷ (b'b' ∷ []) ∷ [];
  };
  me = 1;
  rt_root = table;
  pset = entry 5 0 1 0 ∷ [];
  vset = ring 2;
  pstate = classify (entry 5 0 1 0 ∷ []);
  pset_updates = record { node = 9; mac = 9 ∷ []; trans = 1; active = 1 } ∷ [];
  socks = vrr_sock_init;
  allocs = 0;
  draws = 0;
  sent = [];
  delivered = [];
}

abbrev pub scope : Scope
scope = record { heard = 5 ∷ 9 ∷ []; room = omega arith; low = 1; strict = true }

pub world-Healthy : Healthy scope world
world-Healthy = record {
  routes = (tt, tt);
  near = record {
    distinct = (tt, tt);
    known = ((refl, omega arith), tt);
    snapshot = refl;
    asked = ((refl, omega arith), tt);
  };
  ring = record { distinct = ((omega arith, tt), (tt, tt)); sized = omega arith };
  counted = omega arith;
}

-- A packet from the node 9 to the node 1.
abbrev pub packet_of : ℕ → List ℕ → Skb
packet_of t words = record {
  header = record {
    vrr_version = 1;
    pkt_type = t;
    protocol = 0 ∷ 27 ∷ [];
    data_len = 0 ∷ 0 ∷ [];
    free = 0;
    h_csum = 0;
    src_id = 0 ∷ 0 ∷ 0 ∷ 9 ∷ [];
    dest_id = 0 ∷ 0 ∷ 0 ∷ 1 ∷ [];
    dest_mac = [];
  };
  payload = put_words words;
  source_mac = 5 ∷ [];
  dev_addr = 1 ∷ [];
}

vrr_rcv-returns_example :
    Returns (vrr_rcv kernel (packet_of 1 (1 ∷ 0 ∷ 0 ∷ 0 ∷ [])) world) (λ r. Healthy scope r.1)
unfolding ntoh
vrr_rcv-returns_example =
    vrr_rcv-returns kernel (λ n. refl) scope refl (packet_of 1 (1 ∷ 0 ∷ 0 ∷ 0 ∷ [])) (omega arith)
      (λ e. omega arith) (λ e sk. refl) (λ e. refl) world world-Healthy

abbrev socket : Socket
socket = record { sk = record { handle = 3; rem_addr = 0 }; connected = false }

abbrev peer : SockaddrVrr
peer = record { svrr_family = 27; svrr_addr = 9 }

vrr_connect-delivers_example :
    let v = record world { socks = (vrr_connect 16 socket (some peer) 16 vrr_sock_init).2 } in
    vrr_rcv_data kernel (packet_of 0 []) v
    ≡ done (true, record v { delivered = (3, packet_of 0 []) ∷ [] })
unfolding vrr_connect ntoh
vrr_connect-delivers_example =
    vrr_connect-delivers kernel 16 socket peer 16 (packet_of 0 []) world refl refl refl

-- The node 5 reads that it is linked.
send_hpkt-understood_example : Returns (send_hpkt kernel world) (λ r.
    (fs : List Frame) × (r.1.sent ≡ fs)
    × All (λ (f : Frame). parse_hello zeros 5 f.payload ≡ some (1, 0)) fs)
send_hpkt-understood_example =
    send_hpkt-understood kernel zeros 5 world (λ n. refl) (omega arith) (omega arith, tt) tt tt
      (omega arith) (omega arith) (omega arith)

-- The world at the start, and after a socket was connected.
abbrev start : World
start = boot world.node 0 0

abbrev later : World
later = record start { socks = (vrr_connect 16 socket (some peer) 16 start.socks).2 }

start-later : Reach kernel (5 ∷ 9 ∷ []) start later
start-later = next here (connect 16 socket (some peer) 16 refl)

boot-Reach-Healthy_example : Healthy (lax (5 ∷ 9 ∷ []) (omega arith)) later
boot-Reach-Healthy_example =
    boot-Reach-Healthy kernel (λ n. refl) (5 ∷ 9 ∷ []) (omega arith) world.node 0 0 start-later

boot-Reach-returns_example :
    Returns (vrr_rcv kernel (packet_of 3 (4 ∷ 5 ∷ 0 ∷ [])) later) (Fine (5 ∷ 9 ∷ []) (omega arith))
    × Returns (vrr_workqueue_handler kernel later) (Fine (5 ∷ 9 ∷ []) (omega arith))
    × Returns (pset_update_handler kernel later) (Fine (5 ∷ 9 ∷ []) (omega arith))
    × Returns (send_message kernel (some 9) none 2 later) (λ r.
      Fine (5 ∷ 9 ∷ []) (omega arith) r × EndsFrom r (vrr_sendmsg kernel (some 9) none 2 later))
boot-Reach-returns_example =
    boot-Reach-returns kernel (λ n. refl) (5 ∷ 9 ∷ []) (omega arith) world.node 0 0
      (packet_of 3 (4 ∷ 5 ∷ 0 ∷ [])) (some 9) none 2 start-later (omega arith)
      (λ e. absurd (omega (arith, e))) (λ e sk. refl) (λ e. absurd (omega (arith, e)))
