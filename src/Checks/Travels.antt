-- ===== src/Checks/Travels.antt =====
-- A setup from the node 5 by the node 7 to the node 9, with the path id 3, and packets after it.
use alpaca_vrr.Base.{
  ℕ, ◌≡◌, refl, sym, ap, ◌∙◌, inl, Bool, true, false, some, List, [], ◌∷◌, arith, subst, Run, done,
  oops, Returns, ◌==◌, if◌then◌else◌,
}
use alpaca_vrr.Rt.Defs.{Tree, leaf, node}
use alpaca_vrr.Rt.{rt_get_next, route_list_search}
use alpaca_vrr.Rt.Paths.{walk, turned}
use alpaca_vrr.Ids.{get_diff}
use alpaca_vrr.Pset.{PsetEntry, pset_get_status, pset_get_mac, pset_lookup_mac}
use alpaca_vrr.Snapshot.Classes.{classify}
use alpaca_vrr.Vset.{VsetCopy}
use alpaca_vrr.Wire.{Skb, build_header, put_words, ntoh, htonl, read_word}
use alpaca_vrr.World.{World, Env, read_array}
use alpaca_vrr.Send.Frames.{frame}
use alpaca_vrr.Receive.Setup.{
  hop_towards, setup_ends, setup_sender, vrr_local_rcv_setup, vrr_rcv_setup,
}
use alpaca_vrr.Receive.Forwarded.{setup_header, setup_words, vrr_rcv_setup-forwards}
use alpaca_vrr.Health.{Scope, Healthy}
use alpaca_vrr.Joining.Arrival.{Joins, vrr_rcv_setup-Joins}
use alpaca_vrr.Travel.{Comes, Journey, Starts, Fresh}
use alpaca_vrr.Travel.Start.{first_header, first_words, vrr_local_rcv_setup-sends}
use alpaca_vrr.Travel.Laying.{world_or, setup-followed}
use alpaca_vrr.Checks.Samples.{entry}
use alpaca_vrr.Checks.Worlds.{kernel, world}

abbrev pub kernels : ℕ → Env
kernels n = record kernel { dev_get_by_name = λ name. some (n ∷ []) }

abbrev near : ℕ → List PsetEntry
near n = if n == 7 then entry 5 0 1 0 ∷ entry 9 0 1 0 ∷ [] else entry 7 0 1 0 ∷ []

-- The node 5 has a route to its proxy, the node 7.
abbrev known_route : Tree
known_route =
    node 0 leaf
      (record {
        endpoint = 7;
        routes = record { ea = 5; eb = 7; na = 5; nb = 7; path_id = 1 } ∷ [];
      })
      leaf

abbrev pub worlds : ℕ → World
worlds n = record world {
  node = record (world.node) { id = n; dev_list = (b'a' ∷ []) ∷ [] };
  me = n;
  rt_root = if n == 5 then known_route else leaf;
  pset = near n;
  pstate = classify (near n);
  pset_updates = [];
}

abbrev set : VsetCopy
set = record { count = 1; cells = some (3 ∷ []) }

abbrev first : Skb
first = record {
  header = first_header (kernels 5) 9 3 7 set (3 ∷ []) (worlds 5) (7 ∷ []);
  payload = put_words (first_words (kernels 5) 9 3 7 set (3 ∷ []) (worlds 5));
  source_mac = 5 ∷ [];
  dev_addr = 7 ∷ [];
}

abbrev second : Skb
second = record {
  header = setup_header (kernels 7) first (worlds 7) (9 ∷ []);
  payload = put_words (setup_words (kernels 7) first (worlds 7));
  source_mac = 7 ∷ [];
  dev_addr = 9 ∷ [];
}

abbrev run_at : ℕ → Run (Bool × World)
run_at n =
    if n == 5
    then vrr_local_rcv_setup (kernels 5) 9 3 7 set (worlds 5)
    else if n == 7
    then vrr_rcv_setup (kernels 7) first (worlds 7)
    else vrr_rcv_setup (kernels 9) second (worlds 9)

abbrev pub later : ℕ → World
later n = world_or (worlds n) (run_at n)

settled :
    (w : World) {o : Run (Bool × World)} {v : World}
    → o ≡ done (true, v)
    → o ≡ done (true, world_or w o)
settled w e = e ∙ ap (λ x. done (true, world_or w x)) (sym e)

abbrev scope : Scope
scope = record { heard = 7 ∷ []; room = omega arith; low = 1; strict = true }

end-Healthy : Healthy scope (worlds 9)
end-Healthy = record {
  routes = tt;
  near = record {
    distinct = (tt, tt);
    known = ((refl, omega arith), tt);
    snapshot = refl;
    asked = tt;
  };
  ring = record { distinct = ((omega arith, tt), (tt, tt)); sized = omega arith };
  counted = omega arith;
}

first_way : hop_towards 9 7 (worlds 5) ≡ 7
unfolding hop_towards pset_get_status rt_get_next route_list_search get_diff
first_way = refl

-- A run whose outcome has sent the packet.
abbrev Sends : ℕ → Skb → Type 0
Sends n skb = (v : World) × (run_at n ≡ done (true, v)) × Comes (worlds n) v skb

Sends-later : (n : ℕ) (skb : Skb) → Sends n skb → Comes (worlds n) (later n) skb
Sends-later n skb (v, e, c) =
    subst (λ z. Comes (worlds n) z skb) (sym (ap (world_or (worlds n)) e)) c

start_Sends : Sends 5 first
unfolding read_array pset_get_mac hop_towards pset_get_status rt_get_next route_list_search get_diff
start_Sends = (
  _,
  vrr_local_rcv_setup-sends (kernels 5) 9 3 7 set (3 ∷ []) (worlds 5) (λ n. refl) (7 ∷ []) refl
      (omega arith) refl,
  record {
    frame = frame (b'a' ∷ []) (5 ∷ []) first.header first.payload;
    new = _;
    sent = refl;
    among = inl refl;
    same_header = refl;
    same_payload = refl;
  },
)

middle_Sends : Sends 7 second
unfolding pset_get_mac hop_towards pset_get_status setup_ends setup_sender pset_lookup_mac ntoh
    htonl read_word put_words build_header
middle_Sends = (
  _,
  vrr_rcv_setup-forwards (kernels 7) first (worlds 7) (λ n. refl) 5 9 (9 ∷ []) refl refl refl
      (omega arith) refl (omega arith),
  record {
    frame = frame (b'a' ∷ []) (7 ∷ []) second.header second.payload;
    new = _;
    sent = refl;
    among = inl refl;
    same_header = refl;
    same_payload = refl;
  },
)

joined :
    (o : Run (Bool × World))
    → Returns o (Joins (kernels 9) second (worlds 9) 7)
    → o ≡ done (true, world_or (worlds 9) o)
joined (done (true, v)) q = refl
joined (done (false, v)) q = absurd q
joined (oops e) q = absurd q

end_run : run_at 9 ≡ done (true, later 9)
unfolding setup_ends setup_sender pset_get_status pset_lookup_mac ntoh htonl read_word put_words
    build_header
end_run = joined (run_at 9) (
    vrr_rcv_setup-Joins (kernels 9) second (worlds 9) 7 (λ n. refl) {sc = scope} refl end-Healthy
      refl refl (omega arith))

starts : Starts kernels worlds later 5 9 3 7 set 7 first
unfolding read_array pset_get_mac
starts = record {
  run = settled (worlds 5) start_Sends.1;
  cells = 3 ∷ [];
  readable = refl;
  passes = record {
    onward = first_way;
    known = omega arith;
    mac = 7 ∷ [];
    address = refl;
    comes = Sends-later 5 first start_Sends;
  };
}

journey : Journey kernels worlds later 5 7 (9 ∷ []) first
unfolding pset_get_mac hop_towards pset_get_status setup_ends setup_sender pset_lookup_mac ntoh
    htonl read_word put_words build_header
journey = (
  settled (worlds 7) middle_Sends.1,
  refl,
  refl,
  (
    second,
    record {
      onward = refl;
      known = omega arith;
      mac = 9 ∷ [];
      address = refl;
      comes = Sends-later 7 second middle_Sends;
    },
    (end_run, refl, refl),
  ),
)

start-Fresh : Fresh 5 9 3 5 (worlds 5)
start-Fresh = record {
  sorted = (tt, tt);
  newest_src = tt;
  newest_dst = tt;
  no_loop_src = tt;
  no_loop_dst = tt;
}

middle-Fresh : Fresh 5 9 3 7 (worlds 7)
middle-Fresh = record {
  sorted = tt;
  newest_src = tt;
  newest_dst = tt;
  no_loop_src = tt;
  no_loop_dst = tt;
}

end-Fresh : Fresh 5 9 3 9 (worlds 9)
end-Fresh = record {
  sorted = tt;
  newest_src = tt;
  newest_dst = tt;
  no_loop_src = tt;
  no_loop_dst = tt;
}

pub followed : walk (λ n. (later n).rt_root) 3 9 5 ≡ 5 ∷ 7 ∷ 9 ∷ []
followed =
    (setup-followed kernels worlds later (λ n k. refl) (λ n. refl) 5 9 3 (omega arith) (omega arith)
      (omega arith) {sc = scope} refl end-Healthy (omega arith) (omega arith) (omega arith)
      (omega arith) 7 7 (9 ∷ []) set first (omega arith) starts journey
      ((omega arith, (omega arith, tt)), ((omega arith, tt), (tt, tt)))
      (start-Fresh, (middle-Fresh, (end-Fresh, tt)))).0

setup-followed_example :
    (walk (λ n. (later n).rt_root) 3 9 5 ≡ 5 ∷ 7 ∷ 9 ∷ [])
    × (walk (λ n. (later n).rt_root) 3 5 9 ≡ turned 5 (7 ∷ 9 ∷ []) [])
setup-followed_example =
    setup-followed kernels worlds later (λ n k. refl) (λ n. refl) 5 9 3 (omega arith) (omega arith)
      (omega arith) {sc = scope} refl end-Healthy (omega arith) (omega arith) (omega arith)
      (omega arith) 7 7 (9 ∷ []) set first (omega arith) starts journey
      ((omega arith, (omega arith, tt)), ((omega arith, tt), (tt, tt)))
      (start-Fresh, (middle-Fresh, (end-Fresh, tt)))
