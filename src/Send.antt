-- ===== src/Send.antt =====
-- The packets that a node sends: vrr_output.c, and the senders of vrr_core.c. A result of 0 is
-- true, -1 is false.
pub mod Frames
pub mod Hello
use alpaca_vrr.Base.{
  ℕ, ◌*◌, Bool, true, false, ◌&&◌, Option, none, some, List, [], ◌∷◌, ◌++◌, ◌==◌, if◌then◌else◌,
  done, oops, null_deref, length, not,
}
use alpaca_vrr.Pset
use alpaca_vrr.Vset.{VsetCopy}
use alpaca_vrr.Wire.{
  VrrHeader, VrrPacket, build_header, put_words, vrr_hello, vrr_setup_req, vrr_setup,
  vrr_setup_fail, vrr_teardown,
}
use alpaca_vrr.World.{
  case_option, World, Env, M, pure, ◌>>=◌, ◌>>◌, get, modify, lift, read_array, alloc, vset_copy,
  should_add, add_to_vset, get_proxy, remove_route,
}

-- `(u32)-1`, which stands for no identifier in a call of `vrr_add`.
abbrev pub no_id : ℕ
no_id = 0xffff_ffff

abbrev pub emit : List ℕ → List ℕ → VrrHeader → List ℕ → World → World
emit name addr header payload w = record w {
  sent =
      w.sent
      ++ record {
        dev_name = name;
        dest_mac = header.dest_mac;
        source_mac = addr;
        header = header;
        payload = payload;
      }
        ∷ [];
}

module _ (env : Env) where
  -- The loop of `vrr_output`: a clone for each interface that is there.
  unfoldable pub output_loop : VrrHeader → List ℕ → List (List ℕ) → M (Unit {0})
  output_loop header payload [] = pure tt
  output_loop header payload (name ∷ names) =
      let rest = output_loop header payload names in
      case_option (env.dev_get_by_name name) rest λ addr. do
        clone ← alloc env
        if clone then modify (emit name addr header payload) >> rest else rest

  unfoldable pub vrr_output : VrrHeader → List ℕ → M (Unit {0})
  vrr_output header payload = do w ← get; output_loop header payload w.node.dev_list

  -- The common end of the senders: the buffer, the header, the output.
  unfoldable pub send_packet : ℕ → ℕ → ℕ → List ℕ → List ℕ → M Bool
  send_packet pkt_type src dst mac words = do
    skb ← alloc env
    w ← get
    let payload = put_words words
    let pkt : VrrPacket = record {
      src = src;
      dst = dst;
      data_len = length words * 4;
      pkt_type = pkt_type;
      dest_mac = mac;
    }
    if skb then vrr_output (build_header w.node.version pkt) payload >> pure true else pure false

  -- A proxy that is no neighbour leaves the address on the stack as it was.
  unfoldable pub send_setup_req : ℕ → ℕ → ℕ → M Bool
  send_setup_req src dest proxy = do
    w ← get
    let mac = mac_or_junk (Pset.pset_get_mac proxy w.pset)
    vset ← vset_copy env
    setup_req_data ← alloc env
    cells ← lift (if setup_req_data then read_array vset else oops null_deref)
    send_packet vrr_setup_req src dest mac (proxy ∷ vset.count ∷ cells)
    where
      j : ℕ → ℕ
      j = env.junk

      mac_or_junk : Option (List ℕ) → List ℕ
      mac_or_junk (some mac) = mac
      mac_or_junk none = j 0 ∷ j 1 ∷ j 2 ∷ j 3 ∷ j 4 ∷ j 5 ∷ []

  -- The senders that first look the next hop up, and then pack `head` and the virtual set.
  unfoldable pub send_to : ℕ → ℕ → ℕ → List ℕ → VsetCopy → ℕ → M Bool
  send_to pkt_type src dst head vset to = do
    w ← get
    case_option (Pset.pset_get_mac to w.pset) (pure false) λ mac. do
      cells ← lift (read_array vset)
      send_packet pkt_type src dst mac (head ++ vset.count ∷ cells)

  unfoldable pub send_setup : ℕ → ℕ → ℕ → ℕ → VsetCopy → ℕ → M Bool
  send_setup src dest path_id proxy vset to =
      send_to vrr_setup src dest (path_id ∷ proxy ∷ []) vset to

  unfoldable pub send_setup_fail : ℕ → ℕ → ℕ → VsetCopy → ℕ → M Bool
  send_setup_fail src dst proxy vset to = send_to vrr_setup_fail src dst (proxy ∷ []) vset to

  unfoldable pub send_teardown : ℕ → ℕ → VsetCopy → ℕ → M Bool
  send_teardown path_id endpoint vset to = do
    w ← get
    send_to vrr_teardown w.node.id to (endpoint ∷ path_id ∷ []) vset to

  -- The virtual set that goes with a teardown: ours if the teardown has a sender, else none.
  unfoldable pub teardown_vset : ℕ → M VsetCopy
  teardown_vset sender =
      if sender == 0 then pure (record { count = 0; cells = none }) else vset_copy env

  -- One of the three sends of `tear_down_path`.
  unfoldable pub teardown_hop : ℕ → ℕ → ℕ → ℕ → M (Unit {0})
  teardown_hop path_id endpoint sender hop = do
    w ← get
    if not (hop == 0) && Pset.pset_contains hop w.pset
        then (do vset ← teardown_vset sender; send_teardown path_id endpoint vset hop; pure tt)
        else pure tt

  unfoldable pub tear_down_path : ℕ → ℕ → ℕ → M Bool
  tear_down_path path_id endpoint sender = do
    route ← remove_route endpoint path_id
    case_option route (pure false) λ r. do
      teardown_hop path_id endpoint sender r.na
      teardown_hop path_id endpoint sender r.nb
      teardown_hop path_id endpoint sender sender
      pure true

  unfoldable pub send_hpkt : M Bool
  send_hpkt = do
    w ← get
    let s = w.pstate
    hpkt_data ← alloc env
    lift (if hpkt_data then done tt else oops null_deref)
    send_packet vrr_hello w.node.id 0 [] (
        w.node.active
        ∷ length s.l_active
        ∷ length s.l_not_active
        ∷ length s.pending
        ∷ (s.l_active ++ (s.l_not_active ++ s.pending)))

  -- The loop of `vrr_add` over the other node's virtual set.
  unfoldable pub request_setups : List ℕ → M (Unit {0})
  request_setups [] = pure tt
  request_setups (id ∷ ids) =
      let rest = request_setups ids in
      do
        wanted ← should_add env id
        if wanted
            then (do
              proxy ← get_proxy env
              w ← get
              case_option proxy (pure true) (send_setup_req w.node.id id)
              rest)
            else rest

  unfoldable pub vrr_add : ℕ → List ℕ → M Bool
  vrr_add src vset = do
    request_setups vset
    wanted ← if src == no_id then pure false else should_add env src
    if wanted then (do add_to_vset env src; pure true) else pure false
