-- ===== src/Receive/Setup.antt =====
-- Setup requests, setups and failed setups: the handlers of vrr_input.c.
use alpaca_vrr.Base.{
  ℕ, ◌+◌, Bool, true, false, Option, some, List, [], ◌∷◌, ◌==◌, if◌then◌else◌, ltb, done, oops,
  null_deref, out_of_bounds, not, bytes_eq,
}
use alpaca_vrr.Rt
use alpaca_vrr.Pset
use alpaca_vrr.Pset.{pset_unknown}
use alpaca_vrr.Vset.{VsetCopy, vrr_vset_size}
use alpaca_vrr.Wire.{Skb, ntoh, read_word, read_words}
use alpaca_vrr.World.{
  case_option, World, Env, M, pure, ◌>>=◌, ◌>>◌, get, modify, lift, alloc, get_random, add_route,
  vset_copy,
}
use alpaca_vrr.Send.{vrr_output, send_setup, send_setup_fail, tear_down_path, vrr_add, no_id}

-- The array that a handler reads from a packet.
abbrev pub own_array : ℕ → List ℕ → VsetCopy
own_array count cells = record { count = count; cells = some cells }

-- `pset_get_status(dst) == PSET_UNKNOWN ? rt_get_next(proxy) : dst`
unfoldable pub hop_towards : ℕ → ℕ → World → ℕ
hop_towards dst proxy w =
    if Pset.pset_get_status dst w.pset == pset_unknown
    then Rt.rt_get_next w.me w.rt_root proxy
    else dst

-- `pset_get_status(dst) == PSET_UNKNOWN` and `dst == me->id`
unfoldable pub setup_ends : ℕ → World → Bool
setup_ends dst w =
    if Pset.pset_get_status dst w.pset == pset_unknown then dst == w.node.id else false

-- The link-layer source of a setup: ourselves, a neighbour, or none.
unfoldable pub setup_sender : Skb → World → Option ℕ
setup_sender skb w =
    if bytes_eq skb.dev_addr skb.source_mac
    then some w.node.id
    else Pset.pset_lookup_mac skb.source_mac w.pset

module _ (env : Env) where
  unfoldable pub vrr_forward_setup_req : Skb → ℕ → M (Unit {0})
  vrr_forward_setup_req skb nh = do
    w ← get
    case_option (Pset.pset_get_mac nh w.pset) (pure tt)
        λ mac. vrr_output env (record skb.header { dest_mac = mac }) skb.payload

  unfoldable pub vrr_local_rcv_setup : ℕ → ℕ → ℕ → VsetCopy → M Bool
  vrr_local_rcv_setup dst pid proxy vset = do
    w ← get
    let src = w.node.id
    let nh = hop_towards dst proxy w
    added ← add_route env src dst src nh pid
    if not added
        then tear_down_path env pid src 0 >> pure true
        else if nh == 0
        then pure true
        else send_setup env src dst pid proxy vset nh >> pure true

  -- `ovset` has as many cells as the virtual set that is sent, and its first is written.
  unfoldable pub vrr_local_rcv_setup_fail : ℕ → ℕ → VsetCopy → M Bool
  vrr_local_rcv_setup_fail dst proxy vset = do
    ovset ← alloc env
    w ← get
    let nh = hop_towards dst proxy w
    lift (
        if not ovset
        then oops null_deref
        else if vset.count == 0
        then oops out_of_bounds
        else done tt)
    vrr_add env no_id (dst ∷ [])
    if nh == 0 then pure true else send_setup_fail env w.node.id dst proxy vset nh >> pure true

  unfoldable pub vrr_rcv_setup_req : Skb → M Bool
  vrr_rcv_setup_req skb = do
    w ← get
    let src = ntoh 0 skb.header.src_id
    let dst = ntoh 0 skb.header.dest_id
    let nh = Rt.rt_get_next_exclude w.me w.rt_root dst src
    let (proxy, b1) = read_word (env.junk 0) skb.payload
    let (vset_size, b2) = read_word (env.junk 1) b1
    if not (nh == 0)
        then vrr_forward_setup_req skb nh >> pure true
        else if ltb vrr_vset_size vset_size
        then pure false
        else (do
          memory ← alloc env
          if not memory then pure false else (do
            let (vset, b3) = read_words env.junk vset_size b2
            ovset ← vset_copy env
            added ← vrr_add env src vset
            if added
                then (do pid ← get_random env; vrr_local_rcv_setup src pid proxy ovset)
                else vrr_local_rcv_setup_fail src proxy ovset
            pure true))

  -- After the loop `i` is the size of the array, which has one cell more; the code writes to the
  -- cell `i + 1`.
  unfoldable pub vrr_rcv_setup_fail : Skb → M Bool
  vrr_rcv_setup_fail skb = do
    let src = ntoh 0 skb.header.src_id
    let dst = ntoh 0 skb.header.dest_id
    let (proxy, b1) = read_word (env.junk 0) skb.payload
    let (vset_size, b2) = read_word (env.junk 1) b1
    if ltb vrr_vset_size vset_size then pure false else (do
      memory ← alloc env
      w ← get
      let nh = hop_towards dst proxy w
      let (vset, b3) = read_words env.junk vset_size b2
      if not memory
          then pure false
          else if not (nh == 0)
          then send_setup_fail env src dst proxy (own_array vset_size vset) nh >> pure true
          else if dst == w.node.id
          then (do
            lift (if ltb (vset_size + 1) (vset_size + 1) then done tt else oops out_of_bounds)
            vrr_add env no_id vset
            pure true)
          else pure true)

  abbrev pub activate : World → World
  activate w = record w { node = record (w.node) { active = 1 } }

  -- From the size check of `vrr_rcv_setup` on.
  unfoldable pub finish_setup : ℕ → ℕ → ℕ → ℕ → ℕ → List ℕ → M Bool
  finish_setup src dst pid proxy nh bytes = do
    let (vset_size, b1) = read_word (env.junk 2) bytes
    if ltb vrr_vset_size vset_size then pure false else (do
      memory ← alloc env
      let (vset, b2) = read_words env.junk vset_size b1
      if not memory
          then pure false
          else if not (nh == 0)
          then send_setup env src dst pid proxy (own_array vset_size vset) nh >> pure true
          else (do
            added ← vrr_add env src vset
            if added then modify activate >> pure true else pure true))

  unfoldable pub vrr_rcv_setup : Skb → M Bool
  vrr_rcv_setup skb = do
    w ← get
    let src = ntoh 0 skb.header.src_id
    let dst = ntoh 0 skb.header.dest_id
    let (pid, b1) = read_word (env.junk 0) skb.payload
    let (proxy, b2) = read_word (env.junk 1) b1
    case_option (setup_sender skb w) (tear_down_path env pid src 0 >> pure true) λ sender. do
      let nh = if setup_ends dst w then 0 else hop_towards dst proxy w
      added ← add_route env src dst sender nh pid
      if added
          then finish_setup src dst pid proxy nh b2
          else tear_down_path env pid src 0 >> pure true
