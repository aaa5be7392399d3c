-- ===== src/Receive/Hello.antt =====
-- Hello packets: `vrr_rcv_hello` and the work queue that it feeds, `pset_update_handler`, with the
-- state machine `hello_trans` of a physical neighbour.
pub mod Machine
pub mod Roundtrip
use alpaca_vrr.Base.{
  ℕ, ◌+◌, Bool, true, false, ◌&&◌, ◌||◌, Option, none, some, List, [], ◌∷◌, ◌++◌, ◌==◌,
  if◌then◌else◌, ltb, Run, done, oops, bind_run, null_deref, out_of_bounds, not, contains,
  get_elem?,
}
use alpaca_vrr.Pset
use alpaca_vrr.Pset.{pset_linked, pset_pending, pset_failed, pset_unknown, vrr_pset_size}
use alpaca_vrr.Wire.{Skb, ntoh, read_word, read_words}
use alpaca_vrr.World.{
  case_option, lift, World, Env, PsetUpdate, M, pure, fault, ◌>>=◌, ◌>>◌, get, modify, alloc,
  refresh,
}
use alpaca_vrr.Send.{send_setup_req}

abbrev pub trans_linked : ℕ
trans_linked = 0

abbrev pub trans_pending : ℕ
trans_pending = 1

abbrev pub trans_missing : ℕ
trans_missing = 2

-- A row for each state of the neighbour, a column for each transition.
unfoldable pub hello_trans : List (List ℕ)
hello_trans =
    (pset_linked ∷ pset_linked ∷ pset_failed ∷ [])
    ∷ (pset_linked ∷ pset_linked ∷ pset_pending ∷ [])
    ∷ (pset_failed ∷ pset_pending ∷ pset_pending ∷ [])
    ∷ (pset_failed ∷ pset_linked ∷ pset_pending ∷ [])
    ∷ []

-- `hello_trans[state][trans]`
unfoldable pub next_state : ℕ → ℕ → Run ℕ
unfolding hello_trans
next_state state trans = elim (get_elem? hello_trans state) [
  | none ↦ oops out_of_bounds
  | some row ↦ elim (get_elem? row trans) [ none ↦ oops out_of_bounds | some s ↦ done s ]
]

-- A loop over one of the three lists: the transition, changed if the list has our identifier.
abbrev pub scan : ℕ → ℕ → List ℕ → ℕ → ℕ
scan me t ids trans = if contains me ids then t else trans

-- The four words in front of a hello packet: activity and the three sizes. The arguments of `junk`
-- only keep the variables apart.
pub record HelloHead : Type 0 where
  pub active : ℕ
  pub la_size : ℕ
  pub lna_size : ℕ
  pub p_size : ℕ

unfoldable pub read_head : (ℕ → ℕ) → List ℕ → HelloHead × List ℕ
unfolding read_word
read_head junk bytes =
    let (active, b1) = read_word (junk 0) bytes in
    let (la_size, b2) = read_word (junk 1) b1 in
    let (lna_size, b3) = read_word (junk 2) b2 in
    let (p_size, b4) = read_word (junk 3) b3 in
    (record { active = active; la_size = la_size; lna_size = lna_size; p_size = p_size }, b4)

-- The three lists, of which the last that has our identifier decides.
unfoldable pub read_trans : (ℕ → ℕ) → ℕ → HelloHead → List ℕ → ℕ
unfolding read_words
read_trans junk me h bytes =
    let (la, b1) = read_words junk h.la_size bytes in
    let (lna, b2) = read_words junk h.lna_size b1 in
    let (p, b3) = read_words junk h.p_size b2 in
    scan me trans_pending p (scan me trans_linked lna (scan me trans_linked la trans_missing))

-- The checks of the sizes.
unfoldable pub parse_lists : (ℕ → ℕ) → ℕ → HelloHead × List ℕ → Option (ℕ × ℕ)
unfolding read_trans
parse_lists junk me (h, lists) =
    if ltb vrr_pset_size h.la_size
    then none
    else if ltb vrr_pset_size h.lna_size
    then none
    else if ltb vrr_pset_size h.p_size
    then none
    else some (h.active, read_trans junk me h lists)

-- What the handler reads from the payload: the sender's activity and the transition, or none if a
-- list is too long.
unfoldable pub parse_hello : (ℕ → ℕ) → ℕ → List ℕ → Option (ℕ × ℕ)
unfolding read_head parse_lists
parse_hello junk me bytes = parse_lists junk me (read_head junk bytes)

-- What the packet asks of the work queue, and the end of the queue.
unfoldable pub update_of : Skb → ℕ → ℕ → PsetUpdate
unfolding ntoh
update_of skb active trans = record {
  node = ntoh 0 skb.header.src_id;
  mac = skb.source_mac;
  trans = trans;
  active = active;
}

abbrev pub enqueue : PsetUpdate → World → World
enqueue u w = record w { pset_updates = w.pset_updates ++ u ∷ [] }

module _ (env : Env) where
  unfoldable pub vrr_rcv_hello : Skb → M Bool
  unfolding parse_hello alloc update_of
  vrr_rcv_hello skb = do
    w ← get
    case_option (parse_hello env.junk w.node.id skb.payload) (pure false) λ (active, trans). do
      update ← alloc env
      if update then modify (enqueue (update_of skb active trans)) >> pure true else pure false

  -- `pset_add`, whose allocation is made only for a node that is new.
  unfoldable pub add_neighbour : PsetUpdate → ℕ → M (Unit {0})
  unfolding Pset.pset_add
  add_neighbour u status w =
      if Pset.pset_contains u.node w.pset
      then done (tt, w)
      else bind_run (Pset.pset_add (env.kmalloc w.allocs) u.node u.mac status u.active w.pset)
          λ r. done (tt, record w { pset = r.1; allocs = w.allocs + 1 })

  -- The first `if` of the loop of `pset_update_handler`.
  unfoldable pub apply_update : PsetUpdate → ℕ → M (Unit {0})
  unfolding add_neighbour refresh Pset.pset_get_status Pset.pset_get_active Pset.pset_update_status
  apply_update u next w =
      let cur_state = Pset.pset_get_status u.node w.pset in
      let cur_active = Pset.pset_get_active u.node w.pset in
      if cur_state == pset_unknown
      then (add_neighbour u next >> refresh env) w
      else if not (cur_state == next) || not (cur_active == u.active)
      then refresh env (record w { pset = (Pset.pset_update_status u.node next u.active w.pset).1 })
      else done (tt, w)

  -- The second: an idle node asks an active neighbour to be its proxy.
  unfoldable pub ask_proxy : PsetUpdate → ℕ → M (Unit {0})
  unfolding send_setup_req
  ask_proxy u next w =
      if w.node.active == 0 && not (u.active == 0) && next == pset_linked
      then (send_setup_req env w.node.id w.node.id u.node >> pure tt) w
      else done (tt, w)

  unfoldable pub handle_updates : List PsetUpdate → M (Unit {0})
  unfolding apply_update ask_proxy next_state
  handle_updates [] = pure tt
  handle_updates (u ∷ us) =
      let rest = handle_updates us in
      do
        w ← get
        next ← lift (next_state (Pset.pset_get_status u.node w.pset) u.trans)
        apply_update u next
        ask_proxy u next
        rest

  -- The queue is empty afterwards.
  unfoldable pub pset_update_handler : M (Unit {0})
  unfolding handle_updates
  pset_update_handler = do
    w ← get
    handle_updates w.pset_updates
    modify (λ v. record v { pset_updates = [] })
