-- ===== src/Receive/Teardown.antt =====
-- Teardowns: `vrr_rcv_teardown` of vrr_input.c.
use alpaca_vrr.Base.{
  ℕ, Bool, true, false, Option, none, some, List, ◌==◌, if◌then◌else◌, ltb, Run, done, oops,
  null_deref, not,
}
use alpaca_vrr.Rt.Defs.{RtEntry}
use alpaca_vrr.Vset
use alpaca_vrr.Vset.{vrr_vset_size}
use alpaca_vrr.Wire.{Skb, ntoh, read_word, read_words}
use alpaca_vrr.World.{
  case_option, Env, M, pure, ◌>>=◌, ◌>>◌, get, modify, lift, alloc, get_proxy, remove_route,
}
use alpaca_vrr.Send.{send_setup_req, send_teardown, vrr_add}
use alpaca_vrr.Receive.Setup.{own_array}

-- The other end of the route, and the next hop there. With no route the code reads `route->ea`
-- through a null pointer.
unfoldable pub teardown_end : Option RtEntry → ℕ → Run (ℕ × ℕ)
teardown_end none src = oops null_deref
teardown_end (some r) src = if r.na == src then done (r.eb, r.nb) else done (r.ea, r.na)

module _ (env : Env) where
  -- The last branch: the path ends here. `vset` is the array read from the packet, none for a null
  -- pointer.
  unfoldable pub end_teardown : ℕ → Option (List ℕ) → M Bool
  end_teardown endpt vset = do
    modify (λ w. record w { vset = (Vset.vset_remove endpt w.vset).1 })
    case_option vset
        (do
          proxy ← get_proxy env
          w ← get
          case_option proxy (pure true) (λ p. send_setup_req env w.node.id endpt p >> pure true))
        λ cells. vrr_add env 0 cells >> pure true

  unfoldable pub vrr_rcv_teardown : Skb → M Bool
  vrr_rcv_teardown skb = do
    let src = ntoh 0 skb.header.src_id
    let (ea, b1) = read_word (env.junk 0) skb.payload
    let (pid, b2) = read_word (env.junk 1) b1
    let (vset_size, b3) = read_word (env.junk 2) b2
    route ← remove_route ea pid
    (endpt, next) ← lift (teardown_end route src)
    if ltb vrr_vset_size vset_size then pure false else (do
      memory ← alloc env
      let (vset, b4) = read_words env.junk vset_size b3
      if not memory
          then pure false
          else if next == 0
          then end_teardown endpt (some vset)
          else send_teardown env pid ea (own_array vset_size vset) next >> pure true)
