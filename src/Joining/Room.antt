-- ===== src/Joining/Room.antt =====
-- `vrr_add` of vrr_core.c and `vrr_rcv_setup` of vrr_input.c where the virtual set has room.
use alpaca_vrr.Base.{
  ℕ, ◌+◌, ◌≤◌, ◌<◌, ◌≡◌, ◌≢◌, refl, sym, ap, subst, true, false, some, List, done, ==_ne, ge→ltb,
}
use alpaca_vrr.Rt.Spec.{rt_add_route-succeeds}
use alpaca_vrr.Vset.{Vset, vrr_vset_size, vset_has}
use alpaca_vrr.Wire.{Skb}
use alpaca_vrr.World.{
  World, Env, pure, ◌>>=◌, ◌>>◌, get, modify, lift, alloc, case_option, add_route, should_add,
  add_to_vset,
}
use alpaca_vrr.Send.{vrr_add, no_id}
use alpaca_vrr.Receive.Setup.{setup_ends, setup_sender, activate, finish_setup, vrr_rcv_setup}
use alpaca_vrr.Receive.Forwarded.{source, target, path_id_of, size_of, set_of}
use alpaca_vrr.Health.{Scope, Healthy}
use alpaca_vrr.Health.Parts.{same, add_route-Keeps}
use alpaca_vrr.Health.Sending.{request_setups-Keeps}
use alpaca_vrr.Joining.{core}
use alpaca_vrr.Joining.Senders.{request_setups-Quiet}
use alpaca_vrr.Joining.Add.{ran}
use alpaca_vrr.Joining.Arrival.{laid}
use alpaca_vrr.Joining.Granting.{with_node, vset_should_add-room, vset_add-room}

-- The world with the node in its virtual set.
abbrev pub with_member : ℕ → World → World
with_member node w = record w { vset = with_node w.me node w.vset }

module _ (env : Env) (ample : (n : ℕ) → env.kmalloc n ≡ true) {sc : Scope}
    (strict : sc.strict ≡ true) where
  pub vrr_add-room :
      (src : ℕ) (ids : List ℕ) (w : World)
      → Healthy sc w
      → src ≢ no_id
      → vset_has src w.vset.entries ≡ false
      → w.vset.vset_size < vrr_vset_size
      → (v : World) × (vrr_add env src ids w ≡ done (true, v)) × (core v ≡ core (with_member src w))
  unfolding vrr_add ◌>>=◌ ◌>>◌ pure lift should_add add_to_vset
  vrr_add-room src ids w h id new room =
      let (u, v, e, hv, q, c) =
        ran (request_setups-Keeps env ample sc ids) (request_setups-Quiet env ids) strict w h in
      let same_set = ap (λ (x : World). x.vset) c in
      let new' = subst (λ (s : Vset). vset_has src s.entries ≡ false) (sym same_set) new in
      let room' = subst (λ (s : Vset). s.vset_size < vrr_vset_size) (sym same_set) room in
      (
        record (with_member src v) { allocs = v.allocs + 1 },
        rw
            (
              e,
              ==_ne src no_id id,
              vset_should_add-room env v.me src v.vset new' room',
              new',
              ample v.allocs,
              vset_add-room env v.me src v.vset new' room',
            )
            refl,
        ap (with_member src) c,
      )

  pub vrr_rcv_setup-room :
      (skb : Skb) (w : World) (sender : ℕ)
      → Healthy sc w
      → setup_sender skb w ≡ some sender
      → setup_ends (target env skb w) w ≡ true
      → (size_of env skb w).0 ≤ vrr_vset_size
      → source env skb w ≢ no_id
      → vset_has (source env skb w) w.vset.entries ≡ false
      → w.vset.vset_size < vrr_vset_size
      → (v : World) × (vrr_rcv_setup env skb w ≡ done (true, v))
        × (core v ≡ core (activate env (with_member (source env skb w) (laid env skb w sender))))
  unfolding vrr_rcv_setup finish_setup ◌>>=◌ ◌>>◌ get pure case_option alloc add_route modify
  vrr_rcv_setup-room skb w sender h from on small id new room =
      let h' =
        ((add_route-Keeps env ample sc (source env skb w) (target env skb w) sender 0
            (path_id_of env skb w).0).runs
          w h).0 in
      let after : World = record (laid env skb w sender) {
        allocs = (laid env skb w sender).allocs + 1;
      } in
      let (v, e, c) =
        vrr_add-room (source env skb w) (set_of env skb w) after (same h' refl refl refl refl refl)
          id new room in
      (
        activate env v,
        rw
            (
              from,
              on,
              rt_add_route-succeeds env.rb env.kmalloc w.me ample (source env skb w)
                  (target env skb w) sender 0 (path_id_of env skb w).0 w.rt_root w.allocs,
              ge→ltb vrr_vset_size (size_of env skb w).0 small,
              ample (laid env skb w sender).allocs,
              e,
            )
            refl,
        ap (activate env) c,
      )
