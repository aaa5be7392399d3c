-- ===== src/Joining/Meeting.antt =====
-- The answer comes to the new node: `vrr_rcv_setup` of vrr_input.c.
use alpaca_vrr.Base.{
  ℕ, ◌<◌, ◌≡◌, ◌≢◌, refl, sym, ap, ◌∙◌, subst, true, false, some, List, done, arith, ==_iff,
  bytes_eq,
}
use alpaca_vrr.Ids.{word}
use alpaca_vrr.Rt.{rt_add_route}
use alpaca_vrr.Pset.{pset_get_status, pset_lookup_mac, pset_unknown}
use alpaca_vrr.Vset.{Vset, vset_init, vset_has, vrr_vset_size}
use alpaca_vrr.Wire.{ntoh}
use alpaca_vrr.World.{World, Env, Frame}
use alpaca_vrr.Send.{no_id}
use alpaca_vrr.Receive.Setup.{setup_ends, setup_sender}
use alpaca_vrr.Receive.Forwarded.{source, target}
use alpaca_vrr.Health.{Scope, Healthy}
use alpaca_vrr.Health.Parts.{same}
use alpaca_vrr.Health.Dispatch.{note_alive-Healthy}
use alpaca_vrr.Joining.{core}
use alpaca_vrr.Joining.Granting.{with_node}
use alpaca_vrr.Joining.Room.{vrr_rcv_setup-room}
use alpaca_vrr.Joining.Exchange.{noted, vrr_rcv-setup, pset_get_status-reset, pset_lookup_mac-reset}
use alpaca_vrr.Travel.Relay.{Network, IsReliable, arrival}
use alpaca_vrr.Receive.{vrr_rcv}
use alpaca_vrr.Node.{reset_active_timeout}
use alpaca_vrr.Travel.Packet.{Says}
use alpaca_vrr.Joining.Answering.{IsFrom}

-- A healthy node that has no virtual neighbours and is not its own neighbour.
pub record Newcomer (sc : Scope) (a : ℕ) (w : World) : Type 0 where
  pub healthy : Healthy sc w
  pub empty : w.vset ≡ vset_init
  pub stranger : pset_get_status a w.pset ≡ pset_unknown

core-Healthy : {sc : Scope} {w v : World} → core v ≡ core w → Healthy sc w → Healthy sc v
core-Healthy e h =
    same h (ap (λ (x : World). x.rt_root) e) (ap (λ (x : World). x.pset) e)
      (ap (λ (x : World). x.pstate) e) (ap (λ (x : World). x.vset) e)
      (ap (λ (x : World). x.pset_updates) e)

module _ (net : Network) (reliable : IsReliable net) (envs : ℕ → Env) (worlds : ℕ → World)
    (ample : (n k : ℕ) → (envs n).kmalloc k ≡ true) (a p : ℕ) (wa : a < word) (wp : p < word) where
  -- What the newcomer makes of the setup.
  module _ {sc : Scope} (strict : sc.strict ≡ true) (id : (worlds a).node.id ≡ a)
      (newcomer : Newcomer sc a (worlds a)) (other : p ≢ no_id) (mac : List ℕ)
      (hears : (name addr : List ℕ)
        → (envs p).dev_get_by_name name ≡ some addr
        → (bytes_eq mac addr ≡ false) × (pset_lookup_mac addr (worlds a).pset ≡ some p))
      (g : Frame) (v : World) (still : core v ≡ core (worlds a)) (address : g.dest_mac ≡ mac)
      (from : IsFrom (envs p) g) (pid : ℕ) (is_setup : g.header.pkt_type ≡ 3)
      (says : (w : World) → Says (envs a) p a pid (arrival g) w) where
    abbrev at_home : World
    at_home = noted (envs a) (arrival g) v

    same_near : v.pset ≡ (worlds a).pset
    same_near = ap (λ (x : World). x.pset) still

    knows_sender : setup_sender (arrival g) at_home ≡ some p
    unfolding setup_sender
    knows_sender =
        rw
          (
            address,
            (hears from.0 g.source_mac from.1).0,
            pset_lookup_mac-reset (ntoh 0 g.header.src_id) g.source_mac v.pset,
            same_near,
          )
          (hears from.0 g.source_mac from.1).1

    is_end : setup_ends (target (envs a) (arrival g) at_home) at_home ≡ true
    unfolding setup_ends reset_active_timeout
    is_end =
        rw
          (
            (says at_home).to,
            pset_get_status-reset (ntoh 0 g.header.src_id) a v.pset,
            same_near,
            newcomer.stranger,
          )
          ((==_iff a v.node.id).1 (sym id ∙ sym (ap (λ (x : World). x.node.id) still)))

    pub joins :
        (u : World) × (vrr_rcv (envs a) (arrival g) v ≡ done (true, u))
        × (u.vset ≡ with_node (worlds a).me p vset_init)
        × (u.node.active ≡ 1)
        × (u.rt_root
            ≡ (rt_add_route (envs a).rb (envs a).kmalloc p a p 0 pid (worlds a).rt_root v.allocs).1)
    unfolding vset_has vset_init
    joins =
        let s = says at_home in
        let same_me = ap (λ (x : World). x.me) still in
        let same_root = ap (λ (x : World). x.rt_root) still in
        let empty = ap (λ (x : World). x.vset) still ∙ newcomer.empty in
        let (u, e, c) =
          vrr_rcv_setup-room (envs a) (ample a) strict (arrival g) at_home p
            (note_alive-Healthy (envs a) sc (ntoh 0 g.header.src_id) v
              (core-Healthy still newcomer.healthy))
            knows_sender is_end s.size (λ q. other (sym s.from ∙ q))
            (subst (λ (z : Vset). vset_has (source (envs a) (arrival g) at_home) z.entries ≡ false)
              (sym empty) refl)
            (subst (λ (z : Vset). z.vset_size < vrr_vset_size) (sym empty) (omega arith)) in
        (
          u,
          vrr_rcv-setup (envs a) (arrival g) v u is_setup e,
          ap (λ (x : World). x.vset) c ∙ (λ i. with_node (same_me i) (s.from i) (empty i)),
          ap (λ (x : World). x.node.active) c,
          ap (λ (x : World). x.rt_root) c ∙ (λ i.
              (rt_add_route (envs a).rb (envs a).kmalloc (s.from i) (s.to i) p 0 (s.path i)
                (same_root i) v.allocs).1),
        )
