-- ===== src/Joining/Answering.antt =====
-- The neighbour answers: `vrr_rcv_setup_req` of vrr_input.c.
use alpaca_vrr.Base.{
  ℕ, ◌+◌, ◌*◌, ◌<◌, ◌≡◌, ◌≢◌, refl, sym, ap, ◌∙◌, true, false, some, List, [], ◌∷◌, done, ◌==◌,
  arith, ==_ne, All, length, Option-cases, inl, inr, map, length-map,
}
use alpaca_vrr.Ids.{word}
use alpaca_vrr.Rt.{rt_get_next_exclude, rt_add_route}
use alpaca_vrr.Pset.{pset_get_status, pset_get_mac, pset_unknown}
use alpaca_vrr.Vset.{VsetCopy, VsetEntry, vset_has, vrr_vset_size, vset_get_all}
use alpaca_vrr.Vset.Size.{fill_array-Filled}
use alpaca_vrr.Wire.{Skb, VrrHeader, ntoh, vrr_setup, put_words, build_header}
use alpaca_vrr.World.{World, Env, Frame, read_array}
use alpaca_vrr.Send.{no_id}
use alpaca_vrr.Send.Frames.{frames}
use alpaca_vrr.Health.{Scope, Healthy}
use alpaca_vrr.Joining.Request.{asking, proxy_asked}
use alpaca_vrr.Joining.Granting.{hop_near, taken_in, with_node, answered, vrr_rcv_setup_req-answers}
use alpaca_vrr.Joining.Exchange.{noted, vrr_rcv-setup_req, pset_get_status-reset}
use alpaca_vrr.Travel.Relay.{Network, IsReliable, Linked, arrival, carried}
use alpaca_vrr.Travel.Carried.{All-get_elem?, frames-carried, carried-sending, pset_get_mac-reset}
use alpaca_vrr.Travel.Start.{first_header, first_words}
use alpaca_vrr.Receive.{vrr_rcv}
use alpaca_vrr.Node.{reset_active_timeout}
use alpaca_vrr.Travel.Packet.{Says, words-Says}
use alpaca_vrr.Joining.Asking.{Asks}

-- A healthy node that has `a` as a neighbour, no other way to it, and room for it.
pub record Welcoming (sc : Scope) (a : ℕ) (w : World) : Type 0 where
  pub healthy : Healthy sc w
  pub near : pset_get_status a w.pset ≢ pset_unknown
  pub no_way : rt_get_next_exclude w.me w.rt_root a a ≡ 0
  pub new : vset_has a w.vset.entries ≡ false
  pub room : w.vset.vset_size < vrr_vset_size

-- Each frame bears the address of an interface.
abbrev pub IsFrom : Env → Frame → Type 0
IsFrom env f = (name : List ℕ) × (env.dev_get_by_name name ≡ some f.source_mac)

pub frames-IsFrom :
    (env : Env) (header : VrrHeader) (payload : List ℕ) (names : List (List ℕ))
    → All (IsFrom env) (frames env header payload names)
frames-IsFrom env header payload [] = tt
frames-IsFrom env header payload (name ∷ names) = elim (Option-cases (env.dev_get_by_name name)) [
  | inl gone ↦ rw (gone, frames) (frames-IsFrom env header payload names)
  | inr (addr, there) ↦ rw (there, frames) ((name, there), frames-IsFrom env header payload names)
]

module _ (net : Network) (reliable : IsReliable net) (envs : ℕ → Env) (worlds : ℕ → World)
    (ample : (n k : ℕ) → (envs n).kmalloc k ≡ true) (a p : ℕ) (wa : a < word) (wp : p < word) where
  abbrev pub path_id : ℕ
  path_id = (envs p).random (worlds p).draws

  -- The setup as it comes back to `a`, from the world `v`.
  pub record Granted (mac : List ℕ) (skb : Skb) (g : Frame) (v : World) : Type 0 where
    pub run : vrr_rcv (envs p) skb (worlds p) ≡ done (true, v)
    pub carries : carried net (worlds p) (done (true, v)) ≡ some g
    pub address : g.dest_mac ≡ mac
    pub is_setup : g.header.pkt_type ≡ 3
    pub says : (w : World) → Says (envs a) p a path_id (arrival g) w
    pub from : IsFrom (envs p) g
    pub member : v.vset ≡ with_node (worlds p).me a (worlds p).vset
    pub count : ℕ
    pub laid :
        v.rt_root
        ≡ (rt_add_route (envs p).rb (envs p).kmalloc p a p a path_id (worlds p).rt_root count).1

  module _ {sc : Scope} (id : (worlds p).node.id ≡ p) (l : Linked net envs worlds p a)
      (wel : Welcoming sc a (worlds p)) (known : a ≢ no_id) (ws : path_id < word) (skb : Skb)
      (is_request : skb.header.pkt_type ≡ 2)
      (asks : Asks (envs p) a skb (noted (envs p) skb (worlds p))) where
    abbrev here : World
    here = noted (envs p) skb (worlds p)

    abbrev asker : ℕ
    asker = asking (envs p) skb here

    abbrev proxy : ℕ
    proxy = (proxy_asked (envs p) skb here).0

    near_here : (pset_get_status asker here.pset == pset_unknown) ≡ false
    near_here = ==_ne _ pset_unknown (λ q. wel.near (
        sym (
          ap (λ k. pset_get_status k here.pset) asks.from
          ∙ pset_get_status-reset asker a (worlds p).pset)
        ∙ q))

    mac_here : pset_get_mac asker here.pset ≡ some l.mac
    mac_here =
        ap (λ k. pset_get_mac k here.pset) asks.from
        ∙ pset_get_mac-reset asker a (worlds p).pset
        ∙ l.address

    no_way_here : rt_get_next_exclude here.me here.rt_root (ntoh 0 skb.header.dest_id) asker ≡ 0
    no_way_here = rw (asks.to, asks.from) wel.no_way

    pub grants : (g : Frame) × (v : World) × Granted l.mac skb g v
    unfolding vset_get_all read_array build_header reset_active_timeout
    grants =
        let (cells, e, filled) =
          fill_array-Filled (envs p).junk (worlds p).vset.vset_size
            (map (λ (x : VsetEntry). x.node) (worlds p).vset.entries)
            (omega (
              arith,
              length-map (λ (x : VsetEntry). x.node) (worlds p).vset.entries,
              wel.healthy.ring.sized,
            )) in
        let ovset : VsetCopy = record { count = (worlds p).vset.vset_size; cells = some cells } in
        let header = first_header (envs p) asker path_id proxy ovset cells here l.mac in
        let words = first_words (envs p) asker path_id proxy ovset cells here in
        let payload = put_words words in
        let reply : ℕ → ℕ → VrrHeader = λ s d. build_header (worlds p).node.version (record {
          src = s;
          dst = d;
          data_len = length words * 4;
          pkt_type = vrr_setup;
          dest_mac = l.mac;
        }) in
        let hop = hop_near asker proxy (taken_in (envs p) skb here path_id) near_here ∙ asks.from in
        let fs = frames (envs p) header payload (worlds p).node.dev_list in
        let (g, there, c) =
          frames-carried (envs p) header payload net reliable (worlds p).node.dev_list l.up in
        let v = answered (envs p) skb here path_id ovset cells l.mac in
        (
          g,
          v,
          record {
            run = vrr_rcv-setup_req (envs p) skb (worlds p) v is_request (
                vrr_rcv_setup_req-answers (envs p) skb here path_id (ample p)
                  (ap (λ k. vset_has k (worlds p).vset.entries) asks.from ∙ wel.new) wel.room refl
                  ovset cells l.mac no_way_here asks.nothing (λ q. known (sym asks.from ∙ q))
                  (λ q. l.named (sym asks.from ∙ q)) (rw e refl) refl near_here mac_here);
            carries = carried-sending net (worlds p) true v fs refl refl ∙ there;
            address = c.2;
            is_setup = ap (λ (z : VrrHeader). z.pkt_type) c.0;
            says = λ w.
                words-Says (envs a) (worlds p).node.version
                  (record {
                    src = p;
                    dst = a;
                    data_len = length words * 4;
                    pkt_type = vrr_setup;
                    dest_mac = l.mac;
                  })
                  path_id proxy (worlds p).vset.vset_size cells (arrival g) w wp wa ws
                  (omega (arith, wel.room))
                  (c.0 ∙ ap (λ k. reply k asker) id ∙ ap (reply p) asks.from) c.1;
            from =
                All-get_elem? (IsFrom (envs p)) fs (net.choose fs) g
                  (frames-IsFrom (envs p) header payload (worlds p).node.dev_list) there;
            member = ap (λ k. with_node (worlds p).me k (worlds p).vset) asks.from;
            count = here.allocs + 1 + 1 + 1;
            laid = λ i.
                (rt_add_route (envs p).rb (envs p).kmalloc (id i) (asks.from i) (id i) (hop i)
                  path_id (worlds p).rt_root (here.allocs + 1 + 1 + 1)).1;
          },
        )
