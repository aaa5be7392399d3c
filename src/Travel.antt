-- ===== src/Travel.antt =====
-- A setup on its whole way: `vrr_local_rcv_setup` where it starts, and `vrr_rcv_setup` of
-- vrr_input.c at each node after that, with the frames between them.
--
-- Each node has its own kernel and its own world. What happens elsewhere in the meantime is in the
-- worlds that the nodes have when the packet comes.
pub mod Start
pub mod Packet
pub mod Tables
pub mod Laying
pub mod Relay
pub mod Carried
pub mod Message
pub mod Delivered
use alpaca_vrr.Base.{ℕ, ◌<◌, ◌≡◌, ◌≢◌, ◌⊎◌, true, false, some, List, [], ◌∷◌, ◌++◌, All, done}
use alpaca_vrr.Rt.Defs.{inorder}
use alpaca_vrr.Rt.Sorted.{routes_at, Rising}
use alpaca_vrr.Rt.Choice.{NoLoop}
use alpaca_vrr.Pset.{pset_get_mac}
use alpaca_vrr.Vset.{VsetCopy}
use alpaca_vrr.Wire.{Skb, ntoh}
use alpaca_vrr.World.{World, Env, Frame, read_array}
use alpaca_vrr.Receive.Setup.{
  hop_towards, setup_ends, setup_sender, vrr_local_rcv_setup, vrr_rcv_setup,
}
use alpaca_vrr.Receive.Forwarded.{target, proxy_of}

abbrev pub Among : Frame → List Frame → Type 0
Among f [] = ⊥
Among f (g ∷ fs) = (f ≡ g) ⊎ Among f fs

-- The packet is what a frame carries that was sent from the world `w` to the world `v`.
pub record Comes (w v : World) (skb : Skb) : Type 0 where
  pub frame : Frame
  pub new : List Frame
  pub sent : v.sent ≡ w.sent ++ new
  pub among : Among frame new
  pub same_header : skb.header ≡ frame.header
  pub same_payload : skb.payload ≡ frame.payload

module _ (envs : ℕ → Env) (worlds later : ℕ → World) where
  -- The node sends to a neighbour: it is no end, it knows the address, and the packet that comes
  -- there is from one of its frames.
  pub record Passes (n m : ℕ) (hop : ℕ) (skb : Skb) : Type 0 where
    pub onward : hop ≡ m
    pub known : m ≢ 0
    pub mac : List ℕ
    pub address : pset_get_mac m (worlds n).pset ≡ some mac
    pub comes : Comes (worlds n) (later n) skb

  -- The way of a setup that comes to the node `n` from the node `prev`, and on by the hops.
  abbrev pub Journey : ℕ → ℕ → List ℕ → Skb → Type 0
  Journey prev n [] skb =
      (vrr_rcv_setup (envs n) skb (worlds n) ≡ done (true, later n))
      × (setup_sender skb (worlds n) ≡ some prev)
      × (setup_ends (target (envs n) skb (worlds n)) (worlds n) ≡ true)
  Journey prev n (m ∷ hops) skb =
      (vrr_rcv_setup (envs n) skb (worlds n) ≡ done (true, later n))
      × (setup_sender skb (worlds n) ≡ some prev)
      × (setup_ends (target (envs n) skb (worlds n)) (worlds n) ≡ false)
      × ((next : Skb) × Passes n m
            (hop_towards (target (envs n) skb (worlds n)) (proxy_of (envs n) skb (worlds n)).0
              (worlds n))
            next
          × Journey n m hops next)

  -- The start of a setup at the node `n`.
  pub record Starts (n dst pid proxy : ℕ) (vset : VsetCopy) (m : ℕ) (next : Skb) : Type 0 where
    pub run : vrr_local_rcv_setup (envs n) dst pid proxy vset (worlds n) ≡ done (true, later n)
    pub cells : List ℕ
    pub readable : read_array vset ≡ done cells
    pub passes : Passes n m (hop_towards dst proxy (worlds n)) next

-- A table that is a search tree, where the routes under the two ends have smaller path ids, and none
-- of them goes from the node to itself.
pub record Fresh (src dst pid n : ℕ) (w : World) : Type 0 where
  pub sorted : Rising (inorder w.rt_root)
  pub newest_src : All (λ x. x.path_id < pid) (routes_at src (inorder w.rt_root))
  pub newest_dst : All (λ x. x.path_id < pid) (routes_at dst (inorder w.rt_root))
  pub no_loop_src : NoLoop n (routes_at src (inorder w.rt_root))
  pub no_loop_dst : NoLoop n (routes_at dst (inorder w.rt_root))
