-- ===== src/Travel/Relay.antt =====
-- A message on its whole way: `vrr_sendmsg` of af_vrr.c where it starts, and `vrr_rcv` of vrr_input.c
-- at each node that its frames come to.
--
-- The network is a parameter: which node has a link-layer address, and which one of the frames that a
-- node sends arrives.
use alpaca_vrr.Base.{
  ℕ, zero, suc, ◌<◌, ◌≡◌, ◌≢◌, refl, ◌⊎◌, Bool, Option, none, some, List, [], ◌∷◌, Run, done, oops,
  length, drop, get_elem?,
}
use alpaca_vrr.Pset.{pset_get_mac}
use alpaca_vrr.Wire.{Skb}
use alpaca_vrr.World.{World, Env, Frame}
use alpaca_vrr.Sockets.Calls.{send_message}
use alpaca_vrr.Receive.{vrr_rcv}

pub record Network : Type 0 where
  pub owner : List ℕ → ℕ
  pub choose : List Frame → ℕ

-- Of the frames of a node, where there are any, one arrives.
abbrev pub IsReliable : Network → Type 0
IsReliable net = (fs : List Frame) → 0 < length fs → net.choose fs < length fs

-- The packet that the link layer hands up for a frame.
abbrev pub arrival : Frame → Skb
arrival f = record {
  header = f.header;
  payload = f.payload;
  source_mac = f.source_mac;
  dev_addr = f.dest_mac;
}

-- The nodes at which `vrr_rcv` was called, and the last of those calls.
pub record Trip : Type 0 where
  pub visits : List ℕ
  pub last : Run (Bool × World)

-- One of the interfaces is there.
abbrev pub IsUp : Env → List (List ℕ) → Type 0
IsUp env [] = ⊥
IsUp env (name ∷ names) =
    ((addr : List ℕ) × (env.dev_get_by_name name ≡ some addr)) ⊎ IsUp env names

-- Of the frames that a call has sent, the one that arrives.
unfoldable pub carried : {A : Type 0} → Network → World → Run (A × World) → Option Frame
carried net w (oops e) = none
carried net w (done (a, v)) =
    let new = drop (length w.sent) v.sent in get_elem? new (net.choose new)

module _ (net : Network) (envs : ℕ → Env) (worlds : ℕ → World) where
  -- From the packet at the node, over at most so many hops.
  unfoldable pub relay : ℕ → ℕ → Skb → Trip
  relay zero n skb = record { visits = n ∷ []; last = vrr_rcv (envs n) skb (worlds n) }
  relay (suc k) n skb = elim (carried net (worlds n) (vrr_rcv (envs n) skb (worlds n))) [
    | none ↦ record { visits = n ∷ []; last = vrr_rcv (envs n) skb (worlds n) }
    | some f ↦
        let trip = relay k (net.owner f.dest_mac) (arrival f) in
        record trip { visits = n ∷ trip.visits }
  ]

  -- A message for `dst` from the node `n`: none if no frame of it arrives.
  unfoldable pub post : ℕ → ℕ → ℕ → List ℕ → Option Trip
  post k n dst bytes =
      elim (carried net (worlds n)
        (send_message (envs n) (some dst) (some bytes) (length bytes) (worlds n))) [
          | none ↦ none
          | some f ↦ some (relay k (net.owner f.dest_mac) (arrival f))
        ]

  -- The node knows the address of a neighbour, which that one has, and has an interface.
  pub record Linked (n m : ℕ) : Type 0 where
    pub named : m ≢ 0
    pub mac : List ℕ
    pub address : pset_get_mac m (worlds n).pset ≡ some mac
    pub owned : net.owner mac ≡ m
    pub up : IsUp (envs n) (worlds n).node.dev_list

  abbrev pub Links : ℕ → List ℕ → Type 0
  Links n [] = Unit {0}
  Links n (m ∷ hops) = Linked n m × Links m hops

  pub relay-on :
      (k n : ℕ) (skb : Skb) (f : Frame)
      → carried net (worlds n) (vrr_rcv (envs n) skb (worlds n)) ≡ some f
      → relay (suc k) n skb ≡ (
          let trip = relay k (net.owner f.dest_mac) (arrival f) in
          record trip { visits = n ∷ trip.visits })
  unfolding relay
  relay-on k n skb f e = rw (relay, e) refl

  pub relay-stops :
      (k n : ℕ) (skb : Skb)
      → carried net (worlds n) (vrr_rcv (envs n) skb (worlds n)) ≡ none
      → relay (suc k) n skb ≡ record { visits = n ∷ []; last = vrr_rcv (envs n) skb (worlds n) }
  unfolding relay
  relay-stops k n skb e = rw (relay, e) refl

  pub post-sends :
      (k n dst : ℕ) (bytes : List ℕ) (f : Frame)
      → carried net
          (worlds n)
          (send_message (envs n) (some dst) (some bytes) (length bytes) (worlds n))
        ≡ some f
      → post k n dst bytes ≡ some (relay k (net.owner f.dest_mac) (arrival f))
  unfolding post
  post-sends k n dst bytes f e = rw (post, e) refl
