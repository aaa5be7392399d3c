-- ===== src/Traffic.antt =====
-- The packets that a node sends, whatever it has received: well-formed ones from well-formed ones.
pub mod Senders
pub mod Requests
pub mod Receivers
pub mod Updates
pub mod Dispatch
pub mod Typing
use alpaca_vrr.Base.{ℕ, ◌+◌, ◌%◌, ◌<◌, ◌≡◌, ◌≢◌, List, [], ◌∷◌, ◌++◌, All, length}
use alpaca_vrr.Wire.{VrrHeader, Skb, ntoh, htons, vrr_nptypes, vrr_data, pf_vrr}
use alpaca_vrr.World.{World, Frame, M}
use alpaca_vrr.World.Steps.{Steps}

abbrev pub IsByte : ℕ → Type 0
IsByte b = b < 256

-- An identifier on the wire.
abbrev pub IsId : List ℕ → Type 0
IsId bs = (length bs ≡ 4) × All IsByte bs

-- A header and what is behind it: a type that exists, the protocol, two identifiers of four bytes,
-- the length of the payload in 16 bits, and whole words in all but data.
pub record IsPacket (header : VrrHeader) (payload : List ℕ) : Type 0 where
  pub typed : header.pkt_type < vrr_nptypes
  pub protocol : header.protocol ≡ htons pf_vrr
  pub source : IsId header.src_id
  pub destination : IsId header.dest_id
  pub sized : ntoh 0 header.data_len ≡ length payload % 0x1_0000
  pub aligned : header.pkt_type ≢ vrr_data → length payload % 4 ≡ 0

-- A frame carries such a packet, to the address in its header.
abbrev pub IsFrame : Frame → Type 0
IsFrame f = IsPacket f.header f.payload × (f.dest_mac ≡ f.header.dest_mac)

-- What is sent was good before, and is good after.
abbrev pub Good : World → World → Type 0
Good w v = All IsFrame w.sent → All IsFrame v.sent

abbrev pub Sends : {A : Type 0} → M A → Type 0
Sends m = Steps Good m
