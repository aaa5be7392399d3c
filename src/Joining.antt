-- ===== src/Joining.antt =====
-- How a node joins and leaves: what `vrr_add` of vrr_core.c decides, setups and setup requests where
-- they end, and teardowns.
--
-- The senders between the steps of a handler are quiet: at their end the world is as it was, but
-- for the frames and the counts of allocations and of random words.
pub mod Rules
pub mod Senders
pub mod Add
pub mod Arrival
pub mod Request
pub mod Leaving
pub mod Granting
pub mod Room
pub mod Exchange
pub mod Asking
pub mod Answering
pub mod Meeting
pub mod Together
use alpaca_vrr.Base.{◌≡◌, [], Run}
use alpaca_vrr.World.{World, M}
use alpaca_vrr.World.Steps.{Moves, Steps}

-- The world without the frames and the counts.
abbrev pub core : World → World
core w = record w { allocs = 0; draws = 0; sent = [] }

-- The rest of the world is as it was.
abbrev pub Same : World → World → Type 0
Same w v = core v ≡ core w

-- The run leaves the rest of the world as it was, or faults.
abbrev pub Calm : {A : Type 0} → World → Run (A × World) → Type 0
Calm w r = Moves Same w r

abbrev pub Quiet : {A : Type 0} → M A → Type 0
Quiet m = Steps Same m
