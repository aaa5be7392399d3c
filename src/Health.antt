-- ===== src/Health.antt =====
-- The invariant of the whole module, and what it means that a handler keeps it: with memory at
-- hand it returns, without a fault, in a world where the invariant holds.
pub mod Hearing
pub mod Rules
pub mod Parts
pub mod Sending
pub mod Receiving
pub mod Setups
pub mod Updates
pub mod Failures
pub mod Dispatch
use alpaca_vrr.Base.{
  ℕ, ◌≤◌, ◌<◌, ◌≡◌, Bool, true, false, Run, done, oops, List, Returns, All, length, contains,
  Distinct,
}
use alpaca_vrr.Rt.Defs.{inorder}
use alpaca_vrr.Rt.Sorted.{Rising}
use alpaca_vrr.Pset.{PsetEntry, vrr_pset_size, pset_unknown}
use alpaca_vrr.Pset.Keys.{nodes}
use alpaca_vrr.Snapshot.{PsetState}
use alpaca_vrr.Snapshot.Classes.{classify}
use alpaca_vrr.Vset.Members.{IsValid}
use alpaca_vrr.World.{World, M, PsetUpdate}
use alpaca_vrr.Receive.Hello.{trans_missing}

-- What is assumed of the surroundings: the nodes that may be heard, which fit the arrays of
-- VRR_PSET_SIZE cells, and a number of nodes that were counted into the virtual set. If `strict`, no
-- handler may fault.
pub record Scope : Type 0 where
  pub heard : List ℕ
  pub room : length heard ≤ vrr_pset_size
  pub low : ℕ
  pub strict : Bool

abbrev pub IsHeard : List ℕ → ℕ → Type 0
IsHeard heard node = contains node heard ≡ true

-- The physical set has each node once, the nodes are among those that may be heard and have a known
-- status, the snapshot agrees with the set, and the queue asks for transitions that exist.
pub record Neighbours (heard : List ℕ) (ps : List PsetEntry) (st : PsetState) (us : List PsetUpdate)
    : Type 0 where
  pub distinct : Distinct (nodes ps)
  pub known : All (λ e. IsHeard heard e.node × (e.status < pset_unknown)) ps
  pub snapshot : st ≡ classify ps
  pub asked : All (λ u. IsHeard heard u.node × (u.trans ≤ trans_missing)) us

pub record Healthy (sc : Scope) (w : World) : Type 0 where
  pub routes : Rising (inorder w.rt_root)
  pub near : Neighbours sc.heard w.pset w.pstate w.pset_updates
  pub ring : IsValid w.vset
  pub counted : sc.low ≤ w.vset.vset_size

-- From a healthy world the handler returns, the world is healthy again, and the result is as said.
abbrev pub Runs : {A : Type 0} → Scope → M A → (A → Type 0) → Type 0
Runs sc m Q = (w : World) → Healthy sc w → Returns (m w) (λ r. Healthy sc r.1 × Q r.0)

-- The same for a run that may fault where that is allowed.
abbrev pub Ends : {A : Type 0} → Scope → (A → Type 0) → Run (A × World) → Type 0
Ends sc Q (done r) = Healthy sc r.1 × Q r.0
Ends sc Q (oops e) = sc.strict ≡ false

pub record Ensures {A : Type 0} (sc : Scope) (m : M A) (Q : A → Type 0) : Type 0 where
  pub runs : (w : World) → Healthy sc w → Ends sc Q (m w)

abbrev pub Keeps : {A : Type 0} → Scope → M A → Type 0
Keeps sc m = Ensures sc m (λ _. Unit {0})
