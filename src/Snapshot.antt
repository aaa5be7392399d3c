-- ===== src/Snapshot.antt =====
-- The snapshot `pstate` of the physical set (struct pset_state of vrr.h, filled in vrr_core.c),
-- and the failure detector, which ages the set and refreshes the snapshot.
--
-- Each array is the list of its cells below the size that the structure records for it, so a size
-- is the length of its list. A write at an index from VRR_PSET_SIZE on is a fault.
pub mod Classes
pub mod Failures
pub mod Silence
use alpaca_vrr.Base.{
  ℕ, ◌*◌, Option, none, some, Bool, true, false, ◌&&◌, List, [], ◌∷◌, ◌++◌, ltb, leb, ◌==◌, not,
  if◌then◌else◌, length, Run, done, oops, bind_run, out_of_bounds,
}
use alpaca_vrr.Pset.{
  PsetEntry, pset_linked, pset_pending, pset_failed, vrr_pset_size, pset_inc_fail_count,
}

pub record PsetState : Type 0 where
  pub l_active : List ℕ
  pub l_not_active : List ℕ
  pub pending : List ℕ
  pub la_mac : List (List ℕ)
  pub lna_mac : List (List ℕ)
  pub pending_mac : List (List ℕ)

-- The structure with all its sizes 0.
unfoldable pub empty_state : PsetState
empty_state = record {
  l_active = [];
  l_not_active = [];
  pending = [];
  la_mac = [];
  lna_mac = [];
  pending_mac = [];
}

-- The snapshot `pstate`, none where it stays a null pointer: the result -ENOMEM.
unfoldable pub pset_state_init : Bool → Option PsetState
pset_state_init memory = if memory then some empty_state else none

-- The body of the loop: one entry stored behind those of its class.
unfoldable pub store_entry : PsetState → PsetEntry → Run PsetState
store_entry s p =
    if p.status == pset_linked
    then (if not (p.active == 0)
        then (if ltb (length s.l_active) vrr_pset_size
            then done
                (record s { l_active = s.l_active ++ p.node ∷ []; la_mac = s.la_mac ++ p.mac ∷ [] })
            else oops out_of_bounds)
        else if ltb (length s.l_not_active) vrr_pset_size
        then done (record s {
          l_not_active = s.l_not_active ++ p.node ∷ [];
          lna_mac = s.lna_mac ++ p.mac ∷ [];
        })
        else oops out_of_bounds)
    else if p.status == pset_pending
    then (if ltb (length s.pending) vrr_pset_size
        then done (record s {
          pending = s.pending ++ p.node ∷ [];
          pending_mac = s.pending_mac ++ p.mac ∷ [];
        })
        else oops out_of_bounds)
    else done s

unfoldable pub store_entries : PsetState → List PsetEntry → Run PsetState
store_entries s [] = done s
store_entries s (p ∷ ps) = bind_run (store_entry s p) λ s'. store_entries s' ps

unfoldable pub pset_state_update : List PsetEntry → Run PsetState
unfolding store_entries empty_state
pset_state_update pset = store_entries empty_state pset

abbrev pub vrr_fail_timeout : ℕ
vrr_fail_timeout = 4

-- `tmp->status` after the first `if` of `detect_failures`, and whether that `if` is taken.
abbrev pub newly_failed : PsetEntry → ℕ → Bool
newly_failed tmp count = leb vrr_fail_timeout count && not (tmp.status == pset_failed)

-- The loop of `detect_failures`: `before` holds the entries that it has passed and kept.
unfoldable pub detect_loop :
    List PsetEntry → List PsetEntry → PsetState → Run (List PsetEntry × PsetState)
unfolding pset_inc_fail_count pset_state_update
detect_loop before [] st = done (before, st)
detect_loop before (tmp ∷ rest) st =
    let (counted, count) = pset_inc_fail_count tmp in
    let failed = newly_failed tmp count in
    let tmp' = if failed then record counted { status = pset_failed } else counted in
    let st' = if failed then pset_state_update (before ++ tmp' ∷ rest) else done st in
    let before' = if leb (2 * vrr_fail_timeout) count then before else before ++ tmp' ∷ [] in
    bind_run st' λ s. detect_loop before' rest s

unfoldable pub detect_failures : List PsetEntry → PsetState → Run (List PsetEntry × PsetState)
unfolding detect_loop
detect_failures pset pstate = detect_loop [] pset pstate
