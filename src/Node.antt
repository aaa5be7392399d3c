-- ===== src/Node.antt =====
-- struct vrr_node of vrr.h and the activation timer of vrr_core.c.
pub mod Activation
use alpaca_vrr.Base.{ℕ, ◌+◌, List, ◌==◌, if◌then◌else◌}

-- The interface list holds the device names, as byte strings.
pub record VrrNode : Type 0 where
  pub id : ℕ
  pub vset_size : ℕ
  pub rtable_value : ℕ
  pub version : ℕ
  pub active : ℕ
  pub timeout : ℕ
  pub dev_list : List (List ℕ)

abbrev pub vrr_active_timeout : ℕ
vrr_active_timeout = 8

unfoldable pub active_timeout : VrrNode → VrrNode
active_timeout vrr =
    if vrr.active == 0
    then (if vrr.timeout + 1 == vrr_active_timeout
        then record vrr { timeout = vrr.timeout + 1; active = 1 }
        else record vrr { timeout = vrr.timeout + 1 })
    else vrr

unfoldable pub reset_active_timeout : VrrNode → VrrNode
reset_active_timeout vrr = record vrr { timeout = 0 }

-- It ignores its argument.
unfoldable pub set_vrr_id : ℕ → VrrNode → VrrNode
set_vrr_id vrr_id vrr = record vrr { id = 1 }

unfoldable pub get_vrr_id : VrrNode → ℕ
get_vrr_id vrr = vrr.id
