-- ===== src/Pset.antt =====
-- The physical set of vrr_data.c: the list of the neighbours that this node has heard, newest
-- first, and the snapshot of it that vrr_core.c keeps for the hello packets (`Snapshot`).
--
-- Every loop stops at the first entry of the identifier. `memory` says whether the allocation
-- succeeds; the code writes through the result unchecked.
pub mod Keys
pub mod Laws
use alpaca_vrr.Base.{
  ℕ, suc, ◌+◌, ◌%◌, ◌<◌, Bool, true, false, ◌&&◌, Option, none, some, List, [], ◌∷◌, ltb, ◌==◌,
  bytes_eq, if◌then◌else◌, length, get_or, not, bind_run, Run, done, oops, null_deref,
  out_of_bounds,
}

abbrev pub pset_linked : ℕ
pset_linked = 0

abbrev pub pset_pending : ℕ
pset_pending = 1

abbrev pub pset_failed : ℕ
pset_failed = 2

abbrev pub pset_unknown : ℕ
pset_unknown = 3

abbrev pub vrr_pset_size : ℕ
vrr_pset_size = 20

-- pset_list_t; a MAC address is the list of its bytes
pub record PsetEntry : Type 0 where
  pub node : ℕ
  pub status : ℕ
  pub active : ℕ
  pub mac : List ℕ
  pub fail_count : ℕ

-- `active ? 1 : 0`
abbrev pub flag : ℕ → ℕ
flag active = if active == 0 then 0 else 1

unfoldable pub pset_contains : ℕ → List PsetEntry → Bool
pset_contains id [] = false
pset_contains id (tmp ∷ rest) =
    let found = pset_contains id rest in if tmp.node == id then true else found

-- The result of `pset_add` beside the list: 1 for true.
unfoldable pub pset_add : Bool → ℕ → List ℕ → ℕ → ℕ → List PsetEntry → Run (Bool × List PsetEntry)
unfolding pset_contains
pset_add memory node mac status active pset =
    if pset_contains node pset
    then done (false, pset)
    else if memory
    then done (true, entry ∷ pset)
    else oops null_deref
  where
    entry : PsetEntry
    entry = record { node = node; status = status; active = flag active; mac = mac; fail_count = 0 }

-- It does not stop at the first entry, and returns 0.
unfoldable pub pset_remove : ℕ → List PsetEntry → ℕ × List PsetEntry
pset_remove node [] = (0, [])
pset_remove node (tmp ∷ rest) =
    let (ret, rest') = pset_remove node rest in
    if tmp.node == node then (ret, rest') else (ret, tmp ∷ rest')

unfoldable pub pset_get_status : ℕ → List PsetEntry → ℕ
pset_get_status node [] = pset_unknown
pset_get_status node (tmp ∷ rest) =
    let other = pset_get_status node rest in if tmp.node == node then tmp.status else other

unfoldable pub pset_get_active : ℕ → List PsetEntry → ℕ
pset_get_active node [] = 0
pset_get_active node (tmp ∷ rest) =
    let other = pset_get_active node rest in if tmp.node == node then tmp.active else other

unfoldable pub pset_update_status : ℕ → ℕ → ℕ → List PsetEntry → Bool × List PsetEntry
pset_update_status node newstatus active [] = (false, [])
pset_update_status node newstatus active (tmp ∷ rest) =
    let (ret, rest') = pset_update_status node newstatus active rest in
    if tmp.node == node
    then (true, record tmp { status = newstatus; active = flag active } ∷ rest)
    else (ret, tmp ∷ rest')

-- The node of the first entry with that address.
unfoldable pub pset_lookup_mac : List ℕ → List PsetEntry → Option ℕ
pset_lookup_mac mac [] = none
pset_lookup_mac mac (tmp ∷ rest) =
    let other = pset_lookup_mac mac rest in if bytes_eq mac tmp.mac then some tmp.node else other

unfoldable pub pset_get_mac : ℕ → List PsetEntry → Option (List ℕ)
pset_get_mac node [] = none
pset_get_mac node (tmp ∷ rest) =
    let other = pset_get_mac node rest in if tmp.node == node then some tmp.mac else other

-- 0 for true, -1 for false
unfoldable pub pset_reset_fail_count : ℕ → List PsetEntry → Bool × List PsetEntry
pset_reset_fail_count node [] = (false, [])
pset_reset_fail_count node (tmp ∷ rest) =
    let (ret, rest') = pset_reset_fail_count node rest in
    if tmp.node == node then (true, record tmp { fail_count = 0 } ∷ rest) else (ret, tmp ∷ rest')

-- The entry, and the count that it has then.
unfoldable pub pset_inc_fail_count : PsetEntry → PsetEntry × ℕ
pset_inc_fail_count e = (record e { fail_count = e.fail_count + 1 }, e.fail_count + 1)

abbrev pub is_proxy : PsetEntry → Bool
is_proxy e = e.status == pset_linked && not (e.active == 0)

-- The loop of `pset_get_proxy`, which fills `active[VRR_PSET_SIZE]` from the index `i` on.
unfoldable pub collect_active : ℕ → List PsetEntry → Run (List ℕ)
collect_active i [] = done []
collect_active i (tmp ∷ rest) =
    let skipped = collect_active i rest in
    let stored = bind_run (collect_active (i + 1) rest) (λ ns. done (tmp.node ∷ ns)) in
    if is_proxy tmp then (if ltb i vrr_pset_size then stored else oops out_of_bounds) else skipped

-- `r` is the random word.
unfoldable pub pset_get_proxy : ℕ → List PsetEntry → Run (Option ℕ)
unfolding collect_active
pset_get_proxy r pset = elim (collect_active 0 pset) [
  | oops e ↦ oops e
  | done [] ↦ done none
  | done (a ∷ others) ↦ done (some (get_or (a ∷ others) (r % length (a ∷ others)) 0))
]
