-- ===== src/Checks/Sets.antt =====
-- Examples of the physical set, its snapshot, the virtual set, the identifiers and the activation.
use alpaca_vrr.Base.{◌⊎◌, ℕ, ◌≡◌, ◌≤◌, ◌↔◌, refl, ◌∷◌, [], false, true, done, Returns, arith}
use alpaca_vrr.Pset.{pset_get_proxy}
use alpaca_vrr.Pset.Laws.{Proxy, pset_get_proxy-Proxy}
use alpaca_vrr.Snapshot.{pset_state_update, detect_failures}
use alpaca_vrr.Snapshot.Classes.{classify, Gives, pset_state_update-Gives}
use alpaca_vrr.Snapshot.Failures.{detect_failures-age}
use alpaca_vrr.Snapshot.Silence.{periods, detect_failures-forgets}
use alpaca_vrr.Node.{VrrNode}
use alpaca_vrr.Node.Activation.{Joined, joined, tick, packet, run, HasTicks, run-active}
use alpaca_vrr.Vset.{vset_has, vset_add, vset_remove}
use alpaca_vrr.Vset.Members.{IsValid, Added, vset_add-Added, vset_remove_lem}
use alpaca_vrr.Checks.Samples.{entry, neighbours, ring, unsorted, zeros}

pset_get_proxy-Proxy_example : Proxy 7 (5 ∷ 6 ∷ []) (pset_get_proxy 7 neighbours)
pset_get_proxy-Proxy_example = pset_get_proxy-Proxy 7 neighbours

pset_state_update-Gives_example : Gives (classify neighbours) (pset_state_update neighbours)
pset_state_update-Gives_example = pset_state_update-Gives neighbours

detect_failures-age_example :
    let aged = entry 5 0 1 1 ∷ entry 6 2 1 4 ∷ [] in
    detect_failures neighbours (classify neighbours) ≡ done (aged, classify aged)
detect_failures-age_example = detect_failures-age neighbours (omega arith)

abbrev idle : VrrNode
idle = record {
  id = 1;
  vset_size = 4;
  rtable_value = 0;
  version = 1;
  active = 0;
  timeout = 0;
  dev_list = [];
}

run-active_example :
    ((run idle (tick ∷ packet ∷ joined ∷ [])).active ≡ 1)
    ↔ (Joined (tick ∷ packet ∷ joined ∷ []) ⊎ HasTicks 8 (tick ∷ packet ∷ joined ∷ []))
run-active_example = run-active idle (tick ∷ packet ∷ joined ∷ []) refl refl

abbrev is_valid : (n : ℕ) → 2 ≤ n → IsValid (ring n)
is_valid n h = record { distinct = ((omega arith, tt), (tt, tt)); sized = h }

vset_add-Added_example : Returns (vset_add unsorted zeros true 1 8 (ring 4)) (Added 1 8 (ring 4))
vset_add-Added_example = vset_add-Added unsorted zeros 1 8 (ring 4) (is_valid 4 (omega arith))

vset_remove_lem_example :
    ((vset_remove 3 (ring 2)).0 ≡ true)
    × (vset_has 3 (vset_remove 3 (ring 2)).1.entries ≡ false)
    × IsValid (vset_remove 3 (ring 2)).1
    × ((vset_remove 3 (ring 2)).1.vset_size ≡ 2)
unfolding vset_has
vset_remove_lem_example = vset_remove_lem 3 3 (ring 2) (is_valid 2 (omega arith))

detect_failures-forgets_example :
    periods 8 (neighbours, classify neighbours) ≡ done ([], classify [])
detect_failures-forgets_example = detect_failures-forgets neighbours (omega arith)
