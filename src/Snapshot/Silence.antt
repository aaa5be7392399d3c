-- ===== src/Snapshot/Silence.antt =====
-- Neighbours that are silent for long enough are forgotten.
use alpaca_vrr.Base.{
  ℕ, zero, suc, ◌+◌, ◌*◌, ◌≤◌, ◌≡◌, refl, inl, inr, List, [], ◌∷◌, Run, done, bind_run, All, arith,
  Bool-cases, length, length-map, length-select-le, select, ap, ◌∙◌,
}
use alpaca_vrr.Pset.{PsetEntry, vrr_pset_size}
use alpaca_vrr.Snapshot.{PsetState, detect_failures, vrr_fail_timeout}
use alpaca_vrr.Snapshot.Classes.{classify}
use alpaca_vrr.Snapshot.Failures.{age, aged, stays, detect_failures-age}

-- Runs of the failure detector with no packet received between them.
abbrev pub periods : ℕ → List PsetEntry × PsetState → Run (List PsetEntry × PsetState)
periods zero p = done p
periods (suc n) (ps, st) = bind_run (detect_failures ps st) (periods n)

abbrev ages : ℕ → List PsetEntry → List PsetEntry
ages zero ps = ps
ages (suc n) ps = ages n (age ps)

pub length-age : (ps : List PsetEntry) → length (age ps) ≤ length ps
length-age ps = omega (arith, length-map aged (select stays ps), length-select-le stays ps)

periods-ages :
    (n : ℕ) (ps : List PsetEntry)
    → length ps ≤ vrr_pset_size
    → periods n (ps, classify ps) ≡ done (ages n ps, classify (ages n ps))
periods-ages zero ps h = refl
periods-ages (suc n) ps h =
    rw (detect_failures-age ps h) (periods-ages n (age ps) (omega (arith, length-age ps)))

-- Every entry was silent for `k` periods.
abbrev Silent : ℕ → List PsetEntry → Type 0
Silent k = All λ e. k ≤ e.fail_count

Silent-age : (k : ℕ) (ps : List PsetEntry) → Silent k ps → Silent (k + 1) (age ps)
Silent-age k [] s = tt
Silent-age k (e ∷ ps) s = elim (Bool-cases (stays e)) [
  | inl t ↦ rw t (omega (arith, s.0), Silent-age k ps s.1)
  | inr t ↦ rw t (Silent-age k ps s.1)
]

Silent-mono : (j k : ℕ) (ps : List PsetEntry) → k ≤ j → Silent j ps → Silent k ps
Silent-mono j k [] h s = tt
Silent-mono j k (e ∷ ps) h s = (omega (arith, h, s.0), Silent-mono j k ps h s.1)

age-gone : (ps : List PsetEntry) → Silent 7 ps → age ps ≡ []
age-gone [] s = refl
age-gone (e ∷ ps) s = ground (arith, age-gone ps s.1)

Silent-zero : (ps : List PsetEntry) → Silent 0 ps
Silent-zero [] = tt
Silent-zero (e ∷ ps) = (omega arith, Silent-zero ps)

ages-gone : (n k : ℕ) (ps : List PsetEntry) → Silent k ps → 7 ≤ k + n → ages (suc n) ps ≡ []
ages-gone zero k ps s h = age-gone ps (Silent-mono k 7 ps (omega (arith, h)) s)
ages-gone (suc n) k ps s h = ages-gone n (k + 1) (age ps) (Silent-age k ps s) (omega (arith, h))

-- On a set of at most VRR_PSET_SIZE nodes whose snapshot agrees with it, twice VRR_FAIL_TIMEOUT runs
-- of the failure detector, with no packet received between them, return, and leave the set and the
-- snapshot empty.
pub detect_failures-forgets :
    (ps : List PsetEntry)
    → length ps ≤ vrr_pset_size
    → periods (2 * vrr_fail_timeout) (ps, classify ps) ≡ done ([], classify [])
detect_failures-forgets ps h =
    periods-ages 8 ps h
    ∙ ap (λ z. done (z, classify z)) (ages-gone 7 0 ps (Silent-zero ps) (omega arith))
