-- ===== src/Pset/Keys.antt =====
-- Each neighbour has one entry: the invariant of the physical set, kept by every operation.
use alpaca_vrr.Base.{
  inl, inr, ℕ, ◌≡◌, refl, false, List, [], ◌∷◌, arith, map, Absent, Distinct, Returns, true,
  Bool-cases,
}
use alpaca_vrr.Pset.{
  PsetEntry, pset_contains, pset_add, pset_remove, pset_update_status, pset_reset_fail_count,
}

abbrev pub nodes : List PsetEntry → List ℕ
nodes = map λ e. e.node

pub pset_contains-Absent :
    (id : ℕ) (ps : List PsetEntry) → pset_contains id ps ≡ false → Absent id (nodes ps)
unfolding pset_contains
pset_contains-Absent id [] h = tt
pset_contains-Absent id (e ∷ ps) h = (ground arith, pset_contains-Absent id ps (ground arith))

-- Given the memory, `pset_add` returns and keeps the identifiers distinct, whether it adds the node
-- or finds it there.
pub pset_add-Distinct :
    (node : ℕ) (mac : List ℕ) (status active : ℕ) (ps : List PsetEntry)
    → Distinct (nodes ps)
    → Returns (pset_add true node mac status active ps) (λ r. Distinct (nodes r.1))
unfolding pset_add
pset_add-Distinct node mac status active ps d = elim (Bool-cases (pset_contains node ps)) [
  | inl old ↦ rw old d
  | inr new ↦ rw new (pset_contains-Absent node ps new, d)
]

nodes-update :
    (node status active : ℕ) (ps : List PsetEntry)
    → nodes (pset_update_status node status active ps).1 ≡ nodes ps
unfolding pset_update_status
nodes-update node status active [] = refl
nodes-update node status active (e ∷ ps) = ground (arith, nodes-update node status active ps)

nodes-reset : (node : ℕ) (ps : List PsetEntry) → nodes (pset_reset_fail_count node ps).1 ≡ nodes ps
unfolding pset_reset_fail_count
nodes-reset node [] = refl
nodes-reset node (e ∷ ps) = ground (arith, nodes-reset node ps)

Absent-remove :
    (k node : ℕ) (ps : List PsetEntry)
    → Absent k (nodes ps)
    → Absent k (nodes (pset_remove node ps).1)
unfolding pset_remove
Absent-remove k node [] a = tt
Absent-remove k node (e ∷ ps) a = ground (arith, Absent-remove k node ps a.1)

pset_remove-Distinct :
    (node : ℕ) (ps : List PsetEntry)
    → Distinct (nodes ps)
    → Distinct (nodes (pset_remove node ps).1)
unfolding pset_remove
pset_remove-Distinct node [] d = tt
pset_remove-Distinct node (e ∷ ps) d =
    ground (arith, pset_remove-Distinct node ps d.1, Absent-remove e.node node ps d.0)

pset_contains-remove :
    (node : ℕ) (ps : List PsetEntry) → pset_contains node (pset_remove node ps).1 ≡ false
unfolding pset_contains pset_remove
pset_contains-remove node [] = refl
pset_contains-remove node (e ∷ ps) = ground (arith, pset_contains-remove node ps)

-- The updates that keep the entries keep the identifiers, and removal keeps them distinct and takes
-- the node out.
pub pset_updates-Distinct :
    (node status active : ℕ) (ps : List PsetEntry)
    → Distinct (nodes ps)
    → (nodes (pset_update_status node status active ps).1 ≡ nodes ps)
      × (nodes (pset_reset_fail_count node ps).1 ≡ nodes ps)
      × Distinct (nodes (pset_remove node ps).1)
      × (pset_contains node (pset_remove node ps).1 ≡ false)
pset_updates-Distinct node status active ps d = (
  nodes-update node status active ps,
  nodes-reset node ps,
  pset_remove-Distinct node ps d,
  pset_contains-remove node ps,
)
