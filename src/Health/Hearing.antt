-- ===== src/Health/Hearing.antt =====
-- The neighbours in the invariant: how many there are, and that every change keeps what is said of
-- them.
use alpaca_vrr.Base.{
  ℕ, suc, ◌≤◌, ◌<◌, ◌≡◌, ◌≢◌, refl, sym, ap, ◌∙◌, inl, inr, Bool, true, false, List, [], ◌∷◌, map,
  arith, All, Bool-cases, length, select, contains, Absent, Distinct, subst, ◌==◌, if◌then◌else◌,
}
use alpaca_vrr.Pset.{
  PsetEntry, pset_unknown, vrr_pset_size, pset_reset_fail_count, pset_update_status,
  pset_get_status, pset_contains,
}
use alpaca_vrr.Pset.Keys.{nodes, pset_updates-Distinct}
use alpaca_vrr.Snapshot.{PsetState}
use alpaca_vrr.Snapshot.Classes.{is_linked_active, is_linked_not_active, is_pending, classify}
use alpaca_vrr.Snapshot.Failures.{age, stays}
use alpaca_vrr.World.{PsetUpdate}
use alpaca_vrr.Health.{IsHeard, Neighbours}

-- A list without its first cell of that number.
abbrev drop_first : ℕ → List ℕ → List ℕ
drop_first a [] = []
drop_first a (x ∷ xs) = let rest = drop_first a xs in if x == a then xs else x ∷ rest

length-drop_first :
    (a : ℕ) (xs : List ℕ) → contains a xs ≡ true → length xs ≡ suc (length (drop_first a xs))
length-drop_first a [] h = cc
length-drop_first a (x ∷ xs) h = ground (arith, length-drop_first a xs)

contains-drop_first :
    (a b : ℕ) (xs : List ℕ) → a ≢ b → contains b xs ≡ true → contains b (drop_first a xs) ≡ true
contains-drop_first a b [] n h = h
contains-drop_first a b (x ∷ xs) n h = ground (arith, contains-drop_first a b xs n)

All-drop_first :
    (a : ℕ) (heard xs : List ℕ)
    → Absent a xs
    → All (IsHeard heard) xs
    → All (IsHeard (drop_first a heard)) xs
All-drop_first a heard [] n h = tt
All-drop_first a heard (x ∷ xs) n h =
    (contains-drop_first a x heard (λ e. n.0 (sym e)) h.0, All-drop_first a heard xs n.1 h.1)

-- Distinct numbers out of a list are no more than the list has.
length-le-heard :
    (heard xs : List ℕ) → Distinct xs → All (IsHeard heard) xs → length xs ≤ length heard
length-le-heard heard [] d h = omega arith
length-le-heard heard (x ∷ xs) d h = omega (
  arith,
  length-drop_first x heard h.0,
  length-le-heard (drop_first x heard) xs d.1 (All-drop_first x heard xs d.0 h.1),
)

IsHeard-nodes :
    (heard : List ℕ) (ps : List PsetEntry)
    → All (λ e. IsHeard heard e.node × (e.status < pset_unknown)) ps
    → All (IsHeard heard) (nodes ps)
IsHeard-nodes heard [] h = tt
IsHeard-nodes heard (e ∷ ps) h = (h.0.0, IsHeard-nodes heard ps h.1)

length-nodes : (ps : List PsetEntry) → length (nodes ps) ≡ length ps
length-nodes [] = refl
length-nodes (e ∷ ps) = ap suc (length-nodes ps)

-- The neighbours fit the arrays.
pub few :
    {heard : List ℕ} {ps : List PsetEntry} {st : PsetState} {us : List PsetUpdate}
    → Neighbours heard ps st us
    → length heard ≤ vrr_pset_size
    → length ps ≤ vrr_pset_size
few {heard} {ps} n room = omega (
  arith,
  length-nodes ps,
  length-le-heard heard (nodes ps) n.distinct (IsHeard-nodes heard ps n.known),
  room,
)

-- A class that does not look at the count is the same after the reset.
module _ {B : Type 0} (f : PsetEntry → B) (p : PsetEntry → Bool) where
  select-reset :
      ((e : PsetEntry) → p (record e { fail_count = 0 }) ≡ p e)
      → ((e : PsetEntry) → f (record e { fail_count = 0 }) ≡ f e)
      → (node : ℕ) (ps : List PsetEntry)
      → map f (select p (pset_reset_fail_count node ps).1) ≡ map f (select p ps)
  unfolding pset_reset_fail_count
  select-reset hp hf node [] = refl
  select-reset hp hf node (e ∷ ps) = ground (arith, hp e, hf e, select-reset hp hf node ps)

abbrev name_of : PsetEntry → ℕ
name_of e = e.node

abbrev mac_of : PsetEntry → List ℕ
mac_of e = e.mac

classify-reset :
    (node : ℕ) (ps : List PsetEntry) → classify (pset_reset_fail_count node ps).1 ≡ classify ps
classify-reset node ps = λ i. record {
  l_active = select-reset name_of is_linked_active (λ e. refl) (λ e. refl) node ps i;
  l_not_active = select-reset name_of is_linked_not_active (λ e. refl) (λ e. refl) node ps i;
  pending = select-reset name_of is_pending (λ e. refl) (λ e. refl) node ps i;
  la_mac = select-reset mac_of is_linked_active (λ e. refl) (λ e. refl) node ps i;
  lna_mac = select-reset mac_of is_linked_not_active (λ e. refl) (λ e. refl) node ps i;
  pending_mac = select-reset mac_of is_pending (λ e. refl) (λ e. refl) node ps i;
}

Absent-age : (k : ℕ) (ps : List PsetEntry) → Absent k (nodes ps) → Absent k (nodes (age ps))
Absent-age k [] a = tt
Absent-age k (e ∷ ps) a = elim (Bool-cases (stays e)) [
  | inl s ↦ rw s (a.0, Absent-age k ps a.1)
  | inr s ↦ rw s (Absent-age k ps a.1)
]

Distinct-age : (ps : List PsetEntry) → Distinct (nodes ps) → Distinct (nodes (age ps))
Distinct-age [] d = tt
Distinct-age (e ∷ ps) d = elim (Bool-cases (stays e)) [
  | inl s ↦ rw s (Absent-age e.node ps d.0, Distinct-age ps d.1)
  | inr s ↦ rw s (Distinct-age ps d.1)
]

abbrev Known : List ℕ → List PsetEntry → Type 0
Known heard = All λ e. IsHeard heard e.node × (e.status < pset_unknown)

module _ (heard : List ℕ) where
  Known-reset :
      (node : ℕ) (ps : List PsetEntry)
      → Known heard ps
      → Known heard (pset_reset_fail_count node ps).1
  unfolding pset_reset_fail_count
  Known-reset node [] h = tt
  Known-reset node (e ∷ ps) h = ground (arith, Known-reset node ps h.1)

  Known-age : (ps : List PsetEntry) → Known heard ps → Known heard (age ps)
  Known-age [] h = tt
  Known-age (e ∷ ps) h = elim (Bool-cases (stays e)) [
    | inl s ↦ rw s ((h.0.0, ground arith), Known-age ps h.1)
    | inr s ↦ rw s (Known-age ps h.1)
  ]

  Known-update :
      (node status active : ℕ) (ps : List PsetEntry)
      → status < pset_unknown
      → Known heard ps
      → Known heard (pset_update_status node status active ps).1
  unfolding pset_update_status
  Known-update node status active [] s h = tt
  Known-update node status active (e ∷ ps) s h =
      ground (arith, Known-update node status active ps s h.1)

  -- A node that is there has a known status, and any other is reported as unknown.
  pub pset_get_status-Known :
      (node : ℕ) (ps : List PsetEntry) → Known heard ps → pset_get_status node ps ≤ pset_unknown
  unfolding pset_get_status
  pset_get_status-Known node [] h = omega arith
  pset_get_status-Known node (e ∷ ps) h = ground (arith, pset_get_status-Known node ps h.1)

  pub contains-unknown :
      (node : ℕ) (ps : List PsetEntry)
      → Known heard ps
      → pset_get_status node ps ≡ pset_unknown
      → pset_contains node ps ≡ false
  unfolding pset_get_status pset_contains
  contains-unknown node [] h u = refl
  contains-unknown node (e ∷ ps) h u = ground (arith, contains-unknown node ps h.1)

module _ {heard : List ℕ} {ps : List PsetEntry} {st : PsetState} {us : List PsetUpdate} where
  pub Neighbours-reset :
      (node : ℕ)
      → Neighbours heard ps st us
      → Neighbours heard (pset_reset_fail_count node ps).1 st us
  Neighbours-reset node n = record {
    distinct = subst Distinct (sym (pset_updates-Distinct node 0 0 ps n.distinct).1) n.distinct;
    known = Known-reset heard node ps n.known;
    snapshot = n.snapshot ∙ sym (classify-reset node ps);
    asked = n.asked;
  }

  pub Neighbours-age : Neighbours heard ps st us → Neighbours heard (age ps) (classify (age ps)) us
  Neighbours-age n = record {
    distinct = Distinct-age ps n.distinct;
    known = Known-age heard ps n.known;
    snapshot = refl;
    asked = n.asked;
  }

  pub Neighbours-update :
      (node status active : ℕ)
      → status < pset_unknown
      → Neighbours heard ps st us
      → let qs = (pset_update_status node status active ps).1 in
        Neighbours heard qs (classify qs) us
  Neighbours-update node status active s n = record {
    distinct =
        subst Distinct (sym (pset_updates-Distinct node status active ps n.distinct).0) n.distinct;
    known = Known-update heard node status active ps s n.known;
    snapshot = refl;
    asked = n.asked;
  }
