-- ===== src/Snapshot/Classes.antt =====
-- `pset_state_update` sorts the physical set into three classes.
use alpaca_vrr.Base.{
  ℕ, ◌≤◌, ◌≡◌, refl, ap, Bool, ◌&&◌, List, [], ◌∷◌, ◌++◌, arith, map, ◌==◌, not, length,
  length-append, select, Run, done, oops, out_of_bounds, subst, sym,
}
use mathlib.Core.List.{append-nil, append_assoc, map-append}
use alpaca_vrr.Pset.{PsetEntry, pset_linked, pset_pending, vrr_pset_size}
use alpaca_vrr.Snapshot.{PsetState, empty_state, store_entry, store_entries, pset_state_update}

abbrev pub is_linked_active : PsetEntry → Bool
is_linked_active e = e.status == pset_linked && not (e.active == 0)

abbrev pub is_linked_not_active : PsetEntry → Bool
is_linked_not_active e = e.status == pset_linked && e.active == 0

abbrev pub is_pending : PsetEntry → Bool
is_pending e = e.status == pset_pending

abbrev pub of_class : (PsetEntry → Bool) → List PsetEntry → List ℕ
of_class p ps = map (λ (e : PsetEntry). e.node) (select p ps)

abbrev pub macs_of_class : (PsetEntry → Bool) → List PsetEntry → List (List ℕ)
macs_of_class p ps = map (λ (e : PsetEntry). e.mac) (select p ps)

-- The snapshot that the set ought to have.
abbrev pub classify : List PsetEntry → PsetState
classify ps = record {
  l_active = of_class is_linked_active ps;
  l_not_active = of_class is_linked_not_active ps;
  pending = of_class is_pending ps;
  la_mac = macs_of_class is_linked_active ps;
  lna_mac = macs_of_class is_linked_not_active ps;
  pending_mac = macs_of_class is_pending ps;
}

abbrev pub join : PsetState → PsetState → PsetState
join s t = record {
  l_active = s.l_active ++ t.l_active;
  l_not_active = s.l_not_active ++ t.l_not_active;
  pending = s.pending ++ t.pending;
  la_mac = s.la_mac ++ t.la_mac;
  lna_mac = s.lna_mac ++ t.lna_mac;
  pending_mac = s.pending_mac ++ t.pending_mac;
}

-- No class has more members than its array has cells.
pub record Fits (s : PsetState) : Type 0 where
  pub la_fits : length s.l_active ≤ vrr_pset_size
  pub lna_fits : length s.l_not_active ≤ vrr_pset_size
  pub p_fits : length s.pending ≤ vrr_pset_size

-- The run gives the snapshot `t`, or faults because `t` does not fit.
abbrev pub Gives : PsetState → Run PsetState → Type 0
Gives t (done s) = (s ≡ t) × Fits t
Gives t (oops e) = (e ≡ out_of_bounds) × (¬ Fits t)

select-append :
    (p : PsetEntry → Bool) (xs ys : List PsetEntry)
    → select p (xs ++ ys) ≡ select p xs ++ select p ys
select-append p [] ys = refl
select-append p (x ∷ xs) ys = ground (arith, select-append p xs ys)

pub classify-append :
    (xs ys : List PsetEntry) → classify (xs ++ ys) ≡ join (classify xs) (classify ys)
classify-append xs ys = simp (select-append, map-append)

pub join_assoc : (r s t : PsetState) → join (join r s) t ≡ join r (join s t)
join_assoc r s t = simp append_assoc

join-nil : (s : PsetState) → join s (classify []) ≡ s
join-nil s = simp append-nil

store_entry-Gives :
    (s : PsetState) (p : PsetEntry) → Fits s → Gives (join s (classify (p ∷ []))) (store_entry s p)
unfolding store_entry
store_entry-Gives s p f = ground (
  arith,
  append-nil s.l_active,
  append-nil s.l_not_active,
  append-nil s.pending,
  append-nil s.la_mac,
  append-nil s.lna_mac,
  append-nil s.pending_mac,
  length-append s.l_active (p.node ∷ []),
  length-append s.l_not_active (p.node ∷ []),
  length-append s.pending (p.node ∷ []),
)

Fits-join : (s t : PsetState) → Fits (join s t) → Fits s
Fits-join s t f = omega (
  arith,
  length-append s.l_active t.l_active,
  length-append s.l_not_active t.l_not_active,
  length-append s.pending t.pending,
)

store_entries-Gives :
    (s : PsetState) (ps : List PsetEntry)
    → Fits s
    → Gives (join s (classify ps)) (store_entries s ps)
unfolding store_entries
store_entries-Gives s [] f = rw (join-nil s) (refl, f)
store_entries-Gives s (p ∷ ps) f =
    go (store_entry s p) refl (store_entry-Gives s p f)
      (store_entries-Gives (join s (classify (p ∷ []))) ps)
  where
    whole : join s (classify (p ∷ ps)) ≡ join (join s (classify (p ∷ []))) (classify ps)
    whole =
        rw (join_assoc s (classify (p ∷ [])) (classify ps))
          (ap (join s) (classify-append (p ∷ []) ps))

    go :
        (o : Run PsetState)
        → store_entry s p ≡ o
        → Gives (join s (classify (p ∷ []))) o
        → (Fits (join s (classify (p ∷ [])))
            → Gives
                (join (join s (classify (p ∷ []))) (classify ps))
                (store_entries (join s (classify (p ∷ []))) ps))
        → Gives (join s (classify (p ∷ ps))) (store_entries s (p ∷ ps))
    go (oops e) h c later =
        rw (h, store_entries)
          (
            c.0,
            λ (g : Fits (join s (classify (p ∷ ps)))).
                c.1 (Fits-join _ (classify ps) (subst Fits whole g)),
          )
    go (done s') h c later =
        rw (h, store_entries, c.0)
          (subst (λ t. Gives t (store_entries (join s (classify (p ∷ []))) ps)) (sym whole)
            (later c.1))

-- `pset_state_update` stores the classes of the set, in its order, and faults exactly where one of
-- them has more than VRR_PSET_SIZE members.
pub pset_state_update-Gives : (ps : List PsetEntry) → Gives (classify ps) (pset_state_update ps)
unfolding pset_state_update
pset_state_update-Gives ps = store_entries-Gives empty_state ps (omega arith)
