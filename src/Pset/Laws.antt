-- ===== src/Pset/Laws.antt =====
-- What the queries answer after the updates.
use alpaca_vrr.Base.{
  bind_run, contains, zero, suc, sym, ap, ℕ, ◌+◌, ◌<◌, ◌≤◌, ◌≡◌, refl, inl, inr, true, false, ◌&&◌,
  List, [], ◌∷◌, arith, ◌==◌, Run, done, oops, none, some, if◌then◌else◌, Bool-cases, ltb, length,
  select, get_or, ◌%◌, Option, bytes_eq_self, out_of_bounds, Returns, ==_self,
}
use alpaca_vrr.Pset.{
  PsetEntry, pset_unknown, vrr_pset_size, flag, pset_contains, pset_add, pset_get_status,
  pset_get_active, pset_update_status, pset_lookup_mac, pset_get_mac, is_proxy, collect_active,
  pset_get_proxy,
}
use alpaca_vrr.Pset.Keys.{nodes}

-- Given the memory, a node that was not there is found after `pset_add`, by its identifier and by
-- its address, with the status given and the activity as 0 or 1.
pub pset_add-found :
    (node : ℕ) (mac : List ℕ) (status active : ℕ) (ps : List PsetEntry)
    → pset_contains node ps ≡ false
    → Returns (pset_add true node mac status active ps) (λ r.
      (r.0 ≡ true)
      × (pset_get_status node r.1 ≡ status)
      × (pset_get_active node r.1 ≡ flag active)
      × (pset_get_mac node r.1 ≡ some mac)
      × (pset_lookup_mac mac r.1 ≡ some node))
unfolding pset_add pset_get_status pset_get_active pset_get_mac pset_lookup_mac
pset_add-found node mac status active ps new =
    rw (new, ==_self node, bytes_eq_self mac) (refl, refl, refl, refl, refl)

-- `pset_update_status` changes the status and the activity of a node that is there, and no other
-- node's; it reports whether the node is there.
pub pset_update_status_lem :
    (node status active : ℕ) (k : ℕ) (ps : List PsetEntry)
    → let r = pset_update_status node status active ps in
      (r.0 ≡ pset_contains node ps)
      × (pset_get_status k r.1
          ≡ (if k == node && pset_contains node ps then status else pset_get_status k ps))
      × (pset_get_active k r.1
          ≡ (if k == node && pset_contains node ps then flag active else pset_get_active k ps))
      × (pset_get_mac k r.1 ≡ pset_get_mac k ps)
unfolding pset_update_status pset_contains pset_get_status pset_get_active pset_get_mac
pset_update_status_lem node status active k [] = ground arith
pset_update_status_lem node status active k (e ∷ ps) =
    let ih = pset_update_status_lem node status active k ps in
    (ground (arith, ih.0), ground (arith, ih.1), ground (arith, ih.2), ground (arith, ih.3))

-- The status is "unknown" exactly for a node that is not there, where the list holds no such status.
pub pset_get_status-contains :
    (k : ℕ) (ps : List PsetEntry) → pset_contains k ps ≡ false → pset_get_status k ps ≡ pset_unknown
unfolding pset_contains pset_get_status
pset_get_status-contains k [] h = refl
pset_get_status-contains k (e ∷ ps) h = ground (arith, pset_get_status-contains k ps)

-- The neighbours among which `pset_get_proxy` chooses.
abbrev pub proxies : List PsetEntry → List ℕ
proxies ps = nodes (select is_proxy ps)

abbrev Collected : ℕ → List PsetEntry → Run (List ℕ) → Type 0
Collected i ps (done found) = (found ≡ proxies ps) × (i + length (proxies ps) ≤ vrr_pset_size)
Collected i ps (oops e) = (e ≡ out_of_bounds) × (vrr_pset_size < i + length (proxies ps))

Collected-store :
    (i : ℕ) (e : PsetEntry) (ps : List PsetEntry) (o : Run (List ℕ))
    → is_proxy e ≡ true
    → Collected (i + 1) ps o
    → Collected i (e ∷ ps) (bind_run o (λ ns. done (e.node ∷ ns)))
Collected-store i e ps (done found) p c = rw p (ground (arith, c.0, c.1))
Collected-store i e ps (oops f) p c = rw p (ground (arith, c.0, c.1))

Collected-skip :
    (i : ℕ) (e : PsetEntry) (ps : List PsetEntry) (o : Run (List ℕ))
    → is_proxy e ≡ false
    → Collected i ps o
    → Collected i (e ∷ ps) o
Collected-skip i e ps (done found) p c = rw p c
Collected-skip i e ps (oops f) p c = rw p c

collect_active-Collected :
    (i : ℕ) (ps : List PsetEntry) → i ≤ vrr_pset_size → Collected i ps (collect_active i ps)
unfolding collect_active
collect_active-Collected i [] h = ground arith
collect_active-Collected i (e ∷ ps) h = elim (Bool-cases (is_proxy e)) [
  | inr skip ↦ rw skip (Collected-skip i e ps _ skip (collect_active-Collected i ps h))
  | inl store ↦ elim (Bool-cases (ltb i vrr_pset_size)) [
    | inl fits ↦
        rw (store, fits)
          (Collected-store i e ps _ store (collect_active-Collected (i + 1) ps (ground arith)))
    | inr full ↦ rw (store, full, store) (ground arith)
  ]
]

-- What `pset_get_proxy` may answer.
abbrev pub Proxy : ℕ → List ℕ → Run (Option ℕ) → Type 0
Proxy r ns (done none) = ns ≡ []
Proxy r ns (done (some p)) =
    (p ≡ get_or ns (r % length ns) 0) × (contains p ns ≡ true) × (length ns ≤ vrr_pset_size)
Proxy r ns (oops e) = (e ≡ out_of_bounds) × (vrr_pset_size < length ns)

contains-get_or : (ns : List ℕ) (i : ℕ) → i < length ns → contains (get_or ns i 0) ns ≡ true
contains-get_or [] i h = absurd (omega arith)
contains-get_or (n ∷ ns) zero h = ground arith
contains-get_or (n ∷ ns) (suc i) h = ground (arith, contains-get_or ns i)

-- `pset_get_proxy` gives the linked and active neighbour that the random word selects, gives
-- nothing exactly where there is none, and writes past its array exactly where there are more than
-- VRR_PSET_SIZE of them.
pub pset_get_proxy-Proxy :
    (r : ℕ) (ps : List PsetEntry) → Proxy r (proxies ps) (pset_get_proxy r ps)
unfolding pset_get_proxy
pset_get_proxy-Proxy r ps =
    go (collect_active 0 ps) refl (collect_active-Collected 0 ps (omega arith))
  where
    go :
        (o : Run (List ℕ))
        → collect_active 0 ps ≡ o
        → Collected 0 ps o
        → Proxy r (proxies ps) (pset_get_proxy r ps)
    go (done []) h c = rw (h, pset_get_proxy) (sym c.0)
    go (done (a ∷ others)) h c =
        rw (h, pset_get_proxy, ← c.0)
          (
            refl,
            contains-get_or (a ∷ others) (r % length (a ∷ others)) (omega arith),
            omega (arith, c.1, ap length c.0),
          )
    go (oops e) h c = rw (h, pset_get_proxy) (c.0, omega (arith, c.1))
