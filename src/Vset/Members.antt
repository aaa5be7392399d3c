-- ===== src/Vset/Members.antt =====
-- Which nodes the virtual set holds after the operations, and what becomes of the counter.
use alpaca_vrr.Base.{
  ℕ, ◌+◌, ◌≤◌, ◌≡◌, refl, sym, ap, true, false, ◌&&◌, ◌||◌, Option, none, some, List, [], ◌∷◌, ◌++◌,
  map, ◌==◌, arith, length, length-append, Returns, Returns-mono, Absent, Distinct, not, subst,
}
use alpaca_vrr.Vset.{
  VsetEntry, Vset, Cell, Sign, Bump, no_bump, bumped, bump_failed, new_entry, vset_has, vset_add,
  remove_entry, vset_remove,
}
use alpaca_vrr.Vset.Size.{IsSized, BumpsTo, AddsTo, vset_add-AddsTo}

abbrev pub ids : List VsetEntry → List ℕ
ids = map λ e. e.node

vset_has-Absent : (k : ℕ) (es : List VsetEntry) → vset_has k es ≡ false → Absent k (ids es)
unfolding vset_has
vset_has-Absent k [] h = tt
vset_has-Absent k (e ∷ es) h = (ground arith, vset_has-Absent k es (ground arith))

Absent-vset_has : (k : ℕ) (es : List VsetEntry) → Absent k (ids es) → vset_has k es ≡ false
unfolding vset_has
Absent-vset_has k [] h = refl
Absent-vset_has k (e ∷ es) h = ground (arith, Absent-vset_has k es h.1)

Absent-without :
    (k : ℕ) (xs : List VsetEntry) (e : VsetEntry) (ys : List VsetEntry)
    → Absent k (ids (xs ++ e ∷ ys))
    → Absent k (ids (xs ++ ys))
Absent-without k [] e ys a = a.1
Absent-without k (x ∷ xs) e ys a = (a.0, Absent-without k xs e ys a.1)

Absent-middle :
    (k : ℕ) (xs : List VsetEntry) (e : VsetEntry) (ys : List VsetEntry)
    → Absent k (ids (xs ++ e ∷ ys))
    → (e.node ≡ k → ⊥)
Absent-middle k [] e ys a = a.0
Absent-middle k (x ∷ xs) e ys a = Absent-middle k xs e ys a.1

-- Of distinct nodes one is taken out: it is gone, and the others stay distinct.
Distinct-without :
    (xs : List VsetEntry) (e : VsetEntry) (ys : List VsetEntry)
    → Distinct (ids (xs ++ e ∷ ys))
    → Distinct (ids (xs ++ ys)) × Absent e.node (ids (xs ++ ys))
Distinct-without [] e ys d = (d.1, d.0)
Distinct-without (x ∷ xs) e ys d =
    let ih = Distinct-without xs e ys d.1 in
    (
      (Absent-without x.node xs e ys d.0, ih.0),
      (ground (arith, Absent-middle x.node xs e ys d.0), ih.1),
    )

vset_has-without :
    (k : ℕ) (xs : List VsetEntry) (e : VsetEntry) (ys : List VsetEntry)
    → vset_has k (xs ++ e ∷ ys) ≡ (k == e.node || vset_has k (xs ++ ys))
unfolding vset_has
vset_has-without k [] e ys = ground arith
vset_has-without k (x ∷ xs) e ys = ground (arith, vset_has-without k xs e ys)

-- The set is well formed: no node twice, and each entry counted.
pub record IsValid (v : Vset) : Type 0 where
  pub distinct : Distinct (ids v.entries)
  pub sized : IsSized v

BumpsTo-IsValid : (v : Vset) (b : Bump) (w : Vset) → IsValid v → BumpsTo v b w → IsValid w
BumpsTo-IsValid v no_bump w h c = subst IsValid (sym c.1) h
BumpsTo-IsValid v bump_failed w h c = subst IsValid (sym c.1) h
BumpsTo-IsValid v (bumped n) w h (xs, e, ys, big, i, p, q, s) = record {
  distinct = rw q (Distinct-without xs e ys (rw p at h.distinct)).0;
  sized =
      rw q (omega (arith, h.sized, ap length p, length-append xs (e ∷ ys), length-append xs ys));
}

-- After the bump: the node that was taken out is gone, and any other is where it was.
abbrev pub Keeps : Vset → Bump → Vset → ℕ → Type 0
Keeps v no_bump w k = vset_has k w.entries ≡ vset_has k v.entries
Keeps v bump_failed w k = vset_has k w.entries ≡ vset_has k v.entries
Keeps v (bumped n) w k =
    (vset_has n v.entries ≡ true) × (vset_has k w.entries ≡ (vset_has k v.entries && not (k == n)))

BumpsTo-Keeps : (v : Vset) (b : Bump) (w : Vset) (k : ℕ) → IsValid v → BumpsTo v b w → Keeps v b w k
BumpsTo-Keeps v no_bump w k h c = rw c.1
BumpsTo-Keeps v bump_failed w k h c = rw c.1
BumpsTo-Keeps v (bumped n) w k h (xs, e, ys, big, i, p, q, s) =
    let gone = (Distinct-without xs e ys (rw p at h.distinct)).1 in
    rw (p, q, vset_has-without n xs e ys, vset_has-without k xs e ys)
      (ground (arith, Absent-vset_has e.node (xs ++ ys) gone))

-- What `vset_add` leaves: a well-formed set; for a node that was there the set itself; for a new
-- one a counter one higher, whether or not an entry was taken out again.
abbrev pub Added : ℕ → ℕ → Vset → Option Bump × Vset → Type 0
Added me node v (none, w) = IsValid w × (vset_has node v.entries ≡ true) × (w ≡ v)
Added me node v (some b, w) =
    IsValid w
    × (vset_has node v.entries ≡ false)
    × (w.vset_size ≡ v.vset_size + 1)
    × ((k : ℕ)
        → Keeps (record { entries = new_entry me node ∷ v.entries; vset_size = v.vset_size + 1 }) b
            w k)

BumpsTo-size : (v : Vset) (b : Bump) (w : Vset) → BumpsTo v b w → w.vset_size ≡ v.vset_size
BumpsTo-size v no_bump w c = rw c.1
BumpsTo-size v bump_failed w c = rw c.1
BumpsTo-size v (bumped n) w (xs, e, ys, big, i, p, q, s) = s

inserted-IsValid :
    (me node : ℕ) (v : Vset)
    → vset_has node v.entries ≡ false
    → IsValid v
    → IsValid (record { entries = new_entry me node ∷ v.entries; vset_size = v.vset_size + 1 })
unfolding new_entry
inserted-IsValid me node v new h = record {
  distinct = (vset_has-Absent node v.entries new, h.distinct);
  sized = omega (arith, h.sized);
}

module _ (sort : (Cell → Cell → Sign) → List ℕ → List ℕ) (junk : ℕ → ℕ) where
  -- On a well-formed set, given the memory, `vset_add` returns, and leaves a set that is `Added`.
  pub vset_add-Added :
      (me node : ℕ) (v : Vset)
      → IsValid v
      → Returns (vset_add sort junk true me node v) (Added me node v)
  vset_add-Added me node v h =
      Returns-mono (λ r. AddsTo sort junk me node v r.0 r.1) (Added me node v)
        (vset_add sort junk true me node v) (vset_add-AddsTo sort junk me node v h.sized) added
    where
      added : (r : Option Bump × Vset) → AddsTo sort junk me node v r.0 r.1 → Added me node v r
      added (none, w) (old, e) = (subst IsValid (sym e) h, old, e)
      added (some b, w) (new, c) =
          let i = inserted-IsValid me node v new h in
          (BumpsTo-IsValid _ b w i c, new, BumpsTo-size _ b w c, λ k. BumpsTo-Keeps _ b w k i c)

remove_entry-found :
    (node : ℕ) (es : List VsetEntry)
    → ((remove_entry node es).0 ≡ vset_has node es) × (length (remove_entry node es).1 ≤ length es)
unfolding remove_entry vset_has
remove_entry-found node [] = (refl, omega arith)
remove_entry-found node (e ∷ es) = ground (arith, remove_entry-found node es)

has-remove_entry :
    (node k : ℕ) (es : List VsetEntry)
    → Distinct (ids es)
    → vset_has k (remove_entry node es).1 ≡ (vset_has k es && not (k == node))
unfolding remove_entry vset_has
has-remove_entry node k [] d = refl
has-remove_entry node k (e ∷ es) d =
    ground (arith, has-remove_entry node k es d.1, Absent-vset_has e.node es d.0)

Absent-remove_entry :
    (node k : ℕ) (es : List VsetEntry) → Absent k (ids es) → Absent k (ids (remove_entry node es).1)
unfolding remove_entry
Absent-remove_entry node k [] a = tt
Absent-remove_entry node k (e ∷ es) a = ground (arith, Absent-remove_entry node k es a.1)

remove_entry-Distinct :
    (node : ℕ) (es : List VsetEntry) → Distinct (ids es) → Distinct (ids (remove_entry node es).1)
unfolding remove_entry
remove_entry-Distinct node [] d = tt
remove_entry-Distinct node (e ∷ es) d =
    ground (arith, remove_entry-Distinct node es d.1, Absent-remove_entry node e.node es d.0)

-- `vset_remove` takes the node out of a well-formed set, tells whether it was there, keeps the
-- others, and leaves the counter as it was.
pub vset_remove_lem :
    (node k : ℕ) (v : Vset)
    → IsValid v
    → ((vset_remove node v).0 ≡ vset_has node v.entries)
      × (vset_has k (vset_remove node v).1.entries ≡ (vset_has k v.entries && not (k == node)))
      × IsValid (vset_remove node v).1
      × ((vset_remove node v).1.vset_size ≡ v.vset_size)
unfolding vset_remove
vset_remove_lem node k v h = (
  (remove_entry-found node v.entries).0,
  has-remove_entry node k v.entries h.distinct,
  record {
    distinct = remove_entry-Distinct node v.entries h.distinct;
    sized = omega (arith, remove_entry-found node v.entries, h.sized);
  },
  refl,
)
