-- ===== src/Rt/Choice.antt =====
-- `route_list_search`: which entry it picks, and which of its two hops.
use alpaca_vrr.Base.{
  ℕ, ◌<◌, ◌≤◌, ◌≡◌, ◌≢◌, refl, inl, inr, ◌⊎◌, Option, none, some, List, [], ◌∷◌, arith, All,
  Bool-cases, ltb, subst, ==_ne,
}
use mathlib.Core.Option.{some-injective}
use alpaca_vrr.Ids.{get_diff}
use alpaca_vrr.Rt.Defs.{RtEntry, Tree, inorder}
use alpaca_vrr.Rt.Sorted.{routes_at, Rising}
use alpaca_vrr.Rt.Lookup.{rt_search-routes_at}
use alpaca_vrr.Rt.{max_entry, choose_hop, route_list_search, rt_get_next}

-- The entry stands in the list.
abbrev pub Among : RtEntry → List RtEntry → Type 0
Among e [] = ⊥
Among e (x ∷ xs) = (x ≡ e) ⊎ Among e xs

-- The entry is one of the list, and no path id is greater than its own.
pub record IsNewest (e : RtEntry) (rs : List RtEntry) : Type 0 where
  pub among : Among e rs
  pub greatest : All (λ r. r.path_id ≤ e.path_id) rs

-- The hop goes to the end that is nearer to `endpoint`, or away from ourselves.
abbrev pub Leads : ℕ → ℕ → RtEntry → ℕ → Type 0
Leads me endpoint e hop =
    ((hop ≡ e.na) × (e.ea ≢ me) × ((get_diff endpoint e.ea < get_diff endpoint e.eb) ⊎ (e.eb ≡ me)))
    ⊎ ((hop ≡ e.nb)
        × (e.eb ≢ me)
        × ((get_diff endpoint e.eb ≤ get_diff endpoint e.ea) ⊎ (e.ea ≡ me)))

All-mono :
    (m n : ℕ) (rs : List RtEntry)
    → m ≤ n
    → All (λ r. r.path_id ≤ m) rs
    → All (λ r. r.path_id ≤ n) rs
All-mono m n [] h a = tt
All-mono m n (r ∷ rs) h a = (omega arith, All-mono m n rs h a.1)

-- What the loop returns from a best entry so far.
abbrev Best : Option RtEntry → ℕ → List RtEntry → Option RtEntry → Type 0
Best best m rs none = (best ≡ none) × All (λ r. r.path_id ≤ m) rs
Best best m rs (some e) =
    ((best ≡ some e) × All (λ r. r.path_id ≤ m) rs)
    ⊎ (Among e rs × (m < e.path_id) × All (λ r. r.path_id ≤ e.path_id) rs)

module _ (best : Option RtEntry) (m : ℕ) (r : RtEntry) (rs : List RtEntry) where
  Best-take :
      (o : Option RtEntry) → m < r.path_id → Best (some r) r.path_id rs o → Best best m (r ∷ rs) o
  Best-take none h b = absurd (ground arith)
  Best-take (some e) h (inl (p, a)) =
      subst (λ z. Best best m (r ∷ rs) (some z)) (some-injective _ _ p)
        (inr (inl refl, h, (omega arith, a)))
  Best-take (some e) h (inr (i, lt, a)) = inr (inr i, omega arith, (omega arith, a))

  Best-skip : (o : Option RtEntry) → r.path_id ≤ m → Best best m rs o → Best best m (r ∷ rs) o
  Best-skip none h (p, a) = (p, (h, a))
  Best-skip (some e) h (inl (p, a)) = inl (p, (h, a))
  Best-skip (some e) h (inr (i, lt, a)) = inr (inr i, lt, (omega arith, a))

max_entry-Best :
    (best : Option RtEntry) (m : ℕ) (rs : List RtEntry) → Best best m rs (max_entry best m rs)
unfolding max_entry
max_entry-Best none m [] = (refl, tt)
max_entry-Best (some e) m [] = inl (refl, tt)
max_entry-Best best m (r ∷ rs) = elim (Bool-cases (ltb m r.path_id)) [
  | inl up ↦ rw up (Best-take best m r rs _ (ground arith) (max_entry-Best (some r) r.path_id rs))
  | inr low ↦ rw low (Best-skip best m r rs _ (ground arith) (max_entry-Best best m rs))
]

choose_hop-Leads :
    (me endpoint : ℕ) (e : RtEntry)
    → (e.ea ≢ me) ⊎ (e.eb ≢ me)
    → Leads me endpoint e (choose_hop me endpoint e)
unfolding choose_hop
choose_hop-Leads me endpoint e h = ground arith

-- Whether a list has a usable entry, and where the hop then leads.
abbrev pub Picks : ℕ → ℕ → List RtEntry → ℕ → Type 0
Picks me endpoint rs hop =
    ((hop ≡ 0) × All (λ r. r.path_id ≡ 0) rs)
    ⊎ ((e : RtEntry) × IsNewest e rs × (0 < e.path_id) × Leads me endpoint e hop)

zero_ids : (rs : List RtEntry) → All (λ r. r.path_id ≤ 0) rs → All (λ r. r.path_id ≡ 0) rs
zero_ids [] a = tt
zero_ids (r ∷ rs) a = (omega arith, zero_ids rs a.1)

-- No entry is a path from this node to itself.
abbrev pub NoLoop : ℕ → List RtEntry → Type 0
NoLoop me = All λ r. (r.ea ≢ me) ⊎ (r.eb ≢ me)

pub Among-All :
    (P : RtEntry → Type 0) (e : RtEntry) (rs : List RtEntry) → Among e rs → All P rs → P e
Among-All P e (r ∷ rs) (inl p) a = subst P p a.0
Among-All P e (r ∷ rs) (inr i) a = Among-All P e rs i a.1
Among-All P e [] i a = absurd i

pub route_list_search-Picks :
    (me endpoint : ℕ) (rs : List RtEntry)
    → NoLoop me rs
    → Picks me endpoint rs (route_list_search me rs endpoint)
unfolding route_list_search
route_list_search-Picks me endpoint rs nl = go (max_entry none 0 rs) refl (max_entry-Best none 0 rs)
  where
    go :
        (o : Option RtEntry)
        → max_entry none 0 rs ≡ o
        → Best none 0 rs o
        → Picks me endpoint rs (route_list_search me rs endpoint)
    go none h (p, a) = rw (h, route_list_search) (inl (refl, zero_ids rs a))
    go (some e) h (inl (p, a)) = absurd (cc)
    go (some e) h (inr (i, lt, a)) =
        rw (h, route_list_search)
          (inr (
            e,
            record { among = i; greatest = a },
            lt,
            choose_hop-Leads me endpoint e (Among-All _ e rs i nl),
          ))

-- On a search tree, for a destination that is not this node: `rt_get_next` gives the hop of the
-- newest route filed under the destination, or 0 if no route there has a positive path id.
pub rt_get_next-Picks :
    (me : ℕ) (t : Tree) (dest : ℕ)
    → Rising (inorder t)
    → dest ≢ me
    → NoLoop me (routes_at dest (inorder t))
    → Picks me dest (routes_at dest (inorder t)) (rt_get_next me t dest)
unfolding rt_get_next
rt_get_next-Picks me t dest s h nl =
    rw (rt_search-routes_at me t dest s, ==_ne dest me h)
      (route_list_search-Picks me dest (routes_at dest (inorder t)) nl)
