-- ===== src/Rt/Exclude.antt =====
-- `rt_get_next_exclude` against the nodes that the search visits.
use alpaca_vrr.Base.{
  ℕ, ◌≡◌, refl, inl, inr, Option, none, some, List, [], ◌∷◌, ltb, ◌==◌, if◌then◌else◌, Bool-cases,
}
use alpaca_vrr.Rt.Defs.{RtNode, Tree, leaf, node}
use alpaca_vrr.Rt.{
  route_list_search, rt_search, rt_get_next, search_exclude, rt_search_exclude, rt_get_next_exclude,
}

-- The nodes on the way down to an endpoint, from the root.
unfoldable pub trail : ℕ → Tree → List RtNode
trail e leaf = []
trail e (node c l x r) =
    let below = trail e l in
    let above = trail e r in
    x ∷ (if ltb e x.endpoint then below else if ltb x.endpoint e then above else [])

-- The node that stands before the first one of the endpoint, if that is not the first of all.
unfoldable pub before : ℕ → List RtNode → Option RtNode
before src [] = none
before src (x ∷ []) = none
before src (x ∷ y ∷ ys) =
    let rest = before src (y ∷ ys) in if y.endpoint == src then some x else rest

-- The hop by the routes of that node, or else the hop of the plain search.
abbrev pub hop_before : ℕ → ℕ → ℕ → Option RtNode → ℕ
hop_before me e hop none = hop
hop_before me e hop (some x) = route_list_search me x.routes e

module _ (me e src : ℕ) where
  search_exclude-before :
      (p : RtNode) (t : Tree)
      → search_exclude me (some p) t e src
        ≡ hop_before me e (rt_search me t e) (before src (p ∷ trail e t))
  unfolding search_exclude rt_search before trail
  search_exclude-before p leaf = refl
  search_exclude-before p (node c l x r) = elim (Bool-cases (x.endpoint == src)) [
    | inl met ↦ rw met
    | inr other ↦ elim (Bool-cases (ltb e x.endpoint)) [
      | inl lower ↦ rw (other, lower) (search_exclude-before x l)
      | inr not_lower ↦ elim (Bool-cases (ltb x.endpoint e)) [
        | inl higher ↦ rw (other, not_lower, higher) (search_exclude-before x r)
        | inr here ↦ rw (other, not_lower, here)
      ]
    ]
  ]

  -- Where the search for the destination meets the node of the excluded identifier, and that is not
  -- the root, the next hop is by the routes of the node above it, whatever their ends; else it is
  -- that of the plain search.
  pub rt_get_next_exclude-before :
      (t : Tree)
      → rt_get_next_exclude me t e src
        ≡ hop_before me e (rt_get_next me t e) (before src (trail e t))
  unfolding rt_get_next_exclude rt_search_exclude rt_get_next search_exclude rt_search before trail
  rt_get_next_exclude-before leaf = refl
  rt_get_next_exclude-before (node c l x r) = elim (Bool-cases (ltb e x.endpoint)) [
    | inl lower ↦ rw lower (search_exclude-before x l)
    | inr not_lower ↦ elim (Bool-cases (ltb x.endpoint e)) [
      | inl higher ↦ rw (not_lower, higher) (search_exclude-before x r)
      | inr here ↦ rw (not_lower, here)
    ]
  ]
