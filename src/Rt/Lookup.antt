-- ===== src/Rt/Lookup.antt =====
-- The searches of the tree against the routes that it lists.
use alpaca_vrr.Base.{
  ℕ, ◌<◌, ◌≡◌, refl, sym, inl, inr, false, Option, none, some, ◌∷◌, arith, Order-cases, lt→ltb,
  ge→ltb, ◌==◌, if◌then◌else◌,
}
use mathlib.Core.List.{append-nil}
use alpaca_vrr.Rt.Defs.{RtNode, Tree, leaf, node, inorder}
use alpaca_vrr.Rt.Sorted.{
  routes_at, Rising, has_endpoint, Rising-split, routes_at-append, routes_at-Above, routes_at-Below,
  Above-mono, Below-mono,
}
use alpaca_vrr.Rt.Insert.{has_endpoint-append}
use alpaca_vrr.Rt.{route_list_search, rt_search, rt_get_next, search_exclude, rt_get_next_exclude}

-- Where the routes of an endpoint lie in a sorted tree.
module _ (e c : ℕ) (l : Tree) (x : RtNode) (r : Tree) (s : Rising (inorder (node c l x r))) where
  pub routes_at-left :
      e < x.endpoint → routes_at e (inorder (node c l x r)) ≡ routes_at e (inorder l)
  routes_at-left h =
      let (b, a, sl, sr) = Rising-split (inorder l) x (inorder r) s in
      rw routes_at-append (
        ground (
          arith,
          routes_at-Above e (inorder r) (Above-mono (inorder r) h a),
          append-nil (routes_at e (inorder l)),
        ))

  pub routes_at-right :
      x.endpoint < e → routes_at e (inorder (node c l x r)) ≡ routes_at e (inorder r)
  routes_at-right h =
      let (b, a, sl, sr) = Rising-split (inorder l) x (inorder r) s in
      rw routes_at-append
        (ground (arith, routes_at-Below e (inorder l) (Below-mono (inorder l) h b)))

  pub routes_at-here : x.endpoint ≡ e → routes_at e (inorder (node c l x r)) ≡ x.routes
  routes_at-here h =
      let (b, a, sl, sr) = Rising-split (inorder l) x (inorder r) s in
      rw (← h, routes_at-append)
        (ground (
          arith,
          routes_at-Below x.endpoint (inorder l) b,
          routes_at-Above x.endpoint (inorder r) a,
          append-nil x.routes,
        ))

-- On a search tree the lookup finds the routes filed under the endpoint.
pub rt_search-routes_at :
    (me : ℕ) (t : Tree) (e : ℕ)
    → Rising (inorder t)
    → rt_search me t e ≡ (if e == me then 0 else route_list_search me (routes_at e (inorder t)) e)
unfolding rt_search route_list_search
rt_search-routes_at me leaf e s = ground arith
rt_search-routes_at me (node c l x r) e s =
    let (b, a, sl, sr) = Rising-split (inorder l) x (inorder r) s in
    elim (Order-cases e x.endpoint) [
      | inl lt ↦ rw (lt→ltb _ _ lt, routes_at-left e c l x r s lt) (rt_search-routes_at me l e sl)
      | inr (inl eq) ↦ rw (
        ge→ltb e x.endpoint (omega arith),
        ge→ltb x.endpoint e (omega arith),
        routes_at-here e c l x r s (sym eq),
        eq,
      )
      | inr (inr gt) ↦
          rw (ge→ltb e x.endpoint (omega arith), lt→ltb _ _ gt, routes_at-right e c l x r s gt)
            (rt_search-routes_at me r e sr)
    ]

search_exclude_absent :
    (me : ℕ) (prev : Option RtNode) (t : Tree) (e src : ℕ)
    → has_endpoint src (inorder t) ≡ false
    → search_exclude me prev t e src ≡ rt_search me t e
unfolding search_exclude rt_search
search_exclude_absent me prev leaf e src h = refl
search_exclude_absent me none (node c l x r) e src h = ground (
  arith,
  has_endpoint-append src (inorder l) (x ∷ inorder r),
  search_exclude_absent me (some x) l e src,
  search_exclude_absent me (some x) r e src,
)
search_exclude_absent me (some p) (node c l x r) e src h = ground (
  arith,
  has_endpoint-append src (inorder l) (x ∷ inorder r),
  search_exclude_absent me (some x) l e src,
  search_exclude_absent me (some x) r e src,
)

-- A search that excludes an identifier with no node in the table is the plain search.
pub rt_get_next_exclude-absent :
    (me : ℕ) (t : Tree) (dest src : ℕ)
    → has_endpoint src (inorder t) ≡ false
    → rt_get_next_exclude me t dest src ≡ rt_get_next me t dest
unfolding rt_get_next_exclude rt_get_next
rt_get_next_exclude-absent me t dest src h = search_exclude_absent me none t dest src h
