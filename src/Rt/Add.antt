-- ===== src/Rt/Add.antt =====
-- `rt_add_route` against the routes that the table lists under each endpoint.
use alpaca_vrr.Base.{
  ℕ, ◌≡◌, refl, inl, inr, ◌⊎◌, Bool, true, false, List, [], ◌∷◌, arith, Bool-cases, ◌==◌,
  if◌then◌else◌, map, subst, ==_iff,
}
use mathlib.Core.List.{map-append}
use alpaca_vrr.Rt.Defs.{RtEntry, RtNode, Tree, leaf, node, Rbtree, inorder}
use alpaca_vrr.Rt.Sorted.{routes_at, Above, Rising, has_endpoint}
use alpaca_vrr.Rt.Insert.{rt_find_insert_node-FindsNode}
use alpaca_vrr.Rt.{rt_find_insert_node, push_route, map_nodes, add_under, rt_add_route}

-- A route filed once more under `key`, seen at the endpoint `k`. The identifier 0 stands for no
-- endpoint, and nothing is filed under it.
abbrev pub filed : ℕ → RtEntry → ℕ → List RtEntry → List RtEntry
filed key route k rs = if key == 0 then rs else if k == key then route ∷ rs else rs

inorder-map_nodes : (f : RtNode → RtNode) (t : Tree) → inorder (map_nodes f t) ≡ map f (inorder t)
inorder-map_nodes f leaf = refl
inorder-map_nodes f (node c l x r) =
    rw (inorder-map_nodes f l, inorder-map_nodes f r, map-append f (inorder l) (x ∷ inorder r))

module _ (e : ℕ) (route : RtEntry) where
  Above-push_route : (k : ℕ) (ns : List RtNode) → Above k ns → Above k (map (push_route e route) ns)
  Above-push_route k [] a = tt
  Above-push_route k (n ∷ ns) a = (ground arith, Above-push_route k ns a.1)

  Rising-push_route : (ns : List RtNode) → Rising ns → Rising (map (push_route e route) ns)
  Rising-push_route [] s = tt
  Rising-push_route (n ∷ ns) s =
      (ground (arith, Above-push_route n.endpoint ns s.0), Rising-push_route ns s.1)

  push_route-absent :
      (ns : List RtNode)
      → Above e ns
      → (k : ℕ) → routes_at k (map (push_route e route) ns) ≡ routes_at k ns
  push_route-absent [] a k = refl
  push_route-absent (n ∷ ns) a k = ground (arith, push_route-absent ns a.1 k)

  routes_at-push_route :
      (k : ℕ) (ns : List RtNode)
      → Rising ns
      → has_endpoint e ns ≡ true
      → routes_at k (map (push_route e route) ns)
        ≡ (if k == e then route ∷ routes_at k ns else routes_at k ns)
  routes_at-push_route k [] s h = cc
  routes_at-push_route k (n ∷ ns) s h = elim (Bool-cases (n.endpoint == e)) [
    | inl hit ↦
        let above : Above e ns = subst (λ z. Above z ns) ((==_iff n.endpoint e).0 hit) s.0 in
        ground (arith, push_route-absent ns above k)
    | inr miss ↦ ground (arith, routes_at-push_route k ns s.1)
  ]

-- What either half of `rt_add_route` does to a table.
module _ (rb : Rbtree) (mem : ℕ → Bool) (e : ℕ) (route : RtEntry) (t : Tree) (n : ℕ) where
  pub add_under-Rising : Rising (inorder t) → Rising (inorder (add_under rb mem e route t n).1)
  unfolding add_under
  add_under-Rising s =
      let f = rt_find_insert_node-FindsNode rb mem e t n s in
      let pushed = Rising-push_route e route _ f.rising in
      ground (arith, inorder-map_nodes (push_route e route) (rt_find_insert_node rb mem e t n).1)

  pub add_under-filed :
      (k : ℕ)
      → Rising (inorder t)
      → (add_under rb mem e route t n).0 ≡ true
      → routes_at k (inorder (add_under rb mem e route t n).1)
        ≡ (if k == e then route ∷ routes_at k (inorder t) else routes_at k (inorder t))
  unfolding add_under
  add_under-filed k s ok =
      let f = rt_find_insert_node-FindsNode rb mem e t n s in
      let t' = (rt_find_insert_node rb mem e t n).1 in
      ground (
        arith,
        inorder-map_nodes (push_route e route) t',
        routes_at-push_route e route k (inorder t') f.rising,
        f.same_routes k,
        f.has_node,
      )

  pub add_under-failed :
      (k : ℕ)
      → Rising (inorder t)
      → (add_under rb mem e route t n).0 ≡ false
      → routes_at k (inorder (add_under rb mem e route t n).1) ≡ routes_at k (inorder t)
  unfolding add_under
  add_under-failed k s ok =
      let f = rt_find_insert_node-FindsNode rb mem e t n s in ground (arith, f.same_routes k)

module _ (rb : Rbtree) (mem : ℕ → Bool) (ea eb na nb pid : ℕ) (t : Tree) (n : ℕ)
    (s : Rising (inorder t)) where
  abbrev route : RtEntry
  route = record { ea = ea; eb = eb; na = na; nb = nb; path_id = pid }

  -- The table stays a search tree, whether or not the memory suffices.
  pub rt_add_route-Rising : Rising (inorder (rt_add_route rb mem ea eb na nb pid t n).1)
  unfolding rt_add_route
  rt_add_route-Rising =
      let mid = add_under rb mem ea route t n in
      ground (
        arith,
        add_under-Rising rb mem ea route t n s,
        add_under-Rising rb mem eb route t n s,
        add_under-Rising rb mem eb route mid.1 mid.2,
      )

  -- On success the route is newest in the list of each end that is not 0, and no other list changes.
  pub rt_add_route-filed :
      (k : ℕ)
      → (rt_add_route rb mem ea eb na nb pid t n).0 ≡ true
      → routes_at k (inorder (rt_add_route rb mem ea eb na nb pid t n).1)
        ≡ filed eb route k (filed ea route k (routes_at k (inorder t)))
  unfolding rt_add_route
  rt_add_route-filed k ok =
      let mid = add_under rb mem ea route t n in
      ground (
        arith,
        add_under-Rising rb mem ea route t n s,
        add_under-filed rb mem ea route t n k s,
        add_under-filed rb mem eb route t n k s,
        add_under-filed rb mem eb route mid.1 mid.2 k,
      )

  -- On failure every list is as before, or has the route under `ea` alone: nothing is taken back.
  pub rt_add_route-failed :
      (k : ℕ)
      → (rt_add_route rb mem ea eb na nb pid t n).0 ≡ false
      → (routes_at k (inorder (rt_add_route rb mem ea eb na nb pid t n).1)
          ≡ routes_at k (inorder t))
        ⊎ (routes_at k (inorder (rt_add_route rb mem ea eb na nb pid t n).1)
            ≡ filed ea route k (routes_at k (inorder t)))
  unfolding rt_add_route
  rt_add_route-failed k ok =
      let mid = add_under rb mem ea route t n in
      ground (
        arith,
        add_under-Rising rb mem ea route t n s,
        add_under-filed rb mem ea route t n k s,
        add_under-failed rb mem ea route t n k s,
        add_under-failed rb mem eb route t n k s,
        add_under-failed rb mem eb route mid.1 mid.2 k,
      )
