-- ===== src/Rt/Remove.antt =====
-- `rt_remove_route`: what it takes out, and what it leaves.
use alpaca_vrr.Base.{
  ℕ, ◌≡◌, ◌≢◌, refl, sym, inl, inr, Bool, true, Option, none, some, List, [], ◌∷◌, ◌++◌, arith, All,
  Bool-cases, Order-cases, lt→ltb, ge→ltb, ◌==◌, if◌then◌else◌, map, subst, ==_iff, ==_self,
}
use alpaca_vrr.Rt.Defs.{RtEntry, RtNode, Tree, leaf, node, Rbtree, inorder}
use alpaca_vrr.Rt.Sorted.{
  routes_at, Above, Below, Rising, Rising-split, Above-mono, Below-mono, routes_at-Above,
}
use alpaca_vrr.Rt.Lookup.{routes_at-left, routes_at-right, routes_at-here}
use alpaca_vrr.Rt.{route_list_search_rmv, rt_search_rmv, rt_remove_route, rt_add_route}
use alpaca_vrr.Rt.Add.{rt_add_route-Rising, rt_add_route-filed}
use mathlib.Core.List.{append-nil, map-append}

-- The first entry of that path id is taken out, or there is none and the list stays.
abbrev pub Removes : ℕ → List RtEntry → Option RtEntry → List RtEntry → Type 0
Removes pid rs none rs' = All (λ r. r.path_id ≢ pid) rs × (rs' ≡ rs)
Removes pid rs (some e) rs' =
    (xs : List RtEntry) × (ys : List RtEntry) × (e.path_id ≡ pid)
    × All (λ r. r.path_id ≢ pid) xs
    × (rs ≡ xs ++ e ∷ ys)
    × (rs' ≡ xs ++ ys)

Removes-skip :
    (pid : ℕ) (r : RtEntry) (rs rs' : List RtEntry) (o : Option RtEntry)
    → r.path_id ≢ pid
    → Removes pid rs o rs'
    → Removes pid (r ∷ rs) o (r ∷ rs')
Removes-skip pid r rs rs' none h (a, p) = ((h, a), ground arith)
Removes-skip pid r rs rs' (some e) h (xs, ys, i, a, p, q) =
    (r ∷ xs, ys, i, (h, a), ground arith, ground arith)

pub route_list_search_rmv-Removes :
    (pid : ℕ) (rs : List RtEntry) → let r = route_list_search_rmv pid rs in Removes pid rs r.0 r.1
unfolding route_list_search_rmv
route_list_search_rmv-Removes pid [] = (tt, refl)
route_list_search_rmv-Removes pid (r ∷ rs) = elim (Bool-cases (r.path_id == pid)) [
  | inl hit ↦ rw hit ([], rs, ground arith, tt, refl, refl)
  | inr miss ↦
      rw miss (Removes-skip pid r rs _ _ (ground arith) (route_list_search_rmv-Removes pid rs))
]

-- What `rt_search_rmv` does to the nodes in order.
module _ (e pid : ℕ) where
  abbrev drop_route : RtNode → RtNode
  drop_route n =
      if n.endpoint == e then record n { routes = (route_list_search_rmv pid n.routes).1 } else n

  drop_route-Above : (k : ℕ) (ns : List RtNode) → Above k ns → Above k (map drop_route ns)
  drop_route-Above k [] a = tt
  drop_route-Above k (n ∷ ns) a = (ground arith, drop_route-Above k ns a.1)

  drop_route-Rising : (ns : List RtNode) → Rising ns → Rising (map drop_route ns)
  drop_route-Rising [] s = tt
  drop_route-Rising (n ∷ ns) s =
      (ground (arith, drop_route-Above n.endpoint ns s.0), drop_route-Rising ns s.1)

  drop_route-above_lem : (ns : List RtNode) → Above e ns → map drop_route ns ≡ ns
  drop_route-above_lem [] a = refl
  drop_route-above_lem (n ∷ ns) a = ground (arith, drop_route-above_lem ns a.1)

  drop_route-Below : (ns : List RtNode) → Below e ns → map drop_route ns ≡ ns
  drop_route-Below [] a = refl
  drop_route-Below (n ∷ ns) a = ground (arith, drop_route-Below ns a.1)

  routes_at-drop_route :
      (k : ℕ) (ns : List RtNode)
      → Rising ns
      → routes_at k (map drop_route ns)
        ≡ (if k == e then (route_list_search_rmv pid (routes_at k ns)).1 else routes_at k ns)
  unfolding route_list_search_rmv
  routes_at-drop_route k [] s = ground arith
  routes_at-drop_route k (n ∷ ns) s = elim (Bool-cases (n.endpoint == e)) [
    | inl hit ↦
        let eq = (==_iff n.endpoint e).0 hit in
        let above : Above e ns = subst (λ z. Above z ns) eq s.0 in
        rw (drop_route-above_lem ns above) (
          ground (
            arith,
            routes_at-Above e ns above,
            append-nil n.routes,
            append-nil (route_list_search_rmv pid n.routes).1,
          ))
    | inr miss ↦ ground (arith, routes_at-drop_route k ns s.1)
  ]

  inorder-rt_search_rmv :
      (t : Tree)
      → Rising (inorder t)
      → ((rt_search_rmv t e pid).0 ≡ (route_list_search_rmv pid (routes_at e (inorder t))).0)
        × (inorder (rt_search_rmv t e pid).1 ≡ map drop_route (inorder t))
  unfolding rt_search_rmv route_list_search_rmv
  inorder-rt_search_rmv leaf s = (refl, refl)
  inorder-rt_search_rmv (node c l x r) s =
      let (b, a, sl, sr) = Rising-split (inorder l) x (inorder r) s in
      elim (Order-cases e x.endpoint) [
        | inl lt ↦
            let ih = inorder-rt_search_rmv l sl in
            rw (lt→ltb _ _ lt, routes_at-left e c l x r s lt, map-append)
              (ground (arith, ih, drop_route-above_lem (inorder r) (Above-mono (inorder r) lt a)))
        | inr (inl eq) ↦
            rw
              (
                ge→ltb e x.endpoint (omega arith),
                ge→ltb x.endpoint e (omega arith),
                routes_at-here e c l x r s (sym eq),
                map-append,
              )
              (ground (
                arith,
                drop_route-above_lem (inorder r) (subst (λ z. Above z (inorder r)) (sym eq) a),
                drop_route-Below (inorder l) (subst (λ z. Below z (inorder l)) (sym eq) b),
              ))
        | inr (inr gt) ↦
            let ih = inorder-rt_search_rmv r sr in
            rw
              (
                ge→ltb e x.endpoint (omega arith),
                lt→ltb _ _ gt,
                routes_at-right e c l x r s gt,
                map-append,
              )
              (ground (arith, ih, drop_route-Below (inorder l) (Below-mono (inorder l) gt b)))
      ]

module _ (ea pid : ℕ) (t : Tree) (s : Rising (inorder t)) where
  pub rt_remove_route-Rising : Rising (inorder (rt_remove_route ea pid t).1)
  unfolding rt_remove_route
  rt_remove_route-Rising =
      rw (inorder-rt_search_rmv ea pid t s).1 (drop_route-Rising ea pid (inorder t) s)

  pub rt_remove_route-at :
      (k : ℕ)
      → routes_at k (inorder (rt_remove_route ea pid t).1) ≡ (
          if k == ea
          then (route_list_search_rmv pid (routes_at k (inorder t))).1
          else routes_at k (inorder t))
  unfolding rt_remove_route
  rt_remove_route-at k =
      rw (inorder-rt_search_rmv ea pid t s).1 (routes_at-drop_route ea pid k (inorder t) s)

  pub rt_remove_route-found :
      (rt_remove_route ea pid t).0 ≡ (route_list_search_rmv pid (routes_at ea (inorder t))).0
  unfolding rt_remove_route
  rt_remove_route-found = (inorder-rt_search_rmv ea pid t s).0

  -- In a search tree `rt_remove_route` returns the first entry of `ea` with that path id and takes
  -- it out of that list, or there is none and the list stays. The tree stays a search tree.
  pub rt_remove_route-Removes :
      Removes pid
        (routes_at ea (inorder t))
        (rt_remove_route ea pid t).0
        (routes_at ea (inorder (rt_remove_route ea pid t).1))
      × Rising (inorder (rt_remove_route ea pid t).1)
  rt_remove_route-Removes = (
    rw (rt_remove_route-found, rt_remove_route-at ea, ==_self ea)
        (route_list_search_rmv-Removes pid (routes_at ea (inorder t))),
    rt_remove_route-Rising,
  )

-- A route filed under two ends is removed under the first alone: the copy under the other end
-- stays, and is still the newest entry there.
pub rt_remove_route-leaves_copy :
    (rb : Rbtree) (mem : ℕ → Bool) (ea eb na nb pid : ℕ) (t : Tree) (n : ℕ)
    → Rising (inorder t)
    → ea ≢ 0
    → eb ≢ 0
    → ea ≢ eb
    → (rt_add_route rb mem ea eb na nb pid t n).0 ≡ true
    → let added = (rt_add_route rb mem ea eb na nb pid t n).1 in
      let r : RtEntry = record { ea = ea; eb = eb; na = na; nb = nb; path_id = pid } in
      ((rt_remove_route ea pid added).0 ≡ some r)
      × (routes_at ea (inorder (rt_remove_route ea pid added).1) ≡ routes_at ea (inorder t))
      × (routes_at eb (inorder (rt_remove_route ea pid added).1) ≡ r ∷ routes_at eb (inorder t))
unfolding route_list_search_rmv
rt_remove_route-leaves_copy rb mem ea eb na nb pid t n s ha hb hab ok =
    let added = (rt_add_route rb mem ea eb na nb pid t n).1 in
    let s' = rt_add_route-Rising rb mem ea eb na nb pid t n s in
    ground (
      arith,
      rt_remove_route-found ea pid added s',
      rt_remove_route-at ea pid added s' ea,
      rt_remove_route-at ea pid added s' eb,
      rt_add_route-filed rb mem ea eb na nb pid t n s ea ok,
      rt_add_route-filed rb mem ea eb na nb pid t n s eb ok,
    )
