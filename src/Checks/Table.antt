-- ===== src/Checks/Table.antt =====
-- Examples of the routing table.
use alpaca_vrr.Base.{ℕ, ◌≡◌, refl, inr, ◌⊎◌, ◌∷◌, [], some, Bool, ltb, arith}
use alpaca_vrr.Ids.{get_diff}
use alpaca_vrr.Rt.{
  route_list_search, rt_add_route, rt_get_next, rt_get_next_exclude, rt_remove_route,
}
use alpaca_vrr.Rt.Defs.{Tree, inorder, leaf, node}
use alpaca_vrr.Rt.Exclude.{before, trail, rt_get_next_exclude-before}
use alpaca_vrr.Rt.Sorted.{routes_at, Rising}
use alpaca_vrr.Rt.Add.{rt_add_route-filed, rt_add_route-failed}
use alpaca_vrr.Rt.Choice.{Picks, rt_get_next-Picks}
use alpaca_vrr.Rt.Remove.{Removes, rt_remove_route-Removes, rt_remove_route-leaves_copy}
use alpaca_vrr.Rt.Spec.{add, remove, look_up, perform, replay, perform_refines}
use alpaca_vrr.Checks.Samples.{plain_tree, path_3, path_4, table, always}

rt_add_route-filed_example :
    routes_at 12 (inorder (rt_add_route plain_tree always 5 12 5 8 4 table 0).1) ≡ path_4 ∷ []
unfolding rt_add_route
rt_add_route-filed_example =
    rt_add_route-filed plain_tree always 5 12 5 8 4 table 0 (tt, tt) 12 refl

-- Memory for the node and the route of the first end, and no more.
abbrev two : ℕ → Bool
two n = ltb n 2

abbrev after : Tree
after = (rt_add_route plain_tree two 5 12 5 8 4 table 0).1

rt_add_route-failed_example :
    (routes_at 5 (inorder after) ≡ []) ⊎ (routes_at 5 (inorder after) ≡ path_4 ∷ [])
unfolding rt_add_route
rt_add_route-failed_example = rt_add_route-failed plain_tree two 5 12 5 8 4 table 0 (tt, tt) 5 refl

rt_get_next-Picks_example : Picks 5 9 (path_3 ∷ []) (rt_get_next 5 table 9)
rt_get_next-Picks_example =
    rt_get_next-Picks 5 table 9 (tt, tt) (omega arith) (inr (omega arith), tt)

rt_remove_route-Removes_example :
    Removes 3
      (path_3 ∷ [])
      (rt_remove_route 9 3 table).0
      (routes_at 9 (inorder (rt_remove_route 9 3 table).1))
    × Rising (inorder (rt_remove_route 9 3 table).1)
rt_remove_route-Removes_example = rt_remove_route-Removes 9 3 table (tt, tt)

rt_remove_route-leaves_copy_example :
    let added = (rt_add_route plain_tree always 5 12 5 8 4 table 0).1 in
    ((rt_remove_route 5 4 added).0 ≡ some path_4)
    × (routes_at 5 (inorder (rt_remove_route 5 4 added).1) ≡ [])
    × (routes_at 12 (inorder (rt_remove_route 5 4 added).1) ≡ path_4 ∷ [])
unfolding rt_add_route
rt_remove_route-leaves_copy_example =
    rt_remove_route-leaves_copy plain_tree always 5 12 5 8 4 table 0 (tt, tt) (omega arith)
      (omega arith) (omega arith) refl

perform_refines_example :
    perform plain_tree always 5 (add 5 9 5 7 3 ∷ look_up 9 ∷ remove 9 3 ∷ look_up 9 ∷ []) leaf 0
    ≡ replay 5 (add 5 9 5 7 3 ∷ look_up 9 ∷ remove 9 3 ∷ look_up 9 ∷ []) (λ k. [])
perform_refines_example =
    perform_refines plain_tree always 5 (λ n. refl)
      (add 5 9 5 7 3 ∷ look_up 9 ∷ remove 9 3 ∷ look_up 9 ∷ [])

-- The node 7 under the root 9.
abbrev two_nodes : Tree
two_nodes =
    node 0 (node 0 leaf (record { endpoint = 7; routes = [] }) leaf)
      (record { endpoint = 9; routes = path_3 ∷ [] }) leaf

rt_get_next_exclude-before_example : rt_get_next_exclude 1 two_nodes 7 7 ≡ 7
unfolding before trail route_list_search get_diff
rt_get_next_exclude-before_example = rt_get_next_exclude-before 1 7 7 two_nodes
