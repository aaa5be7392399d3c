-- ===== src/Rt/Spec.antt =====
-- The routing table as its clients see it: a function from an endpoint to its routes, newest first.
-- Any sequence of calls on the tree answers as it does on the function.
use alpaca_vrr.Base.{ℕ, ◌≡◌, refl, Bool, true, Option, List, [], ◌∷◌, arith, ◌==◌, if◌then◌else◌}
use alpaca_vrr.Rt.{
  rt_find_insert_node, add_under, rt_add_route, rt_remove_route, rt_get_next, route_list_search,
  route_list_search_rmv,
}
use alpaca_vrr.Rt.Defs.{RtEntry, Tree, leaf, Rbtree, inorder}
use alpaca_vrr.Rt.Sorted.{routes_at, Rising}
use alpaca_vrr.Rt.Add.{filed, rt_add_route-Rising, rt_add_route-filed}
use alpaca_vrr.Rt.Lookup.{rt_search-routes_at}
use alpaca_vrr.Rt.Remove.{rt_remove_route-at, rt_remove_route-found, rt_remove_route-Rising}

pub data Call : Type 0 where
  add : ℕ → ℕ → ℕ → ℕ → ℕ → Call
  remove : ℕ → ℕ → Call
  look_up : ℕ → Call

pub data Answer : Type 0 where
  added : Bool → Answer
  removed : Option RtEntry → Answer
  hop : ℕ → Answer

-- The specification.
abbrev pub Routes : Type 0
Routes = ℕ → List RtEntry

pub add_to : RtEntry → Routes → Routes
add_to r f k = filed r.eb r k (filed r.ea r k (f k))

pub remove_from : ℕ → ℕ → Routes → Routes
remove_from ea pid f k = if k == ea then (route_list_search_rmv pid (f k)).1 else f k

pub hop_to : ℕ → ℕ → Routes → ℕ
hop_to me dest f = if dest == me then 0 else route_list_search me (f dest) dest

pub replay : ℕ → List Call → Routes → List Answer
replay me [] f = []
replay me (add ea eb na nb pid ∷ cs) f =
    added true
    ∷ replay me cs (add_to (record { ea = ea; eb = eb; na = na; nb = nb; path_id = pid }) f)
replay me (remove ea pid ∷ cs) f =
    removed (route_list_search_rmv pid (f ea)).0 ∷ replay me cs (remove_from ea pid f)
replay me (look_up dest ∷ cs) f = hop (hop_to me dest f) ∷ replay me cs f

module _ (rb : Rbtree) (mem : ℕ → Bool) (me : ℕ) where
  -- The same calls on the tree, with the allocations made so far.
  pub perform : List Call → Tree → ℕ → List Answer
  perform [] t n = []
  perform (add ea eb na nb pid ∷ cs) t n =
      let (ok, t', n') = rt_add_route rb mem ea eb na nb pid t n in added ok ∷ perform cs t' n'
  perform (remove ea pid ∷ cs) t n =
      let (found, t') = rt_remove_route ea pid t in removed found ∷ perform cs t' n
  perform (look_up dest ∷ cs) t n = hop (rt_get_next me t dest) ∷ perform cs t n

  module _ (ample : (n : ℕ) → mem n ≡ true) where
    add_under-succeeds :
        (e : ℕ) (r : RtEntry) (t : Tree) (n : ℕ) → (add_under rb mem e r t n).0 ≡ true
    unfolding add_under rt_find_insert_node
    add_under-succeeds e r t n = grind (arith, ample)

    pub rt_add_route-succeeds :
        (ea eb na nb pid : ℕ) (t : Tree) (n : ℕ)
        → (rt_add_route rb mem ea eb na nb pid t n).0 ≡ true
    unfolding rt_add_route
    rt_add_route-succeeds ea eb na nb pid t n = grind (arith, add_under-succeeds)

    perform-replay :
        (cs : List Call) (t : Tree) (n : ℕ) (f : Routes)
        → Rising (inorder t)
        → ((k : ℕ) → routes_at k (inorder t) ≡ f k)
        → perform cs t n ≡ replay me cs f
    unfolding perform replay add_to remove_from hop_to rt_get_next
    perform-replay [] t n f s h = refl
    perform-replay (add ea eb na nb pid ∷ cs) t n f s h =
        let ok = rt_add_route-succeeds ea eb na nb pid t n in
        let after = rt_add_route rb mem ea eb na nb pid t n in
        rw (
          ok,
          perform-replay cs after.1 after.2
              (add_to (record { ea = ea; eb = eb; na = na; nb = nb; path_id = pid }) f)
              (rt_add_route-Rising rb mem ea eb na nb pid t n s)
              (λ k. rw (rt_add_route-filed rb mem ea eb na nb pid t n s k ok, h k)),
        )
    perform-replay (remove ea pid ∷ cs) t n f s h = rw (
      rt_remove_route-found ea pid t s,
      h ea,
      perform-replay cs (rt_remove_route ea pid t).1 n (remove_from ea pid f)
          (rt_remove_route-Rising ea pid t s) (λ k. rw (rt_remove_route-at ea pid t s k, h k)),
    )
    perform-replay (look_up dest ∷ cs) t n f s h =
        rw (rt_search-routes_at me t dest s, h dest, perform-replay cs t n f s h)

    -- Given memory, any sequence of additions, removals and lookups on an empty table answers as it
    -- does on the empty function: additions put the route in front of the lists of its ends, removals
    -- take the first entry of a path id out of one list, lookups choose from one list.
    pub perform_refines : (cs : List Call) → perform cs leaf 0 ≡ replay me cs (λ k. [])
    perform_refines cs = perform-replay cs leaf 0 (λ k. []) tt (λ k. refl)
