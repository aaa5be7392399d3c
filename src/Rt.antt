-- ===== src/Rt.antt =====
-- The routing table of vrr_data.c: a red-black tree with a node for each endpoint, which holds the
-- list of the routes filed under that endpoint, newest first.
--
-- A pointer to an rt_node_t is the endpoint of that node. The tree's own primitives are the
-- kernel's, and come from `Rt.Defs`. `kmalloc` is an oracle `mem` that says which allocation
-- succeeds, with the number of allocations made so far threaded through.
pub mod Defs
pub mod Sorted
pub mod Insert
pub mod Add
pub mod Lookup
pub mod Exclude
pub mod Choice
pub mod Remove
pub mod Forwarding
pub mod Spec
pub mod Paths
use alpaca_vrr.Base.{
  ℕ, ◌+◌, Bool, true, false, not, Option, none, some, List, [], ◌∷◌, map, ltb, ◌==◌, if◌then◌else◌,
}
use alpaca_vrr.Ids.{get_diff}
use mathlib.Core.Option
use Defs.{RtEntry, RtNode, Tree, leaf, node, Side, left, right, Rbtree}

-- The loop of `route_list_search`: the entry of the greatest path id so far, above `max_path`.
unfoldable pub max_entry : Option RtEntry → ℕ → List RtEntry → Option RtEntry
max_entry best max_path [] = best
max_entry best max_path (tmp ∷ rest) =
    if ltb max_path tmp.path_id
    then max_entry (some tmp) tmp.path_id rest
    else max_entry best max_path rest

-- Its last part: the hop towards the end that is nearer to `endpoint`, but not towards ourselves.
unfoldable pub choose_hop : ℕ → ℕ → RtEntry → ℕ
choose_hop me endpoint e =
    if ltb (get_diff endpoint e.ea) (get_diff endpoint e.eb)
    then (if not (e.ea == me) then e.na else e.nb)
    else if not (e.eb == me)
    then e.nb
    else e.na

unfoldable pub route_list_search : ℕ → List RtEntry → ℕ → ℕ
unfolding max_entry choose_hop
route_list_search me r_list endpoint = elim (max_entry none 0 r_list) [
  | none ↦ 0
  | some e ↦ choose_hop me endpoint e
]

unfoldable pub rt_search : ℕ → Tree → ℕ → ℕ
rt_search me leaf endpoint = 0
rt_search me (node c l this r) endpoint =
    let below = rt_search me l endpoint in
    let above = rt_search me r endpoint in
    if ltb endpoint this.endpoint
    then below
    else if ltb this.endpoint endpoint
    then above
    else if this.endpoint == me
    then 0
    else route_list_search me this.routes endpoint

unfoldable pub rt_get_next : ℕ → Tree → ℕ → ℕ
unfolding rt_search
rt_get_next me root dest = rt_search me root dest

-- `prev` is the node visited before, none at the root.
unfoldable pub search_exclude : ℕ → Option RtNode → Tree → ℕ → ℕ → ℕ
search_exclude me prev leaf endpoint src = 0
search_exclude me none (node c l this r) endpoint src =
    let below = search_exclude me (some this) l endpoint src in
    let above = search_exclude me (some this) r endpoint src in
    if ltb endpoint this.endpoint
    then below
    else if ltb this.endpoint endpoint
    then above
    else if this.endpoint == me
    then 0
    else route_list_search me this.routes endpoint
search_exclude me (some prev) (node c l this r) endpoint src =
    let below = search_exclude me (some this) l endpoint src in
    let above = search_exclude me (some this) r endpoint src in
    if this.endpoint == src
    then route_list_search me prev.routes endpoint
    else if ltb endpoint this.endpoint
    then below
    else if ltb this.endpoint endpoint
    then above
    else if this.endpoint == me
    then 0
    else route_list_search me this.routes endpoint

unfoldable pub rt_search_exclude : ℕ → Tree → ℕ → ℕ → ℕ
unfolding search_exclude
rt_search_exclude me root endpoint src = search_exclude me none root endpoint src

unfoldable pub rt_get_next_exclude : ℕ → Tree → ℕ → ℕ → ℕ
unfolding rt_search_exclude
rt_get_next_exclude me root dest src = rt_search_exclude me root dest src

-- The loop of `rt_find_insert_node`: none where a node has the endpoint, else the empty link.
unfoldable pub find_link : ℕ → Tree → Option (List Side)
find_link endpoint leaf = some []
find_link endpoint (node c l this r) =
    let below = find_link endpoint l in
    let above = find_link endpoint r in
    if ltb endpoint this.endpoint
    then Option.map (◌∷◌ left) below
    else if ltb this.endpoint endpoint
    then Option.map (◌∷◌ right) above
    else none

-- `list_add(&route->list, &insert->routes.list)`, where `insert` is the node of that endpoint.
abbrev pub push_route : ℕ → RtEntry → RtNode → RtNode
push_route endpoint route n =
    if n.endpoint == endpoint then record n { routes = route ∷ n.routes } else n

abbrev pub map_nodes : (RtNode → RtNode) → Tree → Tree
map_nodes f leaf = leaf
map_nodes f (node c l n r) = node c (map_nodes f l) (f n) (map_nodes f r)

abbrev pub new_node : ℕ → RtNode
new_node endpoint = record { endpoint = endpoint; routes = [] }

module _ (rb : Rbtree) (mem : ℕ → Bool) where
  -- False for the null pointer.
  unfoldable pub rt_find_insert_node : ℕ → Tree → ℕ → Bool × Tree × ℕ
  unfolding find_link
  rt_find_insert_node endpoint root n = elim (find_link endpoint root) [
    | none ↦ (true, root, n)
    | some link ↦
        if mem n
        then (true, rb.insert_color endpoint (rb.link_node (new_node endpoint) link root), n + 1)
        else (false, root, n + 1)
  ]

  -- The body of either `if` of `rt_add_route`.
  unfoldable pub add_under : ℕ → RtEntry → Tree → ℕ → Bool × Tree × ℕ
  unfolding rt_find_insert_node
  add_under endpoint route root n =
      let (insert, root', n') = rt_find_insert_node endpoint root n in
      if not insert
      then (false, root', n')
      else if mem n'
      then (true, map_nodes (push_route endpoint route) root', n' + 1)
      else (false, root', n' + 1)

  unfoldable pub rt_add_route : ℕ → ℕ → ℕ → ℕ → ℕ → Tree → ℕ → Bool × Tree × ℕ
  unfolding add_under
  rt_add_route ea eb na nb path_id root n =
      let route : RtEntry = record { ea = ea; eb = eb; na = na; nb = nb; path_id = path_id } in
      let (ret, root', n') = if ea == 0 then (true, root, n) else add_under ea route root n in
      if not ret
      then (false, root', n')
      else if eb == 0
      then (true, root', n')
      else add_under eb route root' n'

-- `list_del` of the first entry with that path id.
unfoldable pub route_list_search_rmv : ℕ → List RtEntry → Option RtEntry × List RtEntry
route_list_search_rmv path_id [] = (none, [])
route_list_search_rmv path_id (tmp ∷ rest) =
    let (found, rest') = route_list_search_rmv path_id rest in
    if tmp.path_id == path_id then (some tmp, rest) else (found, tmp ∷ rest')

unfoldable pub rt_search_rmv : Tree → ℕ → ℕ → Option RtEntry × Tree
unfolding route_list_search_rmv
rt_search_rmv leaf endpoint path_id = (none, leaf)
rt_search_rmv (node c l this r) endpoint path_id =
    let (found_l, l') = rt_search_rmv l endpoint path_id in
    let (found_r, r') = rt_search_rmv r endpoint path_id in
    let (found, routes') = route_list_search_rmv path_id this.routes in
    if ltb endpoint this.endpoint
    then (found_l, node c l' this r)
    else if ltb this.endpoint endpoint
    then (found_r, node c l this r')
    else (found, node c l (record this { routes = routes' }) r)

unfoldable pub rt_remove_route : ℕ → ℕ → Tree → Option RtEntry × Tree
unfolding rt_search_rmv
rt_remove_route ea path_id root = rt_search_rmv root ea path_id

-- A stub: it leaves the table as it is.
abbrev rt_remove_nexts : ℕ → Tree → ℕ × Tree
rt_remove_nexts route_hop_to_remove root = (0, root)
