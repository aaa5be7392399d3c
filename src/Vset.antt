-- ===== src/Vset.antt =====
-- The virtual set of vrr_data.c: the list of the neighbours on the ring, newest first, and the
-- counter `vset_size` beside it, which `insert_vset_node` raises and nothing lowers.
--
-- An array of `vset_size` cells of which the loop fills the first few keeps in the others what the
-- memory held before: `junk`. The kernel's `sort` is a parameter. It calls back with the addresses
-- of two cells, so a cell is its address and its value.
pub mod Size
pub mod Members
use alpaca_vrr.Base.{
  ℕ, ◌+◌, ◌/◌, ◌<◌, ◌≤◌, Bool, true, false, ◌&&◌, ◌||◌, Option, none, some, List, [], ◌∷◌, ◌++◌,
  map, ltb, leb, ◌==◌, not, if◌then◌else◌, length, get_or, Run, done, oops, bind_run, null_deref,
  out_of_bounds, zero, suc,
}
use alpaca_vrr.Ids.{diff_left, diff_right}

abbrev pub vrr_vset_size : ℕ
vrr_vset_size = 4

-- vset_list_t
pub record VsetEntry : Type 0 where
  pub node : ℕ
  pub left_diff : ℕ
  pub right_diff : ℕ

pub record Vset : Type 0 where
  pub entries : List VsetEntry
  pub vset_size : ℕ

unfoldable pub vset_init : Vset
vset_init = record { entries = []; vset_size = 0 }

-- An address of an array, and what is stored there.
pub record Cell : Type 0 where
  pub address : ℕ
  pub value : ℕ

pub data Sign : Type 0 where
  minus naught plus : Sign

unfoldable pub cmp_diff : Cell → Cell → Sign
cmp_diff a b =
    if ltb a.address b.address then minus else if ltb b.address a.address then plus else naught

-- An array of `size` cells after its first ones are stored, or a fault if there are more of them.
unfoldable pub fill_array : (ℕ → ℕ) → ℕ → List ℕ → Run (List ℕ)
fill_array junk zero [] = done []
fill_array junk zero (x ∷ xs) = oops out_of_bounds
fill_array junk (suc n) [] = bind_run (fill_array junk n []) λ ys. done (junk n ∷ ys)
fill_array junk (suc n) (x ∷ xs) = bind_run (fill_array junk n xs) λ ys. done (x ∷ ys)

unfoldable pub new_entry : ℕ → ℕ → VsetEntry
new_entry me node = record {
  node = node;
  left_diff = diff_left me node;
  right_diff = diff_right me node;
}

unfoldable pub insert_vset_node : Bool → ℕ → ℕ → Vset → Run Vset
unfolding new_entry
insert_vset_node memory me node v =
    if memory
    then done (record { entries = new_entry me node ∷ v.entries; vset_size = v.vset_size + 1 })
    else oops null_deref

unfoldable pub vset_has : ℕ → List VsetEntry → Bool
vset_has node [] = false
vset_has node (tmp ∷ rest) =
    let found = vset_has node rest in if tmp.node == node then true else found

-- The last loop of `vset_bump`: the first entry with both differences, taken out.
unfoldable pub bump_entry : ℕ → ℕ → List VsetEntry → Option ℕ × List VsetEntry
bump_entry l r [] = (none, [])
bump_entry l r (tmp ∷ rest) =
    let (rem, rest') = bump_entry l r rest in
    if tmp.left_diff == l && tmp.right_diff == r then (some tmp.node, rest) else (rem, tmp ∷ rest')

-- The result of `vset_bump`: 0, 1 with the node taken out, or -1.
pub data Bump : Type 0 where
  no_bump : Bump
  bumped : ℕ → Bump
  bump_failed : Bump

abbrev pub outcome : Option ℕ → Bump
outcome none = bump_failed
outcome (some n) = bumped n

-- `for (i = 0; i < radius; i++)` of `vset_should_add`
unfoldable pub nearer : ℕ → ℕ → ℕ → ℕ → List ℕ → List ℕ → Bool
nearer zero i dl dr left right = false
nearer (suc n) i dl dr left right =
    ltb dl (get_or left i 0) || ltb dr (get_or right i 0) || nearer n (i + 1) dl dr left right

abbrev pub as_added : Bump × Vset → Run (Option Bump × Vset)
as_added (b, w) = done (some b, w)

-- What the memory of a second array of `vset_size` cells held.
abbrev pub other : (ℕ → ℕ) → Vset → ℕ → ℕ
other junk v i = junk (v.vset_size + i)

module _ (sort : (Cell → Cell → Sign) → List ℕ → List ℕ) (junk : ℕ → ℕ) where
  unfoldable pub vset_bump : Vset → Run (Bump × Vset)
  unfolding fill_array bump_entry cmp_diff
  vset_bump v =
      if leb v.vset_size vrr_vset_size
      then done (no_bump, v)
      else bind_run (fill_array junk v.vset_size (map (λ e. e.left_diff) v.entries)) λ left.
        bind_run (fill_array (other junk v) v.vset_size (map (λ e. e.right_diff) v.entries))
          λ right.
            let radius = vrr_vset_size / 2 in
            let l = get_or (sort cmp_diff left) radius 0 in
            let r = get_or (sort cmp_diff right) radius 0 in
            let (rem, entries') = bump_entry l r v.entries in
            done (outcome rem, record v { entries = entries' })

  -- none for the result -1 of a node that is there already; else what `vset_bump` did. The code
  -- returns 0 for `no_bump` and 1 for both others.
  unfoldable pub vset_add : Bool → ℕ → ℕ → Vset → Run (Option Bump × Vset)
  unfolding insert_vset_node vset_bump vset_has
  vset_add memory me node v =
      if vset_has node v.entries
      then done (none, v)
      else bind_run (insert_vset_node memory me node v) λ w. bind_run (vset_bump w) as_added

  unfoldable pub vset_should_add : ℕ → ℕ → Vset → Run Bool
  unfolding fill_array nearer vset_has cmp_diff
  vset_should_add me node v =
      if vset_has node v.entries
      then done false
      else if ltb v.vset_size vrr_vset_size
      then done true
      else bind_run (fill_array junk v.vset_size (map (λ e. e.left_diff) v.entries)) λ left.
        bind_run (fill_array (other junk v) v.vset_size (map (λ e. e.right_diff) v.entries))
          λ right. done (
            nearer (vrr_vset_size / 2) 0 (diff_left me node) (diff_right me node)
              (sort cmp_diff left) (sort cmp_diff right))

unfoldable pub remove_entry : ℕ → List VsetEntry → Bool × List VsetEntry
remove_entry node [] = (false, [])
remove_entry node (tmp ∷ rest) =
    let (ret, rest') = remove_entry node rest in
    if tmp.node == node then (true, rest) else (ret, tmp ∷ rest')

unfoldable pub vset_remove : ℕ → Vset → Bool × Vset
unfolding remove_entry
vset_remove node v =
    let (ret, entries') = remove_entry node v.entries in (ret, record v { entries = entries' })

-- What `vset_get_all` hands out: the count, and the array, none for a null pointer.
pub record VsetCopy : Type 0 where
  pub count : ℕ
  pub cells : Option (List ℕ)

-- The allocation is not checked, and the loop writes through it if there is an entry.
unfoldable pub vset_get_all : (ℕ → ℕ) → Bool → Vset → Run VsetCopy
unfolding fill_array
vset_get_all junk memory v =
    if memory
    then (bind_run (fill_array junk v.vset_size (map (λ e. e.node) v.entries))
        λ cells. done (record { count = v.vset_size; cells = some cells }))
    else if length v.entries == 0
    then done (record { count = v.vset_size; cells = none })
    else oops null_deref
