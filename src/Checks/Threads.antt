-- ===== src/Checks/Threads.antt =====
-- Examples of calls of several threads.
use alpaca_vrr.Base.{◌≡◌, refl, true, [], ◌∷◌, done, oops, out_of_bounds, arith, Returns}
use alpaca_vrr.Ids.{diff_left, diff_right, get_diff}
use alpaca_vrr.Vset.{
  vset_has, vset_add, insert_vset_node, new_entry, vset_bump, fill_array, bump_entry, nearer,
  vset_remove, remove_entry,
}
use alpaca_vrr.Vset.Members.{IsValid}
use alpaca_vrr.Locks.{
  Schedule, add, remove, perform, performs, sort_cells, fill_locked, sort_unlocked,
  should_add_among,
}
use alpaca_vrr.Locks.Race.{AnswersAmong, should_add_among-held}
use alpaca_vrr.Locks.Calls.{
  Shared, IsSound, add_route, remove_route, add_neighbour, remove_neighbour, on_vset, call_all,
  call_all-IsSound,
}
use alpaca_vrr.Checks.Samples.{plain_tree, always, table, neighbours, ring, unsorted, zeros}

-- Before the lock another thread adds a node to the full set, and removes one.
abbrev busy : Schedule
busy = record {
  at_right = remove 3 ∷ [];
  at_lock = add 9 ∷ [];
  at_left_sort = [];
  at_right_sort = [];
}

abbrev calm : Schedule
calm = record {
  at_right = remove 3 ∷ [];
  at_lock = [];
  at_left_sort = remove 4 ∷ [];
  at_right_sort = [];
}

should_add_busy : should_add_among unsorted zeros 1 8 busy (ring 4) ≡ oops out_of_bounds
unfolding should_add_among perform performs sort_cells fill_locked sort_unlocked vset_has vset_add
    insert_vset_node new_entry vset_bump fill_array bump_entry nearer vset_remove remove_entry
    diff_left diff_right get_diff
should_add_busy = refl

should_add_calm : should_add_among unsorted zeros 1 8 calm (ring 4) ≡ done true
unfolding should_add_among perform performs sort_cells fill_locked sort_unlocked vset_has vset_add
    insert_vset_node new_entry vset_bump fill_array bump_entry nearer vset_remove remove_entry
    diff_left diff_right get_diff
should_add_calm = refl

abbrev full : IsValid (ring 4)
full = record { distinct = ((omega arith, tt), (tt, tt)); sized = omega arith }

should_add_among-held_example : AnswersAmong unsorted zeros 1 8 busy (ring 4)
should_add_among-held_example = should_add_among-held unsorted zeros 1 8 busy (ring 4) full

abbrev shared : Shared
shared = record { rt_root = table; allocs = 0; pset = neighbours; vset = ring 4 }

call_all-IsSound_example :
    Returns
      (call_all plain_tree always unsorted zeros 1
        (on_vset (add 9)
          ∷ add_route 5 9 5 7 4
          ∷ remove_neighbour 6
          ∷ add_neighbour 8 (8 ∷ []) 0 1
          ∷ remove_route 9 3 true
          ∷ on_vset (remove 3)
          ∷ [])
        shared)
      IsSound
call_all-IsSound_example =
    call_all-IsSound plain_tree always unsorted zeros 1
      (on_vset (add 9)
        ∷ add_route 5 9 5 7 4
        ∷ remove_neighbour 6
        ∷ add_neighbour 8 (8 ∷ []) 0 1
        ∷ remove_route 9 3 true
        ∷ on_vset (remove 3)
        ∷ [])
      shared
      (record {
        rising = (tt, tt);
        distinct = ((omega arith, (omega arith, tt)), ((omega arith, tt), (tt, tt)));
        valid = full;
      })
