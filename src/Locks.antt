-- ===== src/Locks.antt =====
-- The data of vrr_data.c under calls from several threads.
--
-- A call that holds its lock from its first access to its last one is one step. `vset_should_add`
-- is not such a call: it reads `vset_size` for the bounds of its two arrays before it takes
-- vrr_vset_lock, and once more for either `sort` after the release. Here it is cut at these
-- accesses, and what other threads do in between is a list of calls.
pub mod Growth
pub mod Arrays
pub mod Race
pub mod Calls
use alpaca_vrr.Base.{
  ℕ, ◌/◌, Bool, true, false, List, [], ◌∷◌, ◌++◌, ◌⊎◌, inl, inr, map, ltb, leb, if◌then◌else◌,
  length, take, drop, Run, done, oops, bind_run, out_of_bounds,
}
use alpaca_vrr.Ids.{diff_left, diff_right}
use alpaca_vrr.Vset.{
  other, VsetEntry, Vset, Cell, Sign, cmp_diff, fill_array, vset_has, nearer, vset_add, vset_remove,
  Bump, vrr_vset_size,
}

-- A call that changes the virtual set.
pub data VsetCall : Type 0 where
  add : ℕ → VsetCall
  remove : ℕ → VsetCall

-- What other threads do between the accesses of `vset_should_add`: before the bound of the second
-- array is read, before the lock is taken, before the first `sort`, and before the second one.
pub record Schedule : Type 0 where
  pub at_right : List VsetCall
  pub at_lock : List VsetCall
  pub at_left_sort : List VsetCall
  pub at_right_sort : List VsetCall

module _ (sort : (Cell → Cell → Sign) → List ℕ → List ℕ) (junk : ℕ → ℕ) where
  -- With the memory at hand.
  unfoldable pub perform : ℕ → VsetCall → Vset → Run Vset
  perform me (add node) v = bind_run (vset_add sort junk true me node v) λ r. done r.1
  perform me (remove node) v = done (vset_remove node v).1

  unfoldable pub performs : ℕ → List VsetCall → Vset → Run Vset
  unfolding perform
  performs me [] v = done v
  performs me (c ∷ cs) v = bind_run (perform me c v) (performs me cs)

  -- `sort(cells, n, sizeof(u32), &cmp_diff, NULL)`
  unfoldable pub sort_cells : ℕ → List ℕ → Run (List ℕ)
  sort_cells n cells =
      if leb n (length cells)
      then done (sort cmp_diff (take n cells) ++ drop n cells)
      else oops out_of_bounds

  -- The part under the lock, with the bounds of the arrays: the answer, or the filled arrays.
  unfoldable pub fill_locked : ℕ → ℕ → ℕ → Vset → Run (Bool ⊎ (List ℕ × List ℕ))
  unfolding vset_has fill_array
  fill_locked node l r v =
      if vset_has node v.entries
      then done (inl false)
      else if ltb v.vset_size vrr_vset_size
      then done (inl true)
      else bind_run (fill_array junk l (map (λ e. e.left_diff) v.entries)) λ left.
        bind_run (fill_array (other junk v) r (map (λ e. e.right_diff) v.entries))
          λ right. done (inr (left, right))

  -- After the release.
  unfoldable pub sort_unlocked :
      ℕ → ℕ → List VsetCall → List VsetCall → Vset → Bool ⊎ (List ℕ × List ℕ) → Run Bool
  unfolding performs sort_cells nearer
  sort_unlocked me node at_left at_right v (inl ret) = done ret
  sort_unlocked me node at_left at_right v (inr (left, right)) =
      bind_run (performs me at_left v) λ v'. bind_run (sort_cells v'.vset_size left) λ left'.
        bind_run (performs me at_right v') λ v''.
          bind_run (sort_cells v''.vset_size right) λ right'.
            done
              (nearer (vrr_vset_size / 2) 0 (diff_left me node) (diff_right me node) left' right')

  -- `vset_should_add`, with what the other threads do.
  unfoldable pub should_add_among : ℕ → ℕ → Schedule → Vset → Run Bool
  unfolding performs fill_locked sort_unlocked
  should_add_among me node s v = bind_run (performs me s.at_right v) λ v'.
      bind_run (performs me s.at_lock v') λ held.
        bind_run (fill_locked node v.vset_size v'.vset_size held)
          (sort_unlocked me node s.at_left_sort s.at_right_sort held)
