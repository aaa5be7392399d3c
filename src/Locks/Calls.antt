-- ===== src/Locks/Calls.antt =====
-- The three locks of vrr_data.c together: the table, the physical set and the virtual set under the
-- calls of all threads, in whatever order they get the locks.
use alpaca_vrr.Base.{
  ℕ, Bool, true, false, if◌then◌else◌, List, [], ◌∷◌, Run, done, oops, Returns, bind_run, Distinct,
  subst, sym,
}
use alpaca_vrr.Rt.Defs.{Tree, Rbtree, inorder}
use alpaca_vrr.Rt.{rt_add_route, rt_remove_route}
use alpaca_vrr.Rt.Sorted.{Rising}
use alpaca_vrr.Rt.Add.{rt_add_route-Rising}
use alpaca_vrr.Rt.Remove.{rt_remove_route-Rising}
use alpaca_vrr.Pset.{PsetEntry, pset_add, pset_remove, pset_update_status, pset_reset_fail_count}
use alpaca_vrr.Pset.Keys.{nodes, pset_add-Distinct, pset_updates-Distinct}
use alpaca_vrr.Vset.{Vset, Cell, Sign}
use alpaca_vrr.Vset.Members.{IsValid}
use alpaca_vrr.Locks.{VsetCall, perform}
use alpaca_vrr.Locks.Growth.{Grown, perform-Grown}

-- `rt_root`, with the number of allocations for it, `pset` and `vset`
pub record Shared : Type 0 where
  pub rt_root : Tree
  pub allocs : ℕ
  pub pset : List PsetEntry
  pub vset : Vset

-- A call that changes the data under a lock; `pset_inc_fail_count` and `detect_failures`, which change the
-- physical set without its lock, are left out. `rt_remove_route` walks the tree before it takes vrr_rt_lock, so the
-- walk may miss a node that is there; the flag says whether it finds it. No node ever leaves the
-- tree.
pub data DataCall : Type 0 where
  add_route : ℕ → ℕ → ℕ → ℕ → ℕ → DataCall
  remove_route : ℕ → ℕ → Bool → DataCall
  add_neighbour : ℕ → List ℕ → ℕ → ℕ → DataCall
  remove_neighbour : ℕ → DataCall
  update_neighbour : ℕ → ℕ → ℕ → DataCall
  reset_neighbour : ℕ → DataCall
  on_vset : VsetCall → DataCall

module _ (rb : Rbtree) (mem : ℕ → Bool) (sort : (Cell → Cell → Sign) → List ℕ → List ℕ)
    (junk : ℕ → ℕ) (me : ℕ) where
  -- With memory at hand for the two sets.
  unfoldable pub call_data : DataCall → Shared → Run Shared
  call_data (add_route ea eb na nb pid) s =
      let (ret, root, n) = rt_add_route rb mem ea eb na nb pid s.rt_root s.allocs in
      done (record s { rt_root = root; allocs = n })
  call_data (remove_route ea pid found) s =
      done (if found then record s { rt_root = (rt_remove_route ea pid s.rt_root).1 } else s)
  call_data (add_neighbour node mac status active) s =
      bind_run (pset_add true node mac status active s.pset) λ r. done (record s { pset = r.1 })
  call_data (remove_neighbour node) s = done (record s { pset = (pset_remove node s.pset).1 })
  call_data (update_neighbour node status active) s =
      done (record s { pset = (pset_update_status node status active s.pset).1 })
  call_data (reset_neighbour node) s =
      done (record s { pset = (pset_reset_fail_count node s.pset).1 })
  call_data (on_vset c) s =
      bind_run (perform sort junk me c s.vset) λ v. done (record s { vset = v })

  unfoldable pub call_all : List DataCall → Shared → Run Shared
  unfolding call_data
  call_all [] s = done s
  call_all (c ∷ cs) s = bind_run (call_data c s) (call_all cs)

-- A search tree, one entry for a neighbour, and a counted set of different nodes.
pub record IsSound (s : Shared) : Type 0 where
  pub rising : Rising (inorder s.rt_root)
  pub distinct : Distinct (nodes s.pset)
  pub valid : IsValid s.vset

module _ (rb : Rbtree) (mem : ℕ → Bool) (sort : (Cell → Cell → Sign) → List ℕ → List ℕ)
    (junk : ℕ → ℕ) (me : ℕ) where
  call_data-IsSound :
      (c : DataCall) (s : Shared) → IsSound s → Returns (call_data rb mem sort junk me c s) IsSound
  unfolding call_data
  call_data-IsSound (add_route ea eb na nb pid) s h = record {
    rising = rt_add_route-Rising rb mem ea eb na nb pid s.rt_root s.allocs h.rising;
    distinct = h.distinct;
    valid = h.valid;
  }
  call_data-IsSound (remove_route ea pid true) s h = record {
    rising = rt_remove_route-Rising ea pid s.rt_root h.rising;
    distinct = h.distinct;
    valid = h.valid;
  }
  call_data-IsSound (remove_route ea pid false) s h = h
  call_data-IsSound (add_neighbour node mac status active) s h =
      go (pset_add true node mac status active s.pset)
        (pset_add-Distinct node mac status active s.pset h.distinct)
    where
      go :
          (o : Run (Bool × List PsetEntry))
          → Returns o (λ r. Distinct (nodes r.1))
          → Returns (bind_run o (λ r. done (record s { pset = r.1 }))) IsSound
      go (done r) d = record { rising = h.rising; distinct = d; valid = h.valid }
      go (oops e) d = d
  call_data-IsSound (remove_neighbour node) s h = record {
    rising = h.rising;
    distinct = (pset_updates-Distinct node 0 0 s.pset h.distinct).2;
    valid = h.valid;
  }
  call_data-IsSound (update_neighbour node status active) s h = record {
    rising = h.rising;
    distinct =
        subst Distinct (sym (pset_updates-Distinct node status active s.pset h.distinct).0)
          h.distinct;
    valid = h.valid;
  }
  call_data-IsSound (reset_neighbour node) s h = record {
    rising = h.rising;
    distinct = subst Distinct (sym (pset_updates-Distinct node 0 0 s.pset h.distinct).1) h.distinct;
    valid = h.valid;
  }
  call_data-IsSound (on_vset c) s h =
      go (perform sort junk me c s.vset) (perform-Grown sort junk me c s.vset h.valid)
    where
      go :
          (o : Run Vset)
          → Returns o (Grown sort junk me s.vset)
          → Returns (bind_run o (λ v. done (record s { vset = v }))) IsSound
      go (done v) g = record { rising = h.rising; distinct = h.distinct; valid = g.0 }
      go (oops e) g = g

  -- Whatever calls the threads make of the functions of vrr_data.c that add, remove and update entries
  -- under a lock, in whatever order they get the locks, with no write of the failure detector between
  -- them, which takes no lock, and whether or not the table's allocations succeed: each call returns,
  -- given memory for the two sets, and the table stays a search tree, the physical set has one entry
  -- for a neighbour, and the virtual set stays counted and without duplicates.
  pub call_all-IsSound :
      (cs : List DataCall) (s : Shared)
      → IsSound s
      → Returns (call_all rb mem sort junk me cs s) IsSound
  unfolding call_all
  call_all-IsSound [] s h = h
  call_all-IsSound (c ∷ cs) s h =
      go (call_data rb mem sort junk me c s) (call_data-IsSound c s h)
        (λ s' h'. call_all-IsSound cs s' h')
    where
      go :
          (o : Run Shared)
          → Returns o IsSound
          → ((s' : Shared) → IsSound s' → Returns (call_all rb mem sort junk me cs s') IsSound)
          → Returns (bind_run o (call_all rb mem sort junk me cs)) IsSound
      go (done s') h' next = next s' h'
      go (oops e) h' next = h'
