-- ===== src/Timer.antt =====
-- The start of the module and the periodic work: vrr_mod.c, with `vrr_node_init` of vrr_core.c and
-- `vrr_data_init` of vrr_data.c. What the start registers with the kernel is in Registration.
pub mod Registration
pub mod Life
use alpaca_vrr.Base.{
  ℕ, ◌+◌, Bool, ◌||◌, Option, none, some, List, [], ◌∷◌, if◌then◌else◌, Run, done, oops, bind_run,
  null_deref, bytes_eq,
}
use alpaca_vrr.Rt.Defs.{leaf}
use alpaca_vrr.Snapshot.{empty_state, detect_failures}
use alpaca_vrr.Node.{VrrNode, active_timeout}
use alpaca_vrr.Vset.{vset_init}
use alpaca_vrr.Sockets.{vrr_sock_init}
use alpaca_vrr.World.{World, Env, M, ◌>>◌, modify}
use alpaca_vrr.Send.{send_hpkt}

-- "eth0" and "lo"
abbrev pub eth0 : List ℕ
eth0 = b'e' ∷ b't' ∷ b'h' ∷ b'0' ∷ []

abbrev pub lo : List ℕ
lo = b'l' ∷ b'o' ∷ []

abbrev pub passed_over : List ℕ → Bool
passed_over name = bytes_eq name eth0 || bytes_eq name lo

-- The loop over the devices, with so many allocations made before: each device is put in front, but
-- for those two. The name is written through the pointer that the allocation gives, null or not.
unfoldable pub collect_devices :
    (ℕ → Bool) → ℕ → List (List ℕ) → List (List ℕ) → Run (List (List ℕ))
collect_devices mem allocs acc [] = done acc
collect_devices mem allocs acc (name ∷ names) =
    let skip = passed_over name in
    let rest =
      collect_devices mem (if skip then allocs else allocs + 1) (if skip then acc else name ∷ acc)
        names in
    if skip || mem allocs then rest else oops null_deref

-- The random identifier and the names of the devices are the kernel's, and `mem` says which allocation
-- succeeds. The node is allocated twice: the first result is checked, the second used.
unfoldable pub vrr_node_init : (ℕ → Bool) → ℕ → List (List ℕ) → Run (Option VrrNode)
vrr_node_init mem id names =
    if mem 0
    then (if mem 1
        then (bind_run (collect_devices mem 2 [] names) λ devices. done (
            some (record {
              id = id;
              vset_size = 4;
              rtable_value = 0;
              version = 1;
              active = 0;
              timeout = 0;
              dev_list = devices;
            })))
        else oops null_deref)
    else done none

-- The world once the structures are initialised, the snapshot among them.
unfoldable pub boot : VrrNode → ℕ → ℕ → World
boot node allocs draws = record {
  node = node;
  me = node.id;
  rt_root = leaf;
  pset = [];
  vset = vset_init;
  pstate = empty_state;
  pset_updates = [];
  socks = vrr_sock_init;
  allocs = allocs;
  draws = draws;
  sent = [];
  delivered = [];
}

-- `detect_failures` on the world's physical set and snapshot.
unfoldable pub detect : M (Unit {0})
detect w =
    bind_run (detect_failures w.pset w.pstate) λ r. done (tt, record w { pset = r.0; pstate = r.1 })

unfoldable pub count_timeout : M (Unit {0})
count_timeout = modify (λ w. record w { node = active_timeout w.node })

module _ (env : Env) where
  unfoldable pub vrr_workqueue_handler : M Bool
  vrr_workqueue_handler = do detect; count_timeout; send_hpkt env
