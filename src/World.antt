-- ===== src/World.antt =====
-- The state of the whole module, what it asks of the kernel, and the monad in which its handlers
-- run: explicit state with faults. A handler runs to its end with no other in between.
--
-- The module's locks are left out here (see Locks), and so are kfree and leaks, but for packets
-- that are freed twice. The counter
-- `pset_size` of vrr_data.c is only ever raised and never read, and is left out.
pub mod Steps
use alpaca_vrr.Base.{
  ℕ, ◌+◌, Bool, Option, none, some, List, [], ◌==◌, if◌then◌else◌, Run, done, oops, bind_run, Fault,
  null_deref,
}
use alpaca_vrr.Rt
use alpaca_vrr.Rt.Defs.{Tree, Rbtree, RtEntry}
use alpaca_vrr.Pset
use alpaca_vrr.Pset.{PsetEntry}
use alpaca_vrr.Snapshot.{PsetState, pset_state_update}
use alpaca_vrr.Node.{VrrNode}
use alpaca_vrr.Vset
use alpaca_vrr.Vset.{Vset, VsetCopy, Cell, Sign, Bump}
use alpaca_vrr.Sockets.{SockTable}
use alpaca_vrr.Wire.{VrrHeader, Skb}

-- struct pset_update: what a hello packet asks of the work queue.
pub record PsetUpdate : Type 0 where
  pub node : ℕ
  pub mac : List ℕ
  pub trans : ℕ
  pub active : ℕ

-- A frame handed to a network device.
pub record Frame : Type 0 where
  pub dev_name : List ℕ
  pub dest_mac : List ℕ
  pub source_mac : List ℕ
  pub header : VrrHeader
  pub payload : List ℕ

-- The kernel. The n-th allocation succeeds if `kmalloc n`, and the n-th random word is `random n`;
-- `junk` is what uninitialised memory holds.
pub record Env : Type 0 where
  pub rb : Rbtree
  pub sort : (Cell → Cell → Sign) → List ℕ → List ℕ
  pub kmalloc : ℕ → Bool
  pub random : ℕ → ℕ
  pub junk : ℕ → ℕ
  pub dev_get_by_name : List ℕ → Option (List ℕ)
  pub sk_receive_skb : ℕ → Skb → Bool

-- `me` is the variable ME of vrr_data.c, `node` the structure `vrr` of vrr_core.c.
pub record World : Type 0 where
  pub node : VrrNode
  pub me : ℕ
  pub rt_root : Tree
  pub pset : List PsetEntry
  pub vset : Vset
  pub pstate : PsetState
  pub pset_updates : List PsetUpdate
  pub socks : SockTable
  pub allocs : ℕ
  pub draws : ℕ
  pub sent : List Frame
  pub delivered : List (ℕ × Skb)

abbrev pub M : Type 0 → Type 0
M A = World → Run (A × World)

unfoldable pub pure : {A : Type 0} → A → M A
pure a w = done (a, w)

unfoldable pub fault : {A : Type 0} → Fault → M A
fault e w = oops e

abbrev pub continue_with : {A B : Type 0} → (A → M B) → A × World → Run (B × World)
continue_with f (a, w) = f a w

infixl 5 ◌>>=◌ ◌>>◌
unfoldable pub ◌>>=◌ : {A B : Type 0} → M A → (A → M B) → M B
◌>>=◌ m f w = bind_run (m w) (continue_with f)

unfoldable pub ◌>>◌ : {A B : Type 0} → M A → M B → M B
m >> k = m >>= λ _. k

-- The two cases of a pointer that may be null, or of a search that may find nothing.
unfoldable pub case_option : {X A : Type 0} → Option X → M A → (X → M A) → M A
case_option none m f = m
case_option (some x) m f = f x

unfoldable pub get : M World
get w = done (w, w)

unfoldable pub modify : (World → World) → M (Unit {0})
modify f w = done (tt, f w)

-- A computation that may fault, on the world.
unfoldable pub lift : {A : Type 0} → Run A → M A
lift m w = bind_run m λ a. done (a, w)

-- A copied array read through its pointer.
unfoldable pub read_array : VsetCopy → Run (List ℕ)
read_array c = elim c.cells [
  | some cells ↦ done cells
  | none ↦ if c.count == 0 then done [] else oops null_deref
]

abbrev pub added : World → Option Bump × Vset → Run (Option Bump × World)
added w (r, v) = done (r, record w { vset = v; allocs = w.allocs + 1 })

abbrev pub drawn : World → Option ℕ → Run (Option ℕ × World)
drawn w none = done (none, w)
drawn w (some p) = done (some p, record w { draws = w.draws + 1 })

module _ (env : Env) where
  -- kmalloc, alloc_skb and skb_clone
  unfoldable pub alloc : M Bool
  alloc w = done (env.kmalloc w.allocs, record w { allocs = w.allocs + 1 })

  unfoldable pub get_random : M ℕ
  get_random w = done (env.random w.draws, record w { draws = w.draws + 1 })

  -- The components' operations on their part of the world.
  unfoldable pub add_route : ℕ → ℕ → ℕ → ℕ → ℕ → M Bool
  add_route ea eb na nb pid w =
      let (ret, root, n) = Rt.rt_add_route env.rb env.kmalloc ea eb na nb pid w.rt_root w.allocs in
      done (ret, record w { rt_root = root; allocs = n })

  unfoldable pub vset_copy : M VsetCopy
  vset_copy = do memory ← alloc; w ← get; lift (Vset.vset_get_all env.junk memory w.vset)

  unfoldable pub should_add : ℕ → M Bool
  should_add node w = lift (Vset.vset_should_add env.sort env.junk w.me node w.vset) w

  -- The node `rem` that the caller gets is not used by it.
  unfoldable pub add_to_vset : ℕ → M (Option Bump)
  add_to_vset node w =
      if Vset.vset_has node w.vset.entries
      then done (none, w)
      else bind_run (Vset.vset_add env.sort env.junk (env.kmalloc w.allocs) w.me node w.vset)
          (added w)

  -- A random word is drawn only if there is a proxy to choose.
  unfoldable pub get_proxy : M (Option ℕ)
  get_proxy w = bind_run (Pset.pset_get_proxy (env.random w.draws) w.pset) (drawn w)

  unfoldable pub refresh : M (Unit {0})
  refresh w = bind_run (pset_state_update w.pset) λ s. done (tt, record w { pstate = s })

-- `rt_remove_route`
unfoldable pub remove_route : ℕ → ℕ → M (Option RtEntry)
remove_route ea pid w =
    let (found, root) = Rt.rt_remove_route ea pid w.rt_root in
    done (found, record w { rt_root = root })
