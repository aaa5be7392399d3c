-- ===== src/Travel/Tables.antt =====
-- A route that is added to a fresh table is laid there.
use alpaca_vrr.Base.{ℕ, ◌≡◌, Bool, true}
use alpaca_vrr.Rt.{rt_add_route}
use alpaca_vrr.Rt.Defs.{Tree, Rbtree}
use alpaca_vrr.Rt.Spec.{rt_add_route-succeeds}
use alpaca_vrr.Rt.Paths.{Laid}
use alpaca_vrr.World.{World}
use alpaca_vrr.Travel.{Fresh}

pub Fresh-Laid :
    (rb : Rbtree) (mem : ℕ → Bool)
    → ((k : ℕ) → mem k ≡ true)
    → (src dst pid n prev next count : ℕ) (w : World) (after : Tree) → Fresh src dst pid n w
    → (rt_add_route rb mem src dst prev next pid w.rt_root count).1 ≡ after
    → Laid rb mem src dst pid w.rt_root n prev next after
Fresh-Laid rb mem ample src dst pid n prev next count w after f e = record {
  sorted = f.sorted;
  newest_src = f.newest_src;
  newest_dst = f.newest_dst;
  no_loop_src = f.no_loop_src;
  no_loop_dst = f.no_loop_dst;
  count = count;
  added = rt_add_route-succeeds rb mem w.me ample src dst prev next pid w.rt_root count;
  table = e;
}
