-- ===== src/Ids/Ring.antt =====
-- `get_diff` is the distance on the ring of identifiers.
use alpaca_vrr.Base.{ℕ, ◌+◌, ◌-◌, ◌/◌, ◌≤◌, ◌<◌, ◌≡◌, ◌↔◌, arith}
use alpaca_vrr.Ids.{word, get_diff, diff_left, diff_right}

module _ (x y : ℕ) (hx : x < word) (hy : y < word) where
  -- It is symmetric, at most half the ring, and zero for equal identifiers only.
  pub get_diff_metric :
      (get_diff x y ≡ get_diff y x) × (get_diff x y ≤ word / 2) × ((get_diff x y ≡ 0) ↔ (x ≡ y))
  unfolding get_diff
  get_diff_metric = ground arith

-- Going round by a third identifier is never shorter.
pub get_diff_triangle :
    (x y z : ℕ) → x < word → y < word → z < word → get_diff x z ≤ get_diff x y + get_diff y z
unfolding get_diff
get_diff_triangle x y z hx hy hz = ground arith

-- The differences to the left and to the right of a node do not tell the two sides of the ring
-- apart: past `me` on the number line, two identifiers equally far from it the two ways round have
-- the same pair.
pub diffs_collide :
    (me d : ℕ)
    → me < d
    → me + d < word
    → (diff_left me (me + d) ≡ diff_left me (me + word - d))
      × (diff_right me (me + d) ≡ diff_right me (me + word - d))
unfolding diff_left diff_right
diffs_collide me d h k = ground arith
