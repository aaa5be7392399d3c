-- ===== src/Ids.antt =====
-- u32 arithmetic on node identifiers: `get_diff` of vrr_data.c, and the distances to either side
-- that `insert_vset_node` and `vset_should_add` compute from it.
pub mod Ring
use alpaca_vrr.Base.{ℕ, ◌+◌, ◌-◌, ◌%◌, ltb, if◌then◌else◌}

abbrev pub word : ℕ
word = 0x1_0000_0000

abbrev pub uint_max : ℕ
uint_max = 0xffff_ffff

-- `x - y` in u32.
unfoldable pub sub32 : ℕ → ℕ → ℕ
sub32 x y = (x + word - y) % word

unfoldable pub get_diff : ℕ → ℕ → ℕ
unfolding sub32
get_diff x y = let i = sub32 x y in let j = sub32 y x in if ltb i j then i else j

-- The initialisers of `diff_left` and `diff_right`. The fields are int, and every comparison
-- converts them back to u32, so they are kept as u32.
unfoldable pub diff_left : ℕ → ℕ → ℕ
unfolding get_diff
diff_left me node = if ltb me node then uint_max - get_diff node me else get_diff node me

unfoldable pub diff_right : ℕ → ℕ → ℕ
unfolding get_diff
diff_right me node = if ltb node me then uint_max - get_diff node me else get_diff node me
