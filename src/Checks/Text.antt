-- ===== src/Checks/Text.antt =====
-- Examples of the text under sysfs.
use alpaca_vrr.Base.{◌≡◌, refl, [], ◌∷◌, ◌++◌, arith, All}
use alpaca_vrr.Pset.{PsetEntry}
use alpaca_vrr.Snapshot.Classes.{is_linked_active, is_linked_not_active, is_pending}
use alpaca_vrr.World.{World}
use alpaca_vrr.Show.{
  pset_active_show, pset_not_active_show, pset_pending_show, pset_line, hex, hex_digit,
}
use alpaca_vrr.Show.Writes.{zeros}
use alpaca_vrr.Show.Lines.{Shown, entry_lines, pset_show-lines}
use alpaca_vrr.Show.Overrun.{PageShown, vset_show-page}
use alpaca_vrr.Show.Files.{attrs, Fits, attrs-Fits}
use alpaca_vrr.Show.Reading.{read_lines, entry_lines-read}
use alpaca_vrr.Checks.Samples.{ring}
use alpaca_vrr.Checks.Worlds.{kernel, world, scope, world-Healthy}

-- "000000ff 01:02:03:04:05:10\n"
pset_line_text : pset_line 255 (1 ∷ 2 ∷ 3 ∷ 4 ∷ 5 ∷ 16 ∷ []) ≡ (
    48 ∷ 48 ∷ 48 ∷ 48 ∷ 48 ∷ 48 ∷ 102 ∷ 102 ∷ 32 ∷ 48 ∷ 49 ∷ 58 ∷ 48 ∷ 50 ∷ 58 ∷ 48 ∷ 51 ∷ 58 ∷ 48
    ∷ 52 ∷ 58 ∷ 48 ∷ 53 ∷ 58 ∷ 49 ∷ 48 ∷ 10 ∷ [])
unfolding pset_line hex hex_digit
pset_line_text = refl

pset_show-lines_example :
    Shown is_linked_active world.pset (pset_active_show world.pstate (zeros 4096))
    × Shown is_linked_not_active world.pset (pset_not_active_show world.pstate (zeros 4096))
    × Shown is_pending world.pset (pset_pending_show world.pstate (zeros 4096))
pset_show-lines_example = pset_show-lines scope world world-Healthy

-- A counter that has risen past what the page holds.
abbrev crowded : World
crowded = record world { vset = ring 456 }

vset_show-page_example : PageShown kernel crowded
vset_show-page_example =
    vset_show-page kernel crowded refl
      (record { distinct = ((omega arith, tt), (tt, tt)); sized = omega arith })

attrs-Fits_example : All (Fits world) (attrs kernel)
attrs-Fits_example = attrs-Fits kernel scope world refl world-Healthy (omega arith)

abbrev one : PsetEntry
one = record {
  node = 255;
  status = 0;
  active = 1;
  mac = 1 ∷ 2 ∷ 3 ∷ 4 ∷ 5 ∷ 16 ∷ [];
  fail_count = 0;
}

entry_lines-read_example : read_lines 1 (entry_lines (one ∷ []) ++ 0 ∷ []) ≡ (255, one.mac) ∷ []
entry_lines-read_example = entry_lines-read (one ∷ []) (0 ∷ []) (
  (
    omega arith,
    refl,
    (omega arith, (omega arith, (omega arith, (omega arith, (omega arith, (omega arith, tt)))))),
  ),
  tt,
)
