-- ===== src/Show/Lines.antt =====
-- The classes of the physical set under sysfs.
use alpaca_vrr.Base.{
  ℕ, suc, ◌+◌, ◌-◌, ◌*◌, ◌/◌, ◌≤◌, ◌≡◌, refl, ap, List, [], ◌∷◌, ◌++◌, Run, done, Option, arith,
  length, length-append, length-map, length-select-le, ==_self, some, map, select, Bool,
}
use alpaca_vrr.Pset.{PsetEntry, vrr_pset_size}
use alpaca_vrr.Snapshot.Classes.{
  classify, of_class, macs_of_class, is_linked_active, is_linked_not_active, is_pending,
}
use alpaca_vrr.Show.{
  hex, pset_line, pset_loop, PsetGetters, active_getters, not_active_getters, pending_getters,
  pset_show_real, pset_active_show, pset_not_active_show, pset_pending_show,
}
use alpaca_vrr.Show.Writes.{zeros, snprintf-zeros}
use alpaca_vrr.World.{World}
use alpaca_vrr.Health.{Scope, Healthy}
use alpaca_vrr.Health.Hearing.{few}
use mathlib.Core.List.{append_assoc}

-- A line for each entry.
unfoldable pub entry_lines : List PsetEntry → List ℕ
entry_lines [] = []
entry_lines (e ∷ es) = pset_line e.node e.mac ++ entry_lines es

length-pset_line : (id : ℕ) (mac : List ℕ) → length (pset_line id mac) ≡ 27
unfolding pset_line hex
length-pset_line id mac = refl

pset_loop-zeros :
    (es : List PsetEntry) (i : ℕ) (text : List ℕ) (k m : ℕ)
    → length text ≡ 27 * i
    → m ≡ 27 * length es + suc k
    → pset_loop (length es) i (map (λ e. e.node) es) (map (λ e. e.mac) es) (text ++ zeros m)
      ≡ done (text ++ (entry_lines es ++ zeros (suc k)))
unfolding pset_loop entry_lines
pset_loop-zeros [] i text k m c d = ap (λ z. done (text ++ zeros z)) same
  where
    same : m ≡ suc k
    same = omega arith
pset_loop-zeros (e ∷ es) i text k m c d =
    rw
      (
        snprintf-zeros text (pset_line e.node e.mac) (27 * i) 28 (27 * length es + k) m
            (omega (arith, long)) (omega arith) (omega (arith, long)) (omega (arith, long)),
        pset_loop-zeros es (i + 1) (text ++ pset_line e.node e.mac) k (suc (27 * length es + k))
            (omega (arith, long, length-append text (pset_line e.node e.mac))) (omega arith),
      )
      (simp append_assoc)
  where
    long : length (pset_line e.node e.mac) ≡ 27
    long = length-pset_line e.node e.mac

-- How many entries are of a class.
abbrev pub count : (PsetEntry → Bool) → List PsetEntry → ℕ
count p ps = length (select p ps)

-- What the show function of a class does with an empty page of 4096 bytes: the lines of the class,
-- in the order of the set, then bytes 0, and the result counts the lines and one byte 0.
abbrev pub Shown : (PsetEntry → Bool) → List PsetEntry → Run (Option ℕ × List ℕ) → Type 0
Shown p ps r =
    r
    ≡ done (some (27 * count p ps + 1), entry_lines (select p ps) ++ zeros (4096 - 27 * count p ps))

module _ (g : PsetGetters) (p : PsetEntry → Bool) (ps : List PsetEntry) where
  pset_show_real-Shown :
      length ps ≤ vrr_pset_size
      → g.get_pset (classify ps) ≡ of_class p ps
      → g.get_pset_mac (classify ps) ≡ macs_of_class p ps
      → g.get_pset_size (classify ps) ≡ count p ps * 4
      → g.get_pset_mac_size (classify ps) ≡ count p ps * 6
      → Shown p ps (pset_show_real g (classify ps) (zeros 4096))
  unfolding pset_show_real
  pset_show_real-Shown fits a b c d =
      rw
        (
          a,
          b,
          c,
          d,
          same,
          same_mac,
          ==_self (count p ps),
          pset_loop-zeros (select p ps) 0 [] (4095 - 27 * count p ps) 4096 refl
              (omega (arith, small)),
        )
        (ap (λ z. done (some (27 * count p ps + 1), entry_lines (select p ps) ++ zeros z)) rest)
    where
      small : count p ps ≤ 20
      small = omega (arith, length-select-le p ps, fits)

      same : count p ps * 4 / 4 ≡ count p ps
      same = omega arith

      same_mac : count p ps * 6 / 6 ≡ count p ps
      same_mac = omega arith

      rest : suc (4095 - 27 * count p ps) ≡ 4096 - 27 * count p ps
      rest = omega (arith, small)

-- In a healthy world each of the three show functions of the physical set fills an empty page of
-- 4096 bytes, without a fault, with a line for each neighbour of its class, in the order of the set,
-- and returns the number of those bytes and one more.
pub pset_show-lines :
    (sc : Scope) (w : World)
    → Healthy sc w
    → Shown is_linked_active w.pset (pset_active_show w.pstate (zeros 4096))
      × Shown is_linked_not_active w.pset (pset_not_active_show w.pstate (zeros 4096))
      × Shown is_pending w.pset (pset_pending_show w.pstate (zeros 4096))
unfolding pset_active_show pset_not_active_show pset_pending_show active_getters not_active_getters
    pending_getters
pset_show-lines sc w h = rw h.near.snapshot (
  shown active_getters is_linked_active refl refl (bytes _ 4 _) (bytes _ 6 _),
  shown not_active_getters is_linked_not_active refl refl (bytes _ 4 _) (bytes _ 6 _),
  shown pending_getters is_pending refl refl (bytes _ 4 _) (bytes _ 6 _),
)
  where
    shown :
        (g : PsetGetters) (p : PsetEntry → Bool)
        → g.get_pset (classify w.pset) ≡ of_class p w.pset
        → g.get_pset_mac (classify w.pset) ≡ macs_of_class p w.pset
        → g.get_pset_size (classify w.pset) ≡ count p w.pset * 4
        → g.get_pset_mac_size (classify w.pset) ≡ count p w.pset * 6
        → Shown p w.pset (pset_show_real g (classify w.pset) (zeros 4096))
    shown g p = pset_show_real-Shown g p w.pset (few h.near sc.room)

    bytes :
        {B : Type 0} (f : PsetEntry → B) (n : ℕ) (es : List PsetEntry)
        → length (map f es) * n ≡ length es * n
    bytes f n es = ap (λ k. k * n) (length-map f es)
