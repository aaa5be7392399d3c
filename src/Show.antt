-- ===== src/Show.antt =====
-- The text that the module exports under sysfs: the show functions of vrr_mod.c, with the getters
-- of vrr_core.c that they call.
--
-- The buffer is the page that sysfs hands over, as the list of its bytes; a write past its end is a
-- fault. `sprintf` and `snprintf` are those of C: the text, cut to the size given less one, and a
-- byte 0. `%08x` and `%02x` print the digits of numbers that have no more than that many.
pub mod Writes
pub mod Lines
pub mod Overrun
pub mod Reading
pub mod Files
use alpaca_vrr.Base.{
  ℕ, zero, suc, ◌+◌, ◌-◌, ◌*◌, ◌/◌, ◌%◌, Bool, true, false, not, Option, none, some, List, [], ◌∷◌,
  ◌++◌, ◌==◌, ltb, if◌then◌else◌, length, get_or, take, Run, done, oops, bind_run, out_of_bounds,
  null_deref,
}
use alpaca_vrr.Snapshot.{PsetState}
use alpaca_vrr.Node.{VrrNode, get_vrr_id}
use alpaca_vrr.Vset.{VsetCopy}
use alpaca_vrr.World.{Env, M, pure, ◌>>=◌, lift, read_array, vset_copy}

unfoldable pub hex_digit : ℕ → ℕ
hex_digit d = if ltb d 10 then b'0' + d else b'a' + (d - 10)

-- The number in so many digits.
unfoldable pub hex : ℕ → ℕ → List ℕ
hex zero x = []
hex (suc n) x = hex n (x / 16) ++ hex_digit (x % 16) ∷ []

-- Bytes stored from an offset on.
unfoldable pub write_at : ℕ → List ℕ → List ℕ → Run (List ℕ)
write_at k [] buf = done buf
write_at zero (b ∷ bs) [] = oops out_of_bounds
write_at zero (b ∷ bs) (c ∷ buf) = bind_run (write_at zero bs buf) λ rest. done (b ∷ rest)
write_at (suc k) (b ∷ bs) [] = oops out_of_bounds
write_at (suc k) (b ∷ bs) (c ∷ buf) = bind_run (write_at k (b ∷ bs) buf) λ rest. done (c ∷ rest)

unfoldable pub snprintf : ℕ → ℕ → List ℕ → List ℕ → Run (List ℕ)
snprintf at n text buf = write_at at (take (n - 1) text ++ 0 ∷ []) buf

abbrev pub newline : ℕ
newline = 10

-- "%08x\n"
unfoldable pub id_line : ℕ → List ℕ
id_line id = hex 8 id ++ newline ∷ []

-- "%08x %02x:%02x:%02x:%02x:%02x:%02x\n"
unfoldable pub pset_line : ℕ → List ℕ → List ℕ
pset_line id mac =
    hex 8 id
    ++ (b' ' ∷ hex 2 (get_or mac 0 0)
        ++ (b':' ∷ hex 2 (get_or mac 1 0)
            ++ (b':' ∷ hex 2 (get_or mac 2 0)
                ++ (b':' ∷ hex 2 (get_or mac 3 0)
                    ++ (b':' ∷ hex 2 (get_or mac 4 0)
                        ++ (b':' ∷ hex 2 (get_or mac 5 0) ++ newline ∷ []))))))

unfoldable pub id_show : VrrNode → List ℕ → Run (ℕ × List ℕ)
id_show vrr buf =
    bind_run (write_at 0 (id_line (get_vrr_id vrr) ++ 0 ∷ []) buf) λ buf'. done (9, buf')

-- One class of the snapshot, as its four getters give it: pointers are lists, sizes are in bytes.
pub record PsetGetters : Type 0 where
  pub get_pset : PsetState → List ℕ
  pub get_pset_size : PsetState → ℕ
  pub get_pset_mac : PsetState → List (List ℕ)
  pub get_pset_mac_size : PsetState → ℕ

abbrev pub get_pset_active : PsetState → List ℕ
get_pset_active pstate = pstate.l_active

abbrev pub get_pset_active_size : PsetState → ℕ
get_pset_active_size pstate = length pstate.l_active * 4

abbrev pub get_pset_active_mac : PsetState → List (List ℕ)
get_pset_active_mac pstate = pstate.la_mac

abbrev pub get_pset_active_mac_size : PsetState → ℕ
get_pset_active_mac_size pstate = length pstate.la_mac * 6

unfoldable pub active_getters : PsetGetters
active_getters = record {
  get_pset = get_pset_active;
  get_pset_size = get_pset_active_size;
  get_pset_mac = get_pset_active_mac;
  get_pset_mac_size = get_pset_active_mac_size;
}

abbrev pub get_pset_not_active : PsetState → List ℕ
get_pset_not_active pstate = pstate.l_not_active

abbrev pub get_pset_not_active_size : PsetState → ℕ
get_pset_not_active_size pstate = length pstate.l_not_active * 4

abbrev pub get_pset_not_active_mac : PsetState → List (List ℕ)
get_pset_not_active_mac pstate = pstate.lna_mac

abbrev pub get_pset_not_active_mac_size : PsetState → ℕ
get_pset_not_active_mac_size pstate = length pstate.lna_mac * 6

unfoldable pub not_active_getters : PsetGetters
not_active_getters = record {
  get_pset = get_pset_not_active;
  get_pset_size = get_pset_not_active_size;
  get_pset_mac = get_pset_not_active_mac;
  get_pset_mac_size = get_pset_not_active_mac_size;
}

abbrev pub get_pset_pending : PsetState → List ℕ
get_pset_pending pstate = pstate.pending

abbrev pub get_pset_pending_size : PsetState → ℕ
get_pset_pending_size pstate = length pstate.pending * 4

abbrev pub get_pset_pending_mac : PsetState → List (List ℕ)
get_pset_pending_mac pstate = pstate.pending_mac

abbrev pub get_pset_pending_mac_size : PsetState → ℕ
get_pset_pending_mac_size pstate = length pstate.pending_mac * 6

unfoldable pub pending_getters : PsetGetters
pending_getters = record {
  get_pset = get_pset_pending;
  get_pset_size = get_pset_pending_size;
  get_pset_mac = get_pset_pending_mac;
  get_pset_mac_size = get_pset_pending_mac_size;
}

-- The loop over the `n` entries left, from the entry `i` on. A read past either array is a fault.
unfoldable pub pset_loop : ℕ → ℕ → List ℕ → List (List ℕ) → List ℕ → Run (List ℕ)
pset_loop zero i vrr_id mac buf = done buf
pset_loop (suc n) i [] mac buf = oops out_of_bounds
pset_loop (suc n) i (id ∷ vrr_id) [] buf = oops out_of_bounds
pset_loop (suc n) i (id ∷ vrr_id) (m ∷ mac) buf =
    bind_run (snprintf (27 * i) 28 (pset_line id m) buf) λ buf'. pset_loop n (i + 1) vrr_id mac buf'

-- The result beside the buffer: none for -1.
unfoldable pub pset_show_real : PsetGetters → PsetState → List ℕ → Run (Option ℕ × List ℕ)
pset_show_real g pstate buf =
    let pset_len = g.get_pset_size pstate / 4 in
    if not (g.get_pset_mac_size pstate / 6 == pset_len)
    then done (none, buf)
    else bind_run (pset_loop pset_len 0 (g.get_pset pstate) (g.get_pset_mac pstate) buf)
        λ buf'. done (some (27 * pset_len + 1), buf')

unfoldable pub pset_active_show : PsetState → List ℕ → Run (Option ℕ × List ℕ)
pset_active_show pstate buf = pset_show_real active_getters pstate buf

unfoldable pub pset_not_active_show : PsetState → List ℕ → Run (Option ℕ × List ℕ)
pset_not_active_show pstate buf = pset_show_real not_active_getters pstate buf

unfoldable pub pset_pending_show : PsetState → List ℕ → Run (Option ℕ × List ℕ)
pset_pending_show pstate buf = pset_show_real pending_getters pstate buf

unfoldable pub vset_loop : ℕ → List ℕ → List ℕ → Run (List ℕ)
vset_loop i [] buf = done buf
vset_loop i (id ∷ vset) buf =
    bind_run (snprintf (9 * i) 10 (id_line id) buf) λ buf'. vset_loop (i + 1) vset buf'

module _ (env : Env) where
  unfoldable pub vset_show : List ℕ → M (ℕ × List ℕ)
  vset_show buf = do
    vset ← vset_copy env
    cells ← lift (read_array vset)
    buf' ← lift (vset_loop 0 cells buf)
    pure (9 * vset.count + 1, buf')
