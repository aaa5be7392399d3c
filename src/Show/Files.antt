-- ===== src/Show/Files.antt =====
-- The files under sysfs: the attributes of vrr_mod.c, each with its show function.
use alpaca_vrr.Base.{
  ℕ, ◌+◌, ◌*◌, ◌≤◌, ◌≡◌, refl, ap, ◌∙◌, inl, inr, Option, none, some, List, [], ◌∷◌, ◌++◌, All,
  done, arith, length, Run, bind_run,
}
use alpaca_vrr.Node.{get_vrr_id}
use alpaca_vrr.Pset.{PsetEntry}
use alpaca_vrr.Snapshot.{PsetState}
use alpaca_vrr.World.{World, Env, M, pure, ◌>>=◌, get, lift}
use alpaca_vrr.Show.{
  id_line, id_show, pset_active_show, pset_not_active_show, pset_pending_show, vset_show, hex,
  snprintf,
}
use alpaca_vrr.Show.Writes.{zeros, snprintf-zeros}
use alpaca_vrr.Base.{Bool, true, select, length-select-le, ◌-◌}
use alpaca_vrr.Pset.{vrr_pset_size}
use alpaca_vrr.Snapshot.Classes.{is_linked_active, is_linked_not_active, is_pending}
use alpaca_vrr.Vset.Members.{ids}
use alpaca_vrr.Health.Hearing.{few}
use alpaca_vrr.Show.Lines.{count, entry_lines, Shown, pset_show-lines}
use alpaca_vrr.Show.Overrun.{id_lines, PageShown, vset_show-page}
use alpaca_vrr.Health.{Scope, Healthy}
use alpaca_vrr.Joining.{core}

-- struct kobj_attribute; what `show` returns is none for -1.
pub record KobjAttribute : Type 0 where
  pub name : List ℕ
  pub mode : ℕ
  pub show : List ℕ → M (Option ℕ × List ℕ)
  pub store : Option (List ℕ → M ℕ)

-- 0666
abbrev all_read_write : ℕ
all_read_write = 6 * 64 + 6 * 8 + 6

-- A show function of the snapshot.
abbrev of_snapshot : (PsetState → List ℕ → Run (Option ℕ × List ℕ)) → List ℕ → M (Option ℕ × List ℕ)
of_snapshot show buf = do w ← get; lift (show w.pstate buf)

unfoldable pub id_attr : KobjAttribute
id_attr = record {
  name = b'i' ∷ b'd' ∷ [];
  mode = all_read_write;
  show = λ buf. do
    w ← get
    (n, buf') ← lift (id_show w.node buf)
    pure (some n, buf');
  store = none;
}

unfoldable pub pset_active_attr : KobjAttribute
pset_active_attr = record {
  name = b'p' ∷ b's' ∷ b'e' ∷ b't' ∷ b'_' ∷ b'a' ∷ b'c' ∷ b't' ∷ b'i' ∷ b'v' ∷ b'e' ∷ [];
  mode = all_read_write;
  show = of_snapshot pset_active_show;
  store = none;
}

unfoldable pub pset_not_active_attr : KobjAttribute
pset_not_active_attr = record {
  name =
      b'p' ∷ b's' ∷ b'e' ∷ b't' ∷ b'_' ∷ b'n' ∷ b'o' ∷ b't' ∷ b'_' ∷ b'a' ∷ b'c' ∷ b't' ∷ b'i'
      ∷ b'v' ∷ b'e' ∷ [];
  mode = all_read_write;
  show = of_snapshot pset_not_active_show;
  store = none;
}

unfoldable pub pset_pending_attr : KobjAttribute
pset_pending_attr = record {
  name = b'p' ∷ b's' ∷ b'e' ∷ b't' ∷ b'_' ∷ b'p' ∷ b'e' ∷ b'n' ∷ b'd' ∷ b'i' ∷ b'n' ∷ b'g' ∷ [];
  mode = all_read_write;
  show = of_snapshot pset_pending_show;
  store = none;
}

module _ (env : Env) where
  unfoldable pub vset_attr : KobjAttribute
  vset_attr = record {
    name = b'v' ∷ b's' ∷ b'e' ∷ b't' ∷ [];
    mode = all_read_write;
    show = λ buf. do
      (n, buf') ← vset_show env buf
      pure (some n, buf');
    store = none;
  }

  unfoldable pub attrs : List KobjAttribute
  attrs = id_attr ∷ pset_active_attr ∷ pset_not_active_attr ∷ pset_pending_attr ∷ vset_attr ∷ []

-- Read on an empty page of 4096 bytes, the file gives no more than the page, and leaves the world as
-- it was but for the count of allocations.
abbrev pub Fits : World → KobjAttribute → Type 0
Fits w attr =
    (n : ℕ) × (text : List ℕ) × (v : World) × (attr.show (zeros 4096) w ≡ done ((some n, text), v))
    × (n ≤ 4096)
    × (core v ≡ core w)

id_show-page : (w : World) → id_show w.node (zeros 4096) ≡ done (9, id_line w.node.id ++ zeros 4087)
unfolding id_show id_line hex get_vrr_id snprintf
id_show-page w =
    ap (λ o. bind_run o (λ b. done (9, b)))
      (snprintf-zeros [] (id_line w.node.id) 0 10 4086 4096 (omega arith) refl refl refl)

snapshot-Fits :
    (show : PsetState → List ℕ → Run (Option ℕ × List ℕ)) (p : PsetEntry → Bool) (w : World)
    (attr : KobjAttribute)
    → attr.show (zeros 4096) w ≡ of_snapshot show (zeros 4096) w
    → length w.pset ≤ vrr_pset_size
    → Shown p w.pset (show w.pstate (zeros 4096))
    → Fits w attr
unfolding ◌>>=◌ get lift
snapshot-Fits show p w attr same few e = (
  27 * count p w.pset + 1,
  entry_lines (select p w.pset) ++ zeros (4096 - 27 * count p w.pset),
  w,
  same ∙ ap (λ o. bind_run o (λ a. done (a, w))) e,
  omega (arith, length-select-le p w.pset, few),
  refl,
)

pub attrs-Fits :
    (env : Env) (sc : Scope) (w : World)
    → env.kmalloc w.allocs ≡ true
    → Healthy sc w
    → w.vset.vset_size ≤ 455
    → All (Fits w) (attrs env)
unfolding attrs id_attr pset_active_attr pset_not_active_attr pset_pending_attr vset_attr ◌>>=◌ get
    lift pure
attrs-Fits env sc w memory h room =
    let (active, not_active, pending) = pset_show-lines sc w h in
    let few_near = few h.near sc.room in
    (
      (9, id_line w.node.id ++ zeros 4087, w, rw (id_show-page w) refl, omega arith, refl),
      (
        snapshot-Fits pset_active_show is_linked_active w pset_active_attr refl few_near active,
        (
          snapshot-Fits pset_not_active_show is_linked_not_active w pset_not_active_attr refl
              few_near not_active,
          (
            snapshot-Fits pset_pending_show is_pending w pset_pending_attr refl few_near pending,
            (of_vset (vset_show-page env w memory h.ring), tt),
          ),
        ),
      ),
    )
  where
    of_vset : PageShown env w → Fits w (vset_attr env)
    of_vset (inl (fits, (rest, n, e))) = (
      9 * w.vset.vset_size + 1,
      id_lines (ids w.vset.entries ++ rest) ++ zeros (4096 - 9 * w.vset.vset_size),
      record w { allocs = w.allocs + 1 },
      rw e refl,
      omega arith,
      refl,
    )
    of_vset (inr (over, e)) = absurd (omega (arith, over, room))
