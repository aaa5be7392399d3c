-- ===== src/Show/Overrun.antt =====
-- The virtual set under sysfs: how many nodes fit the page.
use alpaca_vrr.Base.{
  ℕ, suc, ◌+◌, ◌-◌, ◌*◌, ◌≤◌, ◌<◌, ◌≡◌, ◌∙◌, sym, refl, ap, List, [], ◌∷◌, ◌++◌, done, oops, arith,
  length, length-append, length-map, true, inl, inr, Bool-cases, ltb, ltb→lt, ltb→ge, leb, leb→le,
  leb→gt, ◌⊎◌, out_of_bounds,
}
use alpaca_vrr.Show.{hex, id_line, vset_loop, vset_show}
use alpaca_vrr.Show.Writes.{zeros, snprintf-zeros, snprintf_past}
use alpaca_vrr.Vset.{VsetEntry, vset_get_all}
use alpaca_vrr.Vset.Members.{ids, IsValid}
use alpaca_vrr.Vset.Size.{fill_array-Filled}
use alpaca_vrr.World.{World, Env, pure, ◌>>=◌, lift, read_array, vset_copy, alloc, get}
use mathlib.Core.List.{append_assoc}

-- A line for each node.
unfoldable pub id_lines : List ℕ → List ℕ
id_lines [] = []
id_lines (id ∷ rest) = id_line id ++ id_lines rest

length-id_line : (id : ℕ) → length (id_line id) ≡ 9
unfolding id_line hex
length-id_line id = refl

pub vset_loop-zeros :
    (cells : List ℕ) (i : ℕ) (text : List ℕ) (k m : ℕ)
    → length text ≡ 9 * i
    → m ≡ 9 * length cells + suc k
    → vset_loop i cells (text ++ zeros m) ≡ done (text ++ (id_lines cells ++ zeros (suc k)))
unfolding vset_loop id_lines
vset_loop-zeros [] i text k m c d = ap (λ z. done (text ++ zeros z)) same
  where
    same : m ≡ suc k
    same = omega arith
vset_loop-zeros (id ∷ cells) i text k m c d =
    rw
      (
        snprintf-zeros text (id_line id) (9 * i) 10 (9 * length cells + k) m (omega (arith, long))
            (omega arith) (omega (arith, long)) (omega (arith, long)),
        vset_loop-zeros cells (i + 1) (text ++ id_line id) k (suc (9 * length cells + k))
            (omega (arith, long, length-append text (id_line id))) (omega arith),
      )
      (simp append_assoc)
  where
    long : length (id_line id) ≡ 9
    long = length-id_line id

pub vset_loop-past :
    (cells : List ℕ) (i : ℕ) (text : List ℕ) (m : ℕ)
    → length text ≡ 9 * i
    → 0 < m
    → m < 9 * length cells + 1
    → vset_loop i cells (text ++ zeros m) ≡ oops out_of_bounds
unfolding vset_loop
vset_loop-past [] i text m c p d = absurd (omega arith)
vset_loop-past (id ∷ cells) i text m c p d = elim (Bool-cases (ltb 9 m)) [
  | inl room ↦ rw (
    snprintf-zeros text (id_line id) (9 * i) 10 (m - 10) m (omega (arith, long))
        (omega (arith, long, ltb→lt 9 m room)) (omega (arith, long))
        (omega (arith, long, ltb→lt 9 m room)),
    vset_loop-past cells (i + 1) (text ++ id_line id) (suc (m - 10))
        (omega (arith, long, length-append text (id_line id)))
        (omega (arith, long, ltb→lt 9 m room)) (omega (arith, long, ltb→lt 9 m room)),
  )
  | inr short ↦ rw (
      snprintf_past text (id_line id) (9 * i) 10 m (omega (arith, long)) (omega arith)
        (omega (arith, long)) (omega (arith, long, ltb→ge 9 m short)))
]
  where
    long : length (id_line id) ≡ 9
    long = length-id_line id

-- The lines of at most 455 nodes and bytes 0 behind them, or a fault.
abbrev pub PageShown : Env → World → Type 0
PageShown env w =
    ((w.vset.vset_size ≤ 455)
      × ((rest : List ℕ) × (length (ids w.vset.entries ++ rest) ≡ w.vset.vset_size)
          × (vset_show env (zeros 4096) w
              ≡ done (
                (
                  9 * w.vset.vset_size + 1,
                  id_lines (ids w.vset.entries ++ rest) ++ zeros (4096 - 9 * w.vset.vset_size),
                ),
                record w { allocs = w.allocs + 1 },
              ))))
    ⊎ ((455 < w.vset.vset_size) × (vset_show env (zeros 4096) w ≡ oops out_of_bounds))

-- With memory at hand, and a virtual set that is valid, `vset_show` on an empty page of 4096 bytes
-- writes a line for each node that the set counts if those are at most 455, first the nodes in their
-- order, and writes past the page if they are more.
pub vset_show-page :
    (env : Env) (w : World) → env.kmalloc w.allocs ≡ true → IsValid w.vset → PageShown env w
unfolding vset_show vset_copy vset_get_all alloc get lift ◌>>=◌ pure read_array
vset_show-page env w memory v =
    let (cells, filled, (n, (rest, starts))) =
      fill_array-Filled env.junk w.vset.vset_size (ids w.vset.entries)
        (omega (arith, length-map (λ (x : VsetEntry). x.node) w.vset.entries, v.sized)) in
    elim (Bool-cases (leb w.vset.vset_size 455)) [
      | inl fits ↦
          let few = leb→le w.vset.vset_size 455 fits in
          inl (
            few,
            (
              rest,
              sym (ap length starts) ∙ n,
              rw
                  (
                    memory,
                    filled,
                    vset_loop-zeros cells 0 [] (4095 - 9 * w.vset.vset_size) 4096 refl
                        (omega (arith, n, few)),
                    starts,
                  )
                  (ap
                    (λ z. done (
                      (9 * w.vset.vset_size + 1, id_lines (ids w.vset.entries ++ rest) ++ zeros z),
                      record w { allocs = w.allocs + 1 },
                    ))
                    (page few)),
            ),
          )
      | inr over ↦
          let many = leb→gt w.vset.vset_size 455 over in
          inr (
            many,
            rw (
              memory,
              filled,
              vset_loop-past cells 0 [] 4096 refl (omega arith) (omega (arith, n, many)),
            ),
          )
    ]
  where
    page : w.vset.vset_size ≤ 455 → suc (4095 - 9 * w.vset.vset_size) ≡ 4096 - 9 * w.vset.vset_size
    page few = omega arith
