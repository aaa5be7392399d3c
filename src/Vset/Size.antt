-- ===== src/Vset/Size.antt =====
-- The counter `vset_size` bounds the list, so no array of that size is overrun; it never falls.
use alpaca_vrr.Base.{
  ℕ, ◌+◌, ◌<◌, ◌≤◌, ◌≡◌, refl, ap, inl, inr, Bool, true, false, ◌&&◌, Option, none, some, List, [],
  ◌∷◌, ◌++◌, map, ltb, leb, ◌==◌, arith, length, length-map, get_or, Run, done, oops, bind_run,
  Returns, zero, suc, Bool-cases,
}
use alpaca_vrr.Vset.{
  other, VsetEntry, Vset, Cell, Sign, Bump, no_bump, bumped, bump_failed, outcome, vrr_vset_size,
  cmp_diff, fill_array, new_entry, vset_has, bump_entry, vset_bump, vset_add, vset_should_add,
  as_added, nearer,
}
use alpaca_vrr.Ids.{diff_left, diff_right}

-- Each entry was counted.
abbrev pub IsSized : Vset → Type 0
IsSized v = length v.entries ≤ v.vset_size

-- The array has the size asked for, and starts with what was stored.
abbrev pub Filled : ℕ → List ℕ → List ℕ → Type 0
Filled n xs cells = (length cells ≡ n) × ((rest : List ℕ) × (cells ≡ xs ++ rest))

pub fill_array-Filled :
    (junk : ℕ → ℕ) (n : ℕ) (xs : List ℕ)
    → length xs ≤ n
    → (cells : List ℕ) × (fill_array junk n xs ≡ done cells) × Filled n xs cells
unfolding fill_array
fill_array-Filled junk zero [] h = ([], refl, (refl, ([], refl)))
fill_array-Filled junk zero (x ∷ xs) h = absurd (omega arith)
fill_array-Filled junk (suc n) [] h =
    let (cells, e, f) = fill_array-Filled junk n [] (omega arith) in
    (junk n ∷ cells, rw e, (ap suc f.0, (junk n ∷ cells, refl)))
fill_array-Filled junk (suc n) (x ∷ xs) h =
    let (cells, e, f) = fill_array-Filled junk n xs (omega arith) in
    (x ∷ cells, rw e, (ap suc f.0, (f.1.0, ap (◌∷◌ x) f.1.1)))

-- What `vset_bump` may do: nothing below the limit; take one entry out of the list, and leave the
-- counter; or find none.
abbrev pub BumpsTo : Vset → Bump → Vset → Type 0
BumpsTo v no_bump w = (v.vset_size ≤ vrr_vset_size) × (w ≡ v)
BumpsTo v (bumped n) w =
    (xs : List VsetEntry) × (e : VsetEntry) × (ys : List VsetEntry) × (vrr_vset_size < v.vset_size)
    × (e.node ≡ n)
    × (v.entries ≡ xs ++ e ∷ ys)
    × (w.entries ≡ xs ++ ys)
    × (w.vset_size ≡ v.vset_size)
BumpsTo v bump_failed w = (vrr_vset_size < v.vset_size) × (w ≡ v)

abbrev TakesOut : List VsetEntry → Option ℕ → List VsetEntry → Type 0
TakesOut es none es' = es' ≡ es
TakesOut es (some n) es' =
    (xs : List VsetEntry) × (e : VsetEntry) × (ys : List VsetEntry) × (e.node ≡ n)
    × (es ≡ xs ++ e ∷ ys)
    × (es' ≡ xs ++ ys)

TakesOut-skip :
    (x : VsetEntry) (es : List VsetEntry) (o : Option ℕ) (es' : List VsetEntry)
    → TakesOut es o es'
    → TakesOut (x ∷ es) o (x ∷ es')
TakesOut-skip x es none es' h = ap (◌∷◌ x) h
TakesOut-skip x es (some n) es' (xs, e, ys, i, p, q) =
    (x ∷ xs, e, ys, i, ap (◌∷◌ x) p, ap (◌∷◌ x) q)

bump_entry-TakesOut :
    (l r : ℕ) (es : List VsetEntry) → TakesOut es (bump_entry l r es).0 (bump_entry l r es).1
unfolding bump_entry
bump_entry-TakesOut l r [] = refl
bump_entry-TakesOut l r (e ∷ es) = elim (Bool-cases (e.left_diff == l && e.right_diff == r)) [
  | inl hit ↦ rw hit ([], e, es, refl, refl, refl)
  | inr miss ↦ rw miss (TakesOut-skip e es _ _ (bump_entry-TakesOut l r es))
]

TakesOut-BumpsTo :
    (v : Vset) (o : Option ℕ) (es : List VsetEntry)
    → vrr_vset_size < v.vset_size
    → TakesOut v.entries o es
    → BumpsTo v (outcome o) (record v { entries = es })
TakesOut-BumpsTo v none es h t = (h, ground arith)
TakesOut-BumpsTo v (some n) es h (xs, e, ys, i, p, q) = (xs, e, ys, h, i, p, q, refl)

module _ (sort : (Cell → Cell → Sign) → List ℕ → List ℕ) (junk : ℕ → ℕ) where
  -- Whatever `sort` does, `vset_bump` returns on a counted list, and does one of those.
  pub vset_bump-BumpsTo :
      (v : Vset) → IsSized v → Returns (vset_bump sort junk v) (λ r. BumpsTo v r.0 r.1)
  unfolding vset_bump
  vset_bump-BumpsTo v h = elim (Bool-cases (leb v.vset_size vrr_vset_size)) [
    | inl small ↦ rw small (ground arith, refl)
    | inr big ↦
        let (left, el, _) =
          fill_array-Filled junk v.vset_size (map (λ (e : VsetEntry). e.left_diff) v.entries)
            (omega (arith, length-map (λ (e : VsetEntry). e.left_diff) v.entries)) in
        let (right, er, _) =
          fill_array-Filled (other junk v) v.vset_size
            (map (λ (e : VsetEntry). e.right_diff) v.entries)
            (omega (arith, length-map (λ (e : VsetEntry). e.right_diff) v.entries)) in
        rw (big, el, er)
          (TakesOut-BumpsTo v _ _ (ground arith) (
            bump_entry-TakesOut (get_or (sort cmp_diff left) 2 0) (get_or (sort cmp_diff right) 2 0)
              v.entries))
  ]

  abbrev pub inserted : ℕ → ℕ → Vset → Vset
  inserted me node v = record {
    entries = new_entry me node ∷ v.entries;
    vset_size = v.vset_size + 1;
  }

  -- What `vset_add` may do: nothing for a node that is there, else count it, put it in front, and
  -- bump.
  abbrev pub AddsTo : ℕ → ℕ → Vset → Option Bump → Vset → Type 0
  AddsTo me node v none w = (vset_has node v.entries ≡ true) × (w ≡ v)
  AddsTo me node v (some b) w = (vset_has node v.entries ≡ false) × BumpsTo (inserted me node v) b w

  pub vset_add-AddsTo :
      (me node : ℕ) (v : Vset)
      → IsSized v
      → Returns (vset_add sort junk true me node v) (λ r. AddsTo me node v r.0 r.1)
  unfolding vset_add
  vset_add-AddsTo me node v h = elim (Bool-cases (vset_has node v.entries)) [
    | inl old ↦ rw old (old, refl)
    | inr new ↦ rw new (
        go (vset_bump sort junk (inserted me node v))
          (vset_bump-BumpsTo (inserted me node v) (omega arith)) new)
  ]
    where
      go :
          (o : Run (Bump × Vset))
          → Returns o (λ r. BumpsTo (inserted me node v) r.0 r.1)
          → vset_has node v.entries ≡ false
          → Returns (bind_run o as_added) (λ r. AddsTo me node v r.0 r.1)
      go (done (b, w)) c new = (new, c)
      go (oops e) c new = c

  -- `vset_should_add` and `vset_get_all` return on a counted list.
  pub vset_should_add-returns :
      (me node : ℕ) (v : Vset)
      → IsSized v
      → (b : Bool) × (vset_should_add sort junk me node v ≡ done b)
  unfolding vset_should_add
  vset_should_add-returns me node v h =
      let (left, el, _) =
        fill_array-Filled junk v.vset_size (map (λ (e : VsetEntry). e.left_diff) v.entries)
          (omega (arith, length-map (λ (e : VsetEntry). e.left_diff) v.entries)) in
      let (right, er, _) =
        fill_array-Filled (other junk v) v.vset_size
          (map (λ (e : VsetEntry). e.right_diff) v.entries)
          (omega (arith, length-map (λ (e : VsetEntry). e.right_diff) v.entries)) in
      elim (Bool-cases (vset_has node v.entries)) [
        | inl old ↦ (false, rw old)
        | inr new ↦ elim (Bool-cases (ltb v.vset_size vrr_vset_size)) [
          | inl small ↦ (true, rw (new, small))
          | inr big ↦ (
            nearer 2 0 (diff_left me node) (diff_right me node) (sort cmp_diff left)
                (sort cmp_diff right),
            rw (new, big, el, er),
          )
        ]
      ]
