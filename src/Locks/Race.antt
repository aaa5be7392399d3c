-- ===== src/Locks/Race.antt =====
-- `vset_should_add` among calls of other threads.
use alpaca_vrr.Base.{
  ℕ, ◌≤◌, ◌<◌, ◌≡◌, ◌∙◌, inl, inr, ◌⊎◌, Bool, true, false, not, ◌&&◌, List, ◌++◌, map, ltb, leb,
  length-map, done, oops, bind_run, out_of_bounds, arith, Bool-cases, if◌then◌else◌, ltb→lt, ltb→ge,
}
use alpaca_vrr.Vset.{other, VsetEntry, Vset, Cell, Sign, vset_has, vset_should_add, vrr_vset_size}
use alpaca_vrr.Vset.Size.{IsSized, fill_array-Filled, vset_should_add-returns}
use alpaca_vrr.Vset.Members.{IsValid}
use alpaca_vrr.Locks.{VsetCall, Schedule, performs, fill_locked, sort_unlocked, should_add_among}
use alpaca_vrr.Locks.Arrays.{fill_array-cases, sort_cells_all, sort_cells_past}
use alpaca_vrr.Locks.Growth.{performs-done, performs-append}

module _ (sort : (Cell → Cell → Sign) → List ℕ → List ℕ) (junk : ℕ → ℕ) where
  module _ (me node : ℕ) (held third last : Vset) (at_left at_right : List VsetCall)
      (new : vset_has node held.entries ≡ false) (big : ltb held.vset_size vrr_vset_size ≡ false)
      (el : performs sort junk me at_left held ≡ done third)
      (er : performs sort junk me at_right third ≡ done last) where
    -- Nobody has added a node: the arrays are as long as the sorts take them to be.
    fill-undisturbed :
        IsSized held
        → third.vset_size ≡ held.vset_size
        → last.vset_size ≡ held.vset_size
        → bind_run
            (fill_locked sort junk node held.vset_size held.vset_size held)
            (sort_unlocked sort junk me node at_left at_right held)
          ≡ vset_should_add sort junk me node held
    unfolding fill_locked sort_unlocked vset_should_add
    fill-undisturbed h e3 e4 =
        let (left, fl, kl) =
          fill_array-Filled junk held.vset_size (map (λ (e : VsetEntry). e.left_diff) held.entries)
            (omega (arith, h, length-map (λ (e : VsetEntry). e.left_diff) held.entries)) in
        let (right, fr, kr) =
          fill_array-Filled (other junk held) held.vset_size
            (map (λ (e : VsetEntry). e.right_diff) held.entries)
            (omega (arith, h, length-map (λ (e : VsetEntry). e.right_diff) held.entries)) in
        rw (
          new,
          big,
          fl,
          fr,
          el,
          sort_cells_all sort junk third.vset_size left (omega (arith, kl.0, e3)),
          er,
          sort_cells_all sort junk last.vset_size right (omega (arith, kr.0, e4)),
        )

    -- Somebody has: an array is too short for the entries, or for its sort.
    fill-overtaken :
        (l r : ℕ)
        → l ≤ r
        → r ≤ third.vset_size
        → l < last.vset_size
        → third.vset_size ≤ last.vset_size
        → bind_run
            (fill_locked sort junk node l r held)
            (sort_unlocked sort junk me node at_left at_right held)
          ≡ oops out_of_bounds
    unfolding fill_locked sort_unlocked
    fill-overtaken l r h1 h2 h3 h4 =
        elim (fill_array-cases junk l (map (λ (e : VsetEntry). e.left_diff) held.entries)) [
          | inr f ↦ rw (new, big, f)
          | inl (left, fl, kl) ↦
              elim (fill_array-cases (other junk held) r
                (map (λ (e : VsetEntry). e.right_diff) held.entries)) [
                  | inr f ↦ rw (new, big, fl, f)
                  | inl (right, fr, kr) ↦ elim (Bool-cases (ltb l third.vset_size)) [
                    | inl less ↦ rw (
                      new,
                      big,
                      fl,
                      fr,
                      el,
                      sort_cells_past sort junk third.vset_size left (ground (arith, kl, less)),
                    )
                    | inr same ↦ rw (
                      new,
                      big,
                      fl,
                      fr,
                      el,
                      sort_cells_all sort junk third.vset_size left
                          (ground (arith, kl, same, h1, h2)),
                      er,
                      sort_cells_past sort junk last.vset_size right
                          (ground (arith, kr, same, h1, h2, h3)),
                    )
                  ]
                ]
        ]

  fill-answered :
      (me node : ℕ) (held : Vset) (at_left at_right : List VsetCall) (l r : ℕ)
      → (vset_has node held.entries ≡ true)
        ⊎ ((vset_has node held.entries ≡ false) × (ltb held.vset_size vrr_vset_size ≡ true))
      → bind_run
          (fill_locked sort junk node l r held)
          (sort_unlocked sort junk me node at_left at_right held)
        ≡ vset_should_add sort junk me node held
  unfolding fill_locked sort_unlocked vset_should_add
  fill-answered me node held at_left at_right l r (inl old) = rw old
  fill-answered me node held at_left at_right l r (inr (new, small)) = rw (new, small)

  -- From the moment the call has the lock.
  fill_locked-held :
      (me node : ℕ) (held third last : Vset) (at_left at_right : List VsetCall)
      → performs sort junk me at_left held ≡ done third
      → performs sort junk me at_right third ≡ done last
      → (l r : ℕ) → l ≤ r
      → r ≤ held.vset_size
      → held.vset_size ≤ third.vset_size
      → third.vset_size ≤ last.vset_size
      → IsSized held
      → (b : Bool) → vset_should_add sort junk me node held ≡ done b
      → bind_run
          (fill_locked sort junk node l r held)
          (sort_unlocked sort junk me node at_left at_right held)
        ≡ (if not (vset_has node held.entries)
              && leb vrr_vset_size held.vset_size
              && ltb l last.vset_size
            then oops out_of_bounds
            else done b)
  fill_locked-held me node held third last at_left at_right el er l r h1 h2 h3 h4 h b e =
      elim (Bool-cases (vset_has node held.entries)) [
        | inl old ↦ rw old (fill-answered me node held at_left at_right l r (inl old) ∙ e)
        | inr new ↦ elim (Bool-cases (ltb held.vset_size vrr_vset_size)) [
          | inl small ↦
              fill-answered me node held at_left at_right l r (inr (new, small))
              ∙ e
              ∙ falls (ground (arith, new, small))
          | inr big ↦ elim (Bool-cases (ltb l last.vset_size)) [
            | inl overtaken ↦
                fill-overtaken me node held third last at_left at_right new big el er l r h1
                  (omega (arith, h2, h3)) (ltb→lt l last.vset_size overtaken) h4
                ∙ faults (ground (arith, new, big, overtaken))
            | inr same ↦
                let last_le : last.vset_size ≤ l = ltb→ge l last.vset_size same in
                let el' : l ≡ held.vset_size = omega (arith, h1, h2, h3, h4, last_le) in
                let er' : r ≡ held.vset_size = omega (arith, h1, h2, h3, h4, last_le) in
                rw (el', er')
                  (fill-undisturbed me node held third last at_left at_right new big el er h
                      (omega (arith, h1, h2, h3, h4, last_le))
                      (omega (arith, h1, h2, h3, h4, last_le))
                    ∙ e
                    ∙ falls (ground (arith, h1, h2, h3, h4, last_le)))
          ]
        ]
      ]
    where
      falls : {c : Bool} → c ≡ false → done b ≡ (if c then oops out_of_bounds else done b)
      falls h = rw h

      faults :
          {c : Bool} → c ≡ true → oops out_of_bounds ≡ (if c then oops out_of_bounds else done b)
      faults h = rw h

  -- The set is `held` while the call has the lock, and `last` after all the calls. The call faults
  -- exactly where it needs the differences stored at `held` and the counter of `last` is above that
  -- of `v`. Else its answer is that of `vset_should_add` on `held`, which returns.
  abbrev pub AnswersAmong : ℕ → ℕ → Schedule → Vset → Type 0
  AnswersAmong me node s v =
      (held last : Vset) × (b : Bool) × (performs sort junk me (s.at_right ++ s.at_lock) v
        ≡ done held)
      × (performs sort junk me (s.at_left_sort ++ s.at_right_sort) held ≡ done last)
      × (vset_should_add sort junk me node held ≡ done b)
      × (should_add_among sort junk me node s v ≡ (
          if not (vset_has node held.entries)
            && leb vrr_vset_size held.vset_size
            && ltb v.vset_size last.vset_size
          then oops out_of_bounds
          else done b))

  -- On a well-formed set, whatever nodes other threads add and remove during the call: where the
  -- node is not in the set and the set is full at the moment the call has the lock, and a node was
  -- added before its last `sort`, the call reads or writes past an array; else it returns the
  -- answer that `vset_should_add` gives at that moment.
  pub should_add_among-held :
      (me node : ℕ) (s : Schedule) (v : Vset) → IsValid v → AnswersAmong me node s v
  unfolding should_add_among
  should_add_among-held me node s v h =
      let (v', e1, g1) = performs-done sort junk me s.at_right v h in
      let (held, e2, g2) = performs-done sort junk me s.at_lock v' g1.0 in
      let (third, e3, g3) = performs-done sort junk me s.at_left_sort held g2.0 in
      let (last, e4, g4) = performs-done sort junk me s.at_right_sort third g3.0 in
      let (b, e) = vset_should_add-returns sort junk me node held g2.0.sized in
      (
        held,
        last,
        b,
        performs-append sort junk me s.at_right s.at_lock v v' e1 ∙ e2,
        performs-append sort junk me s.at_left_sort s.at_right_sort held third e3 ∙ e4,
        e,
        rw (e1, e2)
            (fill_locked-held me node held third last s.at_left_sort s.at_right_sort e3 e4
              v.vset_size v'.vset_size g1.1 g2.1 g3.1 g4.1 g2.0.sized b e),
      )
