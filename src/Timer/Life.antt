-- ===== src/Timer/Life.antt =====
-- The life of the module in the kernel: what stays registered.
use alpaca_vrr.Base.{
  ℕ, suc, ◌≡◌, refl, Bool, true, false, not, some, List, [], ◌∷◌, ◌==◌, if◌then◌else◌, Run, done,
  oops, bind_run, use_after_free, inl, inr, ◌∙◌, Bool-cases,
}
use alpaca_vrr.Node.{VrrNode}
use alpaca_vrr.Timer.{vrr_node_init}
use alpaca_vrr.Timer.Registration.{
  Answers, Registered, Kobjects, nothing, vrr_timer_tick, register, vrr_init, vrr_exit,
}

module _ (bits hz : ℕ) where
  -- The ticks of the timer, each at its time.
  unfoldable pub ticks : List ℕ → Registered → Registered
  ticks [] r = r
  ticks (j ∷ js) r = ticks js (vrr_timer_tick bits hz j r)

module _ (kernel : Kobjects) (bits hz : ℕ) where
  -- The start, and where it succeeds the ticks and the exit.
  unfoldable pub life :
      (ℕ → Bool) → Bool → ℕ → List (List ℕ) → ℕ → ℕ → Answers → ℕ → List ℕ → Run Registered
  unfolding ticks vrr_init vrr_exit
  life mem memory id names allocs draws k jiffies js =
      bind_run (vrr_init kernel bits hz mem memory id names allocs draws k jiffies nothing)
        λ (err, r, w). if err == 0 then vrr_exit kernel (ticks bits hz js r) else done r

abbrev pub is_empty : List ℕ → Bool
is_empty [] = true
is_empty (x ∷ xs) = false

abbrev pub left_over : Answers → List ℕ → Run Registered
left_over k js =
    if not (k.proto_register == 0)
    then done nothing
    else if not k.kobject_create_and_add
    then done (record nothing { proto = true })
    else if not (k.sock_register == 0)
    then done (record nothing {
      proto = true;
      vrr_obj = if k.sysfs_create_group == 0 then some 1 else some 0;
    })
    else if k.sysfs_create_group == 0
    then done (record nothing { vrr_obj = some 0; work = not (is_empty js) })
    else oops use_after_free

module _ (bits hz : ℕ) where
  ticks-vrr_obj : (js : List ℕ) (r : Registered) → (ticks bits hz js r).vrr_obj ≡ r.vrr_obj
  unfolding ticks vrr_timer_tick
  ticks-vrr_obj [] r = refl
  ticks-vrr_obj (j ∷ js) r = ticks-vrr_obj js (vrr_timer_tick bits hz j r)

  ticks-work :
      (js : List ℕ) (r : Registered)
      → (ticks bits hz js r).work ≡ (if is_empty js then r.work else true)
  unfolding ticks vrr_timer_tick
  ticks-work [] r = refl
  ticks-work (j ∷ []) r = refl
  ticks-work (j ∷ i ∷ js) r = ticks-work (i ∷ js) (vrr_timer_tick bits hz j r)

module _ (kernel : Kobjects) (bits hz : ℕ) where
  exited :
      (js : List ℕ) (r : Registered) (n : ℕ)
      → r.vrr_obj ≡ some (suc n)
      → r.work ≡ false
      → vrr_exit kernel (ticks bits hz js r)
        ≡ done (record nothing { vrr_obj = some n; work = not (is_empty js) })
  unfolding vrr_exit
  exited js r n h q =
      rw
        (
          ticks-vrr_obj bits hz js r ∙ h,
          kernel.kobject_put_counted n,
          ticks-work bits hz js r ∙ left js q,
        )
        refl
    where
      left :
          (xs : List ℕ)
          → r.work ≡ false
          → (if is_empty xs then r.work else true) ≡ not (is_empty xs)
      left [] e = e
      left (x ∷ xs) e = refl

  gone :
      (js : List ℕ) (r : Registered)
      → r.vrr_obj ≡ some 0
      → vrr_exit kernel (ticks bits hz js r) ≡ oops use_after_free
  unfolding vrr_exit
  gone js r h = rw (ticks-vrr_obj bits hz js r, h, kernel.kobject_put_freed) refl

  pub life-left_over :
      (mem : ℕ → Bool) (memory : Bool) (id : ℕ) (names : List (List ℕ)) (allocs draws : ℕ)
      (k : Answers) (jiffies : ℕ) (js : List ℕ) (vrr : VrrNode)
      → vrr_node_init mem id names ≡ done (some vrr)
      → life kernel bits hz mem memory id names allocs draws k jiffies js ≡ left_over k js
  unfolding life vrr_init register
  life-left_over mem memory id names allocs draws k jiffies js vrr made =
      elim (Bool-cases (k.proto_register == 0)) [
        | inr p ↦ rw (made, p) (rw p refl)
        | inl p ↦ elim (Bool-cases k.kobject_create_and_add) [
          | inr o ↦ rw (made, p, o) refl
          | inl o ↦ elim (Bool-cases (k.sysfs_create_group == 0)) [
            | inl g ↦ elim (Bool-cases (k.sock_register == 0)) [
              | inl s ↦ rw (made, p, o, g, s) (exited js _ 0 refl refl)
              | inr s ↦ rw (made, p, o, g, s) (rw s refl)
            ]
            | inr g ↦ elim (Bool-cases (k.sock_register == 0)) [
              | inl s ↦ rw (made, p, o, g, kernel.kobject_put_counted 0, s) (gone js _ refl)
              | inr s ↦ rw (made, p, o, g, kernel.kobject_put_counted 0, s) (rw s refl)
            ]
          ]
        ]
      ]
