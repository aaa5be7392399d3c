-- ===== src/Node/Activation.antt =====
-- When a node without virtual neighbours turns active by itself.
use alpaca_vrr.Base.{
  ℕ, zero, suc, ◌+◌, ◌<◌, ◌≤◌, ◌≡◌, ◌↔◌, refl, inl, inr, ◌⊎◌, List, [], ◌∷◌, ◌++◌, arith,
  Bool-cases, ◌==◌, ap, subst,
}
use mathlib.Core.List.{append_assoc}
use alpaca_vrr.Node.{VrrNode, vrr_active_timeout, active_timeout, reset_active_timeout}

-- What changes the fields `active` and `timeout`: a tick of the timer, a received packet, or a setup
-- at its end, for which `vrr_rcv_setup` has added the source to the virtual set.
pub data Event : Type 0 where
  tick packet joined : Event

pub after : VrrNode → Event → VrrNode
after v tick = active_timeout v
after v packet = reset_active_timeout v
after v joined = record v { active = 1 }

pub run : VrrNode → List Event → VrrNode
run v [] = v
run v (e ∷ es) = run (after v e) es

abbrev pub ticks : ℕ → List Event
ticks zero = []
ticks (suc n) = tick ∷ ticks n

-- The events have `n` ticks in a row somewhere.
abbrev pub HasTicks : ℕ → List Event → Type 0
HasTicks n es = (xs : List Event) × (ys : List Event) × (es ≡ xs ++ (ticks n ++ ys))

-- The ticks that an idle node has counted leave this many to go.
abbrev Waiting : VrrNode → Type 0
Waiting v = (v.active ≡ 0) × (v.timeout < vrr_active_timeout)

run_active : (es : List Event) (v : VrrNode) → v.active ≡ 1 → (run v es).active ≡ 1
unfolding run after active_timeout reset_active_timeout
run_active [] v h = h
run_active (tick ∷ es) v h = run_active es (after v tick) (ground arith)
run_active (packet ∷ es) v h = run_active es (after v packet) (ground arith)
run_active (joined ∷ es) v h = run_active es (after v joined) refl

-- A node is active or still counting, whatever happens.
after_cases :
    (v : VrrNode) (e : Event)
    → (v.active ≡ 1) ⊎ Waiting v
    → ((after v e).active ≡ 1) ⊎ Waiting (after v e)
unfolding after active_timeout reset_active_timeout
after_cases v tick h = ground arith
after_cases v packet h = ground arith
after_cases v joined h = inl refl

-- A setup has come to its end among the events.
abbrev pub Joined : List Event → Type 0
Joined [] = ⊥
Joined (joined ∷ es) = Unit {0}
Joined (tick ∷ es) = Joined es
Joined (packet ∷ es) = Joined es

run-Joined : (es : List Event) (v : VrrNode) → Joined es → (run v es).active ≡ 1
unfolding run after
run-Joined [] v j = absurd j
run-Joined (joined ∷ es) v j = run_active es (after v joined) refl
run-Joined (tick ∷ es) v j = run-Joined es (after v tick) j
run-Joined (packet ∷ es) v j = run-Joined es (after v packet) j

run_cases :
    (es : List Event) (v : VrrNode)
    → (v.active ≡ 1) ⊎ Waiting v
    → ((run v es).active ≡ 1) ⊎ Waiting (run v es)
unfolding run
run_cases [] v h = h
run_cases (e ∷ es) v h = run_cases es (after v e) (after_cases v e h)

run-append : (xs ys : List Event) (v : VrrNode) → run v (xs ++ ys) ≡ run (run v xs) ys
unfolding run
run-append [] ys v = refl
run-append (x ∷ xs) ys v = run-append xs ys (after v x)

-- Enough ticks in a row, whatever was counted before.
run-ticks :
    (n : ℕ) (v : VrrNode) (ys : List Event)
    → (v.active ≡ 1) ⊎ (Waiting v × (vrr_active_timeout ≤ v.timeout + n))
    → (run v (ticks n ++ ys)).active ≡ 1
unfolding run after active_timeout
run-ticks zero v ys h = run_active ys v (ground arith)
run-ticks (suc n) v ys h = run-ticks n (after v tick) ys (ground arith)

ticks-tick : (n : ℕ) (es : List Event) → ticks (suc n) ++ es ≡ ticks n ++ tick ∷ es
ticks-tick zero es = refl
ticks-tick (suc n) es = ap (◌∷◌ tick) (ticks-tick n es)

HasTicks-prefix : (n : ℕ) (zs es : List Event) → HasTicks n es → HasTicks n (zs ++ es)
HasTicks-prefix n zs es (xs, ys, h) = (zs ++ xs, ys, rw (h, append_assoc))

run-Waiting :
    (es : List Event) (v : VrrNode)
    → Waiting v
    → (run v es).active ≡ 1
    → Joined es ⊎ HasTicks vrr_active_timeout (ticks v.timeout ++ es)
unfolding run after active_timeout reset_active_timeout
run-Waiting [] v w h = absurd (ground arith)
run-Waiting (joined ∷ es) v w h = inl tt
run-Waiting (packet ∷ es) v w h = elim (run-Waiting es (after v packet) (ground arith) h) [
  | inl j ↦ inl j
  | inr r ↦ inr (
      HasTicks-prefix vrr_active_timeout (ticks v.timeout) _
        (HasTicks-prefix vrr_active_timeout (packet ∷ []) _ r))
]
run-Waiting (tick ∷ es) v w h = elim (Bool-cases (v.timeout + 1 == vrr_active_timeout)) [
  | inl last ↦ let e : v.timeout ≡ 7 = ground arith in inr ([], es, rw e)
  | inr more ↦
      let e : (after v tick).timeout ≡ suc v.timeout = ground arith in
      let ih = run-Waiting es (after v tick) (ground arith) h in
      elim ih [
        | inl j ↦ inl j
        | inr r ↦ inr (
            rw (← ticks-tick v.timeout es)
              (subst (λ k. HasTicks vrr_active_timeout (ticks k ++ es)) e r))
      ]
]

pub run-active :
    (v : VrrNode) (es : List Event)
    → v.active ≡ 0
    → v.timeout ≡ 0
    → ((run v es).active ≡ 1) ↔ (Joined es ⊎ HasTicks vrr_active_timeout es)
run-active v es ha ht = (λ h. (rw ht at (run-Waiting es v (omega arith) h)), turned)
  where
    turned : Joined es ⊎ HasTicks vrr_active_timeout es → (run v es).active ≡ 1
    turned (inl j) = run-Joined es v j
    turned (inr (xs, ys, e)) =
        rw (e, run-append)
          (run-ticks vrr_active_timeout (run v xs) ys
            (ground (arith, run_cases xs v (inr (omega arith)))))
