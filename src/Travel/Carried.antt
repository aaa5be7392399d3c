-- ===== src/Travel/Carried.antt =====
-- The frames that reach the next node, and the walks that they make.
use alpaca_vrr.Base.{
  ℕ, zero, suc, ◌<◌, ◌≡◌, ◌≢◌, refl, sym, ◌∙◌, inl, inr, true, false, none, some, List, [], ◌∷◌,
  ◌++◌, ◌==◌, Run, done, length, drop, All, get_elem?, arith, Option-cases, Bool-cases, subst,
  ==_self,
}
use alpaca_vrr.Rt.{rt_get_next}
use alpaca_vrr.Rt.Defs.{Tree}
use alpaca_vrr.Rt.Paths.{walk}
use alpaca_vrr.Pset.{PsetEntry, pset_get_mac, pset_reset_fail_count}
use alpaca_vrr.Wire.{VrrHeader}
use alpaca_vrr.World.{World, Env, Frame}
use alpaca_vrr.Send.Frames.{frames}
use alpaca_vrr.Travel.Relay.{Network, IsReliable, IsUp, carried}

drop-append : {A : Type 0} (xs ys : List A) → drop (length xs) (xs ++ ys) ≡ ys
drop-append [] ys = refl
drop-append (x ∷ xs) ys = drop-append xs ys

pub drop-length : {A : Type 0} (xs : List A) → drop (length xs) xs ≡ []
drop-length [] = refl
drop-length (x ∷ xs) = drop-length xs

get_elem?-some :
    {A : Type 0} (xs : List A) (i : ℕ) → i < length xs → (x : A) × (get_elem? xs i ≡ some x)
get_elem?-some [] i h = absurd (omega arith)
get_elem?-some (x ∷ xs) zero h = (x, refl)
get_elem?-some (x ∷ xs) (suc i) h = get_elem?-some xs i (omega arith)

some_inj : {A : Type 0} {x y : A} → some x ≡ some y → x ≡ y
some_inj e = cc

pub All-get_elem? :
    {A : Type 0} (P : A → Type 0) (xs : List A) (i : ℕ) (x : A)
    → All P xs
    → get_elem? xs i ≡ some x
    → P x
All-get_elem? P [] i x h e = cc
All-get_elem? P (y ∷ ys) zero x h e = subst P (some_inj e) h.0
All-get_elem? P (y ∷ ys) (suc i) x h e = All-get_elem? P ys i x h.1 e

none_ne_some : (x : List ℕ) → none ≢ some x
none_ne_some x e = cc

-- What the frames of one packet have in common.
abbrev pub Carries : VrrHeader → List ℕ → Frame → Type 0
Carries header payload f =
    (f.header ≡ header) × (f.payload ≡ payload) × (f.dest_mac ≡ header.dest_mac)

module _ (env : Env) (header : VrrHeader) (payload : List ℕ) where
  frames-up :
      (names : List (List ℕ)) → IsUp env names → 0 < length (frames env header payload names)
  frames-up [] h = absurd h
  frames-up (name ∷ names) h = elim (Option-cases (env.dev_get_by_name name)) [
    | inl gone ↦
        rw (gone, frames)
          (elim h [
            | inl (addr, there) ↦ absurd (none_ne_some addr (sym gone ∙ there))
            | inr rest ↦ frames-up names rest
          ])
    | inr (addr, there) ↦ rw (there, frames) (omega arith)
  ]

  frames-Carries :
      (names : List (List ℕ)) → All (Carries header payload) (frames env header payload names)
  frames-Carries [] = tt
  frames-Carries (name ∷ names) = elim (Option-cases (env.dev_get_by_name name)) [
    | inl gone ↦ rw (gone, frames) (frames-Carries names)
    | inr (addr, there) ↦ rw (there, frames) ((refl, refl, refl), frames-Carries names)
  ]

  -- One of the frames arrives, with the header and the payload.
  pub frames-carried :
      (net : Network)
      → IsReliable net
      → (names : List (List ℕ)) → IsUp env names
      → let fs = frames env header payload names in
        (f : Frame) × (get_elem? fs (net.choose fs) ≡ some f) × Carries header payload f
  frames-carried net reliable names up =
      let fs = frames env header payload names in
      let (f, e) = get_elem?-some fs (net.choose fs) (reliable fs (frames-up names up)) in
      (f, e, All-get_elem? (Carries header payload) fs (net.choose fs) f (frames-Carries names) e)

pub pset_get_mac-reset :
    (src node : ℕ) (ps : List PsetEntry)
    → pset_get_mac node (pset_reset_fail_count src ps).1 ≡ pset_get_mac node ps
unfolding pset_get_mac pset_reset_fail_count
pset_get_mac-reset src node [] = refl
pset_get_mac-reset src node (e ∷ ps) = ground (arith, pset_get_mac-reset src node ps)

-- What is carried of the frames that a call adds.
pub carried-sending :
    {A : Type 0} (net : Network) (w : World) {o : Run (A × World)} (a : A) (v : World)
    (fs : List Frame)
    → o ≡ done (a, v)
    → v.sent ≡ w.sent ++ fs
    → carried net w o ≡ get_elem? fs (net.choose fs)
unfolding carried
carried-sending net w a v fs e s = rw (e, s, drop-append w.sent fs) refl

-- A walk begins where it stands, and goes on by the next hop.
pub walk-begins :
    (tables : ℕ → Tree) (k dest n m : ℕ) (hops : List ℕ) → walk tables k dest n ≡ m ∷ hops → n ≡ m
unfolding walk
walk-begins tables zero dest n m hops e = cc
walk-begins tables (suc k) dest n m hops e = ground (arith, e)

pub walk-goes_on :
    (tables : ℕ → Tree) (k dest n m : ℕ) (hops : List ℕ)
    → walk tables (suc k) dest n ≡ n ∷ m ∷ hops
    → (n ≢ dest) × (rt_get_next n (tables n) dest ≡ m) × (walk tables k dest m ≡ m ∷ hops)
unfolding walk
walk-goes_on tables k dest n m hops e = elim (Bool-cases (n == dest)) [
  | inl same ↦ absurd (one_ne_two (rw same at e))
  | inr other ↦
      let rest = tail_eq (rw other at e) in
      let at_m = walk-begins tables k dest (rt_get_next n (tables n) dest) m hops rest in
      (
        λ q. eq_ne (rw (q, ==_self dest) at other),
        at_m,
        subst (λ z. walk tables k dest z ≡ m ∷ hops) at_m rest,
      )
]
  where
    one_ne_two : n ∷ [] ≢ n ∷ m ∷ hops
    one_ne_two q = cc

    tail_eq : {xs : List ℕ} → n ∷ xs ≡ n ∷ m ∷ hops → xs ≡ m ∷ hops
    tail_eq q = cc

    eq_ne : true ≢ false
    eq_ne q = cc
