-- ===== src/Joining/Add.antt =====
-- `vrr_add` of vrr_core.c: the requests that it sends, and whether it takes the node in.
use alpaca_vrr.Base.{
  ℕ, ◌≡◌, ◌≢◌, refl, inl, inr, ◌⊎◌, Bool, true, false, Option, none, some, List, Run, done, oops,
  Returns, Returns-mono, Returns-done, bind_run, if◌then◌else◌, Bool-cases, ==_iff, ◌==◌, subst,
}
use alpaca_vrr.Vset
use alpaca_vrr.Base.{ap, sym, ◌∙◌, arith}
use alpaca_vrr.Vset.{Vset, Bump, no_bump, bumped, bump_failed, new_entry, vset_should_add, vset_has}
use alpaca_vrr.Vset.Size.{vset_should_add-returns}
use alpaca_vrr.Vset.Members.{Added, vset_add-Added}
use alpaca_vrr.World.{
  World, Env, M, pure, ◌>>=◌, ◌>>◌, lift, continue_with, should_add, add_to_vset, added,
}
use alpaca_vrr.Send.{vrr_add, no_id}
use alpaca_vrr.Health.{Scope, Healthy, Ends, Ensures}
use alpaca_vrr.Health.Sending.{request_setups-Keeps, vrr_add-Keeps}
use alpaca_vrr.Joining.{core, Calm, Quiet}
use alpaca_vrr.Joining.Senders.{request_setups-Quiet}

-- What a quiet run that keeps the world healthy comes to.
pub ran :
    {A : Type 0} {sc : Scope} {m : M A} {Q : A → Type 0}
    → Ensures sc m Q
    → Quiet m
    → sc.strict ≡ true
    → (w : World) → Healthy sc w
    → (a : A) × (v : World) × (m w ≡ done (a, v)) × Healthy sc v × Q a × (core v ≡ core w)
ran {A} {sc} {m} {Q} hm hq strict w h = go (m w) (hm.runs w h) (hq.moves w)
  where
    go :
        (o : Run (A × World))
        → Ends sc Q o
        → Calm w o
        → (a : A) × (v : World) × (o ≡ done (a, v)) × Healthy sc v × Q a × (core v ≡ core w)
    go (done (a, v)) g e = (a, v, refl, g.0, g.1, e)
    go (oops x) g e = absurd (cc)

-- The new node is in the set, or it is the one that was bumped out.
Added-in :
    (me node : ℕ) (v : Vset) (b : Bump) (w : Vset)
    → Added me node v (some b, w)
    → (vset_has node w.entries ≡ true) ⊎ (b ≡ bumped node)
unfolding vset_has new_entry
Added-in me node v no_bump w (ok, new, size, kept) = inl (kept node ∙ ground arith)
Added-in me node v bump_failed w (ok, new, size, kept) = inl (kept node ∙ ground arith)
Added-in me node v (bumped n) w (ok, new, size, kept) = elim (Bool-cases (node == n)) [
  | inl same ↦ inr (ap bumped (sym ((==_iff node n).0 same)))
  | inr other ↦ inl ((kept node).1 ∙ ground arith)
]

module _ (env : Env) where
  should_add-new :
      (me node : ℕ) (v : Vset)
      → vset_should_add env.sort env.junk me node v ≡ done true
      → vset_has node v.entries ≡ false
  unfolding vset_should_add
  should_add-new me node v e = elim (Bool-cases (vset_has node v.entries)) [
    | inl old ↦ absurd (cc)
    | inr new ↦ new
  ]

  -- `vrr_add` in the world `w`: where the node is an identifier and the virtual set wants it, the set
  -- is what `vset_add` leaves, with the node in it unless that is the one that it bumped out; else
  -- the set is left.
  abbrev pub Decides : ℕ → World → Bool × World → Type 0
  Decides src w (true, v) =
      (src ≢ no_id)
      × (vset_should_add env.sort env.junk w.me src w.vset ≡ done true)
      × ((b : Bump) × (Vset.vset_add env.sort env.junk true w.me src w.vset ≡ done (some b, v.vset))
          × ((vset_has src v.vset.entries ≡ true) ⊎ (b ≡ bumped src))
          × Added w.me src w.vset (some b, v.vset))
      × (core v ≡ core (record w { vset = v.vset }))
  Decides src w (false, v) =
      ((src ≡ no_id) ⊎ (vset_should_add env.sort env.junk w.me src w.vset ≡ done false))
      × (core v ≡ core w)

  -- The part of `vrr_add` after its loop.
  abbrev decide_on : ℕ → M Bool
  decide_on src = (if src == no_id then pure false else should_add env src) >>= λ wanted.
      if wanted then add_to_vset env src >> pure true else pure false

  pub moved :
      (src : ℕ) (w v : World)
      → core v ≡ core w
      → (r : Bool × World) → Decides src v r
      → Decides src w r
  moved src w v e (true, u) d = subst (λ z. Decides src z (true, u)) e d
  moved src w v e (false, u) d = subst (λ z. Decides src z (false, u)) e d

  module _ (ample : (n : ℕ) → env.kmalloc n ≡ true) {sc : Scope} (strict : sc.strict ≡ true) where
    decide_on-Decides :
        (src : ℕ) (w : World) → Healthy sc w → Returns (decide_on src w) (Decides src w)
    unfolding ◌>>=◌ ◌>>◌ pure lift should_add add_to_vset
    decide_on-Decides src w h = elim (Bool-cases (src == no_id)) [
      | inl nobody ↦ rw nobody (inl ((==_iff src no_id).0 nobody), refl)
      | inr somebody ↦
          let (b, e) = vset_should_add-returns env.sort env.junk w.me src w.vset h.ring.sized in
          rw (somebody, e) (asked b e (λ same. cc))
    ]
      where
        go :
            (o : Run (Option Bump × Vset))
            → Vset.vset_add env.sort env.junk true w.me src w.vset ≡ o
            → Returns o (Added w.me src w.vset)
            → src ≢ no_id
            → vset_should_add env.sort env.junk w.me src w.vset ≡ done true
            → vset_has src w.vset.entries ≡ false
            → Returns
                (bind_run (bind_run o (added w)) (continue_with (λ b v. done (true, v))))
                (Decides src w)
        go (done (none, s)) run (ok, old, same) id e new = absurd (cc)
        go (done (some b, s)) run q id e new =
            (id, e, (b, run, Added-in w.me src w.vset b s q, q), refl)
        go (oops x) run q id e new = absurd q

        asked :
            (b : Bool)
            → vset_should_add env.sort env.junk w.me src w.vset ≡ done b
            → src ≢ no_id
            → Returns
                ((if b then add_to_vset env src >> pure true else pure false) w)
                (Decides src w)
        asked false e id = (inr e, refl)
        asked true e id =
            let new = should_add-new w.me src w.vset e in
            rw (new, ample w.allocs)
              (go (Vset.vset_add env.sort env.junk true w.me src w.vset) refl
                (vset_add-Added env.sort env.junk w.me src w.vset h.ring) id e new)

    -- With memory at hand, in a healthy world, `vrr_add` returns. It says that the node is added exactly
    -- where that is an identifier and `vset_should_add` says so for the virtual set as it was; then the
    -- set is what `vset_add` leaves, with the node in it unless `vset_add` has bumped out that same
    -- node, and else nothing has changed but the frames and the counts.
    pub vrr_add-Decides :
        (src : ℕ) (ids : List ℕ) (w : World)
        → Healthy sc w
        → Returns (vrr_add env src ids w) (Decides src w)
    unfolding vrr_add ◌>>◌ ◌>>=◌
    vrr_add-Decides src ids w h =
        let (u, v, e, hv, q, c) =
          ran (request_setups-Keeps env ample sc ids) (request_setups-Quiet env ids) strict w h in
        rw e (Returns-mono _ _ (decide_on src v) (decide_on-Decides src v hv) (moved src w v c))

    pub vrr_add-ran :
        (src : ℕ) (ids : List ℕ) (w : World)
        → Healthy sc w
        → (a : Bool) × (v : World) × (vrr_add env src ids w ≡ done (a, v))
          × Healthy sc v
          × Decides src w (a, v)
    vrr_add-ran src ids w h =
        let (r, e, d) =
          Returns-done (Decides src w) (vrr_add env src ids w) (vrr_add-Decides src ids w h) in
        let k = subst (Ends sc (λ _. Unit {0})) e ((vrr_add-Keeps env ample sc src ids).runs w h) in
        (r.0, r.1, e, k.0, d)
