-- ===== src/World/Steps.antt =====
-- What holds between the world before a handler and the world after it, if it returns: one rule for
-- each way to build a handler.
use alpaca_vrr.Base.{
  ◌≡◌, refl, Bool, true, false, Option, none, some, Run, done, oops, Fault, bind_run, if◌then◌else◌,
}
use alpaca_vrr.World.{
  World, M, pure, fault, ◌>>=◌, ◌>>◌, get, modify, lift, case_option, continue_with,
}

module _ (R : World → World → Type 0) where
  -- The run relates the worlds, or has faulted.
  abbrev pub Moves : {A : Type 0} → World → Run (A × World) → Type 0
  Moves w (done (a, v)) = R w v
  Moves w (oops e) = Unit {0}

  pub record Steps {A : Type 0} (m : M A) : Type 0 where
    pub moves : (w : World) → Moves w (m w)

  -- The relation holds of a world and itself, and along several steps.
  pub record IsPreorder : Type 0 where
    pub stay : (w : World) → R w w
    pub follow : {u v w : World} → R u v → R v w → R u w

module _ {R : World → World → Type 0} (o : IsPreorder R) where
  module _ {A B : Type 0} where
    pub Steps-bind :
        {m : M A} {f : A → M B} → Steps R m → ((a : A) → Steps R (f a)) → Steps R (m >>= f)
    unfolding ◌>>=◌
    Steps-bind {m} {f} hm hf = record { moves = λ w. go w (m w) (hm.moves w) }
      where
        along : (w v : World) → R w v → (r : Run (B × World)) → Moves R v r → Moves R w r
        along w v e (done (b, u)) g = o.follow e g
        along w v e (oops x) g = tt

        go :
            (w : World) (r : Run (A × World))
            → Moves R w r
            → Moves R w (bind_run r (continue_with f))
        go w (done (a, v)) e = along w v e (f a v) ((hf a).moves v)
        go w (oops x) e = tt

    pub Steps-then : {m : M A} {k : M B} → Steps R m → Steps R k → Steps R (m >> k)
    unfolding ◌>>◌
    Steps-then hm hk = Steps-bind hm (λ a. hk)

  module _ {A : Type 0} where
    pub Steps-pure : (a : A) → Steps R (pure a)
    unfolding pure
    Steps-pure a = record { moves = λ w. o.stay w }

    pub Steps-lift : (m : Run A) → Steps R (lift m)
    unfolding lift
    Steps-lift (done a) = record { moves = λ w. o.stay w }
    Steps-lift (oops e) = record { moves = λ w. tt }

  pub Steps-get : Steps R get
  unfolding get
  Steps-get = record { moves = λ w. o.stay w }

module _ {R : World → World → Type 0} where
  pub Steps-case :
      {A B : Type 0} (x : Option A) {m : M B} {f : A → M B}
      → Steps R m
      → ((a : A) → x ≡ some a → Steps R (f a))
      → Steps R (case_option x m f)
  unfolding case_option
  Steps-case none hm hf = hm
  Steps-case (some a) hm hf = hf a refl

  pub Steps-if :
      {A : Type 0} (b : Bool) {m k : M A} → Steps R m → Steps R k → Steps R (if b then m else k)
  Steps-if true hm hk = hm
  Steps-if false hm hk = hk

  pub Steps-modify : (f : World → World) → ((w : World) → R w (f w)) → Steps R (modify f)
  unfolding modify
  Steps-modify f h = record { moves = h }

  pub Steps-fault : {A : Type 0} (e : Fault) → Steps R (fault {A = A} e)
  unfolding fault
  Steps-fault e = record { moves = λ w. tt }
