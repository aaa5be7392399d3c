-- ===== src/Joining/Rules.antt =====
-- The rules by which `Quiet` is proved: one for each way to build a handler.
use alpaca_vrr.Base.{
  ℕ, ◌≡◌, refl, ◌∙◌, Bool, Option, none, some, Run, done, oops, bind_run, if◌then◌else◌,
}
use alpaca_vrr.Pset
use alpaca_vrr.Vset
use alpaca_vrr.World.{
  World, Env, M, pure, ◌>>=◌, ◌>>◌, get, modify, lift, case_option, alloc, vset_copy, should_add,
  get_proxy, drawn,
}
use alpaca_vrr.World.Steps.{
  IsPreorder, Steps-bind, Steps-then, Steps-case, Steps-pure, Steps-lift, Steps-if, Steps-get,
  Steps-modify,
}
use alpaca_vrr.Joining.{core, Same, Calm, Quiet}

order : IsPreorder Same
order = record { stay = λ w. refl; follow = λ e f. f ∙ e }

module _ {A B : Type 0} where
  pub Quiet-bind : {m : M A} {f : A → M B} → Quiet m → ((a : A) → Quiet (f a)) → Quiet (m >>= f)
  Quiet-bind hm hf = Steps-bind order hm hf

  pub Quiet-then : {m : M A} {k : M B} → Quiet m → Quiet k → Quiet (m >> k)
  Quiet-then hm hk = Steps-then order hm hk

  pub Quiet-case :
      (o : Option A) {m : M B} {f : A → M B}
      → Quiet m
      → ((a : A) → Quiet (f a))
      → Quiet (case_option o m f)
  Quiet-case o hm hf = Steps-case o hm (λ a e. hf a)

module _ {A : Type 0} where
  pub Quiet-pure : (a : A) → Quiet (pure a)
  Quiet-pure a = Steps-pure order a

  pub Quiet-lift : (m : Run A) → Quiet (lift m)
  Quiet-lift m = Steps-lift order m

  pub Quiet-if : (b : Bool) {m k : M A} → Quiet m → Quiet k → Quiet (if b then m else k)
  Quiet-if b hm hk = Steps-if b hm hk

pub Quiet-get : Quiet get
Quiet-get = Steps-get order

pub Quiet-modify : (f : World → World) → ((w : World) → core (f w) ≡ core w) → Quiet (modify f)
Quiet-modify f h = Steps-modify f h

module _ (env : Env) where
  pub alloc-Quiet : Quiet (alloc env)
  unfolding alloc
  alloc-Quiet = record { moves = λ w. refl }

  pub vset_copy-Quiet : Quiet (vset_copy env)
  unfolding vset_copy
  vset_copy-Quiet = Quiet-bind alloc-Quiet λ memory. Quiet-bind Quiet-get λ w. Quiet-lift _

  pub should_add-Quiet : (node : ℕ) → Quiet (should_add env node)
  unfolding should_add
  should_add-Quiet node = record {
    moves = λ w. (Quiet-lift (Vset.vset_should_add env.sort env.junk w.me node w.vset)).moves w;
  }

  pub get_proxy-Quiet : Quiet (get_proxy env)
  unfolding get_proxy
  get_proxy-Quiet = record { moves = λ w. go w (Pset.pset_get_proxy (env.random w.draws) w.pset) }
    where
      go : (w : World) (o : Run (Option ℕ)) → Calm w (bind_run o (drawn w))
      go w (done none) = refl
      go w (done (some p)) = refl
      go w (oops e) = tt
