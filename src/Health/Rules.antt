-- ===== src/Health/Rules.antt =====
-- The rules by which `Ensures` is proved: one for each way to build a handler.
use alpaca_vrr.Base.{
  ◌≡◌, refl, Fault, Bool, true, false, Option, none, some, Run, done, oops, Returns, bind_run,
  if◌then◌else◌,
}
use alpaca_vrr.World.{
  World, M, pure, fault, ◌>>=◌, ◌>>◌, get, modify, lift, case_option, continue_with,
}
use alpaca_vrr.Health.{Scope, Healthy, Runs, Ends, Ensures, Keeps}

module _ {A B : Type 0} {sc : Scope} where
  pub Ensures-bind :
      {Q : A → Type 0} {R : B → Type 0} {m : M A} {f : A → M B}
      → Ensures sc m Q
      → ((a : A) → Q a → Ensures sc (f a) R)
      → Ensures sc (m >>= f) R
  unfolding ◌>>=◌
  Ensures-bind {Q} {R} {m} {f} hm hf = record { runs = λ w h. go (m w) (hm.runs w h) }
    where
      go : (o : Run (A × World)) → Ends sc Q o → Ends sc R (bind_run o (continue_with f))
      go (done (a, v)) (g, q) = (hf a q).runs v g
      go (oops e) g = g

  pub Ensures-then :
      {Q : A → Type 0} {R : B → Type 0} {m : M A} {k : M B}
      → Ensures sc m Q
      → Ensures sc k R
      → Ensures sc (m >> k) R
  unfolding ◌>>◌
  Ensures-then hm hk = Ensures-bind hm (λ a q. hk)

  pub Ensures-case :
      {R : B → Type 0} (o : Option A) {m : M B} {f : A → M B}
      → Ensures sc m R
      → ((a : A) → o ≡ some a → Ensures sc (f a) R)
      → Ensures sc (case_option o m f) R
  unfolding case_option
  Ensures-case none hm hf = hm
  Ensures-case (some a) hm hf = hf a refl

module _ {A : Type 0} {sc : Scope} {Q : A → Type 0} where
  pub Ensures-returns : {m : M A} → Runs sc m Q → Ensures sc m Q
  Ensures-returns {m} hm = record { runs = λ w h. go (m w) (hm w h) }
    where
      go : (o : Run (A × World)) → Returns o (λ r. Healthy sc r.1 × Q r.0) → Ends sc Q o
      go (done r) g = g
      go (oops e) g = absurd g

  -- Where no fault is allowed, the run returns.
  pub returns :
      {m : M A}
      → Ensures sc m Q
      → sc.strict ≡ true
      → (w : World) → Healthy sc w
      → Returns (m w) (λ r. Healthy sc r.1)
  returns {m} hm s w h = go (m w) (hm.runs w h)
    where
      go : (o : Run (A × World)) → Ends sc Q o → Returns o (λ r. Healthy sc r.1)
      go (done r) g = g.0
      go (oops e) g = cc

  pub Ensures-pure : (a : A) → Q a → Ensures sc (pure a) Q
  unfolding pure
  Ensures-pure a q = record { runs = λ w h. (h, q) }

  pub Ensures-lift : {m : Run A} {a : A} → m ≡ done a → Q a → Ensures sc (lift m) Q
  unfolding lift
  Ensures-lift e q = record { runs = λ w h. rw e (h, q) }

  pub Ensures-if :
      (b : Bool) {m k : M A}
      → (b ≡ true → Ensures sc m Q)
      → (b ≡ false → Ensures sc k Q)
      → Ensures sc (if b then m else k) Q
  Ensures-if true hm hk = hm refl
  Ensures-if false hm hk = hk refl

  pub Ensures-mono :
      {R : A → Type 0} {m : M A} → Ensures sc m Q → ((a : A) → Q a → R a) → Ensures sc m R
  Ensures-mono {R} {m} hm f = record { runs = λ w h. go (m w) (hm.runs w h) }
    where
      go : (o : Run (A × World)) → Ends sc Q o → Ends sc R o
      go (done r) g = (g.0, f r.0 g.1)
      go (oops e) g = g

  pub Ensures-forget : {m : M A} → Ensures sc m Q → Keeps sc m
  Ensures-forget hm = Ensures-mono hm (λ a q. tt)

pub Ensures-get : {sc : Scope} → Ensures sc get (Healthy sc)
unfolding get
Ensures-get = record { runs = λ w h. (h, h) }

pub Keeps-modify :
    {sc : Scope} {f : World → World}
    → ((w : World) → Healthy sc w → Healthy sc (f w))
    → Keeps sc (modify f)
unfolding modify
Keeps-modify hf = record { runs = λ w h. (hf w h, tt) }

-- A handler that ends in a plain result keeps the world healthy.
pub Keeps-pure : {A : Type 0} {sc : Scope} (a : A) → Keeps sc (pure a)
Keeps-pure a = Ensures-pure a tt

pub Keeps-lift : {A : Type 0} {sc : Scope} {m : Run A} {a : A} → m ≡ done a → Keeps sc (lift m)
Keeps-lift e = Ensures-lift e tt

-- A computation that may fault, where that is allowed.
pub Ensures-try :
    {A : Type 0} {sc : Scope} (m : Run A)
    → sc.strict ≡ false
    → Ensures sc (lift m) (λ a. m ≡ done a)
unfolding lift
Ensures-try (done a) s = record { runs = λ w h. (h, refl) }
Ensures-try (oops e) s = record { runs = λ w h. s }

pub Keeps-fault :
    {A : Type 0} {sc : Scope} (e : Fault) → sc.strict ≡ false → Keeps sc (fault {A = A} e)
unfolding fault
Keeps-fault e s = record { runs = λ w h. s }
