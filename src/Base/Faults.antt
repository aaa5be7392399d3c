-- ===== src/Base/Faults.antt =====
-- The result of kernel code that may fault: a dereference of a null pointer, a use of a freed
-- object, or an access past the end of an array. A fault ends the run, and nothing after it happens.
use mathlib.Core.Path.{◌≡◌, refl}

pub data Fault : Type 0 where
  null_deref out_of_bounds use_after_free : Fault

pub data Run {ℓ} (A : Type ℓ) : Type ℓ where
  done : A → Run A
  oops : Fault → Run A

abbrev pub bind_run {ℓ κ} : {A : Type ℓ} {B : Type κ} → Run A → (A → Run B) → Run B
bind_run (done a) f = f a
bind_run (oops e) f = oops e

-- The run ends normally, with a result that satisfies `P`.
abbrev pub Returns {ℓ} : {A : Type ℓ} → Run A → (A → Type 0) → Type 0
Returns (done r) P = P r
Returns (oops e) P = ⊥

pub Returns-mono {ℓ} :
    {A : Type ℓ} (P Q : A → Type 0) (m : Run A) → Returns m P → ((r : A) → P r → Q r) → Returns m Q
Returns-mono P Q (done r) h f = f r h
Returns-mono P Q (oops e) h f = h

-- What a run that ends normally gives.
pub Returns-done {ℓ} :
    {A : Type ℓ} (P : A → Type 0) (m : Run A) → Returns m P → (a : A) × (m ≡ done a) × P a
Returns-done P (done r) h = (r, refl, h)
Returns-done P (oops e) h = absurd h
