-- ===== src/Base/Branches.antt =====
-- Properties of code that branches, from those of its branches.
use mathlib.Core.Path.{◌≡◌, refl}
use mathlib.Core.Logic.{◌≢◌}
use mathlib.Core.Bool.{Bool, true, false}
use mathlib.Core.Option.{Option, none, some}
use downpeed_fluter.Base.Tests.{if◌then◌else◌}
use downpeed_fluter.Base.Results.{Outcome, ok, err}

module _ {ℓ κ} {B : Type ℓ} (P : B → Type κ) where
  pub on_test : (b : Bool) {x y : B} → (b ≡ true → P x) → (b ≡ false → P y) → P (if b then x else y)
  on_test true p q = p refl
  on_test false p q = q refl

  pub on_option {μ} :
      {A : Type μ} (f : Option A → B) (o : Option A)
      → P (f none)
      → ((a : A) → o ≡ some a → P (f (some a)))
      → P (f o)
  on_option f none p q = p
  on_option f (some a) p q = q a refl

  -- The same, where the first case needs to know that it is that case.
  pub on_either {μ} :
      {A : Type μ} (f : Option A → B) (o : Option A)
      → (o ≡ none → P (f none))
      → ((a : A) → o ≡ some a → P (f (some a)))
      → P (f o)
  on_either f none p q = p refl
  on_either f (some a) p q = q a refl

  pub on_outcome {μ ν} :
      {E : Type μ} {A : Type ν} (f : Outcome E A → B) (r : Outcome E A)
      → ((a : A) → r ≡ ok a → P (f (ok a)))
      → ((e : E) → r ≡ err e → P (f (err e)))
      → P (f r)
  on_outcome f (ok a) p q = p a refl
  on_outcome f (err e) p q = q e refl

-- What is there in the end has passed the test.
pub unless :
    {E A Q : Type 0} {a : A} (b : Bool) (e : E) {x : Outcome E A}
    → (x ≡ ok a → Q)
    → (if b then err e else x) ≡ ok a
    → Q
unless true e k h = absurd (err_ok h)
  where
    err_ok : {E A : Type 0} {a : A} {e : E} → ◌≢◌ {A = Outcome E A} (err e) (ok a)
    err_ok k = cc
unless false e k h = k h
