-- ===== src/Prelude/Results.antt =====
-- A call that returns or throws.
use mathlib.Core.Path.{◌≡◌, refl}
use mathlib.Core.Logic.{◌⊎◌, inl, inr}
use mathlib.Core.Bool.{Bool, true, false}
use mathlib.Core.Option.{Option, none, some}

pub data Outcome {ℓ κ} (E : Type ℓ) (A : Type κ) : Type (ℓ ⊔ κ) where
  ok : A → Outcome E A
  err : E → Outcome E A

module _ {ℓ κ μ} {E : Type ℓ} {A : Type κ} {B : Type μ} where
  infixl 5 ◌>>=◌
  -- What follows a call sees its answer, unless it throws.
  abbrev pub ◌>>=◌ : Outcome E A → (A → Outcome E B) → Outcome E B
  err thrown >>= next = err thrown
  ok answer >>= next = next answer

  pub >>=-eq-ok :
      (call : Outcome E A) (next : A → Outcome E B) {answer : B}
      → (call >>= next) ≡ ok answer
      → (first : A) × (call ≡ ok first) × (next first ≡ ok answer)
  >>=-eq-ok (err thrown) next returned = cc
  >>=-eq-ok (ok first) next returned = (first, refl, returned)

module _ {ℓ} {E : Type ℓ} where
  -- `if (!test) throw thrown;`
  abbrev pub guard : Bool → E → Outcome E (Unit {0})
  guard false thrown = err thrown
  guard true thrown = ok tt

module _ {ℓ κ} {E : Type ℓ} {A : Type κ} where
  infixl 5 ◌>>◌
  abbrev pub ◌>>◌ : Outcome E (Unit {0}) → Outcome E A → Outcome E A
  err thrown >> next = err thrown
  ok _ >> next = next

  -- `if (x === undefined) throw thrown;`
  abbrev pub or_throw : Option A → E → Outcome E A
  or_throw (some answer) thrown = ok answer
  or_throw none thrown = err thrown

  pub Outcome-cases :
      (call : Outcome E A)
      → ((answer : A) × (call ≡ ok answer)) ⊎ ((thrown : E) × (call ≡ err thrown))
  Outcome-cases (err thrown) = inr (thrown, refl)
  Outcome-cases (ok answer) = inl (answer, refl)

  pub ok-eq : {x y : A} → ◌≡◌ {A = Outcome E A} (ok x) (ok y) → x ≡ y
  ok-eq e = cc

  pub err-ok : {B : Type 0} {thrown : E} {x : A} → ◌≡◌ {A = Outcome E A} (err thrown) (ok x) → B
  err-ok e = cc
