-- ===== src/Prelude/Results.antt =====
-- Go's (value, error) pair: a value, or an error of a type that each component declares.
use mathlib.Core.Path.{◌≡◌, refl}
use mathlib.Core.Logic.{◌⊎◌, inl, inr}
use mathlib.Core.Bool.{Bool, true, false}

pub data Result {ℓ} (E : Type 0) (A : Type ℓ) : Type ℓ where
  err : E → Result E A
  ok : A → Result E A

module _ {E : Type 0} where
  -- `if err != nil { return err }` between two steps.
  infixl 5 ◌>>=◌
  abbrev pub ◌>>=◌ {ℓ κ} : {A : Type ℓ} {B : Type κ} → Result E A → (A → Result E B) → Result E B
  err stop >>= next = err stop
  ok value >>= next = next value

  infixl 5 ◌>>◌
  abbrev pub ◌>>◌ {ℓ} : {B : Type ℓ} → Result E (Unit {0}) → Result E B → Result E B
  err stop >> next = err stop
  ok done >> next = next

  -- `if !test { return err }`
  abbrev pub guard : Bool → E → Result E (Unit {0})
  guard false stop = err stop
  guard true stop = ok tt

  pub >>=-eq-ok {ℓ κ} :
      {A : Type ℓ} {B : Type κ} (r : Result E A) (next : A → Result E B) {out : B}
      → (r >>= next) ≡ ok out
      → (value : A) × (r ≡ ok value) × (next value ≡ ok out)
  >>=-eq-ok (err stop) next e = cc
  >>=-eq-ok (ok value) next e = (value, refl, e)

  pub ok-injective {ℓ} : {A : Type ℓ} {x y : A} → ◌≡◌ {A = Result E A} (ok x) (ok y) → x ≡ y
  ok-injective e = cc

  -- What follows a guard that let pass.
  pub guard_passed {ℓ} :
      {B : Type ℓ} (test : Bool) (stop : E) (next : Result E B) {out : B}
      → (guard test stop >> next) ≡ ok out
      → (test ≡ true) × (next ≡ ok out)
  guard_passed false stop next e = cc
  guard_passed true stop next e = (refl, e)

pub Result-cases {κ} :
    {E : Type 0} {A : Type κ} (r : Result E A) → ((e : E) × (r ≡ err e)) ⊎ ((a : A) × (r ≡ ok a))
Result-cases (err e) = inl (e, refl)
Result-cases (ok a) = inr (a, refl)
