-- ===== src/Base/Results.antt =====
-- A Go result with an error: either the value or the error, never both.
use mathlib.Core.Path.{◌≡◌, refl}
use mathlib.Core.Logic.{◌⊎◌, inl, inr}
use mathlib.Core.Bool.{Bool, true, false}
use nft.Base.Tests.{if◌then◌else◌}

pub data Result {ℓ κ} (E : Type ℓ) (A : Type κ) : Type (ℓ ⊔ κ) where
  ok : A → Result E A
  err : E → Result E A

infixl 5 ◌>>=◌
abbrev pub ◌>>=◌ {ℓ κ μ} :
    {E : Type ℓ} {A : Type κ} {B : Type μ} → Result E A → (A → Result E B) → Result E B
ok a >>= f = f a
err e >>= f = err e

pub Result-cases {ℓ κ} :
    {E : Type ℓ} {A : Type κ} (r : Result E A) → ((a : A) × (r ≡ ok a)) ⊎ ((e : E) × (r ≡ err e))
Result-cases (ok a) = inl (a, refl)
Result-cases (err e) = inr (e, refl)

module _ {ℓ κ μ} {E : Type ℓ} {A : Type κ} {B : Type μ} (f : A → Result E B) where
  -- A chain that returns went through its first step.
  pub ok_of_bind : (r : Result E A) {b : B} → (r >>= f) ≡ ok b → (a : A) × (r ≡ ok a) × (f a ≡ ok b)
  ok_of_bind (err e) returns = cc
  ok_of_bind (ok a) returns = (a, refl, returns)

-- A guarded chain that returns passed its guard.
pub ok_of_guard {ℓ κ} :
    {E : Type ℓ} {A : Type κ} (c : Bool) (x : E) (r : Result E A) {a : A}
    → (if c then err x else r) ≡ ok a
    → (c ≡ false) × (r ≡ ok a)
ok_of_guard true x r e = cc
ok_of_guard false x r e = (refl, e)
