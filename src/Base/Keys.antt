-- ===== src/Base/Keys.antt =====
-- Types with a decided equality, as an interface, and lists used as sets of keys.
use Prim.Native.Nat.{ℕ}
use Prim.Native.String.{String}
use mathlib.Core.Path.{◌≡◌, refl}
use mathlib.Core.Logic.{◌↔◌}
use mathlib.Core.Bool.{Bool, true, false, ◌&&◌, ◌||◌}
use mathlib.Core.List.{List, [], ◌∷◌, ◌++◌}
use native.Mathlib.Omega.{arith}
use text.Mathlib.Text.{◌==◌ as str_eq}
use text.Mathlib.TextEquality.{eq_iff}
use nft.Base.Tests.{eqb, eqb_iff}

-- `test` is the `==` of Go on a comparable type.
pub record Equality {ℓ} (K : Type ℓ) : Type ℓ where
  pub test : K → K → Bool
  pub test_iff : (x y : K) → (test x y ≡ true) ↔ (x ≡ y)

infix 50 ◌==◌
abbrev pub ◌==◌ {ℓ} : {K : Type ℓ} ⦃e : Equality K⦄ → K → K → Bool
◌==◌ ⦃e⦄ x y = e.test x y

-- Texts, numbers, and pairs of comparable keys.
instance abbrev pub string_eq : Equality String
string_eq = record { test = str_eq; test_iff = eq_iff }

module _ {ℓ κ} {J : Type ℓ} {K : Type κ} (e : Equality J) (f : Equality K) where
  abbrev pub pair_test : J × K → J × K → Bool
  pair_test p q = e.test p.0 q.0 && f.test p.1 q.1

  pub pair_test_iff : (p q : J × K) → (pair_test p q ≡ true) ↔ (p ≡ q)
  pair_test_iff (a, b) (c, d) = ground (arith, f.test_iff b d, e.test_iff a c)

instance abbrev pub pair_eq {ℓ κ} :
    {J : Type ℓ} {K : Type κ} ⦃e : Equality J⦄ ⦃f : Equality K⦄ → Equality (J × K)
pair_eq ⦃e⦄ ⦃f⦄ = record { test = pair_test e f; test_iff = pair_test_iff e f }

instance abbrev pub nat_eq : Equality ℕ
nat_eq = record { test = eqb; test_iff = eqb_iff }

module _ {ℓ} {A : Type ℓ} ⦃e : Equality A⦄ where
  pub test_refl : (a : A) → e.test a a ≡ true
  test_refl a = (e.test_iff a a).1 refl

  -- Membership, as the key test of a Go map that is used as a set.
  unfoldable pub has : A → List A → Bool
  has a [] = false
  has a (x ∷ xs) = e.test x a || has a xs

  -- No key occurs twice.
  unfoldable pub distinct : List A → Bool
  distinct [] = true
  distinct (x ∷ xs) = (elim (has x xs) [ true ↦ false | false ↦ true ]) && distinct xs

  pub has-append : (a : A) (xs ys : List A) → has a (xs ++ ys) ≡ (has a xs || has a ys)
  unfolding has
  has-append a [] ys = refl
  has-append a (x ∷ xs) ys = ground (arith, has-append a xs ys)

  -- A new key at the end keeps a list distinct exactly when it is not there yet.
  pub distinct-snoc :
      (xs : List A) (a : A) → has a xs ≡ false → distinct (xs ++ a ∷ []) ≡ distinct xs
  unfolding distinct has
  distinct-snoc [] a h = refl
  distinct-snoc (x ∷ xs) a h =
      ground (arith, distinct-snoc xs a, has-append x xs (a ∷ []), e.test_iff a x, e.test_iff x a)

  pub distinct-repeat : (xs ys : List A) (a : A) → has a xs ≡ true → distinct (xs ++ a ∷ ys) ≡ false
  unfolding distinct has
  distinct-repeat [] ys a h = cc
  distinct-repeat (x ∷ xs) ys a h =
      ground
        (arith, distinct-repeat xs ys a, has-append x xs (a ∷ ys), e.test_iff x a, e.test_iff a x)

  pub distinct_append_left : (xs ys : List A) → distinct xs ≡ false → distinct (xs ++ ys) ≡ false
  unfolding distinct has
  distinct_append_left [] ys h = cc
  distinct_append_left (x ∷ xs) ys h =
      ground (arith, distinct_append_left xs ys, has-append x xs ys)

  pub distinct-cons :
      (x : A) (xs : List A) → distinct (x ∷ xs) ≡ true → (has x xs ≡ false) × (distinct xs ≡ true)
  unfolding distinct
  distinct-cons x xs h = ground arith
