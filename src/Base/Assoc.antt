-- ===== src/Base/Assoc.antt =====
-- Go maps as association lists: the first entry of a key counts, and a write replaces it in place.
use mathlib.Core.Path.{◌≡◌, refl}
use mathlib.Core.Bool.{true, false, ◌||◌}
use mathlib.Core.Option.{Option, none, some}
use mathlib.Core.List.{List, [], ◌∷◌, ◌++◌}
use native.Mathlib.Omega.{arith}
use nft.Base.Tests.{if◌then◌else◌}
use nft.Base.Keys.{Equality, distinct, has, nat_eq, pair_eq, string_eq}

unfoldable pub keys {ℓ κ} : {K : Type ℓ} {V : Type κ} → List (K × V) → List K
keys [] = []
keys ((j, v) ∷ m) = j ∷ keys m

module _ {ℓ κ} {K : Type ℓ} {V : Type κ} ⦃e : Equality K⦄ where
  unfoldable pub lookup : K → List (K × V) → Option V
  lookup k [] = none
  lookup k ((j, v) ∷ m) = if e.test j k then some v else lookup k m

  unfoldable pub insert : K → V → List (K × V) → List (K × V)
  insert k v [] = (k, v) ∷ []
  insert k v ((j, w) ∷ m) = if e.test j k then (k, v) ∷ m else (j, w) ∷ insert k v m

  unfoldable pub delete : K → List (K × V) → List (K × V)
  delete k [] = []
  delete k ((j, w) ∷ m) = let rest = delete k m in if e.test j k then rest else (j, w) ∷ rest

  -- UPDATE table SET ... WHERE key = ?
  unfoldable pub modify : K → (V → V) → List (K × V) → List (K × V)
  modify k f [] = []
  modify k f ((j, w) ∷ m) = if e.test j k then (j, f w) ∷ m else (j, w) ∷ modify k f m

  -- m[k] of Go, with the zero value for a missing key.
  unfoldable pub get_or : V → K → List (K × V) → V
  get_or d k [] = d
  get_or d k ((j, v) ∷ m) = if e.test j k then v else get_or d k m

  pub lookup-insert :
      (k j : K) (v : V) (m : List (K × V))
      → lookup j (insert k v m) ≡ (if e.test k j then some v else lookup j m)
  unfolding lookup insert
  lookup-insert k j v [] = refl
  lookup-insert k j v ((i, w) ∷ m) =
      ground (arith, e.test_iff k j, e.test_iff i k, e.test_iff i j, lookup-insert k j v m)

  pub lookup-delete :
      (k j : K) (m : List (K × V))
      → lookup j (delete k m) ≡ (if e.test k j then none else lookup j m)
  unfolding lookup delete
  lookup-delete k j [] = ground arith
  lookup-delete k j ((i, w) ∷ m) =
      ground (arith, e.test_iff k j, e.test_iff i k, e.test_iff i j, lookup-delete k j m)

  pub get_or-insert :
      (d : V) (k j : K) (v : V) (m : List (K × V))
      → get_or d j (insert k v m) ≡ (if e.test k j then v else get_or d j m)
  unfolding get_or insert
  get_or-insert d k j v [] = refl
  get_or-insert d k j v ((i, w) ∷ m) =
      ground (arith, e.test_iff k j, e.test_iff i k, e.test_iff i j, get_or-insert d k j v m)

  pub has-keys : (k : K) (m : List (K × V)) → lookup k m ≡ none → has k (keys m) ≡ false
  unfolding lookup keys has
  has-keys k [] h = refl
  has-keys k ((j, v) ∷ m) h = ground (arith, has-keys k m)

  pub has-keys-some :
      (k : K) (m : List (K × V)) (v : V) → lookup k m ≡ some v → has k (keys m) ≡ true
  unfolding lookup keys has
  has-keys-some k [] v h = cc
  has-keys-some k ((j, w) ∷ m) v h = ground (arith, has-keys-some k m v)

  pub lookup-none : (k : K) (m : List (K × V)) → has k (keys m) ≡ false → lookup k m ≡ none
  unfolding lookup keys has
  lookup-none k [] h = refl
  lookup-none k ((j, v) ∷ m) h = ground (arith, h, lookup-none k m)

  pub keys-insert_new :
      (k : K) (v : V) (m : List (K × V))
      → lookup k m ≡ none
      → keys (insert k v m) ≡ keys m ++ k ∷ []
  unfolding lookup keys insert
  keys-insert_new k v [] h = refl
  keys-insert_new k v ((j, w) ∷ m) h = ground (arith, keys-insert_new k v m)

  pub has-keys-insert :
      (k j : K) (v : V) (m : List (K × V))
      → has j (keys (insert k v m)) ≡ (has j (keys m) || e.test k j)
  unfolding keys insert has
  has-keys-insert k j v [] = ground arith
  has-keys-insert k j v ((i, w) ∷ m) = ground (arith, has-keys-insert k j v m, e.test_iff i k)

  pub distinct-keys-insert :
      (k : K) (v : V) (m : List (K × V))
      → distinct (keys m) ≡ true
      → distinct (keys (insert k v m)) ≡ true
  unfolding keys insert distinct
  distinct-keys-insert k v [] h = unfold has in refl
  distinct-keys-insert k v ((i, w) ∷ m) h =
      ground
        (arith, distinct-keys-insert k v m, has-keys-insert k i v m, e.test_iff i k, e.test_iff k i)

  pub get_or-lookup_none :
      (d : V) (k : K) (m : List (K × V)) → has k (keys m) ≡ false → get_or d k m ≡ d
  unfolding get_or keys has
  get_or-lookup_none d k [] h = refl
  get_or-lookup_none d k ((j, v) ∷ m) h = ground (arith, get_or-lookup_none d k m)

  pub get_or-lookup :
      (d : V) (k : K) (m : List (K × V))
      → get_or d k m ≡ (elim (lookup k m) [ none ↦ d | some v ↦ v ])
  unfolding get_or lookup
  get_or-lookup d k [] = refl
  get_or-lookup d k ((j, v) ∷ m) = ground (arith, get_or-lookup d k m)

  pub lookup-modify :
      (k j : K) (f : V → V) (m : List (K × V))
      → lookup j (modify k f m) ≡ (
          if e.test k j
          then (elim (lookup j m) [ none ↦ none | some v ↦ some (f v) ])
          else lookup j m)
  unfolding lookup modify
  lookup-modify k j f [] = ground arith
  lookup-modify k j f ((i, w) ∷ m) =
      ground (arith, e.test_iff k j, e.test_iff i k, e.test_iff i j, lookup-modify k j f m)

  pub keys-modify : (k : K) (f : V → V) (m : List (K × V)) → keys (modify k f m) ≡ keys m
  unfolding modify keys
  keys-modify k f [] = refl
  keys-modify k f ((i, w) ∷ m) = ground (arith, keys-modify k f m)

  has-keys-delete :
      (k j : K) (m : List (K × V)) → has j (keys m) ≡ false → has j (keys (delete k m)) ≡ false
  unfolding delete keys has
  has-keys-delete k j [] h = refl
  has-keys-delete k j ((i, w) ∷ m) h = ground (arith, has-keys-delete k j m)

  pub distinct-keys-delete :
      (k : K) (m : List (K × V)) → distinct (keys m) ≡ true → distinct (keys (delete k m)) ≡ true
  unfolding delete keys distinct
  distinct-keys-delete k [] h = refl
  distinct-keys-delete k ((i, w) ∷ m) h =
      ground (arith, distinct-keys-delete k m, has-keys-delete k i m)
