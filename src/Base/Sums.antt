-- ===== src/Base/Sums.antt =====
-- Sums over the entries of an association list.
use nft.Base.{
  Bool-cases, Equality, List, Option, [], arith, distinct, distinct-cons, false, has, inl, inr,
  nat_eq, none, pair_eq, refl, some, string_eq, sum_by, true, ℕ, ◌+◌, ◌∷◌, ◌≡◌,
}
use nft.Base.Assoc.{delete, insert, keys, lookup, modify}

module _ {ℓ κ} {K : Type ℓ} {V : Type κ} ⦃e : Equality K⦄ (f : K × V → ℕ) where
  abbrev at_key : K → Option V → ℕ
  at_key k none = 0
  at_key k (some v) = f (k, v)

  pub sum_by-insert :
      (k : K) (v : V) (m : List (K × V))
      → lookup k m ≡ none
      → sum_by f (insert k v m) ≡ sum_by f m + f (k, v)
  unfolding lookup insert
  sum_by-insert k v [] missing = omega arith
  sum_by-insert k v ((j, w) ∷ m) missing = ground (arith, missing, sum_by-insert k v m)

  pub sum_by-modify :
      (k : K) (g : V → V) (m : List (K × V)) (w : V)
      → lookup k m ≡ some w
      → sum_by f (modify k g m) + f (k, w) ≡ sum_by f m + f (k, g w)
  unfolding lookup modify
  sum_by-modify k g [] w there = cc there
  sum_by-modify k g ((j, v) ∷ m) w there = elim (Bool-cases (e.test j k)) [
    | inl here ↦
        let same : v ≡ w = cc (rw here at there) in
        let key : j ≡ k = (e.test_iff j k).0 here in rw (here, same, key) (omega arith)
    | inr later ↦ rw later (omega (arith, sum_by-modify k g m w (rw later at there)))
  ]

  pub delete-fresh : (k : K) (m : List (K × V)) → has k (keys m) ≡ false → delete k m ≡ m
  unfolding delete has keys
  delete-fresh k [] fresh = refl
  delete-fresh k ((j, v) ∷ m) fresh = ground (arith, fresh, delete-fresh k m)

  pub sum_by-delete :
      (k : K) (m : List (K × V)) (w : V)
      → distinct (keys m) ≡ true
      → lookup k m ≡ some w
      → sum_by f (delete k m) + f (k, w) ≡ sum_by f m
  unfolding lookup delete keys
  sum_by-delete k [] w fresh there = cc there
  sum_by-delete k ((j, v) ∷ m) w fresh there = elim (Bool-cases (e.test j k)) [
    | inl here ↦
        let same : v ≡ w = cc (rw here at there) in
        let key : j ≡ k = (e.test_iff j k).0 here in
        let once : has k (keys m) ≡ false = rw key at (distinct-cons j (keys m) fresh).0 in
        rw (here, delete-fresh k m once, same, key) (omega arith)
    | inr later ↦
        rw later (
          omega (arith, sum_by-delete k m w (distinct-cons j (keys m) fresh).1 (rw later at there)))
  ]

module _ {ℓ κ} {K : Type ℓ} {V : Type κ} ⦃e : Equality K⦄ where
  pub delete-missing : (k : K) (m : List (K × V)) → lookup k m ≡ none → delete k m ≡ m
  unfolding delete lookup
  delete-missing k [] missing = refl
  delete-missing k ((j, v) ∷ m) missing = ground (arith, missing, delete-missing k m)

  pub delete-insert_new :
      (k : K) (v : V) (m : List (K × V)) → lookup k m ≡ none → delete k (insert k v m) ≡ m
  unfolding delete insert lookup
  delete-insert_new k v [] missing = ground (arith, e.test_iff k k)
  delete-insert_new k v ((j, w) ∷ m) missing = ground (arith, missing, delete-insert_new k v m)
