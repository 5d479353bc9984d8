-- ===== src/Daemon/Keys.antt =====
-- `rulesDiffer` compares the data plane's view of two rule lists.
use nft.Base.{List, String, [], arith, false, map, refl, string_eq, true, ◌↔◌, ◌∷◌, ◌≡◌}
use nft.Base.Int.{int_eq, ℤ}
use nft.Rule.{Rule}
use nft.Daemon.{dataplane_key, rules_differ, same_numbers, same_texts}

same_texts_iff : (xs ys : List String) → (same_texts xs ys ≡ true) ↔ (xs ≡ ys)
unfolding same_texts
same_texts_iff [] [] = (λ h. refl, λ h. refl)
same_texts_iff [] (b ∷ ys) = ground arith
same_texts_iff (a ∷ xs) [] = ground arith
same_texts_iff (a ∷ xs) (b ∷ ys) = ground (arith, same_texts_iff xs ys, string_eq.test_iff a b)

same_numbers_iff : (xs ys : List ℤ) → (same_numbers xs ys ≡ true) ↔ (xs ≡ ys)
unfolding same_numbers
same_numbers_iff [] [] = (λ h. refl, λ h. refl)
same_numbers_iff [] (b ∷ ys) = ground arith
same_numbers_iff (a ∷ xs) [] = ground arith
same_numbers_iff (a ∷ xs) (b ∷ ys) = ground (arith, same_numbers_iff xs ys, int_eq.test_iff a b)

-- Two lists do not differ exactly when the data plane sees the same rules in the same order.
pub rules_differ_iff :
    (xs ys : List Rule)
    → (rules_differ xs ys ≡ false) ↔ (map dataplane_key xs ≡ map dataplane_key ys)
unfolding rules_differ
rules_differ_iff [] [] = (λ h. refl, λ h. refl)
rules_differ_iff [] (b ∷ ys) = ground arith
rules_differ_iff (a ∷ xs) [] = ground arith
rules_differ_iff (a ∷ xs) (b ∷ ys) = ground (
  arith,
  rules_differ_iff xs ys,
  same_texts_iff (dataplane_key a).0 (dataplane_key b).0,
  same_numbers_iff (dataplane_key a).1 (dataplane_key b).1,
)
