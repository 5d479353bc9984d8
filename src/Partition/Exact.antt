-- ===== src/Partition/Exact.antt =====
-- When `Partition` succeeds.

use mathlib.Core.List.{append-nil, append_assoc}
use nft.Base.{
  Bool, Bool-cases, List, Result, String, [], all, ap, distinct, distinct_append_left, eq_iff, err,
  false, inl, inr, nat_eq, ok, pair_eq, refl, string_eq, sym, true, ◌++◌, ◌==◌, ◌>>=◌, ◌||◌, ◌↔◌,
  ◌∙◌, ◌∷◌, ◌≡◌, ◌⊎◌,
}
use nft.Base.Assoc.{keys}
use nft.Base.Int.{int_eq}
use nft.Rule.{Rule, effective_mode, mode_kernel}
use nft.Partition.{
  Conflict, Key, Split, claim, empty_split, namespaces, partition, place, place_all, unsupported,
}
use nft.Partition.Claims.{at_port, claim_cases}

abbrev pub claims : Rule → List Key
claims r = at_port r.src_port (namespaces r.proto)

unfoldable pub all_claims : List Rule → List Key
all_claims [] = []
all_claims (r ∷ rs) = claims r ++ all_claims rs

-- A userspace rule must be tcp or tcp+udp.
unfoldable pub supported : Rule → Bool
supported r = effective_mode r == mode_kernel || (r.proto == "tcp" || r.proto == "tcp+udp")

-- The keys that one more rule leaves taken, or the reason for which it is refused.
abbrev Taken : List Key → List Key → Bool → Result Conflict Split → Type 0
Taken old new good res =
    ((s : Split) × (res ≡ ok s)
      × (keys s.claimed ≡ old ++ new)
      × (good ≡ true)
      × (distinct (old ++ new) ≡ true))
    ⊎ ((c : Conflict) × (res ≡ err c) × ((good ≡ false) ⊎ (distinct (old ++ new) ≡ false)))

-- What follows a successful `claim` in a branch of the loop.
place_after :
    (s : Split) (r : Rule) (p : String) (f : List (Key × Rule) → Split)
    → ((m : List (Key × Rule)) → (f m).claimed ≡ m)
    → p ≡ r.proto
    → supported r ≡ true
    → distinct (keys s.claimed) ≡ true
    → Taken
        (keys s.claimed)
        (claims r)
        (supported r)
        (claim r r.src_port (namespaces p) s.claimed >>= λ m. ok (f m))
place_after s r p f same eq good h =
    rw eq (elim (claim_cases r r.src_port (namespaces r.proto) s.claimed h) [
      | inl (m, e, k, d) ↦ inl (f m, rw e, rw same k, good, d)
      | inr (c, e, d) ↦ inr (c, rw e, inr d)
    ])

place_cases :
    (s : Split) (r : Rule)
    → distinct (keys s.claimed) ≡ true
    → Taken (keys s.claimed) (claims r) (supported r) (place s r)
unfolding place
place_cases s r h = elim (Bool-cases (effective_mode r == mode_kernel)) [
  | inl k ↦ rw k (place_after s r r.proto _ (λ m. refl) refl (unfold supported in rw k) h)
  | inr k ↦ rw k (elim (Bool-cases (r.proto == "tcp")) [
    | inl t ↦ rw t (
        place_after s r "tcp" _ (λ m. refl) (sym ((eq_iff _ _).0 t)) (unfold supported in rw (k, t))
          h)
    | inr t ↦ rw t (elim (Bool-cases (r.proto == "tcp+udp")) [
      | inl b ↦ rw b (
          place_after s r "tcp+udp" _ (λ m. refl) (sym ((eq_iff _ _).0 b))
            (unfold supported in rw (k, t, b)) h)
      | inr b ↦ rw b (inr (unsupported r, refl, inl (unfold supported in rw (k, t, b))))
    ])
  ])
]

-- The same for the whole loop.
place_all_cases :
    (s : Split) (rs : List Rule)
    → distinct (keys s.claimed) ≡ true
    → Taken (keys s.claimed) (all_claims rs) (all supported rs) (place_all s rs)
unfolding place_all all_claims
place_all_cases s [] h = inl (s, refl, sym (append-nil _), refl, rw append-nil h)
place_all_cases s (r ∷ rs) h = elim (place_cases s r h) [
  | inl (s', e, k, good, d) ↦
      let shift : keys s'.claimed ++ all_claims rs ≡ keys s.claimed ++ (claims r ++ all_claims rs) =
        ap (λ l. l ++ all_claims rs) k ∙ append_assoc (keys s.claimed) (claims r) (all_claims rs) in
      rw (e, place_all) (rw good (rw (← shift) (place_all_cases s' rs (rw k d))))
  | inr (c, e, inl bad) ↦ inr (c, rw (e, place_all), inl (rw bad))
  | inr (c, e, inr d) ↦ inr (
    c,
    rw (e, place_all),
    inr (
        rw (← append_assoc (keys s.claimed) (claims r) (all_claims rs))
          (distinct_append_left (keys s.claimed ++ claims r) (all_claims rs) d)),
  )
]

-- `Partition` succeeds exactly when every userspace rule is tcp or tcp+udp and no two rules take the
-- same port of the same transport, where tcp+udp takes the port of both.
pub partition_iff :
    (rs : List Rule)
    → ((out : List Rule × List Rule) × (partition rs ≡ ok out))
      ↔ ((all supported rs ≡ true) × (distinct (all_claims rs) ≡ true))
unfolding partition keys
partition_iff rs = elim (place_all_cases empty_split rs (unfold keys distinct in refl)) [
  | inl (s, e, k, good, d) ↦ (λ p. (good, d), λ p. ((s.kernel, s.userspace), rw e))
  | inr (c, e, inl bad) ↦ (λ p. cc (p.1, e), λ p. cc (p.0, bad))
  | inr (c, e, inr d) ↦ (λ p. cc (p.1, e), λ p. cc (p.1, d))
]
