-- ===== src/Partition/Claims.antt =====
-- What one call of `claim` does to the keys that are taken.
use mathlib.Core.List.{append-nil, append_assoc}
use nft.Base.{
  List, Option-cases, String, [], ap, distinct, distinct-repeat, distinct-snoc, err, false, inl,
  inr, nat_eq, ok, pair_eq, refl, string_eq, sym, true, ◌++◌, ◌∙◌, ◌∷◌, ◌≡◌, ◌⊎◌,
}
use nft.Base.Assoc.{has-keys, has-keys-some, insert, keys, keys-insert_new, lookup}
use nft.Base.Int.{int_eq, ℤ}
use nft.Rule.{Rule}
use nft.Partition.{Conflict, Key, claim, claimed_twice}

-- The keys that a list of namespaces takes at a port.
abbrev pub at_port : ℤ → List String → List Key
at_port port [] = []
at_port port (p ∷ ps) = (p, port) ∷ at_port port ps

-- `claim` succeeds exactly when no key is taken yet, and then has taken these keys, in order.
pub claim_cases :
    (who : Rule) (port : ℤ) (ps : List String) (m : List (Key × Rule))
    → distinct (keys m) ≡ true
    → ((m' : List (Key × Rule)) × (claim who port ps m ≡ ok m')
        × (keys m' ≡ keys m ++ at_port port ps)
        × (distinct (keys m ++ at_port port ps) ≡ true))
      ⊎ ((c : Conflict) × (claim who port ps m ≡ err c)
          × (distinct (keys m ++ at_port port ps) ≡ false))
unfolding claim
claim_cases who port [] m h = inl (m, refl, sym (append-nil (keys m)), rw append-nil h)
claim_cases who port (p ∷ ps) m h = elim (Option-cases (lookup (p, port) m)) [
  | inl e ↦
      let added : keys (insert (p, port) who m) ≡ keys m ++ (p, port) ∷ [] =
        keys-insert_new (p, port) who m e in
      let regroup : keys (insert (p, port) who m) ++ at_port port ps
          ≡ keys m ++ (p, port) ∷ at_port port ps =
        ap (λ l. l ++ at_port port ps) added
        ∙ append_assoc (keys m) ((p, port) ∷ []) (at_port port ps) in
      rw (e, claim)
        (rw (← regroup) (
          claim_cases who port ps (insert (p, port) who m)
            (rw added (distinct-snoc (keys m) (p, port) (has-keys (p, port) m e) ∙ h))))
  | inr (v, e) ↦ inr (
    claimed_twice (p, port) v who,
    rw (e, claim),
    distinct-repeat (keys m) _ _ (has-keys-some (p, port) m v e),
  )
]
