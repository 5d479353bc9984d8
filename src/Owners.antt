-- ===== src/Owners.antt =====
-- internal/daemon/owners.go: the merge of the owners' segments into one ruleset. A map of Go is an
-- association list; the map `seen` is keyed by "proto/port" in the source and by the pair here.
pub mod Merge
use Prim.Native.Nat.{Ordering}
use Prim.Native.String.{compare}
use nft.Base.{
  Bool, List, Result, String, [], err, false, if◌then◌else◌, nat_eq, none, ok, pair_eq, some,
  string_eq, true, ◌++◌, ◌∷◌,
}
use nft.Base.Assoc.{get_or, insert, keys, lookup}
use nft.Base.Int.{int_eq, ℤ}
use nft.Rule.{Rule}

abbrev pub OwnerRuleset : Type 0
OwnerRuleset = List (String × List Rule)

pub record Holder : Type 0 where
  pub owner : String
  pub rule : Rule

-- The parts that the error text names: the key, its holder, and the rejected owner and rule.
pub data MergeConflict : Type 0 where
  already_claimed : String × ℤ → Holder → Holder → MergeConflict

abbrev pub name_le : String → String → Bool
name_le a b = elim (compare a b) [ Ordering.gt ↦ false | _ ↦ true ]

unfoldable pub place_name : String → List String → List String
place_name a [] = a ∷ []
place_name a (b ∷ bs) = if name_le a b then a ∷ b ∷ bs else b ∷ place_name a bs

-- sort.Strings
unfoldable pub sort_names : List String → List String
sort_names [] = []
sort_names (a ∷ rest) = place_name a (sort_names rest)

abbrev pub rule_key : Rule → String × ℤ
rule_key r = (r.proto, r.src_port)

abbrev pub Seen : Type 0
Seen = List ((String × ℤ) × Holder)

-- The inner loop, over one owner's rules.
unfoldable pub merge_segment :
    String → List Rule → Seen → List Rule → Result MergeConflict (Seen × List Rule)
merge_segment name [] seen merged = ok (seen, merged)
merge_segment name (r ∷ rs) seen merged = elim (lookup (rule_key r) seen) [
  | some prev ↦ err (already_claimed (rule_key r) prev (record { owner = name; rule = r }))
  | none ↦
      merge_segment name rs (insert (rule_key r) (record { owner = name; rule = r }) seen)
        (merged ++ r ∷ [])
]

-- The outer loop, over the sorted names.
unfoldable pub merge_names :
    OwnerRuleset → List String → Seen → List Rule → Result MergeConflict (List Rule)
merge_names owners [] seen merged = ok merged
merge_names owners (name ∷ names) seen merged =
    elim (merge_segment name (get_or [] name owners) seen merged) [
      | ok st ↦ merge_names owners names st.0 st.1
      | err c ↦ err c
    ]

unfoldable pub merged_ruleset : OwnerRuleset → Result MergeConflict (List Rule)
merged_ruleset owners = merge_names owners (sort_names (keys owners)) [] []
