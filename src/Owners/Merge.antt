-- ===== src/Owners/Merge.antt =====
-- When the merge succeeds, and what it returns.
use mathlib.Core.List.{append-nil, append_assoc, map-append}
use nft.Base.{
  List, Option-cases, String, [], distinct, distinct-repeat, distinct-snoc, distinct_append_left,
  err, false, inl, inr, map, nat_eq, ok, pair_eq, refl, string_eq, sym, true, ◌++◌, ◌∙◌, ◌∷◌, ◌≡◌,
  ◌⊎◌,
}
use nft.Base.Assoc.{get_or, has-keys, has-keys-some, insert, keys, keys-insert_new, lookup}
use nft.Base.Int.{int_eq, ℤ}
use nft.Rule.{Rule}
use nft.Owners.{
  Holder, MergeConflict, OwnerRuleset, Seen, already_claimed, merge_names, merge_segment,
  merged_ruleset, rule_key, sort_names,
}

-- The segments one after the other, in the order of the names.
unfoldable pub segments : OwnerRuleset → List String → List Rule
segments owners [] = []
segments owners (name ∷ names) = get_or [] name owners ++ segments owners names

abbrev pub rule_keys : List Rule → List (String × ℤ)
rule_keys = map rule_key

segment_cases :
    (name : String) (rs : List Rule) (seen : Seen) (merged : List Rule)
    → distinct (keys seen) ≡ true
    → keys seen ≡ rule_keys merged
    → ((st : Seen × List Rule) × (merge_segment name rs seen merged ≡ ok st)
        × (st.1 ≡ merged ++ rs)
        × (keys st.0 ≡ rule_keys st.1)
        × (distinct (keys st.0) ≡ true))
      ⊎ ((c : MergeConflict) × (merge_segment name rs seen merged ≡ err c)
          × (distinct (rule_keys (merged ++ rs)) ≡ false))
unfolding merge_segment
segment_cases name [] seen merged d k = inl ((seen, merged), refl, sym (append-nil merged), k, d)
segment_cases name (r ∷ rs) seen merged d k = elim (Option-cases (lookup (rule_key r) seen)) [
  | inl e ↦
      let holder : Holder = record { owner = name; rule = r } in
      let added : keys (insert (rule_key r) holder seen) ≡ keys seen ++ rule_key r ∷ [] =
        keys-insert_new (rule_key r) holder seen e in
      rw (e, merge_segment)
        (rw (← append_assoc merged (r ∷ []) rs) (
          segment_cases name rs (insert (rule_key r) holder seen) (merged ++ r ∷ [])
            (rw added (distinct-snoc (keys seen) (rule_key r) (has-keys (rule_key r) seen e) ∙ d))
            (rw (added, map-append, k) refl)))
  | inr (prev, e) ↦ inr (
    already_claimed (rule_key r) prev (record { owner = name; rule = r }),
    rw (e, merge_segment),
    rw (map-append, ← k)
        (distinct-repeat (keys seen) (rule_keys rs) (rule_key r)
          (has-keys-some (rule_key r) seen prev e)),
  )
]

names_cases :
    (owners : OwnerRuleset) (names : List String) (seen : Seen) (merged : List Rule)
    → distinct (keys seen) ≡ true
    → keys seen ≡ rule_keys merged
    → ((merge_names owners names seen merged ≡ ok (merged ++ segments owners names))
        × (distinct (rule_keys (merged ++ segments owners names)) ≡ true))
      ⊎ ((c : MergeConflict) × (merge_names owners names seen merged ≡ err c)
          × (distinct (rule_keys (merged ++ segments owners names)) ≡ false))
unfolding merge_names segments
names_cases owners [] seen merged d k = inl (rw append-nil, rw (append-nil, ← k) d)
names_cases owners (name ∷ names) seen merged d k =
    elim (segment_cases name (get_or [] name owners) seen merged d k) [
      | inl (st, e, m, k', d') ↦
          rw (e, merge_names)
            (rw (← append_assoc merged (get_or [] name owners) (segments owners names), ← m)
              (names_cases owners names st.0 st.1 d' k'))
      | inr (c, e, bad) ↦ inr (
        c,
        rw (e, merge_names),
        rw (← append_assoc merged (get_or [] name owners) (segments owners names), map-append)
            (distinct_append_left _ _ bad),
      )
    ]

-- The merge returns the segments in the order of the owners' names when no protocol and port is
-- claimed twice, within a segment or across segments, and is refused otherwise.
pub merged_ruleset_cases :
    (owners : OwnerRuleset)
    → let all_rules = segments owners (sort_names (keys owners)) in
      ((merged_ruleset owners ≡ ok all_rules) × (distinct (rule_keys all_rules) ≡ true))
      ⊎ ((c : MergeConflict) × (merged_ruleset owners ≡ err c)
          × (distinct (rule_keys all_rules) ≡ false))
unfolding merged_ruleset keys distinct
merged_ruleset_cases owners = names_cases owners (sort_names (keys owners)) [] [] refl refl
