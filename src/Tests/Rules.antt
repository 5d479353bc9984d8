-- ===== src/Tests/Rules.antt =====
-- Validation, marks, partition and merge on concrete rules.
use nft.Base.{
  List, [], all, arith, distinct, err, false, nat_eq, none, ok, pair_eq, refl, some, string_eq,
  true, ◌↔◌, ◌∷◌, ◌≡◌, ◌≢◌, ◌⊎◌,
}
use nft.Base.Int.{int_eq, pos}
use nft.Base.Assoc.{get_or, insert, keys, lookup}
use nft.Net.{parses}
use nft.Rule.{Rule, effective_mode, group_shape_mark, is_hostname, udp_userspace, validate}
use nft.Rule.Validation.{IsValid, validate_iff}
use nft.Partition.{
  claim, claimed_twice, namespaces, partition, place, place_all, tcp_part, udp_part,
}
use nft.Partition.Exact.{all_claims, partition_iff, supported}
use nft.Partition.Routing.{Serves, partition-Serves}
use nft.Owners.{
  MergeConflict, OwnerRuleset, merge_names, merge_segment, merged_ruleset, place_name, sort_names,
}
use nft.Owners.Merge.{merged_ruleset_cases, rule_keys, segments}
use nft.Tests.Inputs.{dns_rule, game_rule, test_net, web_rule}

validate_iff_example : (validate test_net web_rule ≡ none) ↔ IsValid test_net web_rule
validate_iff_example = validate_iff test_net web_rule

validate-web_rule : validate test_net web_rule ≡ none
unfolding validate parses is_hostname
validate-web_rule = refl

validate-udp_relay : validate test_net (record dns_rule { mode = "userspace" }) ≡ some udp_userspace
unfolding validate parses is_hostname
validate-udp_relay = refl

web_mark : group_shape_mark web_rule ≢ 0
unfolding group_shape_mark
web_mark = omega arith

abbrev node_rules : List Rule
node_rules = web_rule ∷ game_rule ∷ dns_rule ∷ []

partition_iff_example :
    ((out : List Rule × List Rule) × (partition node_rules ≡ ok out))
    ↔ ((all supported node_rules ≡ true) × (distinct (all_claims node_rules) ≡ true))
partition_iff_example = partition_iff node_rules

partition-node_rules :
    partition node_rules
    ≡ ok (web_rule ∷ udp_part game_rule ∷ dns_rule ∷ [], tcp_part game_rule ∷ [])
unfolding partition place_all place claim namespaces effective_mode lookup insert
partition-node_rules = refl

-- tcp+udp holds the udp port too.
partition-overlap :
    partition (game_rule ∷ record dns_rule { src_port = pos 9000 } ∷ [])
    ≡ err (claimed_twice ("udp", pos 9000) game_rule (record dns_rule { src_port = pos 9000 }))
unfolding partition place_all place claim namespaces effective_mode lookup insert
partition-overlap = refl

partition-Serves_example :
    Serves (web_rule ∷ udp_part game_rule ∷ dns_rule ∷ []) (tcp_part game_rule ∷ []) node_rules
partition-Serves_example = partition-Serves node_rules _ _ partition-node_rules

abbrev two_owners : OwnerRuleset
two_owners = ("tui", dns_rule ∷ []) ∷ ("panel", web_rule ∷ game_rule ∷ []) ∷ []

merged-two_owners : merged_ruleset two_owners ≡ ok (web_rule ∷ game_rule ∷ dns_rule ∷ [])
unfolding merged_ruleset merge_names merge_segment sort_names place_name keys lookup insert get_or
merged-two_owners = refl

merged_ruleset_cases_example :
    let all_rules = segments two_owners (sort_names (keys two_owners)) in
    ((merged_ruleset two_owners ≡ ok all_rules) × (distinct (rule_keys all_rules) ≡ true))
    ⊎ ((c : MergeConflict) × (merged_ruleset two_owners ≡ err c)
        × (distinct (rule_keys all_rules) ≡ false))
merged_ruleset_cases_example = merged_ruleset_cases two_owners
