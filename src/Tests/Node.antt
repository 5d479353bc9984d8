-- ===== src/Tests/Node.antt =====
-- The daemon's write path on a node with one local rule.
use nft.Base.{[], err, false, nat_eq, ok, pair_eq, refl, string_eq, true, ◌∷◌, ◌≡◌}
use nft.Base.Assoc.{delete, get_or, insert, keys, lookup}
use nft.Base.Int.{int_eq}
use nft.Rule.{effective_mode}
use nft.Owners.{OwnerRuleset, merge_names, merge_segment, merged_ruleset, place_name, sort_names}
use nft.Daemon.{
  Daemon, World, apply_and_commit, commit, dataplane_key, is_applyable, partition_resolved,
  reconcile_merged, reconcile_owners, refresh_once, rules_differ, same_numbers, same_texts,
  save_failed,
}
use nft.Daemon.Local.{
  answer, create_local, delete_first, delete_local, delete_unless, done, handle_delete_rule,
  not_connected, parse_rule_id,
}
use nft.Daemon.Reconciling.{InSync, Reached, failed_save_not_repaired, reconcile_owners-Reached}
use nft.Tests.Inputs.{game_rule, web_rule}

abbrev pub node : Daemon
node = record {
  owners = ("tui", web_rule ∷ []) ∷ [];
  last_applied_rev = "";
  last_resolved = web_rule ∷ [];
  live = web_rule ∷ [];
  saved = (("tui", web_rule ∷ []) ∷ [], "");
}

abbrev pub good_day : World
good_day = record { resolve = λ rs. rs; applies = λ rs. true; saves = true; left = λ rs live. live }

abbrev full_disk : World
full_disk = record good_day { saves = false }

pub node-InSync : InSync node
unfolding rules_differ dataplane_key effective_mode same_texts same_numbers
node-InSync = refl

abbrev pub add_game : OwnerRuleset → OwnerRuleset
add_game o = create_local game_rule o

reconcile_owners-Reached_example :
    Reached good_day
      (add_game node.owners)
      true
      node
      (reconcile_owners good_day add_game (λ rev. rev) true node)
reconcile_owners-Reached_example =
    reconcile_owners-Reached good_day add_game (λ rev. rev) true node node-InSync

game_not_saved : (reconcile_owners full_disk add_game (λ rev. rev) true node).0 ≡ err save_failed
unfolding reconcile_owners reconcile_merged apply_and_commit commit partition_resolved is_applyable
    create_local rules_differ dataplane_key effective_mode same_texts same_numbers merged_ruleset
    merge_names merge_segment sort_names place_name keys get_or lookup insert delete
game_not_saved = refl

pub merged_node : merged_ruleset node.owners ≡ ok (web_rule ∷ [])
unfolding merged_ruleset merge_names merge_segment sort_names place_name keys get_or lookup insert
    delete
merged_node = refl

still_node : rules_differ node.last_resolved (partition_resolved (web_rule ∷ [])).0 ≡ false
unfolding partition_resolved is_applyable rules_differ dataplane_key effective_mode same_texts
    same_numbers
still_node = refl

failed_save_not_repaired_example :
    (refresh_once good_day (reconcile_owners full_disk add_game (λ rev. rev) true node).1).1
    ≡ (reconcile_owners full_disk add_game (λ rev. rev) true node).1
failed_save_not_repaired_example =
    failed_save_not_repaired full_disk good_day add_game (λ rev. rev) node (web_rule ∷ [])
      node-InSync game_not_saved merged_node still_node

web_deleted : (handle_delete_rule good_day "a1b2c3d4" node).0 ≡ done
unfolding handle_delete_rule delete_unless parse_rule_id answer delete_local delete_first
    reconcile_owners reconcile_merged apply_and_commit commit partition_resolved is_applyable
    rules_differ dataplane_key effective_mode same_texts same_numbers merged_ruleset merge_names
    merge_segment sort_names place_name keys get_or lookup insert delete
web_deleted = refl

-- A local id without letters is taken for a panel rule's.
numeric_id : (handle_delete_rule good_day "12345678" node).0 ≡ not_connected
unfolding handle_delete_rule delete_unless parse_rule_id answer delete_local delete_first
    reconcile_owners reconcile_merged apply_and_commit commit partition_resolved is_applyable
    rules_differ dataplane_key effective_mode same_texts same_numbers merged_ruleset merge_names
    merge_segment sort_names place_name keys get_or lookup insert delete
numeric_id = refl
