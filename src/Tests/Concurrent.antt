-- ===== src/Tests/Concurrent.antt =====
-- A rule is added on the node while the names are looked up again.
use nft.Owners.{merge_names, merge_segment, merged_ruleset, place_name, sort_names}
use nft.Base.Assoc.{delete, get_or, insert, keys, lookup}
use nft.Base.{List, [], nat_eq, ok, pair_eq, refl, string_eq, sym, true, ◌∷◌, ◌≡◌}
use nft.Rule.{Rule, effective_mode}
use nft.Daemon.{
  Reconciled, World, commit, dataplane_key, is_applyable, partition_resolved, rules_differ,
  same_numbers, same_texts,
}
use nft.Daemon.Local.{create_local}
use nft.Concurrent.{
  Caller, Reach, System, advance, apply_merged, apply_parts, enter, finished, here, moved, next,
  ready, turn,
}
use nft.Concurrent.Alone.{turns}
use nft.Concurrent.Interleaving.{Reach-Sound, Resolvers, SoundSystem}
use nft.Concurrent.Undoing.{late_refresh, late_refresh-undoes, refresh_parts}
use nft.Tests.Inputs.{game_rule, web_rule}
use nft.Tests.Node.{add_game, good_day, merged_node, node, node-InSync}

abbrev writer : Caller
writer = record {
  world = good_day;
  mutate = add_game;
  meta_fn = λ rev. rev;
  save_to_disk = true;
  phase = ready;
}

-- Every name has another address now.
abbrev new_address : List Rule → List Rule
new_address [] = []
new_address (r ∷ rs) = record r { dest_ip = "127.0.0.1" } ∷ new_address rs

abbrev other_day : World
other_day = record good_day { resolve = new_address }

abbrev start : System
start = record { daemon = node; calls = [] }

abbrev entered : System
entered = record { daemon = node; calls = writer ∷ [] }

abbrev begun : System
begun = record { daemon = node; calls = moved writer node ∷ [] }

node_resolved : (partition_resolved (web_rule ∷ [])).0 ≡ web_rule ∷ []
unfolding partition_resolved is_applyable
node_resolved = refl

-- The only resolver.
abbrev as_written : Resolvers
as_written resolve = resolve ≡ (λ rs. rs)

start-SoundSystem : SoundSystem as_written start
start-SoundSystem = (
  ((λ rs. rs, refl, (web_rule ∷ [], merged_node, sym node_resolved)), (web_rule ∷ [], merged_node)),
  tt,
)

begun-Reach : Reach start begun
unfolding advance
begun-Reach = next (next here (enter writer refl refl)) (turn [] writer [] refl refl)

Reach-Sound_example : SoundSystem as_written begun
Reach-Sound_example = Reach-Sound as_written begun-Reach (refl, tt) start-SoundSystem

abbrev added : Reconciled
added = record { applyable = web_rule ∷ game_rule ∷ []; unresolved = []; committed = true }

written : (turns 3 writer ready node).0 ≡ finished (ok added)
unfolding turns advance apply_merged apply_parts commit partition_resolved is_applyable create_local
    rules_differ dataplane_key effective_mode same_texts same_numbers merged_ruleset merge_names
    merge_segment sort_names place_name keys get_or lookup insert delete
written = refl

new_address_differs :
    (rules_differ node.last_resolved (refresh_parts other_day (web_rule ∷ [])) ≡ true)
unfolding refresh_parts partition_resolved is_applyable rules_differ dataplane_key effective_mode
    same_texts same_numbers
new_address_differs = refl

late_refresh-undoes_example :
    ((turns 3 writer ready node).1.owners ≡ add_game node.owners)
    × ((late_refresh other_day node (turns 3 writer ready node).1).1.owners ≡ node.owners)
    × ((late_refresh other_day node (turns 3 writer ready node).1).1.live
        ≡ refresh_parts other_day (web_rule ∷ []))
    × ((late_refresh other_day node (turns 3 writer ready node).1).1.saved.0 ≡ add_game node.owners)
late_refresh-undoes_example =
    late_refresh-undoes other_day writer node (web_rule ∷ []) added node-InSync refl written
      merged_node new_address_differs refl
