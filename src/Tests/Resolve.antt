-- ===== src/Tests/Resolve.antt =====
-- A host with two addresses, under a lock of IPv6 and without.
use nft.Resolve.Outage.{in_outage, refresh_once-in_outage}
use nft.Daemon.{Daemon, World, is_applyable, refresh_once, rules_differ}
use nft.Owners.{merge_names, merge_segment, merged_ruleset, place_name, sort_names}
use nft.Base.Assoc.{get_or, insert, keys, lookup}
use nft.Base.{
  All, Bool-cases, List, Option, String, [], false, if◌then◌else◌, inl, inr, nat_eq, none, ok,
  pair_eq, refl, some, string_eq, subst, test_refl, true, ◌==◌, ◌∷◌, ◌≡◌,
}
use nft.Net.{ips_equal, is_ipv6, parses}
use nft.Rule.{Rule}
use nft.Resolve.{
  Locks, choose, lock_family, look_up, note_addrs, note_ip, pick_resolved_ip, resolve_hosts_opts,
  resolve_rule, take_addrs, take_ip,
}
use nft.Resolve.Picking.{Prints, is_allowed}
use nft.Resolve.Families.{resolve_hosts_opts-allowed}
use nft.Resolve.Settling.{resolve_hosts_opts-again}
use nft.Tests.Inputs.{is_known, known_addresses, test_net, web_rule}

abbrev answers : String → Option (List String)
answers host =
    if host == "exit.example" then some ("2001:db8::2" ∷ "10.0.0.2" ∷ "127.0.0.1" ∷ []) else none

abbrev open_locks : Locks
open_locks = record { block_v4 = false; block_v6 = false }

abbrev v4_only : Locks
v4_only = record { block_v4 = false; block_v6 = true }

abbrev hosted : String → Rule
hosted ip = record web_rule { dest_ip = ip; dest_host = "exit.example" }

-- The first IPv4 address is taken before any IPv6 address, an address that is still listed is kept, and
-- a literal of a locked family is refused.
takes_the_first :
    (resolve_hosts_opts test_net open_locks answers (hosted "" ∷ hosted "127.0.0.1" ∷ [])).rules
    ≡ hosted "10.0.0.2" ∷ hosted "127.0.0.1" ∷ []
unfolding resolve_hosts_opts resolve_rule lock_family look_up take_addrs take_ip pick_resolved_ip
    note_addrs note_ip choose is_ipv6 parses ips_equal
takes_the_first = refl

refuses_v6 :
    (resolve_hosts_opts test_net v4_only answers (record web_rule { dest_ip = "::1" } ∷ [])).rules
    ≡ record web_rule { dest_ip = ""; dest_host = "::1" } ∷ []
unfolding resolve_hosts_opts resolve_rule lock_family look_up take_addrs take_ip pick_resolved_ip
    note_addrs note_ip choose is_ipv6 parses ips_equal
refuses_v6 = refl

test_net-Prints : (locks : Locks) → Prints test_net locks
test_net-Prints locks s ip e = elim (Bool-cases (is_known known_addresses s)) [
  | inl known ↦
      let same : s ≡ ip = cc (rw known at e) in
      subst (λ x. (if is_known known_addresses x then some x else none) ≡ some x) same
        (rw known refl)
  | inr unknown ↦ absurd (cc (rw unknown at e))
]

resolve_hosts_opts-allowed_example :
    All
      (λ r. is_allowed test_net v4_only r.dest_ip ≡ true)
      (resolve_hosts_opts test_net v4_only answers (hosted "::1" ∷ hosted "127.0.0.1" ∷ [])).rules
resolve_hosts_opts-allowed_example =
    resolve_hosts_opts-allowed test_net v4_only (test_net-Prints v4_only) answers
      (hosted "::1" ∷ hosted "127.0.0.1" ∷ [])

resolve_hosts_opts-again_example :
    let once =
      resolve_hosts_opts test_net v4_only answers (hosted "::1" ∷ hosted "127.0.0.1" ∷ []) in
    let twice = resolve_hosts_opts test_net v4_only answers once.rules in
    (twice.rules ≡ once.rules) × (twice.changed ≡ false)
resolve_hosts_opts-again_example =
    resolve_hosts_opts-again test_net v4_only (λ ip. test_refl ip) answers (test_net-Prints v4_only)
      (hosted "::1" ∷ hosted "127.0.0.1" ∷ [])

-- A daemon whose panel rule names a host, which has an address in force.
abbrev hosted_node : Daemon
hosted_node = record {
  owners = ("panel", hosted "" ∷ []) ∷ [];
  last_applied_rev = "r1";
  last_resolved = hosted "10.0.0.2" ∷ [];
  live = hosted "10.0.0.2" ∷ [];
  saved = (("panel", hosted "" ∷ []) ∷ [], "r1");
}

merged_hosted_node : merged_ruleset hosted_node.owners ≡ ok (hosted "" ∷ [])
unfolding merged_ruleset merge_names merge_segment sort_names place_name keys get_or lookup insert
merged_hosted_node = refl

-- The outage takes the rule down.
refresh_once-in_outage_example :
    let w : World = record {
      resolve = in_outage test_net;
      applies = λ rules. true;
      saves = true;
      left = λ rules live. live;
    } in
    ((refresh_once w hosted_node).1.live ≡ [])
    × ((refresh_once w hosted_node).1.last_resolved ≡ [])
    × ((refresh_once w hosted_node).1.owners ≡ hosted_node.owners)
refresh_once-in_outage_example =
    unfold is_applyable in
    refresh_once-in_outage test_net (λ rules. true) true (λ rules live. live) hosted_node
      (hosted "" ∷ []) merged_hosted_node (unfold rules_differ in refl) refl
