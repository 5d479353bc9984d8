-- ===== src/Resolve/Outage.antt =====
-- A DNS refresh of the daemon while the resolver fails: internal/daemon/dns.go and internal/daemon/handlers.go
-- over ResolveHosts.
use nft.Base.{
  Bool, List, Option, String, [], ap, arith, false, filterb, none, ok, refl, true, ◌∙◌, ◌∷◌, ◌≡◌,
}
use nft.Net.{Net}
use nft.Rule.{Rule}
use nft.Owners.{merged_ruleset}
use nft.Daemon.{
  Daemon, World, apply_and_commit, commit, is_applyable, partition_resolved, reconcile_merged,
  reconcile_owners, refresh_once, rules_differ,
}
use nft.Resolve.{Locks, lock_family, look_up, resolve_hosts_opts, resolve_rule, take_addrs}

abbrev pub unlocked : Locks
unlocked = record { block_v4 = false; block_v6 = false }

abbrev pub no_answer : String → Option (List String)
no_answer host = none

module _ {ℓ} {Ip : Type ℓ} (net : Net Ip) where
  -- ResolveHosts, as the daemon calls it, with a resolver that fails for every host.
  abbrev pub in_outage : List Rule → List Rule
  in_outage rules = (resolve_hosts_opts net unlocked no_answer rules).rules

  resolve_rule-outage : (r : Rule) → (resolve_rule net unlocked no_answer r).0 ≡ r
  unfolding resolve_rule lock_family look_up take_addrs
  resolve_rule-outage r = ground arith

  in_outage-same : (rules : List Rule) → in_outage rules ≡ rules
  unfolding resolve_hosts_opts
  in_outage-same [] = refl
  in_outage-same (r ∷ rules) = rw (resolve_rule-outage r, in_outage-same rules) refl

  partition_resolved-filterb :
      (rules : List Rule) → (partition_resolved rules).0 ≡ filterb is_applyable rules
  unfolding partition_resolved
  partition_resolved-filterb [] = refl
  partition_resolved-filterb (r ∷ rules) = ground (arith, partition_resolved-filterb rules)

  -- While the resolver fails, a refresh leaves the data plane with those rules alone that have an address in
  -- the stored owners, whatever addresses were in force, when this differs from what was applied before and
  -- the data plane takes it.
  pub refresh_once-in_outage :
      (applies : List Rule → Bool) (saves : Bool) (left : List Rule → List Rule → List Rule)
      (d : Daemon) (merged : List Rule)
      → merged_ruleset d.owners ≡ ok merged
      → rules_differ d.last_resolved (filterb is_applyable merged) ≡ true
      → applies (filterb is_applyable merged) ≡ true
      → let w : World = record {
        resolve = in_outage;
        applies = applies;
        saves = saves;
        left = left;
      } in
        ((refresh_once w d).1.live ≡ filterb is_applyable merged)
        × ((refresh_once w d).1.last_resolved ≡ filterb is_applyable merged)
        × ((refresh_once w d).1.owners ≡ d.owners)
  unfolding refresh_once reconcile_owners reconcile_merged apply_and_commit commit
  refresh_once-in_outage applies saves left d merged merges differs takes =
      let parts : (partition_resolved (in_outage merged)).0 ≡ filterb is_applyable merged =
        ap (λ rs. (partition_resolved rs).0) (in_outage-same merged)
        ∙ partition_resolved-filterb merged in
      rw (merges, parts, differs, takes) (refl, refl, refl)
