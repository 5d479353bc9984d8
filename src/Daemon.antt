-- ===== src/Daemon.antt =====
-- The write path of the node daemon: internal/daemon/handlers.go (reconcileOwners and the mutations that
-- the handlers give it), dns.go and SetPanelRuleset of daemon.go. The state is what the mutex guards,
-- with the file on disk and the rules in the data plane beside it. DNS, the data plane and the file
-- system are parameters of a call: the resolver's answer, and whether applying and saving succeed.
pub mod Keys
pub mod Reconciling
pub mod Local
pub mod Deleting
pub mod Creating
use nft.Base.{
  Bool, List, Result, String, [], err, false, if◌then◌else◌, nat_eq, not, ok, pair_eq, string_eq,
  true, ◌&&◌, ◌==◌, ◌||◌, ◌∷◌,
}
use nft.Base.Assoc.{delete, insert}
use nft.Base.Int.{int_eq, ℤ}
use nft.Rule.{Rule, effective_mode}
use nft.Owners.{MergeConflict, OwnerRuleset, merged_ruleset}

-- The revision of the last panel ruleset, of AgentMeta.
pub record Daemon : Type 0 where
  pub owners : OwnerRuleset
  pub last_applied_rev : String
  pub last_resolved : List Rule
  pub live : List Rule
  pub saved : OwnerRuleset × String

-- What the world does during one call: `resolve` fills in addresses, `applies` tells whether the data
-- plane takes the rules, `saves` whether the state file is written, and `left` gives what the data plane
-- runs after it did not take some rules, from those and from what it ran: listeners that it has opened by
-- then stay open.
pub record World : Type 0 where
  pub resolve : List Rule → List Rule
  pub applies : List Rule → Bool
  pub saves : Bool
  pub left : List Rule → List Rule → List Rule

pub data WriteError : Type 0 where
  merge_failed : MergeConflict → WriteError
  apply_failed save_failed : WriteError

-- A literal address, or a host name that already has one.
unfoldable pub is_applyable : Rule → Bool
is_applyable r = r.dest_host == "" || not (r.dest_ip == "")

unfoldable pub partition_resolved : List Rule → List Rule × List Rule
partition_resolved [] = ([], [])
partition_resolved (r ∷ rs) =
    let rest = partition_resolved rs in
    if is_applyable r then (r ∷ rest.0, rest.1) else (rest.0, r ∷ rest.1)

-- The fields that the source joins into one text with a separator that no field holds.
abbrev pub DataplaneKey : Type 0
DataplaneKey = List String × List ℤ

unfoldable pub dataplane_key : Rule → DataplaneKey
dataplane_key r = (
  r.proto ∷ r.dest_ip ∷ r.dest_host ∷ effective_mode r ∷ r.exit_proxy ∷ [],
  r.src_port ∷ r.dest_port ∷ r.bandwidth_mbps ∷ r.shape_group ∷ r.rate_mbytes ∷ [],
)

unfoldable pub same_texts : List String → List String → Bool
same_texts [] [] = true
same_texts (a ∷ rest_a) (b ∷ rest_b) = a == b && same_texts rest_a rest_b
same_texts _ _ = false

unfoldable pub same_numbers : List ℤ → List ℤ → Bool
same_numbers [] [] = true
same_numbers (a ∷ rest_a) (b ∷ rest_b) = a == b && same_numbers rest_a rest_b
same_numbers _ _ = false

unfoldable pub rules_differ : List Rule → List Rule → Bool
rules_differ [] [] = false
rules_differ [] (b ∷ rest_b) = true
rules_differ (a ∷ rest_a) [] = true
rules_differ (a ∷ rest_a) (b ∷ rest_b) =
    let rest = rules_differ rest_a rest_b in
    not (
      same_texts (dataplane_key a).0 (dataplane_key b).0
      && same_numbers (dataplane_key a).1 (dataplane_key b).1)
    || rest

-- The result of reconcileOwners: what was applied, what is held back, and whether it was committed.
pub record Reconciled : Type 0 where
  pub applyable : List Rule
  pub unresolved : List Rule
  pub committed : Bool

abbrev pub Outcome : Type 0
Outcome = Result WriteError Reconciled × Daemon

-- The commit, under the mutex again.
unfoldable pub commit :
    World → OwnerRuleset → String → Bool → List Rule × List Rule → Daemon → Outcome
commit w candidate rev save_to_disk parts d =
    if save_to_disk && not w.saves then (err save_failed, d) else (
      ok (record { applyable = parts.0; unresolved = parts.1; committed = true }),
      record d {
        owners = candidate;
        last_applied_rev = rev;
        last_resolved = parts.0;
        saved = if save_to_disk then (candidate, rev) else d.saved;
      },
    )

-- After the merge and the resolution.
unfoldable pub apply_and_commit :
    World → OwnerRuleset → String → Bool → List Rule × List Rule → Daemon → Outcome
apply_and_commit w candidate rev save_to_disk parts d =
    if not (rules_differ d.last_resolved parts.0)
    then (if save_to_disk
        then commit w candidate rev save_to_disk parts d
        else (ok (record { applyable = parts.0; unresolved = parts.1; committed = false }), d))
    else if w.applies parts.0
    then commit w candidate rev save_to_disk parts (record d { live = parts.0 })
    else (err apply_failed, record d { live = w.left parts.0 d.live })

unfoldable pub reconcile_merged :
    World → OwnerRuleset → String → Bool → Result MergeConflict (List Rule) → Daemon → Outcome
reconcile_merged w candidate rev save_to_disk (err c) d = (err (merge_failed c), d)
reconcile_merged w candidate rev save_to_disk (ok merged) d =
    apply_and_commit w candidate rev save_to_disk (partition_resolved (w.resolve merged)) d

unfoldable pub reconcile_owners :
    World → (OwnerRuleset → OwnerRuleset) → (String → String) → Bool → Daemon → Outcome
reconcile_owners w mutate meta_fn save_to_disk d =
    let candidate = mutate d.owners in
    reconcile_merged w candidate (meta_fn d.last_applied_rev) save_to_disk
      (merged_ruleset candidate) d

-- refreshOnce: nothing is changed and nothing is saved.
unfoldable pub refresh_once : World → Daemon → Outcome
refresh_once w d = reconcile_owners w (λ o. o) (λ rev. rev) false d

unfoldable pub panel_segment : List Rule → OwnerRuleset → OwnerRuleset
panel_segment [] candidate = delete "panel" candidate
panel_segment (r ∷ rs) candidate = insert "panel" (r ∷ rs) candidate

unfoldable pub set_panel_ruleset : World → String → List Rule → Daemon → Outcome
set_panel_ruleset w rev rules d =
    reconcile_owners w (panel_segment rules) (λ old. if rev == "" then old else rev) true d

unfoldable pub clear_tui_segment : World → Daemon → Outcome
clear_tui_segment w d = reconcile_owners w (delete "tui") (λ rev. rev) true d
