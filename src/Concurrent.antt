-- ===== src/Concurrent.antt =====
-- Calls of reconcileOwners (internal/daemon/handlers.go) that run at the same time. The mutex guards the
-- snapshot and the commit, and `reconcileMu` the data plane; between them any other call may run. So a
-- call takes three turns, each of which is one step.
pub mod Alone
pub mod Interleaving
pub mod Undoing
use nft.Base.{Bool, List, Result, String, err, false, if◌then◌else◌, not, ok, ◌++◌, ◌∷◌, ◌≡◌}
use nft.Rule.{Rule}
use nft.Owners.{MergeConflict, OwnerRuleset, merged_ruleset}
use nft.Daemon.{
  Daemon, Outcome, Reconciled, World, WriteError, apply_failed, commit, merge_failed,
  partition_resolved, rules_differ,
}

pub data Phase : Type 0 where
  ready : Phase
  -- The owners and the rules that it found.
  snapped : OwnerRuleset → List Rule → Phase
  -- What it is about to commit.
  applied : OwnerRuleset → List Rule × List Rule → Phase
  finished : Result WriteError Reconciled → Phase

-- The arguments of a call, what the world will do for it, and how far it is.
pub record Caller : Type 0 where
  pub world : World
  pub mutate : OwnerRuleset → OwnerRuleset
  pub meta_fn : String → String
  pub save_to_disk : Bool
  pub phase : Phase

abbrev pub not_needed : List Rule × List Rule → Result WriteError Reconciled
not_needed parts = ok (record { applyable = parts.0; unresolved = parts.1; committed = false })

-- From the merge to the data plane.
unfoldable pub apply_parts :
    World → Bool → OwnerRuleset → List Rule → List Rule × List Rule → Daemon → Phase × Daemon
apply_parts w save_to_disk candidate prev parts d =
    if not (rules_differ prev parts.0)
    then (if save_to_disk then (applied candidate parts, d) else (finished (not_needed parts), d))
    else if w.applies parts.0
    then (applied candidate parts, record d { live = parts.0 })
    else (finished (err apply_failed), record d { live = w.left parts.0 d.live })

unfoldable pub apply_merged :
    World
    → Bool
    → OwnerRuleset
    → List Rule
    → Result MergeConflict (List Rule)
    → Daemon
    → Phase × Daemon
apply_merged w save_to_disk candidate prev (err c) d = (finished (err (merge_failed c)), d)
apply_merged w save_to_disk candidate prev (ok merged) d =
    apply_parts w save_to_disk candidate prev (partition_resolved (w.resolve merged)) d

abbrev pub finish_with : Outcome → Phase × Daemon
finish_with (answer, d) = (finished answer, d)

-- One turn of a call.
unfoldable pub advance : Caller → Phase → Daemon → Phase × Daemon
advance c ready d = (snapped d.owners d.last_resolved, d)
advance c (snapped owners prev) d =
    let candidate = c.mutate owners in
    apply_merged c.world c.save_to_disk candidate prev (merged_ruleset candidate) d
advance c (applied candidate parts) d =
    finish_with (commit c.world candidate (c.meta_fn d.last_applied_rev) c.save_to_disk parts d)
advance c (finished answer) d = (finished answer, d)

pub record System : Type 0 where
  pub daemon : Daemon
  pub calls : List Caller

abbrev pub moved : Caller → Daemon → Caller
moved c d = record c { phase = (advance c c.phase d).0 }

-- One of the calls takes a turn, or a new one comes in.
pub data Step (s t : System) : Type 0 where
  turn :
      (before : List Caller) (c : Caller) (after : List Caller)
      → s.calls ≡ before ++ c ∷ after
      → t ≡ record {
        daemon = (advance c c.phase s.daemon).1;
        calls = before ++ moved c s.daemon ∷ after;
      }
      → Step s t
  enter : (c : Caller) → c.phase ≡ ready → t ≡ record s { calls = c ∷ s.calls } → Step s t

pub data Reach (s : System) : System → Type 0 where
  here : Reach s s
  next : {t u : System} → Reach s t → Step t u → Reach s u
