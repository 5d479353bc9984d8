-- ===== src/Daemon/Reconciling.antt =====
-- What `reconcileOwners` of internal/daemon/handlers.go leaves, on every path.
use nft.Base.{
  Bool, Bool-cases, List, Result, String, [], ap, arith, err, false, filterb, inl, inr, not, ok,
  refl, true, ◌&&◌, ◌∙◌, ◌∷◌, ◌≡◌, ◌⊎◌,
}
use nft.Rule.{Rule}
use nft.Owners.{MergeConflict, OwnerRuleset, merged_ruleset}
use nft.Daemon.{
  Daemon, Outcome, Reconciled, World, WriteError, apply_and_commit, apply_failed, commit,
  is_applyable, merge_failed, partition_resolved, reconcile_merged, reconcile_owners, refresh_once,
  rules_differ, save_failed,
}
use nft.Daemon.Keys.{rules_differ_iff}

-- The data plane runs what the daemon remembers as applied, up to labels.
abbrev pub InSync : Daemon → Type 0
InSync d = rules_differ d.live d.last_resolved ≡ false

rules_differ_self : (xs : List Rule) → rules_differ xs xs ≡ false
rules_differ_self xs = (rules_differ_iff xs xs).1 refl

partition_resolved_first : (rs : List Rule) → (partition_resolved rs).0 ≡ filterb is_applyable rs
unfolding partition_resolved
partition_resolved_first [] = refl
partition_resolved_first (r ∷ rs) = ground (arith, partition_resolved_first rs)

-- The candidate owners were committed: on disk if asked for, and running in the data plane: their merge,
-- resolved, without the rules that have no address.
pub record Committed (w : World) (o : OwnerRuleset) (save : Bool) (d : Daemon) : Type 0 where
  pub owners : d.owners ≡ o
  pub on_disk : save ≡ true → d.saved.0 ≡ o
  pub in_sync : InSync d
  pub merged : List Rule
  pub valid : merged_ruleset o ≡ ok merged
  pub applied : d.last_resolved ≡ filterb is_applyable (w.resolve merged)

-- The outcomes: committed; left alone, because the owners are in conflict, or because nothing has changed
-- in the data plane and nothing was to be saved; or, when the data plane refuses or the state file cannot
-- be written, the old state over a data plane that may run other rules: after a refusal, what that left.
abbrev pub Reached : World → OwnerRuleset → Bool → Daemon → Outcome → Type 0
Reached w candidate save d out =
    ((r : Reconciled) × (out.0 ≡ ok r) × (r.committed ≡ true) × Committed w candidate save out.1)
    ⊎ ((((((r : Reconciled) × (out.0 ≡ ok r) × (r.committed ≡ false)) × (save ≡ false))
            ⊎ ((c : MergeConflict) × (out.0 ≡ err (merge_failed c))))
          × (out.1 ≡ d))
        ⊎ (((out.0 ≡ err save_failed)
              ⊎ ((out.0 ≡ err apply_failed)
                  × ((rules : List Rule) × (out.1.live ≡ w.left rules d.live))))
            × (record out.1 { live = d.live } ≡ d)))

commit-Reached :
    (w : World) (candidate : OwnerRuleset) (rev : String) (save : Bool)
    (parts : List Rule × List Rule) (d : Daemon) (live merged : List Rule)
    → rules_differ live parts.0 ≡ false
    → merged_ruleset candidate ≡ ok merged
    → parts.0 ≡ filterb is_applyable (w.resolve merged)
    → Reached w candidate save d (commit w candidate rev save parts (record d { live = live }))
unfolding commit
commit-Reached w candidate rev save parts d live merged sync valid applied =
    elim (Bool-cases (save && not w.saves)) [
      | inl refused ↦ rw refused (inr (inr (inl refl, refl)))
      | inr fine ↦ rw fine (
          inl (
            _,
            refl,
            refl,
            record {
              owners = refl;
              on_disk = λ s. ground (arith, s);
              in_sync = sync;
              merged = merged;
              valid = valid;
              applied = applied;
            },
          ))
    ]

apply_and_commit-Reached :
    (w : World) (candidate : OwnerRuleset) (rev : String) (save : Bool) (merged : List Rule)
    (d : Daemon)
    → merged_ruleset candidate ≡ ok merged
    → InSync d
    → Reached w candidate save d
        (apply_and_commit w candidate rev save (partition_resolved (w.resolve merged)) d)
unfolding apply_and_commit
apply_and_commit-Reached w candidate rev save merged d valid sync =
    let parts : List Rule × List Rule = partition_resolved (w.resolve merged) in
    elim (Bool-cases (rules_differ d.last_resolved parts.0)) [
      | inl moved ↦ elim (Bool-cases (w.applies parts.0)) [
        | inl applied ↦
            rw (moved, applied)
              (commit-Reached w candidate rev save parts d parts.0 merged
                (rules_differ_self parts.0) valid (partition_resolved_first (w.resolve merged)))
        | inr refused ↦ rw (moved, refused) (inr (inr (inr (refl, (parts.0, refl)), refl)))
      ]
      | inr still ↦ elim (Bool-cases save) [
        | inl saving ↦
            let same : rules_differ d.live parts.0 ≡ false = (rules_differ_iff d.live parts.0).1 (
              (rules_differ_iff d.live d.last_resolved).0 sync
              ∙ (rules_differ_iff d.last_resolved parts.0).0 still) in
            rw (still, saving)
              (commit-Reached w candidate rev true parts d d.live merged same valid
                (partition_resolved_first (w.resolve merged)))
        | inr skipping ↦ rw (still, skipping) (inr (inl (inl ((_, refl, refl), refl), refl)))
      ]
    ]

reconcile_merged-Reached :
    (w : World) (candidate : OwnerRuleset) (rev : String) (save : Bool)
    (m : Result MergeConflict (List Rule)) (d : Daemon)
    → merged_ruleset candidate ≡ m
    → InSync d
    → Reached w candidate save d (reconcile_merged w candidate rev save m d)
unfolding reconcile_merged
reconcile_merged-Reached w candidate rev save (err c) d valid sync = inr (inl (inr (c, refl), refl))
reconcile_merged-Reached w candidate rev save (ok merged) d valid sync =
    apply_and_commit-Reached w candidate rev save merged d valid sync

-- A call that starts with the data plane running what the daemon remembers ends in one of four ways:
-- the new owners are committed, on disk if asked for, and the data plane runs their merge, resolved,
-- without the rules that have no address; or nothing has changed, because the owners are in conflict or,
-- with no error, because nothing was to be saved; or the data plane did not take the rules, and nothing has
-- changed but what that left running; or the state file could not be written, and nothing has changed but
-- the data plane.
pub reconcile_owners-Reached :
    (w : World) (mutate : OwnerRuleset → OwnerRuleset) (meta_fn : String → String) (save : Bool)
    (d : Daemon)
    → InSync d
    → Reached w (mutate d.owners) save d (reconcile_owners w mutate meta_fn save d)
unfolding reconcile_owners
reconcile_owners-Reached w mutate meta_fn save d sync =
    reconcile_merged-Reached w (mutate d.owners) (meta_fn d.last_applied_rev) save
      (merged_ruleset (mutate d.owners)) d refl sync

error_keeps :
    (w : World) (candidate : OwnerRuleset) (save : Bool) (d : Daemon) (out : Outcome)
    (x : WriteError)
    → Reached w candidate save d out
    → out.0 ≡ err x
    → (out.1.owners ≡ d.owners) × (out.1.last_resolved ≡ d.last_resolved)
error_keeps w candidate save d out x (inl (r, done, rest, new)) e = cc (done, e)
error_keeps w candidate save d out x (inr (inl (why, same))) e =
    (ap (λ s. s.owners) same, ap (λ s. s.last_resolved) same)
error_keeps w candidate save d out x (inr (inr (failed, same))) e =
    (ap (λ s. s.owners) same, ap (λ s. s.last_resolved) same)

refresh_once_still :
    (w : World) (d : Daemon) (merged : List Rule)
    → merged_ruleset d.owners ≡ ok merged
    → rules_differ d.last_resolved (partition_resolved (w.resolve merged)).0 ≡ false
    → (refresh_once w d).1 ≡ d
unfolding refresh_once reconcile_owners reconcile_merged apply_and_commit
refresh_once_still w d merged valid still = rw (valid, still) refl

-- After a write that failed to save, a refresh does not bring the data plane back to the owners that
-- are still in force: while their targets keep their addresses, it leaves every part of the state as
-- the failed write left it, the rules in the data plane among them.
pub failed_save_not_repaired :
    (w later : World) (mutate : OwnerRuleset → OwnerRuleset) (meta_fn : String → String)
    (d : Daemon) (merged : List Rule)
    → InSync d
    → (reconcile_owners w mutate meta_fn true d).0 ≡ err save_failed
    → merged_ruleset d.owners ≡ ok merged
    → rules_differ d.last_resolved (partition_resolved (later.resolve merged)).0 ≡ false
    → (refresh_once later (reconcile_owners w mutate meta_fn true d).1).1
      ≡ (reconcile_owners w mutate meta_fn true d).1
failed_save_not_repaired w later mutate meta_fn d merged sync failed valid still =
    let out : Outcome = reconcile_owners w mutate meta_fn true d in
    let (owners, resolved) =
      error_keeps w (mutate d.owners) true d out save_failed
        (reconcile_owners-Reached w mutate meta_fn true d sync) failed in
    refresh_once_still later out.1 merged (ap merged_ruleset owners ∙ valid)
      (ap (λ l. rules_differ l (partition_resolved (later.resolve merged)).0) resolved ∙ still)
