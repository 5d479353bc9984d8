-- ===== src/Concurrent/Alone.antt =====
-- A call that nothing interrupts.
use nft.Owners.{MergeConflict, OwnerRuleset, merged_ruleset}
use nft.Rule.{Rule}
use nft.Base.{Bool-cases, List, Result, err, inl, inr, ok, refl, suc, zero, ℕ, ◌≡◌}
use nft.Daemon.{
  Daemon, apply_and_commit, partition_resolved, reconcile_merged, reconcile_owners, rules_differ,
}
use nft.Concurrent.{Caller, Phase, advance, apply_merged, apply_parts, finish_with, ready}

-- Its turns, one after the other.
unfoldable pub turns : ℕ → Caller → Phase → Daemon → Phase × Daemon
turns zero c p d = (p, d)
turns (suc n) c p d = let one = advance c p d in turns n c one.0 one.1

abbrev commit_of : Caller → Phase × Daemon → Phase × Daemon
commit_of c (p, d) = advance c p d

apply_parts-commit :
    (c : Caller) (candidate : OwnerRuleset) (parts : List Rule × List Rule) (d : Daemon)
    → commit_of c (apply_parts c.world c.save_to_disk candidate d.last_resolved parts d)
      ≡ finish_with
          (apply_and_commit c.world candidate (c.meta_fn d.last_applied_rev) c.save_to_disk parts d)
unfolding advance apply_parts apply_and_commit
apply_parts-commit c candidate parts d = elim (Bool-cases (rules_differ d.last_resolved parts.0)) [
  | inl differ ↦ elim (Bool-cases (c.world.applies parts.0)) [
    | inl applies ↦ rw (differ, applies) refl
    | inr refused ↦ rw (differ, refused) refl
  ]
  | inr same ↦ elim (Bool-cases c.save_to_disk) [
    | inl save ↦ rw (same, save) refl
    | inr pass ↦ rw (same, pass) refl
  ]
]

apply_merged-commit :
    (c : Caller) (candidate : OwnerRuleset) (merged : Result MergeConflict (List Rule)) (d : Daemon)
    → commit_of c (apply_merged c.world c.save_to_disk candidate d.last_resolved merged d)
      ≡ finish_with (
          reconcile_merged c.world candidate (c.meta_fn d.last_applied_rev) c.save_to_disk merged d)
unfolding advance apply_merged reconcile_merged
apply_merged-commit c candidate (err e) d = refl
apply_merged-commit c candidate (ok merged) d =
    apply_parts-commit c candidate (partition_resolved (c.world.resolve merged)) d

pub turns-reconcile_owners :
    (c : Caller) (d : Daemon)
    → turns 3 c ready d ≡ finish_with (reconcile_owners c.world c.mutate c.meta_fn c.save_to_disk d)
unfolding turns advance reconcile_owners
turns-reconcile_owners c d =
    apply_merged-commit c (c.mutate d.owners) (merged_ruleset (c.mutate d.owners)) d
