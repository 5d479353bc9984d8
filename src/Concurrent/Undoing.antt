-- ===== src/Concurrent/Undoing.antt =====
-- A refresh that a write overtakes: the refresh of the DNS loop (refreshOnce of internal/daemon/dns.go)
-- takes its snapshot, waits for the resolver, and commits the snapshot.
use nft.Base.{List, Result, ap, false, inl, inr, ok, refl, subst, sym, true, ◌∙◌, ◌≡◌}
use nft.Owners.{OwnerRuleset, merged_ruleset}
use nft.Rule.{Rule}
use nft.Daemon.{
  Daemon, Outcome, Reconciled, World, WriteError, commit, partition_resolved, reconcile_owners,
  rules_differ,
}
use nft.Daemon.Reconciling.{InSync, Reached, reconcile_owners-Reached}
use nft.Concurrent.{Caller, Phase, advance, apply_merged, apply_parts, finish_with, finished, ready}
use nft.Concurrent.Alone.{turns, turns-reconcile_owners}

abbrev pub refresher : World → Caller
refresher w = record {
  world = w;
  mutate = λ owners. owners;
  meta_fn = λ rev. rev;
  save_to_disk = false;
  phase = ready;
}

-- The last two turns of a refresh that began in `old`, from the daemon as it is by then.
unfoldable pub late_refresh : World → Daemon → Daemon → Phase × Daemon
late_refresh w old d =
    let begun = advance (refresher w) ready old in turns 2 (refresher w) begun.0 d

unfoldable pub refresh_parts : World → List Rule → List Rule
refresh_parts w merged = (partition_resolved (w.resolve merged)).0

late_refresh_commits :
    (w : World) (old d : Daemon) (merged : List Rule)
    → merged_ruleset old.owners ≡ ok merged
    → rules_differ old.last_resolved (refresh_parts w merged) ≡ true
    → w.applies (refresh_parts w merged) ≡ true
    → (late_refresh w old d).1 ≡ record d {
      owners = old.owners;
      last_resolved = refresh_parts w merged;
      live = refresh_parts w merged;
    }
unfolding late_refresh turns advance apply_merged apply_parts commit refresh_parts
late_refresh_commits w old d merged valid differ applies = rw (valid, differ, applies) refl

finished_ok : (a b : Result WriteError Reconciled) → finished a ≡ finished b → a ≡ b
finished_ok a b e = cc e

ok-Reached :
    (w : World) (o : OwnerRuleset) (d : Daemon) (out : Outcome) (done : Reconciled)
    → Reached w o true d out
    → out.0 ≡ ok done
    → (out.1.owners ≡ o) × (out.1.saved.0 ≡ o)
ok-Reached w o d out done (inl (r, e, c, new)) f = (new.owners, new.on_disk refl)
ok-Reached w o d out done (inr (inl (inl (r, save), same))) f = absurd (cc save)
ok-Reached w o d out done (inr (inl (inr (x, e), same))) f = absurd (cc (e, f))
ok-Reached w o d out done (inr (inr (inl e, same))) f = absurd (cc (e, f))
ok-Reached w o d out done (inr (inr (inr (e, left), same))) f = absurd (cc (e, f))

write_done :
    (c : Caller) (d : Daemon) (done : Reconciled)
    → InSync d
    → c.save_to_disk ≡ true
    → (turns 3 c ready d).0 ≡ finished (ok done)
    → ((turns 3 c ready d).1.owners ≡ c.mutate d.owners)
      × ((turns 3 c ready d).1.saved.0 ≡ c.mutate d.owners)
write_done c d done sync save written =
    let out : Outcome = reconcile_owners c.world c.mutate c.meta_fn c.save_to_disk d in
    let same : turns 3 c ready d ≡ finish_with out = turns-reconcile_owners c d in
    let reached : Reached c.world (c.mutate d.owners) true d out =
      subst (λ b. Reached c.world (c.mutate d.owners) b d out) save
        (reconcile_owners-Reached c.world c.mutate c.meta_fn c.save_to_disk d sync) in
    let answer : out.0 ≡ ok done =
      finished_ok out.0 (ok done) (sym (ap (λ x. x.0) same) ∙ written) in
    let (owners, saved) = ok-Reached c.world (c.mutate d.owners) d out done reached answer in
    (ap (λ x. x.1.owners) same ∙ owners, ap (λ x. x.1.saved.0) same ∙ saved)

-- A write that was reported as done is undone by a refresh that began before it and sees a new address:
-- the daemon forgets it, the data plane runs the old owners' rules, and only the file on disk keeps it;
-- when the data plane ran what the daemon remembered, and it takes the refreshed rules.
pub late_refresh-undoes :
    (w : World) (c : Caller) (d : Daemon) (merged : List Rule) (done : Reconciled)
    → InSync d
    → c.save_to_disk ≡ true
    → (turns 3 c ready d).0 ≡ finished (ok done)
    → merged_ruleset d.owners ≡ ok merged
    → rules_differ d.last_resolved (refresh_parts w merged) ≡ true
    → w.applies (refresh_parts w merged) ≡ true
    → ((turns 3 c ready d).1.owners ≡ c.mutate d.owners)
      × ((late_refresh w d (turns 3 c ready d).1).1.owners ≡ d.owners)
      × ((late_refresh w d (turns 3 c ready d).1).1.live ≡ refresh_parts w merged)
      × ((late_refresh w d (turns 3 c ready d).1).1.saved.0 ≡ c.mutate d.owners)
late_refresh-undoes w c d merged done sync save written valid differ applies =
    let (owners, saved) = write_done c d done sync save written in
    let after = late_refresh_commits w d (turns 3 c ready d).1 merged valid differ applies in
    (owners, ap (λ x. x.owners) after, ap (λ x. x.live) after, ap (λ x. x.saved.0) after ∙ saved)
