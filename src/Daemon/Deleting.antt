-- ===== src/Daemon/Deleting.antt =====
-- What a local deletion does.
use nft.Base.Assoc.{get_or}
use nft.Daemon.Reconciling.{Committed, InSync, Reached, reconcile_owners-Reached}
use nft.Owners.{OwnerRuleset}
use nft.Base.{
  Bool, Bool-cases, List, Option, String, [], any, ap, err, false, inl, inr, nat_eq, none, ok,
  pair_eq, refl, some, string_eq, subst, sym, true, ℕ, ◌++◌, ◌==◌, ◌∙◌, ◌∷◌, ◌≡◌, ◌⊎◌,
}
use nft.Rule.{Rule, codes}
use nft.Daemon.{Daemon, Outcome, Reconciled, World, reconcile_owners}
use nft.Daemon.Local.{
  answer, delete_first, delete_local, delete_unless, done, handle_delete_rule, parse_rule_id,
}

-- A rule list with the rule of an id taken out, or without one.
abbrev pub Removed : String → List Rule → List Rule × Bool → Type 0
Removed id rs out =
    ((out.1 ≡ true)
      × (before : List Rule) × (r : Rule) × (after : List Rule) × (rs ≡ before ++ r ∷ after)
      × (out.0 ≡ before ++ after)
      × (r.id ≡ id))
    ⊎ ((out.1 ≡ false) × (out.0 ≡ rs) × (any (λ r. r.id == id) rs ≡ false))

delete_first-Removed : (id : String) (rs : List Rule) → Removed id rs (delete_first id rs)
unfolding delete_first
delete_first-Removed id [] = inr (refl, refl, refl)
delete_first-Removed id (r ∷ rs) = elim (Bool-cases (r.id == id)) [
  | inl here ↦ rw here (inl (refl, [], r, rs, refl, refl, (string_eq.test_iff r.id id).0 here))
  | inr elsewhere ↦ rw elsewhere (elim (delete_first-Removed id rs) [
    | inl (found, before, s, after, split, left, same) ↦
        inl (found, r ∷ before, s, after, ap (λ l. r ∷ l) split, ap (λ l. r ∷ l) left, same)
    | inr (missing, whole, absent) ↦ inr (missing, ap (λ l. r ∷ l) whole, absent)
  ])
]

committed :
    (w : World) (candidate : OwnerRuleset) (d : Daemon) (out : Outcome) (r : Reconciled)
    → out.0 ≡ ok r
    → Reached w candidate true d out
    → Committed w candidate true out.1
committed w candidate d out r fine (inl (q, fit, rest, new)) = new
committed w candidate d out r fine (inr (inl (inl (q, unsaved), same))) = cc unsaved
committed w candidate d out r fine (inr (inl (inr (x, failed), same))) = cc (fine, failed)
committed w candidate d out r fine (inr (inr (inl failed, same))) = cc (fine, failed)
committed w candidate d out r fine (inr (inr (inr (failed, left), same))) = cc (fine, failed)

answer_done :
    (found : Bool) (out : Outcome)
    → (answer found out).0 ≡ done
    → (found ≡ true) × ((r : Reconciled) × (out.0 ≡ ok r)) × ((answer found out).1 ≡ out.1)
unfolding answer
answer_done true (ok r, d) h = (refl, (r, refl), refl)
answer_done false (ok r, d) h = cc h
answer_done found (err e, d) h = cc h

abbrev pub TakenOut : String → List Rule → Type 0
TakenOut id rs =
    (before : List Rule) × (r : Rule) × (after : List Rule) × (rs ≡ before ++ r ∷ after)
    × ((delete_first id rs).0 ≡ before ++ after)
    × (r.id ≡ id)

taken_out : (id : String) (rs : List Rule) → (delete_first id rs).1 ≡ true → TakenOut id rs
taken_out id rs found = elim (delete_first-Removed id rs) [
  | inl (here, before, r, after, split, left, same) ↦ (before, r, after, split, left, same)
  | inr (missing, whole, absent) ↦ cc (found, missing)
]

-- An id that is read as a panel rule's gets no further than the guard.
local_only :
    (w : World) (id : String) (d : Daemon) (o : Option ℕ)
    → (delete_unless o w id d).0 ≡ done
    → (o ≡ none) × ((delete_unless o w id d) ≡ delete_unless none w id d)
unfolding delete_unless
local_only w id d none h = (refl, refl)
local_only w id d (some n) h = cc h

-- When the deletion of a local rule is reported as done, the "tui" segment has lost exactly one rule of
-- that id, and the new owners are on disk and running in the data plane, but for rules without an
-- address; the data plane having run what the daemon remembered before.
pub handle_delete_rule_done :
    (w : World) (id : String) (d : Daemon)
    → InSync d
    → (handle_delete_rule w id d).0 ≡ done
    → Committed w (delete_local id d.owners).0 true (handle_delete_rule w id d).1
      × TakenOut id (get_or [] "tui" d.owners)
unfolding handle_delete_rule delete_unless delete_local
handle_delete_rule_done w id d sync h =
    let (free, local) = local_only w id d (parse_rule_id (codes id)) h in
    let out : Outcome = reconcile_owners w (λ o. (delete_local id o).0) (λ rev. rev) true d in
    let asked : (answer (delete_local id d.owners).1 out).0 ≡ done =
      ap (λ p. p.0) (sym local) ∙ h in
    let (found, (r, fine), state) = answer_done (delete_local id d.owners).1 out asked in
    let same : (handle_delete_rule w id d).1 ≡ out.1 = ap (λ p. p.1) local ∙ state in
    (
      subst (Committed w (delete_local id d.owners).0 true) (sym same) (
          committed w (delete_local id d.owners).0 d out r fine
            (reconcile_owners-Reached w (λ o. (delete_local id o).0) (λ rev. rev) true d sync)),
      taken_out id (get_or [] "tui" d.owners) found,
    )
