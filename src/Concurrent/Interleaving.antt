-- ===== src/Concurrent/Interleaving.antt =====
-- What holds of the daemon however calls interleave.
use nft.Base.{
  All, All-append, All-append_left, All-append_right, Bool, Bool-cases, List, Result, String, err,
  inl, inr, ok, refl, subst, sym, ◌++◌, ◌∷◌, ◌≡◌,
}
use nft.Owners.{MergeConflict, OwnerRuleset, merged_ruleset}
use nft.Rule.{Rule}
use nft.Daemon.{Daemon, World, commit, partition_resolved, rules_differ}
use nft.Concurrent.{
  Caller, Phase, Reach, Step, System, advance, applied, apply_merged, apply_parts, enter, finished,
  here, moved, next, ready, snapped, turn,
}

abbrev pub Resolvers : Type 1
Resolvers = (List Rule → List Rule) → Type 0

-- The owners merge without a conflict.
abbrev pub Merges : OwnerRuleset → Type 0
Merges owners = (merged : List Rule) × (merged_ruleset owners ≡ ok merged)

-- The rules are those of the owners, as one of the resolvers in `uses` answers, without the ones that
-- have no address.
abbrev pub ResolvesTo : Resolvers → OwnerRuleset → List Rule → Type 0
ResolvesTo uses owners rules =
    (resolve : List Rule → List Rule) × uses resolve
    × ((merged : List Rule) × (merged_ruleset owners ≡ ok merged)
        × (rules ≡ (partition_resolved (resolve merged)).0))

abbrev pub Prepared : Resolvers → Phase → Type 0
Prepared uses ready = Unit
Prepared uses (snapped owners prev) = Unit
Prepared uses (applied candidate parts) = ResolvesTo uses candidate parts.0
Prepared uses (finished answer) = Unit

abbrev pub Sound : Resolvers → Daemon → Type 0
Sound uses d = ResolvesTo uses d.owners d.last_resolved × Merges d.saved.0

abbrev pub SoundSystem : Resolvers → System → Type 0
SoundSystem uses s = Sound uses s.daemon × All (λ c. Prepared uses c.phase) s.calls

-- Every call's resolver is one of them.
abbrev pub AllUse : Resolvers → System → Type 0
AllUse uses s = All (λ c. uses c.world.resolve) s.calls

module _ (uses : Resolvers) where
  apply_parts-Sound :
      (w : World) (save : Bool) (candidate : OwnerRuleset) (prev : List Rule)
      (parts : List Rule × List Rule) (d : Daemon)
      → ResolvesTo uses candidate parts.0
      → Sound uses d
      → Sound uses (apply_parts w save candidate prev parts d).1
        × Prepared uses (apply_parts w save candidate prev parts d).0
  unfolding apply_parts
  apply_parts-Sound w save candidate prev parts d r s =
      elim (Bool-cases (rules_differ prev parts.0)) [
        | inl differ ↦ elim (Bool-cases (w.applies parts.0)) [
          | inl applies ↦ rw (differ, applies) (s, r)
          | inr refused ↦ rw (differ, refused) (s, tt)
        ]
        | inr same ↦ elim (Bool-cases save) [
          | inl to_disk ↦ rw (same, to_disk) (s, r)
          | inr pass ↦ rw (same, pass) (s, tt)
        ]
      ]

  apply_merged-Sound :
      (w : World) (save : Bool) (candidate : OwnerRuleset) (prev : List Rule)
      (merged : Result MergeConflict (List Rule)) (d : Daemon)
      → uses w.resolve
      → merged_ruleset candidate ≡ merged
      → Sound uses d
      → Sound uses (apply_merged w save candidate prev merged d).1
        × Prepared uses (apply_merged w save candidate prev merged d).0
  unfolding apply_merged
  apply_merged-Sound w save candidate prev (err e) d used same s = (s, tt)
  apply_merged-Sound w save candidate prev (ok merged) d used same s =
      apply_parts-Sound w save candidate prev (partition_resolved (w.resolve merged)) d
        (w.resolve, used, (merged, same, refl)) s

  commit-Sound :
      (w : World) (candidate : OwnerRuleset) (rev : String) (save : Bool)
      (parts : List Rule × List Rule) (d : Daemon)
      → ResolvesTo uses candidate parts.0
      → Sound uses d
      → Sound uses (commit w candidate rev save parts d).1
  unfolding commit
  commit-Sound w candidate rev save parts d r s = elim (Bool-cases save) [
    | inl to_disk ↦ elim (Bool-cases w.saves) [
      | inl written ↦ rw (to_disk, written) (r, (r.2.0, r.2.1))
      | inr failed ↦ rw (to_disk, failed) s
    ]
    | inr pass ↦ rw pass (r, s.1)
  ]

  advance-Sound :
      (c : Caller) (p : Phase) (d : Daemon)
      → uses c.world.resolve
      → Prepared uses p
      → Sound uses d
      → Sound uses (advance c p d).1 × Prepared uses (advance c p d).0
  unfolding advance
  advance-Sound c ready d used prepared s = (s, tt)
  advance-Sound c (snapped owners prev) d used prepared s =
      apply_merged-Sound c.world c.save_to_disk (c.mutate owners) prev _ d used refl s
  advance-Sound c (applied candidate parts) d used prepared s =
      (commit-Sound c.world candidate _ c.save_to_disk parts d prepared s, tt)
  advance-Sound c (finished answer) d used prepared s = (s, tt)

  Step-SoundSystem :
      (s t : System) → Step s t → AllUse uses s → SoundSystem uses s → SoundSystem uses t
  Step-SoundSystem s t (turn before c after e f) in_set sound =
      let all : All (λ c'. Prepared uses c'.phase) (before ++ c ∷ after) =
        subst (All (λ c'. Prepared uses c'.phase)) e sound.1 in
      let in_use =
        All-append_right (λ c'. uses c'.world.resolve) before (c ∷ after)
          (subst (All (λ c'. uses c'.world.resolve)) e in_set) in
      let mine_used = in_use.0 in
      let old = All-append_left (λ c'. Prepared uses c'.phase) before (c ∷ after) all in
      let rest = All-append_right (λ c'. Prepared uses c'.phase) before (c ∷ after) all in
      let (now, mine) = advance-Sound c c.phase s.daemon mine_used rest.0 sound.0 in
      subst (SoundSystem uses) (sym f) (
        now,
        All-append (λ c'. Prepared uses c'.phase) before (moved c s.daemon ∷ after) old
            (mine, rest.1),
      )
  Step-SoundSystem s t (enter c e f) in_set sound =
      subst (SoundSystem uses) (sym f) (sound.0, (subst (Prepared uses) (sym e) tt, sound.1))

  Step-AllUse : (s t : System) → Step s t → AllUse uses t → AllUse uses s
  Step-AllUse s t (turn before c after e f) in_set =
      let calls : All (λ c'. uses c'.world.resolve) (before ++ moved c s.daemon ∷ after) =
        subst (AllUse uses) f in_set in
      let rest =
        All-append_right (λ c'. uses c'.world.resolve) before (moved c s.daemon ∷ after) calls in
      subst (All (λ c'. uses c'.world.resolve)) (sym e) (
        All-append (λ c'. uses c'.world.resolve) before (c ∷ after)
          (All-append_left (λ c'. uses c'.world.resolve) before (moved c s.daemon ∷ after) calls)
          rest)
  Step-AllUse s t (enter c e f) in_set = (subst (AllUse uses) f in_set).1

  -- However calls of reconcileOwners interleave, the owners in force and those on disk merge without a
  -- conflict, and the rules that the daemon remembers as applied are those of the owners in force, as one of
  -- the calls' resolvers answered, without the ones that have no address; when that held at the start. The
  -- resolvers are given as a set that holds that of each call.
  pub Reach-Sound :
      {s t : System} → Reach s t → AllUse uses t → SoundSystem uses s → SoundSystem uses t
  Reach-Sound here in_set sound = sound
  Reach-Sound (next {t} {u} r step) in_set sound =
      let before = Step-AllUse t u step in_set in
      Step-SoundSystem t u step before (Reach-Sound r before sound)
