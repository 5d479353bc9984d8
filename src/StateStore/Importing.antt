-- ===== src/StateStore/Importing.antt =====
-- The import of the legacy files, internal/daemon/migrate.go, over two starts of the daemon.
use nft.Base.{
  Bool, Option, Result-cases, String, [], ap, arith, err, false, inl, inr, none, ok, refl, some,
  true, ◌∙◌, ◌∷◌, ◌≡◌,
}
use nft.StateStore.Saving.{file-save_state}
use nft.Owners.{OwnerRuleset}
use nft.StateStore.{
  Codec, Disk, FileCalls, Files, LegacyFile, LegacyFiles, SaveError, Start, boot_migrated,
  boot_state, booted, consume, load_after, load_state, migrate_agent, migrate_embedded,
  migrate_file, migrate_legacy_state, read_legacy_rules, save_migrated, save_state, zero_meta,
}

module _ {ℓ} {B : Type ℓ} (c : Codec B) where
  -- The text null, which is read as no file.
  unfoldable pub is_null : LegacyFile B → Bool
  is_null f = elim f.current [
    | none ↦ false
    | some b ↦ elim (c.as_rules b) [ some none ↦ true | _ ↦ false ]
  ]

  abbrev pub UsedUp : LegacyFiles B → Type ℓ
  UsedUp fs = (fs.tui.current ≡ none) × (fs.agent.current ≡ none) × (fs.embedded.current ≡ none)

  current-migrate_file :
      (w : FileCalls) (owner : String) (f : LegacyFile B) (out out2 : OwnerRuleset)
      → is_null f ≡ false
      → (migrate_file c w owner f out).0 ≡ ok out2
      → (migrate_file c w owner f out).1.current ≡ none
  unfolding migrate_file read_legacy_rules consume is_null
  current-migrate_file w owner f out out2 full e = ground arith

  migrate_legacy_state-UsedUp :
      (w w_agent w_embedded : FileCalls) (fs : LegacyFiles B) (owners : OwnerRuleset)
      → is_null fs.tui ≡ false
      → is_null fs.agent ≡ false
      → is_null fs.embedded ≡ false
      → (migrate_legacy_state c w w_agent w_embedded fs).0 ≡ ok owners
      → UsedUp (migrate_legacy_state c w w_agent w_embedded fs).1
  unfolding migrate_legacy_state migrate_agent migrate_embedded
  migrate_legacy_state-UsedUp w w_agent w_embedded fs owners full_t full_a full_e e =
      elim (Result-cases (migrate_file c w "tui" fs.tui []).0) [
        | inr (x, failed) ↦ ground arith
        | inl (o1, e1) ↦ elim (Result-cases (migrate_file c w_agent "panel" fs.agent o1).0) [
          | inr (x, failed) ↦ ground arith
          | inl (o2, e2) ↦
              let last : (migrate_file c w_embedded "panel" fs.embedded o2).0 ≡ ok owners =
                ground arith in
              let tui = current-migrate_file w "tui" fs.tui [] o1 full_t e1 in
              let agent = current-migrate_file w_agent "panel" fs.agent o1 o2 full_a e2 in
              let embedded =
                current-migrate_file w_embedded "panel" fs.embedded o2 owners full_e last in
              (ground arith, ground arith, ground arith)
        ]
      ]

  migrate_legacy_state-again :
      (w w_agent w_embedded : FileCalls) (fs : LegacyFiles B)
      → UsedUp fs
      → (migrate_legacy_state c w w_agent w_embedded fs).0 ≡ ok []
  unfolding migrate_legacy_state migrate_agent migrate_embedded migrate_file read_legacy_rules
  migrate_legacy_state-again w w_agent w_embedded fs (t, a, e) = rw (t, a, e) refl

  load_after-files :
      (w : Start B) (legacy : LegacyFiles B) (save : Option SaveError × Disk B)
      → (load_after c w legacy save).1 ≡ record { disk = save.1; legacy = legacy }
  unfolding load_after
  load_after-files w legacy (none, disk) = refl
  load_after-files w legacy (some e, disk) = refl

  load_after-failed :
      (w : Start B) (legacy : LegacyFiles B) (save : Option SaveError × Disk B) (e : SaveError)
      → save.0 ≡ some e
      → (load_after c w legacy save).0 ≡ err (save_migrated e)
  unfolding load_after
  load_after-failed w legacy (none, disk) e failed = cc failed
  load_after-failed w legacy (some x, disk) e failed = ground (arith, failed)

  boot_state_fresh :
      (w : Start B) (fs : Files B)
      → fs.disk.file ≡ none
      → boot_state c w fs
        ≡ boot_migrated c w fs.disk (migrate_legacy_state c w.tui w.agent w.embedded fs.legacy)
  unfolding boot_state
  boot_state_fresh w fs fresh = rw fresh refl

  boot_state-imports :
      (w : Start B) (fs : Files B) (owners : OwnerRuleset)
      → fs.disk.file ≡ none
      → ¬ (owners ≡ [])
      → (migrate_legacy_state c w.tui w.agent w.embedded fs.legacy).0 ≡ ok owners
      → (boot_state c w fs).1 ≡ record {
        disk = (save_state c w.saves owners zero_meta fs.disk).1;
        legacy = (migrate_legacy_state c w.tui w.agent w.embedded fs.legacy).1;
      }
  unfolding boot_state boot_migrated
  boot_state-imports w fs [] fresh some_rules imported = absurd (some_rules refl)
  boot_state-imports w fs (s ∷ rest) fresh some_rules imported =
      ap (λ x. x.1) (boot_state_fresh w fs fresh)
      ∙ (rw (imported, boot_migrated)
          (load_after-files w _ (save_state c w.saves (s ∷ rest) zero_meta fs.disk)))

  boot_state-saves :
      (w : Start B) (fs : Files B) (owners : OwnerRuleset) (e : SaveError)
      → fs.disk.file ≡ none
      → ¬ (owners ≡ [])
      → (migrate_legacy_state c w.tui w.agent w.embedded fs.legacy).0 ≡ ok owners
      → (save_state c w.saves owners zero_meta fs.disk).0 ≡ some e
      → (boot_state c w fs).0 ≡ err (save_migrated e)
  unfolding boot_migrated
  boot_state-saves w fs [] e fresh some_rules imported failed = absurd (some_rules refl)
  boot_state-saves w fs (s ∷ rest) e fresh some_rules imported failed =
      ap (λ x. x.0) (boot_state_fresh w fs fresh)
      ∙ rw (imported, boot_migrated) (load_after-failed w _ _ e failed)

  -- A start that finds neither a state file nor a legacy file.
  boot_state-empty :
      (w : Start B) (fs : Files B)
      → fs.disk.file ≡ none
      → UsedUp fs.legacy
      → (boot_state c w fs).0 ≡ ok ([], zero_meta)
  unfolding boot_migrated load_after load_state booted
  boot_state-empty w fs fresh used =
      ap (λ x. x.0) (boot_state_fresh w fs fresh)
      ∙ rw (migrate_legacy_state-again w.tui w.agent w.embedded fs.legacy used, fresh) refl

  -- When the first start has imported rules from legacy files, which it renames before it saves, and the
  -- save fails, that start ends with the error, and the next start goes on without an error and with no
  -- rules at all; when there was no state file and no imported file holds the text null.
  pub boot_state-forgets :
      (w w2 : Start B) (fs : Files B) (owners : OwnerRuleset) (e : SaveError)
      → fs.disk.file ≡ none
      → is_null fs.legacy.tui ≡ false
      → is_null fs.legacy.agent ≡ false
      → is_null fs.legacy.embedded ≡ false
      → (migrate_legacy_state c w.tui w.agent w.embedded fs.legacy).0 ≡ ok owners
      → ¬ (owners ≡ [])
      → (save_state c w.saves owners zero_meta fs.disk).0 ≡ some e
      → ((boot_state c w fs).0 ≡ err (save_migrated e))
        × ((boot_state c w2 (boot_state c w fs).1).0 ≡ ok ([], zero_meta))
  boot_state-forgets w w2 fs owners e fresh full_t full_a full_e imported some_rules failed =
      let first = boot_state-imports w fs owners fresh some_rules imported in
      let used =
        migrate_legacy_state-UsedUp w.tui w.agent w.embedded fs.legacy owners full_t full_a full_e
          imported in
      let untouched = file-save_state c w.saves owners zero_meta fs.disk e failed ∙ fresh in
      (
        boot_state-saves w fs owners e fresh some_rules imported failed,
        rw first (boot_state-empty w2 _ untouched used),
      )
