-- ===== src/StateStore.antt =====
-- The state file of the node daemon: internal/daemon/state.go (LoadState, SaveState), migrate.go (the
-- import of the files of older programs) and the first half of Bootstrap in daemon.go. Two files belong
-- to a state path, the file itself and its temporary sibling; a legacy file has a place under its own
-- name and one under the name with ".migrated". encoding/json is a parameter, `Codec`, and so is what
-- the file system does during a call.
pub mod Saving
pub mod Importing
use nft.Base.{
  Bool, List, Option, Result, String, [], err, if◌then◌else◌, nat_eq, none, not, ok, pair_eq, some,
  string_eq, ◌==◌, ◌∷◌,
}
use nft.Base.Assoc.{insert}
use nft.Base.Int.{int_eq, pos, ℤ}
use nft.Rule.{Rule, effective_mode}
use nft.Owners.{OwnerRuleset}

pub record AgentMeta : Type 0 where
  pub last_applied_rev : String
  pub panel_url : String

abbrev pub zero_meta : AgentMeta
zero_meta = record { last_applied_rev = ""; panel_url = "" }

-- `none` is the nil map.
pub record StateFile : Type 0 where
  pub version : ℤ
  pub owners : Option OwnerRuleset
  pub agent_meta : AgentMeta

abbrev pub state_file : OwnerRuleset → AgentMeta → StateFile
state_file owners meta = record { version = pos 4; owners = some owners; agent_meta = meta }

-- json.MarshalIndent of a state file, and json.Unmarshal into each of the shapes that the source reads.
-- In `as_rules`, the inner `none` is the nil slice, which the text null gives.
pub record Codec {ℓ} (B : Type ℓ) : Type ℓ where
  pub marshal : StateFile → Option B
  pub version_of : B → Option ℤ
  pub as_v4 : B → Option StateFile
  pub as_v3 : B → Option StateFile
  pub as_v2 : B → Option (Option OwnerRuleset)
  pub as_v1 : B → Option (List Rule)
  pub is_blank : B → Bool
  pub as_rules : B → Option (Option (List Rule))

pub record Disk {ℓ} (B : Type ℓ) : Type ℓ where
  pub file : Option B
  pub temp : Option B

pub data LoadError : Type 0 where
  read_failed bad_version bad_body : LoadError
  unsupported : ℤ → LoadError

pub data SaveError : Type 0 where
  no_directory marshal_failed write_failed rename_failed : SaveError

-- `torn` is what a failing WriteFile leaves behind.
pub record Saves {ℓ} (B : Type ℓ) : Type ℓ where
  pub makes_dir : Bool
  pub torn : Option (Option B)
  pub renames : Bool
  pub removes : Bool

abbrev pub Loaded : Type 0
Loaded = Result LoadError (OwnerRuleset × AgentMeta)

unfoldable pub or_empty : Option OwnerRuleset → OwnerRuleset
or_empty none = []
or_empty (some owners) = owners

unfoldable pub normalize_rules : List Rule → List Rule
normalize_rules [] = []
normalize_rules (r ∷ rs) = record r { mode = effective_mode r } ∷ normalize_rules rs

unfoldable pub normalize_modes : OwnerRuleset → OwnerRuleset
normalize_modes [] = []
normalize_modes ((owner, rules) ∷ rest) = (owner, normalize_rules rules) ∷ normalize_modes rest

unfoldable pub tui_segment : List Rule → OwnerRuleset
tui_segment [] = []
tui_segment (r ∷ rs) = ("tui", r ∷ rs) ∷ []

unfoldable pub loaded {ℓ} : {A : Type ℓ} → (A → OwnerRuleset × AgentMeta) → Option A → Loaded
loaded f none = err bad_body
loaded f (some a) = ok (f a)

module _ {ℓ} {B : Type ℓ} (c : Codec B) where
  -- The switch on the version.
  unfoldable pub decode_at : ℤ → B → Loaded
  decode_at v b =
      if v == pos 4
      then loaded (λ sf. (or_empty sf.owners, sf.agent_meta)) (c.as_v4 b)
      else if v == pos 3
      then loaded (λ sf. (normalize_modes (or_empty sf.owners), sf.agent_meta)) (c.as_v3 b)
      else if v == pos 2
      then loaded (λ owners. (or_empty owners, zero_meta)) (c.as_v2 b)
      else if v == pos 1
      then loaded (λ rules. (tui_segment rules, zero_meta)) (c.as_v1 b)
      else err (unsupported v)

  unfoldable pub decode_state : B → Loaded
  decode_state b = elim (c.version_of b) [ none ↦ err bad_version | some v ↦ decode_at v b ]

  -- The Bool tells whether ReadFile can read a file that exists.
  unfoldable pub load_state : Bool → Disk B → Loaded
  load_state reads d = elim d.file [
    | none ↦ ok ([], zero_meta)
    | some b ↦ if reads then decode_state b else err read_failed
  ]

  unfoldable pub save_bytes : Saves B → B → Disk B → Option SaveError × Disk B
  save_bytes w b d = elim w.torn [
    | some left ↦ (some write_failed, record d { temp = left })
    | none ↦
        if w.renames
        then (none, record { file = some b; temp = none })
        else (some rename_failed, record d { temp = if w.removes then none else some b })
  ]

  unfoldable pub save_state :
      Saves B → OwnerRuleset → AgentMeta → Disk B → Option SaveError × Disk B
  save_state w owners meta d =
      if w.makes_dir
      then elim (c.marshal (state_file owners meta)) [
        | none ↦ (some marshal_failed, d)
        | some b ↦ save_bytes w b d
      ]
      else (some no_directory, d)

pub record LegacyFile {ℓ} (B : Type ℓ) : Type ℓ where
  pub current : Option B
  pub migrated : Option B

-- The three paths of LegacyMigrationPaths.
pub record LegacyFiles {ℓ} (B : Type ℓ) : Type ℓ where
  pub tui : LegacyFile B
  pub agent : LegacyFile B
  pub embedded : LegacyFile B

-- Whether a file that exists can be read, and whether it can be renamed.
pub record FileCalls : Type 0 where
  pub reads : Bool
  pub renames : Bool

pub data LegacyError : Type 0 where
  legacy_read legacy_parse legacy_rename : LegacyError

-- An owner that gets no rules gets no key.
unfoldable pub put_segment : String → List Rule → OwnerRuleset → OwnerRuleset
put_segment owner [] out = out
put_segment owner (r ∷ rs) out = insert owner (r ∷ rs) out

module _ {ℓ} {B : Type ℓ} (c : Codec B) where
  -- The inner `none` of the result is the nil slice.
  unfoldable pub read_legacy_rules : Bool → Option B → Result LegacyError (Option (List Rule))
  read_legacy_rules reads none = ok none
  read_legacy_rules reads (some b) =
      if not reads
      then err legacy_read
      else if c.is_blank b
      then ok (some [])
      else (elim (c.as_rules b) [ none ↦ err legacy_parse | some rules ↦ ok rules ])

  unfoldable pub consume :
      Bool
      → String
      → List Rule
      → LegacyFile B
      → OwnerRuleset
      → Result LegacyError OwnerRuleset × LegacyFile B
  consume renames owner rules f out =
      if renames
      then (ok (put_segment owner rules out), record { current = none; migrated = f.current })
      else (err legacy_rename, f)

  -- One of the three steps.
  unfoldable pub migrate_file :
      FileCalls
      → String
      → LegacyFile B
      → OwnerRuleset
      → Result LegacyError OwnerRuleset × LegacyFile B
  migrate_file w owner f out = elim (read_legacy_rules w.reads f.current) [
    | err e ↦ (err e, f)
    | ok none ↦ (ok out, f)
    | ok (some rules) ↦ consume w.renames owner rules f out
  ]

  unfoldable pub migrate_embedded :
      FileCalls → LegacyFiles B → OwnerRuleset → Result LegacyError OwnerRuleset × LegacyFiles B
  migrate_embedded w fs out =
      let step = migrate_file w "panel" fs.embedded out in (step.0, record fs { embedded = step.1 })

  unfoldable pub migrate_agent :
      FileCalls
      → FileCalls
      → LegacyFiles B
      → OwnerRuleset
      → Result LegacyError OwnerRuleset × LegacyFiles B
  migrate_agent w w_embedded fs out =
      let step = migrate_file w "panel" fs.agent out in
      let fs2 = record fs { agent = step.1 } in
      elim step.0 [ err e ↦ (err e, fs2) | ok out2 ↦ migrate_embedded w_embedded fs2 out2 ]

  unfoldable pub migrate_legacy_state :
      FileCalls
      → FileCalls
      → FileCalls
      → LegacyFiles B
      → Result LegacyError OwnerRuleset × LegacyFiles B
  migrate_legacy_state w w_agent w_embedded fs =
      let step = migrate_file w "tui" fs.tui [] in
      let fs2 = record fs { tui = step.1 } in
      elim step.0 [ err e ↦ (err e, fs2) | ok out ↦ migrate_agent w_agent w_embedded fs2 out ]

-- The calls of one start: those on the legacy files, the save of what they held, and the reading.
pub record Start {ℓ} (B : Type ℓ) : Type ℓ where
  pub tui : FileCalls
  pub agent : FileCalls
  pub embedded : FileCalls
  pub saves : Saves B
  pub reads : Bool

pub record Files {ℓ} (B : Type ℓ) : Type ℓ where
  pub disk : Disk B
  pub legacy : LegacyFiles B

pub data BootError : Type 0 where
  migrate_failed : LegacyError → BootError
  save_migrated : SaveError → BootError
  load_failed : LoadError → BootError

abbrev pub Booted : Type 0
Booted = Result BootError (OwnerRuleset × AgentMeta)

unfoldable pub booted : Loaded → Booted
booted (err e) = err (load_failed e)
booted (ok state) = ok state

module _ {ℓ} {B : Type ℓ} (c : Codec B) where
  unfoldable pub load_after : Start B → LegacyFiles B → Option SaveError × Disk B → Booted × Files B
  load_after w legacy (none, disk) =
      (booted (load_state c w.reads disk), record { disk = disk; legacy = legacy })
  load_after w legacy (some e, disk) =
      (err (save_migrated e), record { disk = disk; legacy = legacy })

  unfoldable pub boot_migrated :
      Start B → Disk B → Result LegacyError OwnerRuleset × LegacyFiles B → Booted × Files B
  boot_migrated w disk (err e, legacy) =
      (err (migrate_failed e), record { disk = disk; legacy = legacy })
  boot_migrated w disk (ok [], legacy) = load_after w legacy (none, disk)
  boot_migrated w disk (ok (s ∷ rest), legacy) =
      load_after w legacy (save_state c w.saves (s ∷ rest) zero_meta disk)

  -- Bootstrap, up to the state that it goes on with: with an error it ends here, and of a state without owners
  -- there is nothing left to downgrade, to number or to apply.
  unfoldable pub boot_state : Start B → Files B → Booted × Files B
  boot_state w fs = elim fs.disk.file [
    | some b ↦ load_after w fs.legacy (none, fs.disk)
    | none ↦ boot_migrated w fs.disk (migrate_legacy_state c w.tui w.agent w.embedded fs.legacy)
  ]
