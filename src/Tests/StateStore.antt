-- ===== src/Tests/StateStore.antt =====
-- A state directory whose files hold one of a few texts, and two starts of the daemon over a legacy file.
use nft.Base.{
  List, Option, [], arith, err, false, nat_eq, none, ok, pair_eq, refl, some, string_eq, true, ◌∷◌,
  ◌≡◌,
}
use nft.Base.Int.{int_eq, pos, ℤ}
use nft.Rule.{Rule, effective_mode, mode_kernel}
use nft.Base.Assoc.{insert}
use nft.Owners.{OwnerRuleset}
use nft.StateStore.{
  AgentMeta, Codec, Disk, FileCalls, Files, LegacyFile, Saves, Start, StateFile, boot_state,
  consume, decode_at, decode_state, load_state, loaded, migrate_agent, migrate_embedded,
  migrate_file, migrate_legacy_state, normalize_modes, normalize_rules, or_empty, put_segment,
  read_legacy_rules, rename_failed, save_bytes, save_migrated, save_state, unsupported, zero_meta,
}
use nft.StateStore.Saving.{RoundTrips, after_save, load_state-save_state}
use nft.StateStore.Importing.{boot_state-forgets, is_null}
use nft.Tests.Inputs.{web_rule}

data Text : Type 0 where
  state_text : StateFile → Text
  rules_text : List Rule → Text
  garbage : Text

unfoldable version_in : Text → Option ℤ
version_in (state_text sf) = some sf.version
version_in (rules_text rules) = none
version_in garbage = none

unfoldable state_in : Text → Option StateFile
state_in (state_text sf) = some sf
state_in (rules_text rules) = none
state_in garbage = none

unfoldable rules_in : Text → Option (Option (List Rule))
rules_in (state_text sf) = none
rules_in (rules_text rules) = some (some rules)
rules_in garbage = none

unfoldable owners_in : Text → Option (Option OwnerRuleset)
owners_in (state_text sf) = some sf.owners
owners_in (rules_text rules) = none
owners_in garbage = none

unfoldable tui_in : Text → Option (List Rule)
tui_in (state_text sf) = some []
tui_in (rules_text rules) = some rules
tui_in garbage = none

abbrev json : Codec Text
json = record {
  marshal = λ sf. some (state_text sf);
  version_of = version_in;
  as_v4 = state_in;
  as_v3 = state_in;
  as_v2 = owners_in;
  as_v1 = tui_in;
  is_blank = λ b. false;
  as_rules = rules_in;
}

json-RoundTrips : (owners : OwnerRuleset) (meta : AgentMeta) → RoundTrips json owners meta
unfolding version_in state_in
json-RoundTrips owners meta (state_text sf) e = ground arith
json-RoundTrips owners meta (rules_text rules) e = ground arith
json-RoundTrips owners meta garbage e = ground arith

abbrev old_rule : Rule
old_rule = record web_rule { mode = "" }

abbrev v3_disk : Disk Text
v3_disk = record {
  file = some (
      state_text (record {
        version = pos 3;
        owners = some (("panel", old_rule ∷ []) ∷ []);
        agent_meta = zero_meta;
      }));
  temp = none;
}

-- A file of version 3 gets its modes, and one of version 5 is refused.
fills_modes :
    load_state json true v3_disk
    ≡ ok (("panel", record web_rule { mode = mode_kernel } ∷ []) ∷ [], zero_meta)
unfolding load_state decode_state decode_at loaded or_empty normalize_modes normalize_rules
    version_in state_in effective_mode
fills_modes = refl

refuses_v5 :
    load_state json true (record {
      file = some (state_text (record { version = pos 5; owners = none; agent_meta = zero_meta }));
      temp = none;
    })
    ≡ err (unsupported (pos 5))
unfolding load_state decode_state decode_at version_in
refuses_v5 = refl

-- A disk that takes the directory and the temporary file, but not the renaming.
abbrev full_disk : Saves Text
full_disk = record { makes_dir = true; torn = none; renames = false; removes = true }

abbrev web_owners : OwnerRuleset
web_owners = ("tui", web_rule ∷ []) ∷ []

load_state-save_state_example :
    load_state json true (save_state json full_disk web_owners zero_meta v3_disk).1
    ≡ after_save
        (save_state json full_disk web_owners zero_meta v3_disk).0
        (ok (web_owners, zero_meta))
        (load_state json true v3_disk)
load_state-save_state_example =
    load_state-save_state json full_disk web_owners zero_meta v3_disk
      (json-RoundTrips web_owners zero_meta)

abbrev works : FileCalls
works = record { reads = true; renames = true }

abbrev start : Start Text
start = record { tui = works; agent = works; embedded = works; saves = full_disk; reads = true }

abbrev no_file : LegacyFile Text
no_file = record { current = none; migrated = none }

abbrev upgraded : Files Text
upgraded = record {
  disk = record { file = none; temp = none };
  legacy = record {
    tui = record { current = some (rules_text (web_rule ∷ [])); migrated = none };
    agent = no_file;
    embedded = no_file;
  };
}

imports_web : (migrate_legacy_state json works works works upgraded.legacy).0 ≡ ok web_owners
unfolding migrate_legacy_state migrate_agent migrate_embedded migrate_file read_legacy_rules consume
    put_segment insert rules_in
imports_web = refl

no_nulls : (is_null json upgraded.legacy.tui ≡ false) × (is_null json no_file ≡ false)
unfolding is_null rules_in
no_nulls = (refl, refl)

rename_fails :
    (save_state json start.saves web_owners zero_meta upgraded.disk).0 ≡ some rename_failed
unfolding save_state save_bytes
rename_fails = refl

-- The first save fails, and the imported rule is gone.
boot_state-forgets_example :
    ((boot_state json start upgraded).0 ≡ err (save_migrated rename_failed))
    × ((boot_state json start (boot_state json start upgraded).1).0 ≡ ok ([], zero_meta))
boot_state-forgets_example =
    boot_state-forgets json start start upgraded web_owners rename_failed refl no_nulls.0 no_nulls.1
      no_nulls.1 imports_web (λ e. ground (arith, e)) rename_fails
