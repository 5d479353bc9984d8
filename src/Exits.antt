-- ===== src/Exits.antt =====
-- internal/db/landing_exits.go: the landing exits of the users with their traffic ledgers. The table
-- user_landing_exits is an association list by its primary key (user, host, port). The clock is an
-- argument. Byte counts and times are not negative, and an expiry of NULL is 0. The statements of a
-- transaction are taken to succeed.
pub mod Syncing
pub mod Moving
pub mod Expiring
pub mod Editing
pub mod Materialized
pub mod Ledgers
pub mod Flipping
use nft.Base.{
  Bool, Equality, List, Option, String, [], eqb, false, has, if◌then◌else◌, leb, ltb, nat_eq, none,
  not, pair_eq, some, string_eq, true, ℕ, ◌&&◌, ◌++◌, ◌==◌, ◌||◌, ◌∷◌,
}
use nft.Base.Assoc.{delete, insert, lookup, modify}
use nft.Billing.{UserExitKey}

pub record LandingExit : Type 0 where
  pub name : String
  pub name_override : String
  pub protocol : String
  pub uri : String
  pub present : Bool
  pub quota_bytes : ℕ
  pub used_bytes : ℕ
  pub updated_at : ℕ
  pub expires_at : ℕ
  pub source : String

pub record LandingExitInput : Type 0 where
  pub host : String
  pub port : ℕ
  pub name : String
  pub protocol : String
  pub uri : String

abbrev pub LandingExitKey : Type 0
LandingExitKey = String × ℕ

instance abbrev pub landing_exit_key_eq : Equality LandingExitKey
landing_exit_key_eq = pair_eq

abbrev pub LandingExits : Type 0
LandingExits = List (UserExitKey × LandingExit)

abbrev pub input_key : LandingExitInput → LandingExitKey
input_key e = (e.host, e.port)

abbrev pub over_quota : LandingExit → Bool
over_quota r = ltb 0 r.quota_bytes && leb r.quota_bytes r.used_bytes

abbrev pub empty_ledger : LandingExit → Bool
empty_ledger r = eqb r.quota_bytes 0 && eqb r.used_bytes 0

-- SELECT ... WHERE user_id = ?, keyed by host and port.
unfoldable pub existing_of : ℕ → LandingExits → List (LandingExitKey × LandingExit)
existing_of user [] = []
existing_of user (((owner, k), r) ∷ t) =
    let rest = existing_of user t in if eqb owner user then (k, r) ∷ rest else rest

-- INSERT ... ON CONFLICT(user_id, host, port) DO UPDATE, on the row the key has.
unfoldable pub upserted : ℕ → String → LandingExitInput → Option LandingExit → LandingExit
upserted now source e none = record {
  name = e.name;
  name_override = "";
  protocol = e.protocol;
  uri = e.uri;
  present = true;
  quota_bytes = 0;
  used_bytes = 0;
  updated_at = now;
  expires_at = 0;
  source = source;
}
upserted now source e (some r) = record r {
  name = e.name;
  protocol = e.protocol;
  uri = e.uri;
  present = true;
  updated_at = now;
  source = source;
}

abbrev pub hidden : ℕ → LandingExit → LandingExit
hidden now r = record r { present = false; updated_at = now }

-- The variables of the two loops: inInput, the table and flipped.
pub record Pass : Type 0 where
  pub listed : List LandingExitKey
  pub table : LandingExits
  pub flipped : List LandingExitKey

-- A row that was hidden while over its quota.
abbrev pub returns_over : Option LandingExit → Bool
returns_over none = false
returns_over (some r) = not r.present && over_quota r

-- One turn of the loop over the inputs. `existing` is what was read before it.
unfoldable pub add_input :
    ℕ → String → ℕ → List (LandingExitKey × LandingExit) → LandingExitInput → Pass → Pass
add_input now source user existing e s =
    let k = input_key e in
    if has k s.listed then s else record {
      listed = k ∷ s.listed;
      table = insert (user, k) (upserted now source e (lookup (user, k) s.table)) s.table;
      flipped = if returns_over (lookup k existing) then s.flipped ++ k ∷ [] else s.flipped;
    }

unfoldable pub add_inputs :
    ℕ → String → ℕ → List (LandingExitKey × LandingExit) → List LandingExitInput → Pass → Pass
add_inputs now source user existing [] s = s
add_inputs now source user existing (e ∷ exits) s =
    add_inputs now source user existing exits (add_input now source user existing e s)

-- One turn of the loop over the rows that were read before.
unfoldable pub sweep_row : ℕ → ℕ → LandingExitKey → LandingExit → Pass → Pass
sweep_row now user k r s =
    if has k s.listed || r.source == "repo"
    then s
    else if empty_ledger r
    then record s { table = delete (user, k) s.table }
    else if not r.present
    then s
    else record s {
      table = modify (user, k) (hidden now) s.table;
      flipped = if over_quota r then s.flipped ++ k ∷ [] else s.flipped;
    }

-- Go visits the rows in any order; the model takes the order of the table.
unfoldable pub sweep_rows : ℕ → ℕ → List (LandingExitKey × LandingExit) → Pass → Pass
sweep_rows now user [] s = s
sweep_rows now user ((k, r) ∷ rows) s = sweep_rows now user rows (sweep_row now user k r s)

pub record Synced : Type 0 where
  pub flipped : List LandingExitKey
  pub synced : Bool
  pub table : LandingExits

abbrev pub start : LandingExits → Pass
start t = record { listed = []; table = t; flipped = [] }

abbrev pub synced_pass : ℕ → ℕ → List LandingExitInput → LandingExits → Pass
synced_pass now user exits t =
    sweep_rows now user (existing_of user t)
      (add_inputs now "auto" user (existing_of user t) exits (start t))

unfoldable pub sync_from :
    ℕ
    → ℕ
    → List LandingExitInput
    → String × String
    → LandingExits
    → Option (String × String)
    → Option Synced
sync_from now user exits source t none = none
sync_from now user exits source t (some current) =
    let s = synced_pass now user exits t in
    some (
      if current == source
      then record { flipped = s.flipped; synced = true; table = s.table }
      else record { flipped = []; synced = false; table = t })

-- `users` gives (landing_sub_url, landing_uris) of a user; none is the error for a user that is not there.
unfoldable pub sync_user_landing_exits :
    ℕ
    → List (ℕ × (String × String))
    → ℕ
    → List LandingExitInput
    → String × String
    → LandingExits
    → Option Synced
sync_user_landing_exits now users user exits source t =
    sync_from now user exits source t (lookup user users)

unfoldable pub append_user_landing_exits :
    ℕ → ℕ → List LandingExitInput → LandingExits → List LandingExitKey × LandingExits
append_user_landing_exits now user exits t =
    let s = add_inputs now "repo" user (existing_of user t) exits (start t) in (s.flipped, s.table)
