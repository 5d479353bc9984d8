-- ===== src/Upgrade.antt =====
-- internal/server/upgrade_status.go: the comparison of versions, and the state of a node's upgrade. A
-- text is its list of code points, which Go compares in the order of their UTF-8 bytes, the same order.
pub mod Settling
use nft.Base.{
  Bool, List, Option, String, [], eqb, false, if◌then◌else◌, leb, ltb, nat_eq, none, not, pair_eq,
  some, string_eq, true, ℕ, ◌&&◌, ◌+◌, ◌==◌, ◌||◌, ◌∷◌,
}
use nft.Base.Int.{int_eq, ltb_ℤ, ℤ}
use nft.Ports.{atoi, cut_at}

abbrev pub Semver : Type 0
Semver = ℤ × (ℤ × ℤ)

abbrev pub trim_v : List ℕ → List ℕ
trim_v [] = []
trim_v (c ∷ cs) = if eqb c 118 then cs else c ∷ cs

unfoldable pub semver_of : Option ℤ → Option ℤ → Option ℤ → Option Semver
semver_of (some a) (some b) (some c) = some (a, (b, c))
semver_of _ _ _ = none

abbrev pub last_parts : List ℕ → Option (List ℕ × List ℕ) → Option Semver
last_parts major none = none
last_parts major (some (minor, patch)) = semver_of (atoi major) (atoi minor) (atoi patch)

-- SplitN in three: the last part keeps its points.
abbrev pub parts_of : Option (List ℕ × List ℕ) → Option Semver
parts_of none = none
parts_of (some (major, rest)) = last_parts major (cut_at 46 rest)

unfoldable pub parse_semver : List ℕ → Option Semver
parse_semver s = parts_of (cut_at 46 (trim_v s))

unfoldable pub text_ge : List ℕ → List ℕ → Bool
text_ge a [] = true
text_ge [] (d ∷ ds) = false
text_ge (c ∷ cs) (d ∷ ds) = let rest = text_ge cs ds in if eqb c d then rest else ltb d c

abbrev pub segments_ge : Semver → Semver → Bool
segments_ge (a, (b, c)) (x, (y, z)) =
    if not (a == x)
    then ltb_ℤ x a
    else if not (b == y)
    then ltb_ℤ y b
    else if not (c == z)
    then ltb_ℤ z c
    else true

abbrev pub parsed_ge : Option Semver → Option Semver → List ℕ → List ℕ → Bool
parsed_ge (some pa) (some pb) a b = segments_ge pa pb
parsed_ge (some pa) none a b = text_ge a b
parsed_ge none pb a b = text_ge a b

unfoldable pub semver_ge : List ℕ → List ℕ → Bool
semver_ge a b = parsed_ge (parse_semver a) (parse_semver b) a b

-- In seconds.
abbrev pub upgrade_grace : ℕ
upgrade_grace = 240

-- The columns of `nodes` that are read.
pub record UpgradeRow : Type 0 where
  pub last_upgrade_at : Option ℕ
  pub last_upgrade_version : List ℕ
  pub last_upgrade_status : String
  pub agent_version : List ℕ
  pub agent_sha : String

pub data UpgradeStatus : Type 0 where
  no_upgrade upgrade_ok upgrade_error pending stuck : UpgradeStatus

abbrev pub has_text : List ℕ → Bool
has_text [] = false
has_text (c ∷ cs) = true

unfoldable pub status_since : UpgradeRow → ℕ → ℕ → UpgradeStatus
status_since n now at =
    if n.last_upgrade_status == "error"
    then upgrade_error
    else if has_text n.last_upgrade_version && semver_ge n.agent_version n.last_upgrade_version
    then upgrade_ok
    else if leb now (at + upgrade_grace)
    then pending
    else stuck

unfoldable pub up_to_date : UpgradeRow → List ℕ → String → Bool
up_to_date n server_version latest_agent_sha =
    (not (n.agent_sha == "") && (not (latest_agent_sha == "") && n.agent_sha == latest_agent_sha))
    || (has_text n.agent_version && semver_ge n.agent_version server_version)

unfoldable pub status_of : UpgradeRow → List ℕ → String → ℕ → Option ℕ → UpgradeStatus
status_of n server_version latest_agent_sha now none = no_upgrade
status_of n server_version latest_agent_sha now (some at) =
    if up_to_date n server_version latest_agent_sha then no_upgrade else status_since n now at

abbrev pub derive_upgrade_status : UpgradeRow → List ℕ → String → ℕ → UpgradeStatus
derive_upgrade_status n server_version latest_agent_sha now =
    status_of n server_version latest_agent_sha now n.last_upgrade_at
