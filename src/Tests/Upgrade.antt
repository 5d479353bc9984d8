-- ===== src/Tests/Upgrade.antt =====
-- An upgrade of a node, and three versions that go round in a circle.
use nft.Base.{arith, false, refl, some, true, ◌+◌, ◌<◌, ◌≡◌, ◌≢◌}
use nft.Rule.{codes}
use nft.Ports.{atoi, cut_at}
use nft.Upgrade.{
  UpgradeRow, derive_upgrade_status, parse_semver, pending, semver_ge, semver_of, text_ge,
  upgrade_grace,
}
use nft.Upgrade.Settling.{Moves, derive_upgrade_status_settles}

abbrev upgraded : UpgradeRow
upgraded = record {
  last_upgrade_at = some 1000;
  last_upgrade_version = codes "v1.3.0";
  last_upgrade_status = "ok";
  agent_version = codes "v1.2.9";
  agent_sha = "";
}

derive_upgrade_status_settles_example :
    Moves 1000 1100 2000
      (derive_upgrade_status upgraded (codes "v1.3.0") "" 1100)
      (derive_upgrade_status upgraded (codes "v1.3.0") "" 2000)
    × (1000 + upgrade_grace < 2000
        → derive_upgrade_status upgraded (codes "v1.3.0") "" 2000 ≢ pending)
derive_upgrade_status_settles_example =
    derive_upgrade_status_settles upgraded (codes "v1.3.0") "" 1000 1100 2000 refl (omega arith)

-- "9.0.0" is at least "5", and "5" at least "10.0.0", but "9.0.0" is not.
circle :
    (semver_ge (codes "9.0.0") (codes "5") ≡ true)
    × (semver_ge (codes "5") (codes "10.0.0") ≡ true)
    × (semver_ge (codes "9.0.0") (codes "10.0.0") ≡ false)
unfolding semver_ge parse_semver cut_at atoi semver_of text_ge
circle = (refl, refl, refl)
