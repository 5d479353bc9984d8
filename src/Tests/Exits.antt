-- ===== src/Tests/Exits.antt =====
-- Two users' exits, a sync of one of them, and an entry of the node repository that moves.
use nft.Base.{
  List, String, [], distinct, eqb, false, has, if◌then◌else◌, nat_eq, none, not, pair_eq, refl,
  some, string_eq, true, ℕ, ◌∷◌, ◌≡◌,
}
use nft.Base.Assoc.{delete, insert, keys, lookup, modify}
use nft.Base.Int.{int_eq, negsuc}
use nft.Chain.{HopRow, RelayRule}
use nft.Exits.{
  LandingExit, LandingExitInput, LandingExitKey, LandingExits, Synced, add_input, add_inputs,
  existing_of, hidden, sweep_row, sweep_rows, sync_from, sync_user_landing_exits, upserted,
}
use nft.Exits.Syncing.{find_input, synced_row}
use nft.Exits.Materialized.{
  KeepsLedger, ledger-sync_user_landing_exits, lookup-sync_user_landing_exits,
}
use nft.Exits.Editing.{exits_exceeding_quota, expired_landing_exits, landing_expiry_enforcer}
use nft.Exits.Expiring.{flipped-exits_exceeding_quota, lookup-landing_expiry_enforcer}
use nft.Exits.Moving.{
  RepoChange, Tables, is_last_hop, move_row, move_rows, propagate_repo_exit_change, relocated,
  repo_rows,
}
use nft.Exits.Moving.Totals.{used_by}
use nft.Exits.Moving.Carrying.{used_by-propagate_repo_exit_change}
use nft.Exits.Moving.Links.{LinkedRules, propagate_repo_exit_change-LinkedRules}

abbrev spent : LandingExit
spent = record {
  name = "Tokyo";
  name_override = "";
  protocol = "vless";
  uri = "vless://tokyo";
  present = true;
  quota_bytes = 100;
  used_bytes = 150;
  updated_at = 10;
  expires_at = 500;
  source = "auto";
}

abbrev unused : LandingExit
unused = record spent { name = "Osaka"; quota_bytes = 0; used_bytes = 0; expires_at = 0 }

abbrev imported : LandingExit
imported = record spent { name = "Seoul"; used_bytes = 40; source = "repo"; expires_at = 0 }

abbrev tokyo : LandingExitKey
tokyo = ("tokyo.example", 443)

abbrev osaka : LandingExitKey
osaka = ("osaka.example", 443)

abbrev seoul : LandingExitKey
seoul = ("seoul.example", 443)

abbrev busan : LandingExitKey
busan = ("busan.example", 8443)

abbrev exit_table : LandingExits
exit_table =
    ((1, tokyo), spent)
    ∷ ((1, osaka), unused)
    ∷ ((2, seoul), imported)
    ∷ ((2, busan), record imported { used_bytes = 7; quota_bytes = 0 })
    ∷ []

exit_table-distinct : distinct (keys exit_table) ≡ true
unfolding distinct has keys
exit_table-distinct = refl

abbrev sources : List (ℕ × (String × String))
sources = (1, ("https://sub.example", "")) ∷ (2, ("", "")) ∷ []

abbrev seoul_input : LandingExitInput
seoul_input = record {
  host = "seoul.example";
  port = 443;
  name = "Seoul 2";
  protocol = "ss";
  uri = "ss://seoul";
}

abbrev synced_table : Synced
synced_table = record {
  flipped = tokyo ∷ [];
  synced = true;
  table =
      ((1, tokyo), record spent { present = false; updated_at = 20 })
      ∷ ((2, seoul), imported)
      ∷ ((2, busan), record imported { used_bytes = 7; quota_bytes = 0 })
      ∷ ((1, seoul), upserted 20 "auto" seoul_input none)
      ∷ [];
}

-- The spent exit leaves the source and is hidden, the unused one is removed, the new one is added.
sync_runs :
    sync_user_landing_exits 20 sources 1 (seoul_input ∷ []) ("https://sub.example", "") exit_table
    ≡ some synced_table
unfolding sync_user_landing_exits sync_from sweep_rows sweep_row add_inputs add_input existing_of
    lookup insert delete modify has upserted
sync_runs = refl

lookup-sync_user_landing_exits_example :
    (z : Synced) × (sync_user_landing_exits 20 sources 1
        (seoul_input ∷ [])
        ("https://sub.example", "")
        exit_table
      ≡ some z)
    × (z.synced ≡ true)
    × ((owner : ℕ) (k : LandingExitKey)
        → lookup (owner, k) z.table ≡ (
            if eqb owner 1
            then synced_row 20 (find_input k (seoul_input ∷ [])) (lookup (owner, k) exit_table)
            else lookup (owner, k) exit_table))
lookup-sync_user_landing_exits_example =
    lookup-sync_user_landing_exits 20 sources 1 (seoul_input ∷ []) ("https://sub.example", "")
      exit_table ("https://sub.example", "") exit_table-distinct (unfold lookup in refl)

ledger-sync_user_landing_exits_example : KeepsLedger spent (lookup (1, tokyo) synced_table.table)
ledger-sync_user_landing_exits_example =
    ledger-sync_user_landing_exits 20 sources 1 (seoul_input ∷ []) ("https://sub.example", "")
      exit_table exit_table-distinct synced_table sync_runs 1 tokyo spent (unfold lookup in refl)
      refl

flipped-exits_exceeding_quota_example : has tokyo synced_table.flipped ≡ (
    if has tokyo (exits_exceeding_quota 1 exit_table)
    then not (has tokyo (exits_exceeding_quota 1 synced_table.table))
    else has tokyo (exits_exceeding_quota 1 synced_table.table))
flipped-exits_exceeding_quota_example =
    flipped-exits_exceeding_quota 20 sources 1 (seoul_input ∷ []) ("https://sub.example", "")
      exit_table synced_table exit_table-distinct sync_runs tokyo

lookup-landing_expiry_enforcer_example :
    (lookup (1, tokyo) (landing_expiry_enforcer 600 601 exit_table) ≡ some (hidden 601 spent))
    × (has (1, tokyo) (expired_landing_exits 600 (landing_expiry_enforcer 600 601 exit_table))
        ≡ false)
lookup-landing_expiry_enforcer_example =
    unfold lookup in
    lookup-landing_expiry_enforcer exit_table exit_table-distinct 600 601 (1, tokyo)

abbrev to_busan : RepoChange
to_busan = record {
  old_key = seoul;
  new_key = busan;
  name = "Busan";
  protocol = "";
  uri = "vless://busan";
  expires_at = negsuc 0;
}

abbrev seoul_rule : RelayRule
seoul_rule = record {
  id = 5;
  node_id = 1;
  owner_id = some 2;
  name = "r";
  proto = "tcp";
  exit_host = "seoul.example";
  exit_port = 443;
  proxy_service_id = 0;
  entry_listen_port = 10001;
  entry_family = "v4";
  disabled = false;
  via_node_ids = [];
  exit_type = "";
  exit_uri = "";
}

abbrev last_hop : HopRow
last_hop = record {
  rule_id = 5;
  position = 1;
  node_id = 2;
  proto = "tcp";
  listen_port = 10002;
  target_host = "seoul.example";
  target_port = 443;
  mode = "kernel";
  comment = "";
  via_node_id = 0;
}

abbrev first_hop : HopRow
first_hop = record last_hop {
  position = 0;
  node_id = 1;
  listen_port = 10001;
  target_host = "10.0.0.2";
  target_port = 10002;
}

abbrev before_move : Tables
before_move = record {
  exits = exit_table;
  rules = seoul_rule ∷ [];
  hops = first_hop ∷ last_hop ∷ [];
}

moves_the_last_hop :
    (propagate_repo_exit_change 30 to_busan before_move).1.hops
    ≡ first_hop ∷ record last_hop { target_host = "busan.example"; target_port = 8443 } ∷ []
unfolding propagate_repo_exit_change is_last_hop
moves_the_last_hop = refl

adds_up_the_usage :
    lookup (2, busan) (propagate_repo_exit_change 30 to_busan before_move).1.exits
    ≡ some (record imported {
      name = "Busan";
      uri = "vless://busan";
      used_bytes = 47;
      updated_at = 30;
    })
unfolding propagate_repo_exit_change repo_rows move_rows move_row relocated lookup modify delete
adds_up_the_usage = refl

used_by-propagate_repo_exit_change_example :
    used_by 2 (propagate_repo_exit_change 30 to_busan before_move).1.exits ≡ 47
used_by-propagate_repo_exit_change_example =
    used_by-propagate_repo_exit_change 30 to_busan before_move 2 exit_table-distinct

propagate_repo_exit_change-LinkedRules_example :
    LinkedRules (propagate_repo_exit_change 30 to_busan before_move).1
propagate_repo_exit_change-LinkedRules_example =
    propagate_repo_exit_change-LinkedRules 30 to_busan before_move
      ((refl, refl, (refl, refl, refl)), tt)
