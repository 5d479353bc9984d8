-- ===== src/Tests/Dispatch.antt =====
-- The panel sends a shaped chain of two hops, and the reset of its owner's traffic.
use nft.Ports.{proto_namespaces}
use nft.Dispatch.Counting.{add_protos, hop_counter_keys}
use nft.Dispatch.Finding.{IsKeyOf}
use nft.Rule.{Rule}
use nft.Base.{
  List, [], arith, false, has, inl, inr, nat_eq, none, ok, pair_eq, refl, some, string_eq, ℕ, ◌*◌,
  ◌+◌, ◌∷◌, ◌≡◌,
}
use nft.Base.Int.{int_eq, pos}
use nft.Chain.{HopRow, RelayRule}
use nft.Chain.Writing.{IsConsistent}
use nft.Dispatch.{Lookups, build_rules, find_rule}
use nft.Dispatch.Pushing.{Tables, active_rule_hops_for_push, insert_by_port, is_live, sort_by_port}
use nft.Dispatch.Whole.{Listed, active_rule_hops-whole}
use nft.Dispatch.Accepting.{pushed_rules-accepted}
use nft.Partition.{partition}
use nft.Tests.Inputs.{test_net}
use nft.Cycle.{Ledgers, UserTraffic, check_and_reset_traffic_cycle, zero_user_traffic_ledgers}
use nft.Cycle.Due.{user_row}
use nft.Cycle.Zeroing.{Cleared, zero_user_traffic_ledgers-Cleared}

abbrev video_rule : RelayRule
video_rule = record {
  id = 5;
  node_id = 1;
  owner_id = some 3;
  name = "video";
  proto = "tcp";
  exit_host = "10.9.9.8";
  exit_port = 443;
  proxy_service_id = 0;
  entry_listen_port = 8443;
  entry_family = "v4";
  disabled = false;
  via_node_ids = 2 ∷ [];
  exit_type = "socks5";
  exit_uri = "socks5://10.9.9.7:1080";
}

abbrev entry_hop : HopRow
entry_hop = record {
  rule_id = 5;
  position = 0;
  node_id = 1;
  proto = "tcp";
  listen_port = 8443;
  target_host = "10.0.0.2";
  target_port = 9443;
  mode = "kernel";
  comment = "";
  via_node_id = 1;
}

abbrev last_hop : HopRow
last_hop = record entry_hop {
  position = 1;
  node_id = 2;
  listen_port = 9443;
  target_host = "10.9.9.8";
  target_port = 443;
  via_node_id = 2;
}

abbrev udp_hop : HopRow
udp_hop = record entry_hop { rule_id = 6; proto = "udp"; listen_port = 53 }

abbrev panel : Tables
panel = record {
  rules = video_rule ∷ [];
  hops = entry_hop ∷ last_hop ∷ udp_hop ∷ [];
  users =
      record {
        id = 3;
        disabled = false;
        expires_at = none;
        traffic_quota_bytes = 100;
        traffic_used_bytes = 10;
      }
      ∷ [];
  grants = [];
  exits = [];
  billable = λ u. u.traffic_used_bytes;
}

abbrev lookups : Lookups
lookups = record {
  rules = video_rule ∷ [];
  users = record { id = 3; username = "ann"; speed_limit_mbytes = pos 10 } ∷ [];
  shapes = [];
  hops = panel.hops;
  protocols = [];
}

panel-IsConsistent : IsConsistent panel.hops
panel-IsConsistent = record {
  stored = (inl refl, (inl refl, (inr (inl refl), tt)));
  modes = (inl refl, (inl refl, (inl refl, tt)));
  no_clash = (
    (λ a b. absurd (omega (arith, a)), (λ a b. absurd (omega (arith, b)), tt)),
    ((λ a b. absurd (omega (arith, a)), tt), (tt, tt)),
  );
}

entry_hop_sent : Listed entry_hop (active_rule_hops_for_push 50 panel 1)
unfolding active_rule_hops_for_push is_live sort_by_port insert_by_port
entry_hop_sent = inr (inl refl)

active_rule_hops-whole_example : Listed last_hop (active_rule_hops_for_push 50 panel 2)
active_rule_hops-whole_example =
    active_rule_hops-whole 50 panel entry_hop last_hop (inl refl) (inr (inl refl)) refl
      entry_hop_sent

pushed_rules-accepted_example :
    (out : List Rule × List Rule) × (partition
        (build_rules test_net lookups (active_rule_hops_for_push 50 panel 2))
      ≡ ok out)
unfolding find_rule
pushed_rules-accepted_example =
    pushed_rules-accepted test_net lookups 50 panel 2 panel-IsConsistent
      (λ e. refl, (λ e. refl, (tt, tt)))

udp_key : IsKeyOf ("udp", 53) udp_hop
unfolding hop_counter_keys add_protos proto_namespaces has
udp_key = refl

abbrev ann : UserTraffic
ann = record {
  id = 3;
  created_at = 1_000_000;
  traffic_reset_days = pos 30;
  last_traffic_reset_at = 0;
  traffic_used_bytes = 10;
  total_traffic_used_bytes = 20;
}

abbrev ledgers : Ledgers
ledgers = record {
  users = ann ∷ [];
  grants = record { user_id = 3; node_id = 1; traffic_used_bytes = 10 } ∷ [];
  exits = [];
  hops =
      record {
        rule_id = 5;
        position = 0;
        total_bytes = 10;
        billed_bytes = 10;
        last_bytes = 10;
        last_bytes_up = 4;
        last_bytes_down = 6;
      }
      ∷ [];
  rules = record { id = 5; owner_id = some 3; exit_bytes = 10 } ∷ [];
}

zero_user_traffic_ledgers-Cleared_example :
    Cleared 3 ledgers (zero_user_traffic_ledgers 3 0 ledgers)
zero_user_traffic_ledgers-Cleared_example = zero_user_traffic_ledgers-Cleared 3 0 ledgers

abbrev day : ℕ → ℕ
day n = 1_000_000 + n * 86400

abbrev checked : Ledgers
checked = (check_and_reset_traffic_cycle (day 3) ann ledgers).1

ann_row : user_row 3 ledgers.users ≡ some ann
unfolding user_row
ann_row = refl
