-- ===== src/Tests/Panel.antt =====
-- The panel on a table with two nodes: a rule of two hops beside another rule's hop.
use nft.Base.{
  List, String, [], false, filterb, has, inl, inr, nat_eq, ok, pair_eq, refl, some, string_eq, ℕ,
  ◌∷◌, ◌≡◌,
}
use nft.Base.Int.{int_eq, pos}
use nft.Chain.{
  Address, Env, HopInput, HopRow, NodeRow, RelayRule, Store, add_port, assign_port, assign_ports,
  competes, derive_family, effective_relay_hosts, entry_addresses, find_node, first_address,
  first_port, hop_mode, hop_row, hop_rows, last_of, named_range, nodes_of, normalize_forward_mode,
  occupied_ports_on_node, of_rule, or_text, place_chain, prev_comments, prev_ports, regenerate_rule,
  resolve_as, resolve_hop, resolve_hops, resolve_on, resolve_with, set_entry, target_of,
  without_rule, write_chain,
}
use nft.Chain.Assigning.{IsDraw}
use nft.Tests.Inputs.{test_net}
use nft.Base.Assoc.{get_or, insert, lookup}
use nft.Net.{is_ipv6}
use nft.Rule.{codes}
use nft.Ports.{
  Segment, atoi, cut_at, digits_value, is_space, overlapping_of, overlapping_protos, parse_bounds,
  parse_next, parse_part, parse_parts, parse_port_range, parse_single, parse_split,
  pick_free_port_from_range, port_at, port_in_range, proto_namespaces, scan, split_on, total_span,
  trim_left, trim_space,
}
use nft.Chain.Writing.{IsConsistent}
use nft.Chain.Regenerating.{regenerate_rule-IsConsistent}
use nft.Chain.Linking.{IsLinked, regenerate_rule-IsLinked}

abbrev test_env : Env String
test_env = record {
  net = test_net;
  host_port = λ host port. host;
  hop_label = λ name n. name;
  intn = λ i n. 0;
}

test-IsDraw : IsDraw (λ i n. 0)
test-IsDraw i n h = h

abbrev entry_node : NodeRow
entry_node = record {
  id = 1;
  name = "entry";
  relay_host = "10.0.0.1";
  relay_host_v6 = "";
  port_range = "100-102";
  relay_v4_disabled = false;
  relay_v6_disabled = false;
}

abbrev exit_node : NodeRow
exit_node = record entry_node { id = 2; name = "exit"; relay_host = "10.0.0.2"; port_range = "200" }

abbrev other_hop : HopRow
other_hop = record {
  rule_id = 7;
  position = 0;
  node_id = 1;
  proto = "tcp";
  listen_port = 100;
  target_host = "10.9.9.9";
  target_port = 80;
  mode = "kernel";
  comment = "";
  via_node_id = 1;
}

abbrev chain_rule : RelayRule
chain_rule = record {
  id = 8;
  node_id = 1;
  owner_id = some 3;
  name = "game";
  proto = "tcp+udp";
  exit_host = "10.9.9.8";
  exit_port = 9000;
  proxy_service_id = 0;
  entry_listen_port = 0;
  entry_family = "v4";
  disabled = false;
  via_node_ids = [];
  exit_type = "direct";
  exit_uri = "";
}

abbrev test_store : Store
test_store = record {
  nodes = entry_node ∷ exit_node ∷ [];
  rules = chain_rule ∷ [];
  hops = other_hop ∷ [];
}

abbrev hop_at : ℕ → HopInput
hop_at n = record { node_id = n; mode = ""; desired_port = pos 0; comment = ""; via_node_id = 0 }

abbrev test_hops : List HopInput
test_hops = hop_at 1 ∷ hop_at 2 ∷ []

abbrev row_at : ℕ → ℕ → ℕ → String → ℕ → HopRow
row_at i node port host target = record {
  rule_id = 8;
  position = i;
  node_id = node;
  proto = "tcp+udp";
  listen_port = port;
  target_host = host;
  target_port = target;
  mode = "kernel";
  comment = "game";
  via_node_id = 1;
}

abbrev chained : Store × (Address × Address) × List ℕ
chained = (
  record test_store {
    rules = record chain_rule { entry_listen_port = 101; entry_family = "v4" } ∷ [];
    hops = other_hop ∷ row_at 0 1 101 "10.0.0.2" 200 ∷ row_at 1 2 200 "10.9.9.8" 9000 ∷ [];
  },
  ("10.0.0.1", ""),
  1 ∷ 2 ∷ [],
)

regenerated : regenerate_rule test_env test_store chain_rule test_hops [] ≡ ok chained
unfolding regenerate_rule place_chain resolve_hops has resolve_hop resolve_on find_node resolve_with
    effective_relay_hosts named_range parse_port_range parse_parts split_on trim_space parse_next
    parse_part parse_split cut_at parse_bounds get_or insert lookup competes nodes_of
    occupied_ports_on_node set_entry add_port assign_port assign_ports derive_family entry_addresses
    first_address first_port hop_mode hop_row hop_rows last_of normalize_forward_mode or_text
    prev_comments prev_ports resolve_as target_of write_chain is_ipv6 atoi digits_value is_space
    trim_left overlapping_of overlapping_protos parse_single pick_free_port_from_range port_at
    port_in_range proto_namespaces scan total_span
regenerated = refl

one_row : IsConsistent (other_hop ∷ [])
one_row = record { stored = (inl refl, tt); modes = (inl refl, tt); no_clash = (tt, tt) }

regenerate_rule-IsConsistent_example : IsConsistent chained.0.hops
regenerate_rule-IsConsistent_example =
    regenerate_rule-IsConsistent test_env test_store chain_rule [] test_hops chained test-IsDraw
      (inr (inr refl)) one_row regenerated

regenerate_rule-IsLinked_example :
    (nodes_of (filterb (of_rule 8) chained.0.hops) ≡ 1 ∷ 2 ∷ [])
    × IsLinked test_store.nodes chain_rule 0 (filterb (of_rule 8) chained.0.hops)
    × (filterb (without_rule 8) chained.0.hops ≡ filterb (without_rule 8) test_store.hops)
regenerate_rule-IsLinked_example =
    regenerate_rule-IsLinked test_env test_store chain_rule [] test_hops chained test-IsDraw
      (inr (inr refl)) regenerated

abbrev test_segments : List Segment
test_segments = (100, 102) ∷ (200, 200) ∷ []

abbrev test_spec : List ℕ
test_spec = codes "100-102, 200"

parsed : parse_port_range test_spec ≡ ok test_segments
unfolding parse_port_range parse_parts split_on trim_space parse_next parse_part parse_split cut_at
    parse_bounds atoi digits_value is_space trim_left parse_single
parsed = refl
