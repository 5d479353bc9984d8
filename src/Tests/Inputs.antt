-- ===== src/Tests/Inputs.antt =====
-- Concrete rules, and an address parser that knows four addresses.
use nft.Base.{
  Bool, List, String, [], false, if◌then◌else◌, nat_eq, none, pair_eq, some, string_eq, ◌==◌, ◌||◌,
  ◌∷◌,
}
use nft.Base.Int.{int_eq, pos}
use nft.Net.{Net}
use nft.Rule.{Rule}

abbrev pub known_addresses : List String
known_addresses = "10.0.0.2" ∷ "127.0.0.1" ∷ "2001:db8::2" ∷ "::1" ∷ []

abbrev pub is_known : List String → String → Bool
is_known [] s = false
is_known (a ∷ rest) s = a == s || is_known rest s

-- An address stands for itself.
abbrev pub test_net : Net String
test_net = record {
  parse_ip = λ s. if is_known known_addresses s then some s else none;
  to4 = λ s. s == "10.0.0.2" || s == "127.0.0.1";
  is_loopback = λ s. s == "127.0.0.1" || s == "::1";
  text = λ s. s;
  equal = λ a b. a == b;
}

abbrev pub web_rule : Rule
web_rule = record {
  id = "a1b2c3d4";
  proto = "tcp";
  src_port = pos 8443;
  dest_ip = "10.0.0.2";
  dest_host = "";
  dest_port = pos 443;
  comment = "";
  bandwidth_mbps = pos 0;
  mode = "";
  rule_id = pos 0;
  rule_name = "";
  owner_name = "";
  hop_count = pos 0;
  shape_group = pos 7;
  rate_mbytes = pos 20;
  exit_proxy = "";
}

-- tcp+udp in userspace mode: it is split over the two data planes.
abbrev pub game_rule : Rule
game_rule = record web_rule {
  id = "0badcafe";
  proto = "tcp+udp";
  src_port = pos 9000;
  mode = "userspace";
}

abbrev pub dns_rule : Rule
dns_rule = record web_rule { id = "5353abcd"; proto = "udp"; src_port = pos 53 }
