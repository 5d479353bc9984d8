-- ===== src/Dispatch/Counting.antt =====
-- internal/db/queries.go: RuleHopMapByNode, by which the panel finds the row that a sample of a node
-- counts for. The text "proto/port" of a key is the pair here.
use nft.Base.{
  Bool, List, String, [], eqb, filterb, has, if◌then◌else◌, nat_eq, pair_eq, string_eq, ℕ, ◌++◌,
  ◌∷◌,
}
use nft.Base.Assoc.{insert}
use nft.Chain.{HopRow}
use nft.Ports.{proto_namespaces}
use nft.Dispatch.Pushing.{sort_by_port}

abbrev pub CounterKey : Type 0
CounterKey = String × ℕ

-- The closure `add` over a list of protocols.
unfoldable pub add_protos : List String → List String → List String
add_protos protos [] = protos
add_protos protos (p ∷ ps) = add_protos (if has p protos then protos else protos ++ p ∷ []) ps

abbrev pub at_listen_port : ℕ → List String → List CounterKey
at_listen_port port [] = []
at_listen_port port (p ∷ ps) = (p, port) ∷ at_listen_port port ps

unfoldable pub hop_counter_keys : String → ℕ → List CounterKey
hop_counter_keys proto port = at_listen_port port (add_protos [] (proto ∷ proto_namespaces proto))

unfoldable pub insert_keys :
    List CounterKey → HopRow → List (CounterKey × HopRow) → List (CounterKey × HopRow)
insert_keys [] h m = m
insert_keys (k ∷ ks) h m = insert_keys ks h (insert k h m)

unfoldable pub hop_map : List HopRow → List (CounterKey × HopRow) → List (CounterKey × HopRow)
hop_map [] m = m
hop_map (h ∷ hs) m = hop_map hs (insert_keys (hop_counter_keys h.proto h.listen_port) h m)

abbrev pub on_node : ℕ → HopRow → Bool
on_node node h = eqb h.node_id node

unfoldable pub rule_hop_map_by_node : ℕ → List HopRow → List (CounterKey × HopRow)
rule_hop_map_by_node node hops = hop_map (sort_by_port (filterb (on_node node) hops)) []
