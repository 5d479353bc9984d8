-- ===== src/Chain/Tables.antt =====
-- The rows of `nodes`, `rules` and `rule_hops`, with the columns that the chain's operations read or
-- write, and the queries of internal/db/rules.go over them.
use nft.Base.{
  Bool, List, Option, String, [], eqb, has, if◌then◌else◌, nat_eq, none, not, pair_eq, some,
  string_eq, ℕ, ◌&&◌, ◌∷◌,
}
use nft.Ports.{overlapping_protos}

pub record NodeRow : Type 0 where
  pub id : ℕ
  pub name : String
  pub relay_host : String
  pub relay_host_v6 : String
  pub port_range : String
  pub relay_v4_disabled : Bool
  pub relay_v6_disabled : Bool

-- The `Rule` of internal/db.
pub record RelayRule : Type 0 where
  pub id : ℕ
  pub node_id : ℕ
  pub owner_id : Option ℕ
  pub name : String
  pub proto : String
  pub exit_host : String
  pub exit_port : ℕ
  pub proxy_service_id : ℕ
  pub entry_listen_port : ℕ
  pub entry_family : String
  pub disabled : Bool
  pub via_node_ids : List ℕ
  pub exit_type : String
  pub exit_uri : String

pub record HopRow : Type 0 where
  pub rule_id : ℕ
  pub position : ℕ
  pub node_id : ℕ
  pub proto : String
  pub listen_port : ℕ
  pub target_host : String
  pub target_port : ℕ
  pub mode : String
  pub comment : String
  pub via_node_id : ℕ

pub record Store : Type 0 where
  pub nodes : List NodeRow
  pub rules : List RelayRule
  pub hops : List HopRow

unfoldable pub find_node : ℕ → List NodeRow → Option NodeRow
find_node id [] = none
find_node id (n ∷ ns) = if eqb n.id id then some n else find_node id ns

-- The rows that OccupiedPortsOnNode selects.
unfoldable pub competes : ℕ → String → ℕ → HopRow → Bool
competes node proto exclude h =
    eqb h.node_id node && (has h.proto (overlapping_protos proto) && not (eqb h.rule_id exclude))

unfoldable pub occupied_ports_on_node : List HopRow → ℕ → String → ℕ → List ℕ
occupied_ports_on_node [] node proto exclude = []
occupied_ports_on_node (h ∷ hs) node proto exclude =
    let rest = occupied_ports_on_node hs node proto exclude in
    if competes node proto exclude h then h.listen_port ∷ rest else rest

-- ON DELETE CASCADE leaves no row of a deleted rule.
abbrev pub without_rule : ℕ → HopRow → Bool
without_rule id h = not (eqb h.rule_id id)

abbrev pub of_rule : ℕ → HopRow → Bool
of_rule id h = eqb h.rule_id id

unfoldable pub nodes_of : List HopRow → List ℕ
nodes_of [] = []
nodes_of (h ∷ hs) = h.node_id ∷ nodes_of hs

-- UPDATE rules SET entry_listen_port=?, entry_family=? WHERE id=?
unfoldable pub set_entry : ℕ → ℕ → String → List RelayRule → List RelayRule
set_entry id port family [] = []
set_entry id port family (r ∷ rs) =
    let rest = set_entry id port family rs in
    if eqb r.id id
    then record r { entry_listen_port = port; entry_family = family } ∷ rest
    else r ∷ rest
