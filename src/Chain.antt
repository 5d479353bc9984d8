-- ===== src/Chain.antt =====
-- internal/db/rules.go: the chain of hops of a relay rule. The tables `nodes`, `rules` and `rule_hops`
-- are lists of rows; a statement that the database refuses aborts the transaction, so the operations
-- here are those whose statements succeed. Row identifiers and ports are natural numbers. What is
-- called of fmt, net and math/rand is a parameter: the address and label formats, and the random
-- offset of each hop.
pub mod Tables
pub mod Clashes
pub mod Assigning
pub mod Resolving
pub mod Writing
pub mod Regenerating
pub mod Answering
pub mod Linking
pub mod Deleting
unfoldable pub use Tables.*
use nft.Base.{
  Bool, List, Option, Result, String, [], eqb, err, filterb, has, if◌then◌else◌, nat_eq, none, not,
  ok, pair_eq, some, string_eq, ℕ, ◌&&◌, ◌*◌, ◌++◌, ◌+◌, ◌==◌, ◌>>=◌, ◌∷◌,
}
use nft.Base.Assoc.{get_or, insert, lookup}
use nft.Base.Int.{int_eq, ltb_ℤ, pos, to_ℕ, ℤ}
use nft.Net.{Net, is_ipv6}
use nft.Rule.{codes}
use nft.Ports.{
  RangeError, Segment, parse_port_range, pick_free_port_from_range, port_in_range, total_span,
}

-- `host_port` is net.JoinHostPort; `hop_label` the text of a hop without a comment of its own;
-- `intn i n` what rand.Intn(n) returns for the hop at index i.
pub record Env {ℓ} (Ip : Type ℓ) : Type ℓ where
  pub net : Net Ip
  pub host_port : String → ℕ → String
  pub hop_label : String → ℕ → String
  pub intn : ℕ → ℕ → ℕ

pub record HopInput : Type 0 where
  pub node_id : ℕ
  pub mode : String
  pub desired_port : ℤ
  pub comment : String
  pub via_node_id : ℕ

pub record Resolved : Type 0 where
  pub node_id : ℕ
  pub relay_host : String
  pub relay_host_v6 : String
  pub mode : String
  pub desired_port : ℤ
  pub comment : String
  pub port_segs : List Segment
  pub via_node_id : ℕ

pub data ChainError : Type 0 where
  no_hops duplicate_chain_node : ChainError
  no_such_node no_relay exit_needs_v6 exhausted : ℕ → ChainError
  bad_port_range : ℕ → RangeError → ChainError
  v6_needs_tcp : ChainError
  outside_range occupied : ℤ → ℕ → ChainError

unfoldable pub normalize_forward_mode : String → String
normalize_forward_mode m = if m == "userspace" then "userspace" else "kernel"

-- EffectiveRelayHosts of internal/db/queries.go
unfoldable pub effective_relay_hosts : String → String → Bool → Bool → String × String
effective_relay_hosts relay relay_v6 v4_disabled v6_disabled =
    (if v4_disabled then "" else relay, if v6_disabled then "" else relay_v6)

unfoldable pub hop_mode : String → String → String
hop_mode proto mode = if proto == "udp" then "kernel" else normalize_forward_mode mode

unfoldable pub named_range : ℕ → Result RangeError (List Segment) → Result ChainError (List Segment)
named_range id (err e) = err (bad_port_range id e)
named_range id (ok segs) = ok segs

unfoldable pub resolve_as : RelayRule → HopInput → String × String → List Segment → Resolved
resolve_as r hop relays segs = record {
  node_id = hop.node_id;
  relay_host = relays.0;
  relay_host_v6 = relays.1;
  mode = hop_mode r.proto hop.mode;
  desired_port = hop.desired_port;
  comment = hop.comment;
  port_segs = segs;
  via_node_id = if eqb hop.via_node_id 0 then r.node_id else hop.via_node_id;
}

unfoldable pub resolve_with :
    RelayRule → HopInput → NodeRow → String × String → Result ChainError Resolved
resolve_with r hop n relays =
    if (relays.0 == "") && (relays.1 == "") then err (no_relay n.id) else (do
      segs ← named_range n.id (parse_port_range (codes n.port_range))
      ok (resolve_as r hop relays segs))

unfoldable pub resolve_on : RelayRule → HopInput → Option NodeRow → Result ChainError Resolved
resolve_on r hop none = err (no_such_node hop.node_id)
resolve_on r hop (some n) =
    resolve_with r hop n
      (effective_relay_hosts n.relay_host n.relay_host_v6 n.relay_v4_disabled n.relay_v6_disabled)

unfoldable pub resolve_hop : Store → RelayRule → HopInput → Result ChainError Resolved
resolve_hop store r hop = resolve_on r hop (find_node hop.node_id store.nodes)

-- The first loop; `seen` holds the nodes of the hops before.
unfoldable pub resolve_hops :
    Store → RelayRule → List ℕ → List HopInput → Result ChainError (List Resolved)
resolve_hops store r seen [] = ok []
resolve_hops store r seen (hop ∷ hops) =
    if has hop.node_id seen then err duplicate_chain_node else (do
      h ← resolve_hop store r hop
      hs ← resolve_hops store r (hop.node_id ∷ seen) hops
      ok (h ∷ hs))

unfoldable pub last_of : Resolved → List Resolved → Resolved
last_of h [] = h
last_of h (g ∷ gs) = last_of g gs

-- The entry family and the entry hop, from the addresses that the entry node has.
unfoldable pub derive_family : String → Resolved → Result ChainError (String × Resolved)
derive_family proto h =
    if not (h.relay_host == "") && (not (h.relay_host_v6 == "") && (proto == "tcp"))
    then ok ("both", record h { mode = "userspace" })
    else if (h.relay_host == "") && not (h.relay_host_v6 == "")
    then (if proto == "tcp" then ok ("v6", record h { mode = "userspace" }) else err v6_needs_tcp)
    else ok ("v4", h)

-- The ports of the rule's rows before the edit, and the comments, by node.
unfoldable pub prev_ports : List HopRow → List (ℕ × ℕ) → List (ℕ × ℕ)
prev_ports [] m = m
prev_ports (h ∷ hs) m = prev_ports hs (insert h.node_id h.listen_port m)

unfoldable pub prev_comments : List HopRow → List (ℕ × String) → List (ℕ × String)
prev_comments [] m = m
prev_comments (h ∷ hs) m = prev_comments hs (insert h.node_id h.comment m)

unfoldable pub add_port : Option ℕ → List ℕ → List ℕ
add_port none occ = occ
add_port (some port) occ = port ∷ occ

-- One turn of the second loop, with the previous port and the occupied ports of the node.
unfoldable pub assign_port : ℕ → ℕ → List ℕ → Resolved → Result ChainError ℕ
assign_port offset prev occ h =
    if ltb_ℤ (pos 0) h.desired_port
    then (if not (port_in_range (to_ℕ h.desired_port) h.port_segs)
        then err (outside_range h.desired_port h.node_id)
        else if has (to_ℕ h.desired_port) occ
        then err (occupied h.desired_port h.node_id)
        else ok (to_ℕ h.desired_port))
    else if port_in_range prev h.port_segs && not (has prev occ)
    then ok prev
    else let port = pick_free_port_from_range offset h.port_segs occ in
      if eqb port 0 then err (exhausted h.node_id) else ok port

abbrev pub Placed : Type 0
Placed = Resolved × ℕ

-- The second loop; a hop is kept beside its port, the source keeps two slices.
module _ (intn : ℕ → ℕ → ℕ) (hops : List HopRow) (proto : String) (id : ℕ)
    (prev avoid : List (ℕ × ℕ)) where
  unfoldable pub assign_ports : ℕ → List Resolved → Result ChainError (List Placed)
  assign_ports i [] = ok []
  assign_ports i (h ∷ hs) = do
    port ←
        assign_port (intn i (total_span h.port_segs)) (get_or 0 h.node_id prev)
          (add_port (lookup h.node_id avoid) (occupied_ports_on_node hops h.node_id proto id)) h
    rest ← assign_ports (i + 1) hs
    ok ((h, port) ∷ rest)

-- Where a hop sends its traffic: the next hop's relay address, v4 if it has one, and port, or the
-- rule's exit.
unfoldable pub target_of : RelayRule → List Placed → String × ℕ
target_of r [] = (r.exit_host, r.exit_port)
target_of r ((h, port) ∷ later) =
    (if h.relay_host == "" then h.relay_host_v6 else h.relay_host, port)

unfoldable pub or_text : String → String → String
or_text a b = if a == "" then b else a

-- The rows that the third loop inserts.
module _ (label : String → ℕ → String) (r : RelayRule) (comments : List (ℕ × String)) where
  unfoldable pub hop_row : ℕ → Placed → String × ℕ → HopRow
  hop_row i p target = record {
    rule_id = r.id;
    position = i;
    node_id = p.0.node_id;
    proto = r.proto;
    listen_port = p.1;
    target_host = target.0;
    target_port = target.1;
    mode = p.0.mode;
    comment = or_text (or_text p.0.comment (get_or "" p.0.node_id comments)) (label r.name (i + 1));
    via_node_id = p.0.via_node_id;
  }

  unfoldable pub hop_rows : ℕ → List Placed → List HopRow
  hop_rows i [] = []
  hop_rows i (p ∷ later) = hop_row i p (target_of r later) ∷ hop_rows (i + 1) later

unfoldable pub first_port : List Placed → ℕ
first_port [] = 0
first_port ((h, port) ∷ later) = port

abbrev pub Address : Type 0
Address = String

module _ {ℓ} {Ip : Type ℓ} (env : Env Ip) where
  unfoldable pub entry_addresses : String → String → String → ℕ → Address × Address
  entry_addresses family relay relay_v6 port =
      if family == "v6"
      then (if relay_v6 == "" then ("", "") else (env.host_port relay_v6 port, ""))
      else if family == "both"
      then (if relay_v6 == ""
          then (env.host_port relay port, "")
          else (env.host_port relay port, env.host_port relay_v6 port))
      else (env.host_port relay port, "")

  unfoldable pub first_address : String → List Placed → Address × Address
  first_address family [] = ("", "")
  first_address family ((h, port) ∷ later) =
      entry_addresses family h.relay_host h.relay_host_v6 port

  -- What the steps before the first write settle on: the family, the hops in order and their ports.
  unfoldable pub place_chain :
      Store → RelayRule → List (ℕ × ℕ) → List Resolved → Result ChainError (String × List Placed)
  place_chain store r avoid [] = err no_hops
  place_chain store r avoid (h ∷ hs) =
      let end = last_of h hs in
      if is_ipv6 env.net r.exit_host && (end.relay_host_v6 == "")
      then err (exit_needs_v6 end.node_id)
      else (do
        entry ← derive_family r.proto h
        placed ←
            assign_ports env.intn (filterb (without_rule r.id) store.hops) r.proto r.id
              (prev_ports (filterb (of_rule r.id) store.hops) []) avoid 0 (entry.1 ∷ hs)
        ok (entry.0, placed))

  -- The writes, and what is returned: the new tables, the entry addresses and the nodes to update.
  unfoldable pub write_chain :
      Store → RelayRule → String → List Placed → Store × (Address × Address) × List ℕ
  write_chain store r family placed =
      let prev = filterb (of_rule r.id) store.hops in
      let rows = hop_rows env.hop_label r (prev_comments prev []) 0 placed in
      (
        record store {
          hops = filterb (without_rule r.id) store.hops ++ rows;
          rules = set_entry r.id (first_port placed) family store.rules;
        },
        first_address family placed,
        nodes_of prev ++ nodes_of rows,
      )

  unfoldable pub regenerate_rule :
      Store
      → RelayRule
      → List HopInput
      → List (ℕ × ℕ)
      → Result ChainError (Store × (Address × Address) × List ℕ)
  regenerate_rule store r hops avoid = do
    rs ← resolve_hops store r [] hops
    chain ← place_chain store r avoid rs
    ok (write_chain store r chain.0 chain.1)
