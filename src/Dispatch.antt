-- ===== src/Dispatch.antt =====
-- internal/server/server.go: what the panel sends to a node. `buildRules` turns the rows of `rule_hops`
-- that `ActiveRuleHopsForPush` of internal/db/queries.go selects into rules. It ignores the errors of the
-- queries for its lookup tables; a table whose query failed is empty here, as it is there.
pub mod Pushing
pub mod Whole
pub mod Building
pub mod Sorting
pub mod Claiming
pub mod Accepting
pub mod Exits
pub mod Counting
pub mod Finding
use Prim.Native.Nat.{bit_and}
use nft.Base.{
  Bool, List, Option, String, [], eqb, false, has, if◌then◌else◌, leb, ltb, nat_eq, none, not,
  pair_eq, some, string_eq, true, ℕ, ◌&&◌, ◌+◌, ◌==◌, ◌||◌, ◌∷◌,
}
use nft.Base.Int.{int_eq, ltb_ℤ, pos, ℤ}
use nft.Base.Assoc.{get_or, lookup}
use nft.Net.{Net}
use nft.Rule.{Rule, is_hostname, mode_userspace}
use nft.Chain.{HopRow, RelayRule}

-- The columns of `users` that matter here.
pub record UserRow : Type 0 where
  pub id : ℕ
  pub username : String
  pub speed_limit_mbytes : ℤ

pub record GrantShape : Type 0 where
  pub grant_id : ℕ
  pub rate_limit_mbytes : ℤ

pub record Lookups : Type 0 where
  pub rules : List RelayRule
  pub users : List UserRow
  -- By user and node.
  pub shapes : List ((ℕ × ℕ) × GrantShape)
  -- All of `rule_hops`.
  pub hops : List HopRow
  -- The protocols of the proxy services, trimmed and in lower case.
  pub protocols : List (ℕ × String)

unfoldable pub find_rule : ℕ → List RelayRule → Option RelayRule
find_rule id [] = none
find_rule id (r ∷ rs) = if eqb r.id id then some r else find_rule id rs

unfoldable pub find_user : ℕ → List UserRow → Option UserRow
find_user id [] = none
find_user id (u ∷ us) = if eqb u.id id then some u else find_user id us

-- RuleHopCounts, at one rule.
unfoldable pub hop_count_of : ℕ → List HopRow → ℕ
hop_count_of id [] = 0
hop_count_of id (h ∷ hs) =
    let rest = hop_count_of id hs in if eqb h.rule_id id then 1 + rest else rest

abbrev is_empty : List ℕ → Bool
is_empty [] = true
is_empty (n ∷ ns) = false

unfoldable pub rule_uses_protocol_entry : RelayRule → Bool
rule_uses_protocol_entry r = ltb 0 r.proxy_service_id && is_empty r.via_node_ids

abbrev pub protocol_entry_protocols : List String
protocol_entry_protocols =
    "vless" ∷ "shadowsocks" ∷ "ss" ∷ "socks5" ∷ "socks" ∷ "anytls" ∷ "naive" ∷ "naiveproxy" ∷ []

abbrev pub protocol_entry_supported : String → Bool
protocol_entry_supported proto = has proto protocol_entry_protocols

-- The rule is served by a proxy core, and its hop is not sent.
unfoldable pub owned_by_core : Lookups → HopRow → Option RelayRule → Bool
owned_by_core t h none = false
owned_by_core t h (some r) =
    rule_uses_protocol_entry r
    && (protocol_entry_supported (get_or "" r.proxy_service_id t.protocols)
        && leb (hop_count_of h.rule_id t.hops) 1)

-- The loop over `candidates`.
unfoldable pub first_shape : List ((ℕ × ℕ) × GrantShape) → ℕ → List ℕ → Option GrantShape
first_shape shapes owner [] = none
first_shape shapes owner (n ∷ ns) = elim (lookup (owner, n) shapes) [
  | some gs ↦ some gs
  | none ↦ first_shape shapes owner ns
]

abbrev pub synthetic_group : ℕ → ℕ
synthetic_group owner = 0x8000 + bit_and owner 0x7fff

abbrev pub or_group : ℕ → ℕ → ℕ
or_group grant owner = if eqb grant 0 then synthetic_group owner else grant

-- The owner's own limit, where the grant has none.
unfoldable pub user_shape : ℕ → ℤ × ℕ → Option UserRow → ℤ × ℕ
user_shape owner granted none = granted
user_shape owner granted (some u) =
    if ltb_ℤ (pos 0) u.speed_limit_mbytes
    then (u.speed_limit_mbytes, or_group granted.1 owner)
    else granted

abbrev pub granted_shape : Option GrantShape → ℤ × ℕ
granted_shape none = (pos 0, 0)
granted_shape (some gs) = (gs.rate_limit_mbytes, gs.grant_id)

-- The rate and the group that a hop is shaped by.
unfoldable pub shape_of : ℕ → Option GrantShape → Option UserRow → ℤ × ℕ
shape_of owner gs user =
    if ltb_ℤ (pos 0) (granted_shape gs).0
    then granted_shape gs
    else user_shape owner (granted_shape gs) user

unfoldable pub with_shape : ℤ × ℕ → Rule → Rule
with_shape shape rule =
    if ltb_ℤ (pos 0) shape.0 && ltb 0 shape.1
    then record rule {
      shape_group = pos shape.1;
      rate_mbytes = shape.0;
      bandwidth_mbps = shape.0;
      mode = if rule.proto == "tcp" || rule.proto == "tcp+udp" then mode_userspace else rule.mode;
    }
    else rule

unfoldable pub with_name : Option UserRow → Rule → Rule
with_name none rule = rule
with_name (some u) rule = record rule { owner_name = u.username }

unfoldable pub with_owner : Lookups → HopRow → RelayRule → Option ℕ → Rule → Rule
with_owner t h r none rule = rule
with_owner t h r (some owner) rule =
    let user = find_user owner t.users in
    let gs = first_shape t.shapes owner (h.via_node_id ∷ h.node_id ∷ r.node_id ∷ []) in
    with_shape (shape_of owner gs user) (with_name user rule)

unfoldable pub with_rule : Lookups → HopRow → Option RelayRule → Rule → Rule
with_rule t h none rule = rule
with_rule t h (some r) rule =
    with_owner t h r r.owner_id (record rule { rule_id = pos r.id; rule_name = r.name })

unfoldable pub with_dest {ℓ} : {Ip : Type ℓ} → Net Ip → String → Rule → Rule
with_dest net host rule =
    if is_hostname net host
    then record rule { dest_host = host }
    else record rule { dest_ip = host }

-- Only the last hop of a rule dials through the SOCKS5 exit.
unfoldable pub with_exit : ℕ → HopRow → Option RelayRule → Rule → Rule
with_exit count h none rule = rule
with_exit count h (some r) rule =
    if r.exit_type == "socks5"
      && (not (r.exit_uri == "") && (ltb 0 count && eqb (h.position + 1) count))
    then record rule { exit_proxy = r.exit_uri; mode = mode_userspace }
    else rule

abbrev pub plain_rule : ℕ → HopRow → Rule
plain_rule count h = record {
  id = "";
  proto = h.proto;
  src_port = pos h.listen_port;
  dest_ip = "";
  dest_host = "";
  dest_port = pos h.target_port;
  comment = h.comment;
  bandwidth_mbps = pos 0;
  mode = h.mode;
  rule_id = pos 0;
  rule_name = "";
  owner_name = "";
  hop_count = pos count;
  shape_group = pos 0;
  rate_mbytes = pos 0;
  exit_proxy = "";
}

unfoldable pub build_rule {ℓ} : {Ip : Type ℓ} → Net Ip → Lookups → HopRow → Rule
build_rule net t h =
    let r = find_rule h.rule_id t.rules in
    let count = hop_count_of h.rule_id t.hops in
    with_exit count h r (with_dest net h.target_host (with_rule t h r (plain_rule count h)))

unfoldable pub build_rules {ℓ} : {Ip : Type ℓ} → Net Ip → Lookups → List HopRow → List Rule
build_rules net t [] = []
build_rules net t (h ∷ hs) =
    let rest = build_rules net t hs in
    if owned_by_core t h (find_rule h.rule_id t.rules) then rest else build_rule net t h ∷ rest
