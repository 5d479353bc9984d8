-- ===== src/Daemon/Local.antt =====
-- The rules of the node's own "tui" segment: what the handlers of internal/daemon/handlers.go do to it.
use nft.Base.{
  Bool, List, Option, String, [], all, err, false, if◌then◌else◌, leb, ltb, nat_eq, none, not, ok,
  pair_eq, some, string_eq, true, ℕ, ◌%◌, ◌&&◌, ◌*◌, ◌++◌, ◌+◌, ◌-◌, ◌==◌, ◌^◌, ◌||◌, ◌∷◌,
}
use nft.Base.Assoc.{delete, get_or, insert}
use nft.Ports.{pick_free_port}
use nft.Base.Int.{int_eq, pos, to_ℕ, ℤ}
use nft.Net.{Net, parses}
use nft.Rule.{Rule, codes, plausible_hostname}
use nft.Owners.{OwnerRuleset}
use nft.Daemon.{Daemon, Outcome, World, reconcile_owners}

-- The request body of an update; an empty text or 0 keeps a field, the comment is always written.
pub record UpdateRequest : Type 0 where
  pub proto : String
  pub exit_host : String
  pub exit_port : ℤ
  pub listen_port : ℤ
  pub mode : String
  pub comment : String

unfoldable pub set_target {ℓ} : {Ip : Type ℓ} → Net Ip → String → Rule → Rule
set_target net host r =
    if host == ""
    then r
    else if parses net host
    then record r { dest_ip = host; dest_host = "" }
    else record r { dest_host = host; dest_ip = "" }

abbrev pub keep_text : String → String → String
keep_text new old = if new == "" then old else new

abbrev pub keep_number : ℤ → ℤ → ℤ
keep_number new old = if new == pos 0 then old else new

unfoldable pub update_rule {ℓ} : {Ip : Type ℓ} → Net Ip → UpdateRequest → Rule → Rule
update_rule net req r =
    let t = set_target net req.exit_host r in
    record t {
      proto = keep_text req.proto t.proto;
      dest_port = keep_number req.exit_port t.dest_port;
      src_port = keep_number req.listen_port t.src_port;
      mode = keep_text req.mode t.mode;
      comment = req.comment;
    }

-- The loops over the segment stop at the first rule with the id; the flag tells whether there is one.
unfoldable pub update_first : (Rule → Rule) → String → List Rule → List Rule × Bool
update_first f id [] = ([], false)
update_first f id (r ∷ rs) =
    let rest = update_first f id rs in if r.id == id then (f r ∷ rs, true) else (r ∷ rest.0, rest.1)

unfoldable pub delete_first : String → List Rule → List Rule × Bool
delete_first id [] = ([], false)
delete_first id (r ∷ rs) =
    let rest = delete_first id rs in if r.id == id then (rs, true) else (r ∷ rest.0, rest.1)

-- The closures that the three handlers pass to reconcileOwners.
unfoldable pub create_local : Rule → OwnerRuleset → OwnerRuleset
create_local r o = insert "tui" (get_or [] "tui" o ++ r ∷ []) o

unfoldable pub update_local {ℓ} :
    {Ip : Type ℓ} → Net Ip → UpdateRequest → String → OwnerRuleset → OwnerRuleset × Bool
update_local net req id o =
    let updated = update_first (update_rule net req) id (get_or [] "tui" o) in
    (if updated.1 then insert "tui" updated.0 o else o, updated.1)

abbrev without_empty : List Rule → OwnerRuleset → OwnerRuleset
without_empty [] o = delete "tui" o
without_empty (r ∷ rs) o = insert "tui" (r ∷ rs) o

unfoldable pub delete_local : String → OwnerRuleset → OwnerRuleset × Bool
delete_local id o =
    let left = delete_first id (get_or [] "tui" o) in (without_empty left.0 o, left.1)

abbrev pub accumulate : List ℕ → ℕ → ℕ
accumulate [] n = n
accumulate (c ∷ cs) n = accumulate cs ((n * 10 + (c - b'0')) % 2 ^ 64)

-- parseRuleID, over the text's characters; the value is an int64, kept modulo 2 ^ 64.
unfoldable pub parse_rule_id : List ℕ → Option ℕ
parse_rule_id s =
    let id = accumulate s 0 in
    if all (λ c. leb b'0' c && leb c b'9') s && (ltb 0 id && ltb id (2 ^ 63)) then some id else none

-- The handlers while the daemon has no connection to the panel: the guard on the id, then the write and
-- the status of the answer.
pub data Status : Type 0 where
  done not_found not_connected bad_target write_failed no_free_port : Status

unfoldable pub answer : Bool → Outcome → Status × Daemon
answer found (err e, d) = (write_failed, d)
answer found (ok r, d) = (if found then done else not_found, d)

unfoldable pub delete_unless : Option ℕ → World → String → Daemon → Status × Daemon
delete_unless (some rule_id) w id d = (not_connected, d)
delete_unless none w id d =
    answer (delete_local id d.owners).1
      (reconcile_owners w (λ o. (delete_local id o).0) (λ rev. rev) true d)

unfoldable pub handle_delete_rule : World → String → Daemon → Status × Daemon
handle_delete_rule w id d = delete_unless (parse_rule_id (codes id)) w id d

unfoldable pub handle_update_rule {ℓ} :
    {Ip : Type ℓ} → Net Ip → World → UpdateRequest → String → Daemon → Status × Daemon
handle_update_rule net w req id d = elim (parse_rule_id (codes id)) [
  | some rule_id ↦ (not_connected, d)
  | none ↦
      if not (req.exit_host == "")
        && (not (parses net req.exit_host) && not (plausible_hostname net req.exit_host))
      then (bad_target, d)
      else answer (update_local net req id d.owners).1
          (reconcile_owners w (λ o. (update_local net req id o).0) (λ rev. rev) true d)
]

-- pickLocalFreePort: the ports that any owner's rule holds under a protocol in conflict.
unfoldable pub conflicts : String → Rule → Bool
conflicts proto r = r.proto == proto || (r.proto == "tcp+udp" || proto == "tcp+udp")

unfoldable pub held_ports : String → List Rule → List ℕ
held_ports proto [] = []
held_ports proto (r ∷ rs) =
    let rest = held_ports proto rs in if conflicts proto r then to_ℕ r.src_port ∷ rest else rest

unfoldable pub occupied_ports : String → OwnerRuleset → List ℕ
occupied_ports proto [] = []
occupied_ports proto ((name, rules) ∷ owners) =
    held_ports proto rules ++ occupied_ports proto owners

-- ChainPortMin and ChainPortMax are 10001 and 20000; `offset` is the random start.
unfoldable pub pick_local_free_port : ℕ → String → OwnerRuleset → ℕ
pick_local_free_port offset proto owners =
    pick_free_port offset 10001 20000 (occupied_ports proto owners)

pub record CreateRequest : Type 0 where
  pub proto : String
  pub exit_host : String
  pub exit_port : ℤ
  pub listen_port : ℤ
  pub mode : String
  pub comment : String

-- The rule before its target is set; `new_id` is what nft.NewRuleID returns.
unfoldable pub created_rule : String → CreateRequest → ℤ → Rule
created_rule new_id req port = record {
  id = new_id;
  proto = req.proto;
  src_port = port;
  dest_ip = "";
  dest_host = "";
  dest_port = req.exit_port;
  comment = req.comment;
  bandwidth_mbps = pos 0;
  mode = req.mode;
  rule_id = pos 0;
  rule_name = "";
  owner_name = "";
  hop_count = pos 0;
  shape_group = pos 0;
  rate_mbytes = pos 0;
  exit_proxy = "";
}

unfoldable pub listen_port_of : ℕ → CreateRequest → OwnerRuleset → ℤ
listen_port_of offset req owners =
    if req.listen_port == pos 0
    then pos (pick_local_free_port offset (if req.proto == "" then "tcp" else req.proto) owners)
    else req.listen_port

abbrev pub aim {ℓ} : {Ip : Type ℓ} → Net Ip → String → Rule → Rule
aim net host r =
    if parses net host then record r { dest_ip = host } else record r { dest_host = host }

-- The answer carries the listen port. A port of 0 means that none was free.
unfoldable pub handle_create_rule {ℓ} :
    {Ip : Type ℓ} → Net Ip → World → ℕ → String → CreateRequest → Daemon → Status × Daemon
handle_create_rule net w offset new_id req d =
    let port = listen_port_of offset req d.owners in
    if port == pos 0
    then (no_free_port, d)
    else if not (parses net req.exit_host) && not (plausible_hostname net req.exit_host)
    then (bad_target, d)
    else answer true (
        reconcile_owners w (create_local (aim net req.exit_host (created_rule new_id req port)))
          (λ rev. rev) true d)
