-- ===== src/Exits/Moving.antt =====
-- PropagateRepoExitChange of internal/db/landing_exits.go: the exits that were imported from the node
-- repository, the rules and their last hops follow an entry that moves to another address. The statements
-- of the transaction are taken to succeed. Rows are visited in the order of the tables.
pub mod Totals
pub mod Carrying
pub mod Links
use nft.Base.{
  Bool, List, Option, String, [], any, eqb, false, filterb, has, if◌then◌else◌, length, ltb, map,
  nat_eq, none, not, pair_eq, some, string_eq, true, ℕ, ◌&&◌, ◌+◌, ◌==◌, ◌||◌, ◌∷◌,
}
use nft.Base.Assoc.{delete, insert, keys, lookup, modify}
use nft.Base.Int.{int_eq, ltb_ℤ, pos, to_ℕ, ℤ}
use nft.Exits.{LandingExit, LandingExitKey, LandingExits}
use nft.Chain.{HopRow, RelayRule}

-- The arguments, where a negative `expires_at` keeps the expiry that a row has.
pub record RepoChange : Type 0 where
  pub old_key : LandingExitKey
  pub new_key : LandingExitKey
  pub name : String
  pub protocol : String
  pub uri : String
  pub expires_at : ℤ

pub record Tables : Type 0 where
  pub exits : LandingExits
  pub rules : List RelayRule
  pub hops : List HopRow

pub record Propagated : Type 0 where
  pub endpoint_changed : Bool
  pub exits_updated : ℕ
  pub rules_updated : ℕ
  pub node_ids : List ℕ
  pub moved_users : List ℕ

abbrev pub is_empty_key : LandingExitKey → Bool
is_empty_key k = k.0 == "" || eqb k.1 0

abbrev pub moves : RepoChange → Bool
moves c = not (c.old_key == c.new_key)

-- SELECT ... WHERE host=? AND port=? AND source='repo'
unfoldable pub repo_rows : LandingExitKey → LandingExits → List (ℕ × LandingExit)
repo_rows old [] = []
repo_rows old (((user, k), r) ∷ t) =
    let rest = repo_rows old t in if k == old && r.source == "repo" then (user, r) ∷ rest else rest

abbrev pub or_old : String → String → String
or_old new old = if new == "" then old else new

abbrev pub expiry_of : RepoChange → LandingExit → ℕ
expiry_of c e = if ltb_ℤ c.expires_at (pos 0) then e.expires_at else to_ℕ c.expires_at

-- The row `x`, with the values that were computed from the row `e` that was read.
abbrev pub refreshed : ℕ → RepoChange → LandingExit → LandingExit → LandingExit
refreshed now c e x = record x {
  name = or_old c.name e.name;
  protocol = or_old c.protocol e.protocol;
  uri = or_old c.uri e.uri;
  expires_at = expiry_of c e;
  updated_at = now;
  source = "repo";
}

-- The row `x` that the user has at the new address, with the row `e` of the old one.
abbrev pub merged : ℕ → RepoChange → LandingExit → LandingExit → LandingExit
merged now c e x = record x {
  name = or_old c.name e.name;
  name_override = or_old x.name_override e.name_override;
  protocol = or_old c.protocol e.protocol;
  uri = or_old c.uri e.uri;
  present = e.present || x.present;
  quota_bytes = if ltb x.quota_bytes e.quota_bytes then e.quota_bytes else x.quota_bytes;
  used_bytes = x.used_bytes + e.used_bytes;
  expires_at = expiry_of c e;
  updated_at = now;
  source = "repo";
}

-- The statements for a row whose endpoint moves, by what the user has at the new address.
unfoldable pub relocated :
    ℕ → RepoChange → ℕ → LandingExit → LandingExits → Option LandingExit → LandingExits
relocated now c user e t none =
    insert (user, c.new_key) (refreshed now c e e) (delete (user, c.old_key) t)
relocated now c user e t (some x) =
    delete (user, c.old_key) (modify (user, c.new_key) (merged now c e) t)

-- One turn of the loop over the rows at the old address.
unfoldable pub move_row : ℕ → RepoChange → ℕ → LandingExit → LandingExits → LandingExits
move_row now c user e t =
    if moves c
    then relocated now c user e t (lookup (user, c.new_key) t)
    else modify (user, c.old_key) (refreshed now c e) t

unfoldable pub move_rows : ℕ → RepoChange → List (ℕ × LandingExit) → LandingExits → LandingExits
move_rows now c [] t = t
move_rows now c ((user, e) ∷ rows) t = move_rows now c rows (move_row now c user e t)

abbrev pub exits_to : LandingExitKey → RelayRule → Bool
exits_to k r = (r.exit_host, r.exit_port) == k

-- UPDATE rules SET exit_host=?, exit_port=? WHERE exit_host=? AND exit_port=?
abbrev pub moved_rule : RepoChange → RelayRule → RelayRule
moved_rule c r =
    if exits_to c.old_key r
    then record r { exit_host = c.new_key.0; exit_port = c.new_key.1 }
    else r

-- position = (SELECT MAX(h2.position) ... WHERE h2.rule_id = rule_hops.rule_id)
unfoldable pub is_last_hop : List HopRow → HopRow → Bool
is_last_hop [] h = true
is_last_hop (g ∷ hops) h =
    let rest = is_last_hop hops h in
    if eqb g.rule_id h.rule_id && ltb h.position g.position then false else rest

abbrev pub moved_hop : RepoChange → List HopRow → HopRow → HopRow
moved_hop c hops h =
    if is_last_hop hops h && (h.target_host, h.target_port) == c.old_key
    then record h { target_host = c.new_key.0; target_port = c.new_key.1 }
    else h

-- SELECT DISTINCT rh.node_id ... WHERE r.exit_host=? AND r.exit_port=?
unfoldable pub nodes_to : LandingExitKey → List RelayRule → List HopRow → List ℕ
nodes_to k rules [] = []
nodes_to k rules (h ∷ hops) =
    let rest = nodes_to k rules hops in
    if any (λ r. eqb r.id h.rule_id && exits_to k r) rules && not (has h.node_id rest)
    then h.node_id ∷ rest
    else rest

abbrev pub nothing : Propagated
nothing = record {
  endpoint_changed = false;
  exits_updated = 0;
  rules_updated = 0;
  node_ids = [];
  moved_users = [];
}

abbrev pub moved_tables : ℕ → RepoChange → Tables → Tables
moved_tables now c t = record {
  exits = move_rows now c (repo_rows c.old_key t.exits) t.exits;
  rules = if moves c then map (moved_rule c) t.rules else t.rules;
  hops = if moves c then map (moved_hop c t.hops) t.hops else t.hops;
}

-- A user has at most one row at an address, so the users of the rows are the users that moved.
unfoldable pub propagate_repo_exit_change : ℕ → RepoChange → Tables → Propagated × Tables
propagate_repo_exit_change now c t =
    if is_empty_key c.old_key || is_empty_key c.new_key
    then (nothing, t)
    else let after = moved_tables now c t in
      let rows = repo_rows c.old_key t.exits in
      (
        record {
          endpoint_changed = moves c;
          exits_updated = length rows;
          rules_updated = if moves c then length (filterb (exits_to c.old_key) t.rules) else 0;
          node_ids = if moves c then nodes_to c.new_key after.rules after.hops else [];
          moved_users = if moves c then keys rows else [];
        },
        after,
      )
