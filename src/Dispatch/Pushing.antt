-- ===== src/Dispatch/Pushing.antt =====
-- internal/db/queries.go: ActiveRuleHopsForPush, the rows of `rule_hops` that a node is sent. The
-- billable traffic of a user is a product of floating point numbers in SQLite, a parameter here.
use nft.Base.{
  Bool, List, Option, String, [], any, eqb, false, filterb, if◌then◌else◌, leb, ltb, nat_eq, none,
  not, pair_eq, some, string_eq, ℕ, ◌&&◌, ◌==◌, ◌||◌, ◌∷◌,
}
use nft.Chain.{HopRow, RelayRule}

-- The columns of `users`, `user_nodes` and `user_landing_exits` that the query reads. A time that is
-- NULL is `none`.
pub record Account : Type 0 where
  pub id : ℕ
  pub disabled : Bool
  pub expires_at : Option ℕ
  pub traffic_quota_bytes : ℕ
  pub traffic_used_bytes : ℕ

pub record GrantRow : Type 0 where
  pub user_id : ℕ
  pub node_id : ℕ
  pub traffic_quota_bytes : ℕ
  pub traffic_used_bytes : ℕ

pub record ExitRow : Type 0 where
  pub user_id : ℕ
  pub host : String
  pub port : ℕ
  pub present : Bool
  pub quota_bytes : ℕ
  pub used_bytes : ℕ
  pub expires_at : ℕ

pub record Tables : Type 0 where
  pub rules : List RelayRule
  pub hops : List HopRow
  pub users : List Account
  pub grants : List GrantRow
  pub exits : List ExitRow
  pub billable : Account → ℕ

abbrev pub belongs_to : Option ℕ → ℕ → Bool
belongs_to none user = false
belongs_to (some owner) user = eqb owner user

abbrev pub expired : ℕ → Option ℕ → Bool
expired now none = false
expired now (some at) = ltb 0 at && ltb at now

-- The six subqueries: `rule_id` is rh.rule_id.
abbrev pub of_disabled : ℕ → RelayRule → Bool
of_disabled rule_id r = eqb r.id rule_id && r.disabled

abbrev pub of_inactive : ℕ → ℕ → List Account → RelayRule → Bool
of_inactive now rule_id users r =
    eqb r.id rule_id
    && any (λ u. belongs_to r.owner_id u.id && (u.disabled || expired now u.expires_at)) users

abbrev pub of_over_quota : ℕ → (Account → ℕ) → List Account → RelayRule → Bool
of_over_quota rule_id billable users r =
    eqb r.id rule_id
    && any
        (λ u.
          belongs_to r.owner_id u.id
          && (ltb 0 u.traffic_quota_bytes && leb u.traffic_quota_bytes (billable u)))
        users

abbrev pub exhausts : Option ℕ → ℕ → GrantRow → Bool
exhausts owner via g =
    belongs_to owner g.user_id
    && (eqb g.node_id via
        && (ltb 0 g.traffic_quota_bytes && leb g.traffic_quota_bytes g.traffic_used_bytes))

abbrev pub segment_over_quota : ℕ → List RelayRule → List GrantRow → HopRow → Bool
segment_over_quota rule_id rules grants h =
    eqb h.rule_id rule_id
    && any (λ r. eqb r.id h.rule_id && any (exhausts r.owner_id h.via_node_id) grants) rules

abbrev pub exit_of : RelayRule → ExitRow → Bool
exit_of r e = belongs_to r.owner_id e.user_id && (e.host == r.exit_host && eqb e.port r.exit_port)

abbrev pub of_over_quota_exit : ℕ → List ExitRow → RelayRule → Bool
of_over_quota_exit rule_id exits r =
    eqb r.id rule_id
    && any
        (λ e. exit_of r e && (e.present && (ltb 0 e.quota_bytes && leb e.quota_bytes e.used_bytes)))
        exits

abbrev pub of_expired_exit : ℕ → ℕ → List ExitRow → RelayRule → Bool
of_expired_exit now rule_id exits r =
    eqb r.id rule_id && any (λ e. exit_of r e && (ltb 0 e.expires_at && leb e.expires_at now)) exits

unfoldable pub is_live : ℕ → Tables → ℕ → Bool
is_live now t rule_id =
    not (any (of_disabled rule_id) t.rules)
    && (not (any (of_inactive now rule_id t.users) t.rules)
        && (not (any (of_over_quota rule_id t.billable t.users) t.rules)
            && (not (any (segment_over_quota rule_id t.rules t.grants) t.hops)
                && (not (any (of_over_quota_exit rule_id t.exits) t.rules)
                    && not (any (of_expired_exit now rule_id t.exits) t.rules)))))

-- ORDER BY rh.listen_port
unfoldable pub insert_by_port : HopRow → List HopRow → List HopRow
insert_by_port h [] = h ∷ []
insert_by_port h (g ∷ gs) =
    let rest = insert_by_port h gs in
    if leb h.listen_port g.listen_port then h ∷ g ∷ gs else g ∷ rest

unfoldable pub sort_by_port : List HopRow → List HopRow
sort_by_port [] = []
sort_by_port (h ∷ hs) = insert_by_port h (sort_by_port hs)

abbrev pub is_sent : ℕ → Tables → ℕ → HopRow → Bool
is_sent now t node h = eqb h.node_id node && is_live now t h.rule_id

unfoldable pub active_rule_hops_for_push : ℕ → Tables → ℕ → List HopRow
active_rule_hops_for_push now t node = sort_by_port (filterb (is_sent now t node) t.hops)
