-- ===== src/Cycle.antt =====
-- internal/db/traffic.go: the reset of a user's traffic, by an administrator or at the end of a cycle,
-- with the columns of `users`, `user_nodes`, `user_landing_exits`, `rule_hops` and `rules` that it
-- reads or writes. The statements of a reset are one transaction, taken to succeed. A time is a number
-- of seconds; no sum of them is taken to reach 2 ^ 63.
pub mod Due
pub mod Zeroing
use nft.Base.{
  Bool, List, Option, String, [], any, eqb, false, if◌then◌else◌, leb, ltb, none, some, true, ℕ,
  ◌&&◌, ◌*◌, ◌+◌, ◌-◌, ◌/◌, ◌∷◌,
}
use nft.Base.Int.{ltb_ℤ, pos, to_ℕ, ℤ}

pub record UserTraffic : Type 0 where
  pub id : ℕ
  pub created_at : ℕ
  pub traffic_reset_days : ℤ
  pub last_traffic_reset_at : ℕ
  pub traffic_used_bytes : ℕ
  pub total_traffic_used_bytes : ℕ

pub record GrantTraffic : Type 0 where
  pub user_id : ℕ
  pub node_id : ℕ
  pub traffic_used_bytes : ℕ

pub record ExitTraffic : Type 0 where
  pub user_id : ℕ
  pub host : String
  pub port : ℕ
  pub used_bytes : ℕ

pub record HopTraffic : Type 0 where
  pub rule_id : ℕ
  pub position : ℕ
  pub total_bytes : ℕ
  pub billed_bytes : ℕ
  pub last_bytes : ℕ
  pub last_bytes_up : ℕ
  pub last_bytes_down : ℕ

pub record RuleTraffic : Type 0 where
  pub id : ℕ
  pub owner_id : Option ℕ
  pub exit_bytes : ℕ

pub record Ledgers : Type 0 where
  pub users : List UserTraffic
  pub grants : List GrantTraffic
  pub exits : List ExitTraffic
  pub hops : List HopTraffic
  pub rules : List RuleTraffic

abbrev pub is_owner : ℕ → Option ℕ → Bool
is_owner user none = false
is_owner user (some owner) = eqb owner user

-- WHERE rule_id IN (SELECT id FROM rules WHERE owner_id = ?)
abbrev pub has_owner : ℕ → List RuleTraffic → HopTraffic → Bool
has_owner user rules h = any (λ r. eqb r.id h.rule_id && is_owner user r.owner_id) rules

-- UPDATE table SET ... WHERE ...
unfoldable pub update_where {ℓ} : {A : Type ℓ} → (A → Bool) → (A → A) → List A → List A
update_where p f [] = []
update_where p f (x ∷ xs) = (if p x then f x else x) ∷ update_where p f xs

abbrev pub stamp : ℕ → UserTraffic → ℕ
stamp last_reset_at u = if ltb 0 last_reset_at then last_reset_at else u.last_traffic_reset_at

abbrev pub zero_user : ℕ → UserTraffic → UserTraffic
zero_user last_reset_at u = record u {
  traffic_used_bytes = 0;
  total_traffic_used_bytes = 0;
  last_traffic_reset_at = stamp last_reset_at u;
}

unfoldable pub zero_user_traffic_ledgers : ℕ → ℕ → Ledgers → Ledgers
zero_user_traffic_ledgers user last_reset_at l = record {
  users = update_where (λ u. eqb u.id user) (zero_user last_reset_at) l.users;
  grants =
      update_where (λ g. eqb g.user_id user) (λ g. record g { traffic_used_bytes = 0 }) l.grants;
  exits = update_where (λ e. eqb e.user_id user) (λ e. record e { used_bytes = 0 }) l.exits;
  hops =
      update_where (has_owner user l.rules) (λ h. record h { total_bytes = 0; billed_bytes = 0 })
        l.hops;
  rules = update_where (λ r. is_owner user r.owner_id) (λ r. record r { exit_bytes = 0 }) l.rules;
}

abbrev pub reset_all_user_traffic : ℕ → Ledgers → Ledgers
reset_all_user_traffic user l = zero_user_traffic_ledgers user 0 l

abbrev pub period_of : UserTraffic → ℕ
period_of u = to_ℕ u.traffic_reset_days * 86400

abbrev pub cycle_start : ℕ → UserTraffic → ℕ
cycle_start now u = u.created_at + ((now - u.created_at) / period_of u) * period_of u

-- The early returns of CheckAndResetTrafficCycle.
unfoldable pub is_due : ℕ → UserTraffic → Bool
is_due now u =
    ltb_ℤ (pos 0) u.traffic_reset_days
    && (leb u.created_at now && ltb u.last_traffic_reset_at (cycle_start now u))

-- The caller has read the user's row before.
unfoldable pub check_and_reset_traffic_cycle : ℕ → UserTraffic → Ledgers → Bool × Ledgers
check_and_reset_traffic_cycle now u l =
    if is_due now u then (true, zero_user_traffic_ledgers u.id now l) else (false, l)
