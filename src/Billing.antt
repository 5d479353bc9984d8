-- ===== src/Billing.antt =====
-- `applyCounters` of internal/server/hub.go: one batch of counter samples of a node is folded into the
-- ledgers. The rows that the source loads before the loop are the record `Loaded`. Byte counts are
-- natural numbers; sums stay far below 2 ^ 63. The float product of the entry multiplier is the
-- parameter `weigh`. A map of Go is an association list, keyed by the pair where the source prints
-- "proto/port".
pub mod Accounting
pub mod Tables
pub mod Posting
use nft.Base.{
  Bool, Equality, List, Option, String, [], eqb, false, has, if◌then◌else◌, ltb, nat_eq, none,
  pair_eq, some, string_eq, true, ℕ, ◌&&◌, ◌+◌, ◌∷◌,
}
use nft.Base.Assoc.{get_or, insert, lookup}

pub record Sample : Type 0 where
  pub proto : String
  pub listen_port : ℕ
  pub bytes_up : ℕ
  pub bytes_down : ℕ
  pub bytes_delta : ℕ

pub record Hop : Type 0 where
  pub id : ℕ
  pub rule_id : ℕ
  pub position : ℕ

pub record BilledRule : Type 0 where
  pub node_id : ℕ
  pub owner_id : Option ℕ
  pub exit_host : String
  pub exit_port : ℕ

-- The owner, the host and the port of a landing exit.
abbrev pub UserExitKey : Type 0
UserExitKey = ℕ × (String × ℕ)

instance abbrev pub user_exit_key_eq : Equality UserExitKey
user_exit_key_eq = pair_eq ⦃e = nat_eq⦄ ⦃f = pair_eq ⦃e = string_eq⦄ ⦃f = nat_eq⦄⦄

pub record Loaded : Type 0 where
  pub node_id : ℕ
  pub unidirectional : Bool
  pub hop_map : List ((String × ℕ) × Hop)
  pub rule_map : List (ℕ × BilledRule)
  pub seg_first : List ((ℕ × ℕ) × ℕ)
  pub exit_set : List UserExitKey
  pub max_pos : List (ℕ × ℕ)
  pub weigh : ℕ → ℕ → ℕ

pub record HopWrite : Type 0 where
  pub last_bytes : ℕ
  pub last_up : ℕ
  pub last_down : ℕ
  pub add_total : ℕ
  pub add_billed : ℕ

abbrev pub no_write : HopWrite
no_write = record { last_bytes = 0; last_up = 0; last_down = 0; add_total = 0; add_billed = 0 }

-- What the loop gathers for the one transaction.
pub record Adds : Type 0 where
  pub hop_writes : List (ℕ × HopWrite)
  pub user_node_adds : List ((ℕ × ℕ) × ℕ)
  pub user_adds : List (ℕ × ℕ)
  pub total_user_adds : List (ℕ × ℕ)
  pub rule_exit_adds : List (ℕ × ℕ)
  pub exit_adds : List (UserExitKey × ℕ)
  pub touched : List (ℕ × ℕ)
  pub raw_add : ℕ

abbrev pub no_adds : Adds
no_adds = record {
  hop_writes = [];
  user_node_adds = [];
  user_adds = [];
  total_user_adds = [];
  rule_exit_adds = [];
  exit_adds = [];
  touched = [];
  raw_add = 0;
}

-- m[k] += n
unfoldable pub add_to {ℓ} : {K : Type ℓ} ⦃e : Equality K⦄ → K → ℕ → List (K × ℕ) → List (K × ℕ)
add_to k n m = insert k (get_or 0 k m + n) m

-- Agents of before v0.33 send the sum alone.
unfoldable pub directions : Sample → Sample
directions s =
    if eqb s.bytes_up 0 && (eqb s.bytes_down 0 && ltb 0 s.bytes_delta)
    then record s { bytes_up = s.bytes_delta }
    else s

unfoldable pub total_delta : Sample → ℕ
total_delta s = s.bytes_up + s.bytes_down

unfoldable pub billed_delta : Loaded → Sample → ℕ
billed_delta l s = if l.unidirectional then s.bytes_up else total_delta s

unfoldable pub is_final : Loaded → Hop → Bool
is_final l rh = eqb rh.position (get_or 0 rh.rule_id l.max_pos)

unfoldable pub has_positions : List (ℕ × ℕ) → Bool
has_positions [] = false
has_positions (p ∷ ps) = true

-- The owner of the hop's rule, if the rule is loaded and has one.
unfoldable pub rule_owner : Option BilledRule → Option ℕ
rule_owner none = none
rule_owner (some r) = r.owner_id

unfoldable pub exit_key : ℕ → Option BilledRule → UserExitKey
exit_key u none = (u, ("", 0))
exit_key u (some r) = (u, (r.exit_host, r.exit_port))

-- The landing-exit ledger of a final hop.
unfoldable pub add_exit : Loaded → Hop → Option BilledRule → ℕ → Option ℕ → Adds → Adds
add_exit l rh r total none a = a
add_exit l rh r total (some u) a =
    if ltb 0 total && (is_final l rh && has (exit_key u r) l.exit_set)
    then record a {
      exit_adds = add_to (exit_key u r) total a.exit_adds;
      touched = (u, l.node_id) ∷ a.touched;
    }
    else a

-- The owner's bytes before the hop row is written: weighted by the entry node, for owned traffic.
unfoldable pub billed_base : Loaded → Option BilledRule → ℕ → ℕ
billed_base l none billed = billed
billed_base l (some r) billed = elim r.owner_id [
  | none ↦ billed
  | some u ↦ if ltb 0 billed then l.weigh r.node_id billed else billed
]

unfoldable pub write_hop : Hop → Sample → ℕ → HopWrite → HopWrite
write_hop rh s base w = record {
  last_bytes = total_delta s;
  last_up = s.bytes_up;
  last_down = s.bytes_down;
  add_total = w.add_total + total_delta s;
  add_billed = if eqb rh.position 0 then w.add_billed + base else w.add_billed;
}

unfoldable pub add_hop : Hop → Sample → ℕ → Adds → Adds
add_hop rh s base a = record a {
  hop_writes = insert rh.id (write_hop rh s base (get_or no_write rh.id a.hop_writes)) a.hop_writes;
}

-- The grant of the logical segment that starts at the hop.
unfoldable pub add_segment : Loaded → Hop → ℕ → ℕ → Adds → Adds
add_segment l rh u billed a = elim (lookup (rh.rule_id, rh.position) l.seg_first) [
  | none ↦ a
  | some via ↦ record a {
    user_node_adds = add_to (u, via) billed a.user_node_adds;
    touched = (u, via) ∷ a.touched;
  }
]

-- The user's own ledgers, at the final hop alone.
unfoldable pub add_user : Loaded → Hop → ℕ → ℕ → Adds → Adds
add_user l rh u total a =
    if has_positions l.max_pos && (is_final l rh && ltb 0 total)
    then record a {
      rule_exit_adds = add_to rh.rule_id total a.rule_exit_adds;
      user_adds = add_to u total a.user_adds;
      total_user_adds = add_to u total a.total_user_adds;
    }
    else a

unfoldable pub add_owner : Loaded → Hop → Sample → Option ℕ → Adds → Adds
add_owner l rh s none a = a
add_owner l rh s (some u) a =
    if ltb 0 (billed_delta l s)
    then add_user l rh u (total_delta s) (add_segment l rh u (billed_delta l s) a)
    else a

unfoldable pub add_matched : Loaded → Hop → Sample → Adds → Adds
add_matched l rh s a =
    let r = lookup rh.rule_id l.rule_map in
    add_owner l rh s (rule_owner r) (
      add_hop rh s (billed_base l r (billed_delta l s))
        (add_exit l rh r (total_delta s) (rule_owner r) a))

unfoldable pub add_found : Loaded → Sample → Option Hop → Adds → Adds
add_found l s none a = a
add_found l s (some rh) a = add_matched l rh s a

-- One turn of the loop. A sample without a hop still counts toward the node's raw ledger.
unfoldable pub add_sample : Loaded → Sample → Adds → Adds
add_sample l raw a =
    let s = directions raw in
    add_found l s (lookup (s.proto, s.listen_port) l.hop_map)
      (record a { raw_add = a.raw_add + total_delta s })

unfoldable pub add_samples : Loaded → List Sample → Adds → Adds
add_samples l [] a = a
add_samples l (s ∷ ss) a = add_samples l ss (add_sample l s a)
