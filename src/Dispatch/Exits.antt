-- ===== src/Dispatch/Exits.antt =====
-- internal/server/shared.go: applyExitConstraints, which the handlers that create or change a rule call.
-- It is why a SOCKS5 exit is only given to rules of plain tcp.
use nft.Base.{
  All, Bool-cases, List, Option, String, [], all, arith, eq_iff, eqb, if◌then◌else◌, inl, inr,
  nat_eq, none, not, pair_eq, refl, some, string_eq, subst, ℕ, ◌==◌, ◌∙◌, ◌∷◌, ◌≡◌,
}
use nft.Chain.{HopRow, RelayRule}
use nft.Dispatch.{find_rule}
use nft.Dispatch.Building.{HasTcpExit, IsTcpExit}

-- The exit mode, or none for the error.
unfoldable pub apply_exit_constraints : String → String → String → Option String
apply_exit_constraints exit_type proto exit_mode =
    if not (exit_type == "socks5")
    then some exit_mode
    else if not (proto == "tcp")
    then none
    else some "userspace"

-- The rule has passed the check, with some exit mode.
abbrev pub HasPassed : RelayRule → Type 0
HasPassed r =
    (asked : String) × (mode : String) × (apply_exit_constraints r.exit_type r.proto asked
      ≡ some mode)

-- The row has the protocol of its rule, as RegenerateRule writes it.
abbrev pub HasRuleProto : List RelayRule → HopRow → Type 0
HasRuleProto rules h = (r : RelayRule) → find_rule h.rule_id rules ≡ some r → h.proto ≡ r.proto

HasPassed-tcp : (r : RelayRule) → HasPassed r → r.exit_type ≡ "socks5" → r.proto ≡ "tcp"
unfolding apply_exit_constraints
HasPassed-tcp r (asked, mode, passed) socks =
    ground (arith, passed, socks, eq_iff r.exit_type "socks5", eq_iff r.proto "tcp")

find_rule-All :
    (P : RelayRule → Type 0) (rules : List RelayRule) (id : ℕ) (r : RelayRule)
    → All P rules
    → find_rule id rules ≡ some r
    → P r
unfolding find_rule
find_rule-All P [] id r all e = cc e
find_rule-All P (s ∷ rules) id r all e = elim (Bool-cases (eqb s.id id)) [
  | inl here ↦ let same : s ≡ r = cc (here, e) in subst P same all.0
  | inr later ↦ find_rule-All P rules id r all.1 (ground (arith, later, e))
]

exit_of_found :
    (proto : String) (o : Option RelayRule)
    → ((r : RelayRule) → o ≡ some r → HasPassed r × (proto ≡ r.proto))
    → IsTcpExit proto o
exit_of_found proto none found = tt
exit_of_found proto (some r) found =
    λ socks. (found r refl).1 ∙ HasPassed-tcp r (found r refl).0 socks

-- When every rule has passed the check and every row has its rule's protocol, no row of another protocol
-- belongs to a rule with a SOCKS5 exit.
pub HasPassed-HasTcpExit :
    (rules : List RelayRule) (hops : List HopRow)
    → All HasPassed rules
    → All (HasRuleProto rules) hops
    → All (HasTcpExit rules) hops
HasPassed-HasTcpExit rules [] passed protos = tt
HasPassed-HasTcpExit rules (h ∷ hops) passed protos = (
  exit_of_found h.proto (find_rule h.rule_id rules)
      (λ r e. (find_rule-All HasPassed rules h.rule_id r passed e, protos.0 r e)),
  HasPassed-HasTcpExit rules hops passed protos.1,
)
