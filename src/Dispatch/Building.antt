-- ===== src/Dispatch/Building.antt =====
-- What a built rule keeps of its row: where it listens, and that the data planes support it.
use nft.Base.{
  List, Option, String, arith, eq_iff, false, if◌then◌else◌, inl, inr, none, refl, some, subst, sym,
  true, ℕ, ◌∙◌, ◌≡◌,
}
use nft.Base.Int.{pos, ℤ}
use nft.Chain.{HopRow, RelayRule}
use nft.Chain.Resolving.{IsMode}
use nft.Dispatch.{
  Lookups, UserRow, build_rule, find_rule, find_user, hop_count_of, plain_rule, with_dest,
  with_exit, with_name, with_owner, with_rule, with_shape,
}
use nft.Partition.Exact.{supported}
use nft.Ports.Namespaces.{IsStored}
use nft.Rule.{Rule, effective_mode, is_hostname}
use nft.Net.{Net}

-- What the steps of building a rule keep.
abbrev pub Keeps : Rule → Rule → Type 0
Keeps new rule =
    (new.proto ≡ rule.proto)
    × (new.src_port ≡ rule.src_port)
    × (supported rule ≡ true → supported new ≡ true)

Keeps-trans : (a b c : Rule) → Keeps a b → Keeps b c → Keeps a c
Keeps-trans a b c (p, q, f) (r, s, g) = (p ∙ r, q ∙ s, λ x. f (g x))

with_shape-Keeps : (shape : ℤ × ℕ) (rule : Rule) → Keeps (with_shape shape rule) rule
unfolding with_shape supported effective_mode
with_shape-Keeps shape rule = ground arith

with_name-Keeps : (user : Option UserRow) (rule : Rule) → Keeps (with_name user rule) rule
unfolding with_name supported effective_mode
with_name-Keeps none rule = (refl, refl, λ s. s)
with_name-Keeps (some u) rule = (refl, refl, λ s. s)

with_owner-Keeps :
    (t : Lookups) (h : HopRow) (r : RelayRule) (owner : Option ℕ) (rule : Rule)
    → Keeps (with_owner t h r owner rule) rule
unfolding with_owner
with_owner-Keeps t h r none rule = (refl, refl, λ s. s)
with_owner-Keeps t h r (some o) rule =
    Keeps-trans _ (with_name (find_user o t.users) rule) rule (with_shape-Keeps _ _)
      (with_name-Keeps (find_user o t.users) rule)

with_rule-Keeps :
    (t : Lookups) (h : HopRow) (r : Option RelayRule) (rule : Rule)
    → Keeps (with_rule t h r rule) rule
unfolding with_rule supported effective_mode
with_rule-Keeps t h none rule = (refl, refl, λ s. s)
with_rule-Keeps t h (some r) rule =
    with_owner-Keeps t h r r.owner_id (record rule { rule_id = pos r.id; rule_name = r.name })

with_dest-Keeps {ℓ} :
    {Ip : Type ℓ} (net : Net Ip) (host : String) (rule : Rule)
    → Keeps (with_dest net host rule) rule
unfolding with_dest supported effective_mode
with_dest-Keeps net host rule =
    elim (is_hostname net host)
      as (λ b.
        Keeps (if b then record rule { dest_host = host } else record rule { dest_ip = host })
          rule) [ true ↦ (refl, refl, λ s. s) | false ↦ (refl, refl, λ s. s) ]

-- A SOCKS5 exit is only given to rules of plain tcp, which the panel checks when it takes a rule.
abbrev pub IsTcpExit : String → Option RelayRule → Type 0
IsTcpExit proto none = Unit
IsTcpExit proto (some r) = r.exit_type ≡ "socks5" → proto ≡ "tcp"

with_exit-Keeps :
    (count : ℕ) (h : HopRow) (r : Option RelayRule) (rule : Rule)
    → IsTcpExit rule.proto r
    → Keeps (with_exit count h r rule) rule
unfolding with_exit supported effective_mode
with_exit-Keeps count h none rule tcp = (refl, refl, λ s. s)
with_exit-Keeps count h (some r) rule tcp =
    ground (arith, tcp, eq_iff r.exit_type "socks5", eq_iff rule.proto "tcp")

abbrev pub HasTcpExit : List RelayRule → HopRow → Type 0
HasTcpExit rules h = IsTcpExit h.proto (find_rule h.rule_id rules)

pub plain_rule-supported :
    (count : ℕ) (h : HopRow)
    → IsStored h.proto
    → IsMode h.proto h.mode
    → supported (plain_rule count h) ≡ true
unfolding supported effective_mode
plain_rule-supported count h s (inl kernel) = rw kernel refl
plain_rule-supported count h s (inr (userspace, tcp)) =
    ground (
      arith,
      s,
      tcp,
      userspace,
      eq_iff h.proto "tcp",
      eq_iff h.proto "tcp+udp",
      eq_iff h.proto "udp",
    )

pub build_rule-Keeps {ℓ} :
    {Ip : Type ℓ} (net : Net Ip) (t : Lookups) (h : HopRow)
    → HasTcpExit t.rules h
    → Keeps (build_rule net t h) (plain_rule (hop_count_of h.rule_id t.hops) h)
unfolding build_rule
build_rule-Keeps net t h tcp =
    let r = find_rule h.rule_id t.rules in
    let count = hop_count_of h.rule_id t.hops in
    let plain = plain_rule count h in
    let named = with_rule t h r plain in
    let aimed = with_dest net h.target_host named in
    let before =
      Keeps-trans aimed named plain (with_dest-Keeps net h.target_host named)
        (with_rule-Keeps t h r plain) in
    Keeps-trans _ aimed plain
      (with_exit-Keeps count h r aimed (subst (λ p. IsTcpExit p r) (sym before.0) tcp)) before
