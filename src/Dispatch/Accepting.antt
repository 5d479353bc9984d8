-- ===== src/Dispatch/Accepting.antt =====
-- What the panel sends to a node is accepted there.
use nft.Chain.Resolving.{IsMode}
use nft.Rule.{Rule}
use nft.Chain.Writing.{IsConsistent}
use nft.Partition.Exact.{all_claims, claims, partition_iff, supported}
use nft.Net.{Net}
use nft.Dispatch.Building.{HasTcpExit, build_rule-Keeps, plain_rule-supported}
use nft.Dispatch.{Lookups, build_rule, build_rules, find_rule, owned_by_core}
use nft.Base.{
  All, All-filterb, Bool, Bool-cases, List, String, [], all, arith, distinct, eqb, eqb_iff, false,
  filterb, has, has-append, if◌then◌else◌, inl, inr, nat_eq, ok, pair_eq, refl, string_eq, subst,
  sym, true, ℕ, ◌++◌, ◌∙◌, ◌∷◌, ◌≡◌,
}
use nft.Base.Int.{int_eq, pos}
use nft.Chain.{HopRow}
use nft.Chain.Clashes.{All-filter, Apart, HasStored, NoClash, NoClash-filter}
use nft.Dispatch.Pushing.{Tables, active_rule_hops_for_push, is_sent, sort_by_port}
use nft.Partition.{namespaces, partition}
use nft.Partition.Claims.{at_port}
use nft.Dispatch.Claiming.{distinct-at_port, has-at_port, has-at_port_other, namespaces-distinct}
use nft.Dispatch.Sorting.{All-sort_by_port, NoClash-sort_by_port}

row_free :
    (h g : HopRow) (ns : String)
    → g.node_id ≡ h.node_id
    → Apart h g
    → has ns (namespaces h.proto) ≡ true
    → has (ns, pos h.listen_port) (at_port (pos g.listen_port) (namespaces g.proto)) ≡ false
row_free h g ns same apart taken = elim (Bool-cases (eqb g.listen_port h.listen_port)) [
  | inl e ↦
      let port : g.listen_port ≡ h.listen_port = (eqb_iff g.listen_port h.listen_port).0 e in
      rw port (
        has-at_port ns (pos h.listen_port) (namespaces g.proto)
        ∙ apart (sym same) (sym port) ns taken)
  | inr e ↦
      has-at_port_other ns (pos h.listen_port) (pos g.listen_port) (namespaces g.proto)
        (λ p. ground (arith, p, e))
]

-- The rules of the other rows of the node claim nothing that a row claims.
build_rules-free {ℓ} :
    {Ip : Type ℓ} (net : Net Ip) (t : Lookups) (h : HopRow) (gs : List HopRow)
    → All (λ g. g.node_id ≡ h.node_id) gs
    → All (HasTcpExit t.rules) gs
    → All (Apart h) gs
    → (ns : String) → has ns (namespaces h.proto) ≡ true
    → has (ns, pos h.listen_port) (all_claims (build_rules net t gs)) ≡ false
unfolding build_rules all_claims has
build_rules-free net t h [] same tcp apart ns taken = refl
build_rules-free net t h (g ∷ gs) same tcp apart ns taken =
    let ih = build_rules-free net t h gs same.1 tcp.1 apart.1 ns taken in
    let keeps = build_rule-Keeps net t g tcp.0 in
    let other : has (ns, pos h.listen_port) (claims (build_rule net t g)) ≡ false =
      rw (keeps.0, keeps.1) (row_free h g ns same.0 apart.0 taken) in
    elim (owned_by_core t g (find_rule g.rule_id t.rules))
      as (λ b.
        has (ns, pos h.listen_port)
          (all_claims
            (if b then build_rules net t gs else build_rule net t g ∷ build_rules net t gs))
        ≡ false) [
          | true ↦ ih
          | false ↦ ground (
            arith,
            ih,
            other,
            has-append (ns, pos h.listen_port) (claims (build_rule net t g))
                (all_claims (build_rules net t gs)),
          )
        ]

all_claims-distinct {ℓ} :
    {Ip : Type ℓ} (net : Net Ip) (t : Lookups) (node : ℕ) (hs : List HopRow)
    → All (λ g. g.node_id ≡ node) hs
    → All (HasTcpExit t.rules) hs
    → NoClash hs
    → distinct (all_claims (build_rules net t hs)) ≡ true
unfolding build_rules all_claims distinct
all_claims-distinct net t node [] same tcp apart = refl
all_claims-distinct net t node (h ∷ hs) same tcp apart =
    let ih = all_claims-distinct net t node hs same.1 tcp.1 apart.1 in
    let keeps = build_rule-Keeps net t h tcp.0 in
    let on_node : All (λ g. g.node_id ≡ h.node_id) hs =
      subst (λ n. All (λ g. g.node_id ≡ n) hs) (sym same.0) same.1 in
    let added : distinct (claims (build_rule net t h) ++ all_claims (build_rules net t hs)) ≡ true =
      rw (keeps.0, keeps.1)
        (distinct-at_port (pos h.listen_port) (namespaces h.proto) _ (namespaces-distinct h.proto)
          (build_rules-free net t h hs on_node tcp.1 apart.0) ih) in
    elim (owned_by_core t h (find_rule h.rule_id t.rules))
      as (λ b.
        distinct (
          all_claims
            (if b then build_rules net t hs else build_rule net t h ∷ build_rules net t hs))
        ≡ true) [ true ↦ ih | false ↦ added ]

all-supported {ℓ} :
    {Ip : Type ℓ} (net : Net Ip) (t : Lookups) (hs : List HopRow)
    → All (HasTcpExit t.rules) hs
    → All HasStored hs
    → All (λ h. IsMode h.proto h.mode) hs
    → all supported (build_rules net t hs) ≡ true
unfolding build_rules
all-supported net t [] tcp stored modes = refl
all-supported net t (h ∷ hs) tcp stored modes =
    let ih = all-supported net t hs tcp.1 stored.1 modes.1 in
    let this : supported (build_rule net t h) ≡ true =
      (build_rule-Keeps net t h tcp.0).2 (plain_rule-supported _ h stored.0 modes.0) in
    elim (owned_by_core t h (find_rule h.rule_id t.rules))
      as (λ b.
        all supported
          (if b then build_rules net t hs else build_rule net t h ∷ build_rules net t hs)
        ≡ true) [ true ↦ ih | false ↦ ground (arith, ih, this) ]

-- The rules that the panel sends to a node are accepted by the node's Partition, whichever rules are
-- live, shaped or served by a proxy core, when the hop table is consistent and only rules of plain tcp
-- have a SOCKS5 exit.
pub pushed_rules-accepted {ℓ} :
    {Ip : Type ℓ} (net : Net Ip) (t : Lookups) (now : ℕ) (b : Tables) (node : ℕ)
    → IsConsistent b.hops
    → All (HasTcpExit t.rules) b.hops
    → (out : List Rule × List Rule) × (partition
          (build_rules net t (active_rule_hops_for_push now b node))
        ≡ ok out)
unfolding active_rule_hops_for_push
pushed_rules-accepted net t now b node c tcp =
    let f : HopRow → Bool = is_sent now b node in
    let sent : List HopRow = filterb f b.hops in
    let hs : List HopRow = sort_by_port sent in
    let pass : (P : HopRow → Type 0) → All P b.hops → All P hs =
      λ P p. All-sort_by_port P sent (All-filter P f b.hops p) in
    let here : All (λ h. h.node_id ≡ node) hs =
      All-sort_by_port _ sent
        (All-filterb _ f (λ h e. ground (arith, e, eqb_iff h.node_id node)) b.hops) in
    let apart : NoClash hs = NoClash-sort_by_port sent (NoClash-filter f b.hops c.no_clash) in
    let exits = pass (HasTcpExit t.rules) tcp in
    (partition_iff (build_rules net t hs)).1 (
      all-supported net t hs exits (pass HasStored c.stored) (pass _ c.modes),
      all_claims-distinct net t node hs here exits apart,
    )
