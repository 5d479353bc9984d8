-- ===== src/Chain/Answering.antt =====
-- The addresses that the hops of a chain forward to are those of the nodes in the table.

use nft.Ports.{parse_port_range}
use nft.Rule.{codes}
use nft.Chain.Tables.{HopRow, NodeRow, RelayRule, Store, find_node, of_rule, without_rule}
use nft.Base.{
  All, Bool-cases, List, Option, String, [], arith, eq_iff, false, filterb, has, if◌then◌else◌, inl,
  inr, nat_eq, none, ok, ok_of_bind, ok_of_guard, pair_eq, refl, some, string_eq, subst, sym, true,
  ℕ, ◌&&◌, ◌==◌, ◌∙◌, ◌∷◌, ◌≡◌, ◌≢◌, ◌⊎◌,
}
use nft.Chain.Assigning.{IsDraw, assign_ports-Fits}
use nft.Chain.Resolving.{IsChain}
use nft.Chain.Regenerating.{All-placed, HasRange-All, derive_family-IsReady}
use nft.Chain.{
  Env, HopInput, HopRow, NodeRow, Placed, RelayRule, Resolved, Store, assign_ports, derive_family,
  effective_relay_hosts, find_node, last_of, named_range, of_rule, place_chain, prev_ports,
  resolve_as, resolve_hop, resolve_hops, resolve_on, resolve_with, target_of, without_rule,
}
use nft.Net.{is_ipv6}

-- An address of the node in the table: the IPv4 one, or else, where that is missing or switched off, the
-- IPv6 one; neither empty nor switched off.
abbrev pub AnswersAt : List NodeRow → ℕ → String → Type 0
AnswersAt nodes node host =
    (n : NodeRow) × (find_node node nodes ≡ some n)
    × (host ≢ "")
    × (((n.relay_v4_disabled ≡ false) × (host ≡ n.relay_host))
        ⊎ ((n.relay_v6_disabled ≡ false)
            × (host ≡ n.relay_host_v6)
            × ((n.relay_v4_disabled ≡ true) ⊎ (n.relay_host ≡ ""))))

-- A hop whose addresses are those of its node.
abbrev pub IsResolved : List NodeRow → Resolved → Type 0
IsResolved nodes h =
    (n : NodeRow) × (find_node h.node_id nodes ≡ some n)
    × (h.relay_host ≡ (if n.relay_v4_disabled then "" else n.relay_host))
    × (h.relay_host_v6 ≡ (if n.relay_v6_disabled then "" else n.relay_host_v6))
    × (((h.relay_host == "") && (h.relay_host_v6 == "")) ≡ false)

resolve_with-IsResolved :
    (nodes : List NodeRow) (r : RelayRule) (hop : HopInput) (n : NodeRow) (h : Resolved)
    → find_node hop.node_id nodes ≡ some n
    → resolve_on r hop (some n) ≡ ok h
    → IsResolved nodes h
unfolding resolve_on resolve_with resolve_as effective_relay_hosts
resolve_with-IsResolved nodes r hop n h found e =
    let v4 : String = if n.relay_v4_disabled then "" else n.relay_host in
    let v6 : String = if n.relay_v6_disabled then "" else n.relay_host_v6 in
    let (some_set, then_ok) = ok_of_guard ((v4 == "") && (v6 == "")) _ _ e in
    let (segs, parsed, last) =
      ok_of_bind _ (named_range n.id (parse_port_range (codes n.port_range))) then_ok in
    let same : resolve_as r hop (v4, v6) segs ≡ h = cc last in
    subst (IsResolved nodes) same (n, found, refl, refl, some_set)

resolve_on-IsResolved :
    (nodes : List NodeRow) (r : RelayRule) (hop : HopInput) (o : Option NodeRow) (h : Resolved)
    → find_node hop.node_id nodes ≡ o
    → resolve_on r hop o ≡ ok h
    → IsResolved nodes h
resolve_on-IsResolved nodes r hop none h found e = unfold resolve_on in cc e
resolve_on-IsResolved nodes r hop (some n) h found e =
    resolve_with-IsResolved nodes r hop n h found e

pub resolve_hops-IsResolved :
    (store : Store) (r : RelayRule) (seen : List ℕ) (hops : List HopInput) (rs : List Resolved)
    → resolve_hops store r seen hops ≡ ok rs
    → All (IsResolved store.nodes) rs
unfolding resolve_hops resolve_hop
resolve_hops-IsResolved store r seen [] rs e =
    let same : [] ≡ rs = cc e in subst (All (IsResolved store.nodes)) same tt
resolve_hops-IsResolved store r seen (hop ∷ hops) rs e =
    let (fresh, then_ok) = ok_of_guard (has hop.node_id seen) _ _ e in
    let (h, first, tail) =
      ok_of_bind _ (resolve_on r hop (find_node hop.node_id store.nodes)) then_ok in
    let (hs, second, last) = ok_of_bind _ (resolve_hops store r (hop.node_id ∷ seen) hops) tail in
    let same : h ∷ hs ≡ rs = cc last in
    subst (All (IsResolved store.nodes)) same (
      resolve_on-IsResolved store.nodes r hop _ h refl first,
      resolve_hops-IsResolved store r (hop.node_id ∷ seen) hops hs second,
    )

derive_family-IsResolved :
    (nodes : List NodeRow) (proto : String) (h : Resolved) (entry : String × Resolved)
    → IsResolved nodes h
    → derive_family proto h ≡ ok entry
    → IsResolved nodes entry.1
unfolding derive_family
derive_family-IsResolved nodes proto h (family, g) (n, found, v4, v6, one) e =
    let kept : (g.node_id ≡ h.node_id)
        × (g.relay_host ≡ h.relay_host)
        × (g.relay_host_v6 ≡ h.relay_host_v6) =
      ground (arith, e) in
    (n, rw (kept.0) found, kept.1 ∙ v4, kept.2 ∙ v6, rw (kept.1, kept.2) one)

pub IsResolved-AnswersAt :
    (nodes : List NodeRow) (r : RelayRule) (p : Placed) (later : List Placed)
    → IsResolved nodes p.0
    → AnswersAt nodes p.0.node_id (target_of r (p ∷ later)).0
unfolding target_of
IsResolved-AnswersAt nodes r p later (n, found, v4, v6, one) = (
  n,
  found,
  λ e. ground (arith, e, one, eq_iff p.0.relay_host "", eq_iff p.0.relay_host_v6 ""),
  elim (Bool-cases (p.0.relay_host == "")) [
    | inl no_v4 ↦ inr (
      ground (arith, no_v4, one, v6, eq_iff p.0.relay_host_v6 ""),
      ground (arith, no_v4, one, v6, eq_iff p.0.relay_host_v6 ""),
      elim (Bool-cases n.relay_v4_disabled) [
        | inl off ↦ inl off
        | inr on ↦ inr (ground (arith, no_v4, on, v4, eq_iff p.0.relay_host ""))
      ],
    )
    | inr has_v4 ↦ inl (
      ground (arith, has_v4, v4, eq_iff p.0.relay_host ""),
      ground (arith, has_v4, v4, eq_iff p.0.relay_host ""),
    )
  ],
)

module _ {ℓ} {Ip : Type ℓ} (env : Env Ip) (store : Store) (r : RelayRule)
    (avoid : List (ℕ × ℕ)) where
  pub place_chain-IsResolved :
      (hops : List HopInput) (rs : List Resolved) (chain : String × List Placed)
      → IsDraw env.intn
      → IsChain r.proto [] hops rs
      → All (IsResolved store.nodes) rs
      → place_chain env store r avoid rs ≡ ok chain
      → All (λ p. IsResolved store.nodes p.0) chain.1
  unfolding place_chain
  place_chain-IsResolved hops [] chain draw good known e = cc e
  place_chain-IsResolved hops (h ∷ hs) chain draw (ready, nodes, once, new) known e =
      let (fits, then_ok) =
        ok_of_guard (is_ipv6 env.net r.exit_host && ((last_of h hs).relay_host_v6 == "")) _ _ e in
      let (entry, derived, tail) = ok_of_bind _ (derive_family r.proto h) then_ok in
      let prev : List (ℕ × ℕ) = prev_ports (filterb (of_rule r.id) store.hops) [] in
      let kept_hops : List HopRow = filterb (without_rule r.id) store.hops in
      let (placed, assigned, last) =
        ok_of_bind _ (assign_ports env.intn kept_hops r.proto r.id prev avoid 0 (entry.1 ∷ hs))
          tail in
      let same : placed ≡ chain.1 = cc last in
      let (entry_ready, entry_node) = derive_family-IsReady r.proto h entry ready.0 derived in
      let (free, resolved) =
        assign_ports-Fits env.intn kept_hops r.proto r.id prev avoid 0 (entry.1 ∷ hs) placed draw
          (entry_ready.0, HasRange-All env store r avoid hs ready.1) assigned in
      let entry_known = derive_family-IsResolved store.nodes r.proto h entry known.0 derived in
      subst (All (λ p. IsResolved store.nodes p.0)) same (
        All-placed env store r avoid (IsResolved store.nodes) placed
          (subst (All (IsResolved store.nodes)) (sym resolved) (entry_known, known.1)))
