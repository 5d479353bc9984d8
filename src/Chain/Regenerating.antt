-- ===== src/Chain/Regenerating.antt =====
-- What `RegenerateRule` leaves in the tables.
use nft.Base.{
  All, All-append, List, String, [], ap, arith, distinct, eq_iff, false, filterb, has, map, nat_eq,
  ok, ok_of_bind, ok_of_guard, pair_eq, string_eq, subst, sym, true, ℕ, ◌&&◌, ◌++◌, ◌==◌, ◌∙◌, ◌∷◌,
  ◌≡◌, ◌≢◌,
}
use nft.Net.{is_ipv6}
use nft.Chain.Assigning.{HasRange, IsDraw, IsFree, assign_ports-Fits}
use nft.Chain.Clashes.{All-filter, Apart, HasStored, NoClash-append, NoClash-filter}
use nft.Chain.Writing.{
  All-swap, IsConsistent, distinct_nodes-NoClash, hop_rows-Apart, hop_rows-fields, kept-other,
  nodes_of-hop_rows,
}
use nft.Ports.Namespaces.{IsStored}
use nft.Chain.{
  Address, Env, HopInput, HopRow, Placed, RelayRule, Resolved, Store, assign_ports, derive_family,
  hop_rows, last_of, occupied_ports_on_node, of_rule, place_chain, prev_comments, prev_ports,
  regenerate_rule, resolve_hops, without_rule, write_chain,
}
use nft.Chain.Resolving.{IsChain, IsMode, IsReady, resolve_hops-IsChain, resolved_nodes}

tcp_not_udp : (proto : String) → proto ≡ "tcp" → proto ≢ "udp"
tcp_not_udp proto a b = let wrong : false ≡ true = (eq_iff "tcp" "udp").1 (sym a ∙ b) in cc wrong

-- The entry hop keeps its node and range, and its mode stays one that the protocol allows.
pub derive_family-IsReady :
    (proto : String) (h : Resolved) (entry : String × Resolved)
    → IsReady proto h
    → derive_family proto h ≡ ok entry
    → IsReady proto entry.1 × (entry.1.node_id ≡ h.node_id)
unfolding derive_family
derive_family-IsReady proto h (family, g) ready e =
    ground (arith, ready, e, eq_iff proto "tcp", tcp_not_udp proto)

module _ {ℓ} {Ip : Type ℓ} (env : Env Ip) (store : Store) (r : RelayRule)
    (avoid : List (ℕ × ℕ)) where
  abbrev pub kept : List HopRow
  kept = filterb (without_rule r.id) store.hops

  -- What holds of the hops and ports when every step before the writes has succeeded.
  abbrev pub IsPlaced : List HopInput → List Placed → Type 0
  IsPlaced hops placed =
      All (λ p. IsReady r.proto p.0) placed
      × All (λ p. IsFree p.0.port_segs (occupied_ports_on_node kept p.0.node_id r.proto r.id) p.1)
          placed
      × (resolved_nodes (map (λ p. p.0) placed) ≡ map (λ h. h.node_id) hops)
      × (distinct (resolved_nodes (map (λ p. p.0) placed)) ≡ true)

  pub All-placed :
      (P : Resolved → Type 0) (placed : List Placed)
      → All P (map (λ p. p.0) placed)
      → All (λ p. P p.0) placed
  All-placed P [] h = tt
  All-placed P (p ∷ placed) h = (h.0, All-placed P placed h.1)

  pub HasRange-All : (hs : List Resolved) → All (IsReady r.proto) hs → All HasRange hs
  HasRange-All [] p = tt
  HasRange-All (h ∷ hs) p = (p.0.0, HasRange-All hs p.1)

  pub place_chain-IsPlaced :
      (hops : List HopInput) (rs : List Resolved) (chain : String × List Placed)
      → IsDraw env.intn
      → IsChain r.proto [] hops rs
      → place_chain env store r avoid rs ≡ ok chain
      → IsPlaced hops chain.1
  unfolding place_chain
  place_chain-IsPlaced hops [] chain draw good e = cc e
  place_chain-IsPlaced hops (h ∷ hs) chain draw (ready, nodes, once, new) e =
      let (fits, then_ok) =
        ok_of_guard (is_ipv6 env.net r.exit_host && ((last_of h hs).relay_host_v6 == "")) _ _ e in
      let (entry, derived, tail) = ok_of_bind _ (derive_family r.proto h) then_ok in
      let prev : List (ℕ × ℕ) = prev_ports (filterb (of_rule r.id) store.hops) [] in
      let (placed, assigned, last) =
        ok_of_bind _ (assign_ports env.intn kept r.proto r.id prev avoid 0 (entry.1 ∷ hs)) tail in
      let same : placed ≡ chain.1 = cc last in
      let (entry_ready, entry_node) = derive_family-IsReady r.proto h entry ready.0 derived in
      let (free, resolved) =
        assign_ports-Fits env.intn kept r.proto r.id prev avoid 0 (entry.1 ∷ hs) placed draw
          (entry_ready.0, HasRange-All hs ready.1) assigned in
      let same_nodes : resolved_nodes (map (λ p. p.0) placed) ≡ resolved_nodes (h ∷ hs) =
        ap resolved_nodes resolved ∙ ap (λ n. n ∷ resolved_nodes hs) entry_node in
      subst (IsPlaced hops) same (
        All-placed (IsReady r.proto) placed
            (subst (All (IsReady r.proto)) (sym resolved) (entry_ready, ready.1)),
        free,
        same_nodes ∙ nodes,
        ap distinct same_nodes ∙ once,
      )

  free_ports :
      (placed : List Placed)
      → All
          (λ p. IsFree p.0.port_segs (occupied_ports_on_node kept p.0.node_id r.proto r.id) p.1)
          placed
      → All (λ p. has p.1 (occupied_ports_on_node kept p.0.node_id r.proto r.id) ≡ false) placed
  free_ports [] free = tt
  free_ports (p ∷ placed) free = (free.0.1, free_ports placed free.1)

  kept_with-IsConsistent :
      (hops : List HopInput) (placed : List Placed)
      → IsStored r.proto
      → IsConsistent store.hops
      → IsPlaced hops placed
      → IsConsistent (
          kept
          ++ hop_rows env.hop_label r
              (prev_comments (filterb (of_rule r.id) store.hops) [])
              0
              placed)
  kept_with-IsConsistent hops placed good old (ready, free, nodes, once) =
      let comments : List (ℕ × String) = prev_comments (filterb (of_rule r.id) store.hops) [] in
      let rows : List HopRow = hop_rows env.hop_label r comments 0 placed in
      let (stored, modes, ids) = hop_rows-fields env.hop_label r comments 0 placed good ready in
      let old_stored : All HasStored kept =
        All-filter HasStored (without_rule r.id) store.hops old.stored in
      record {
        stored = All-append HasStored kept rows old_stored stored;
        modes =
            All-append (λ h. IsMode h.proto h.mode) kept rows
              (All-filter (λ h. IsMode h.proto h.mode) (without_rule r.id) store.hops old.modes)
              modes;
        no_clash =
            NoClash-append kept rows (NoClash-filter (without_rule r.id) store.hops old.no_clash)
              (distinct_nodes-NoClash rows
                (ap distinct (nodes_of-hop_rows env.hop_label r comments 0 placed) ∙ once))
              (All-swap Apart kept rows (
                hop_rows-Apart env.hop_label r comments kept 0 placed good old_stored
                  (kept-other r.id store.hops) (free_ports placed free)));
      }

  -- Regenerating a rule keeps the table consistent: no two hops of the whole panel compete for one
  -- port of a node, every protocol and mode is a known one, and no plain udp hop is a userspace relay.
  -- The rule's protocol is a known one, and the random offsets are below their bounds.
  pub regenerate_rule-IsConsistent :
      (hops : List HopInput) (out : Store × (Address × Address) × List ℕ)
      → IsDraw env.intn
      → IsStored r.proto
      → IsConsistent store.hops
      → regenerate_rule env store r hops avoid ≡ ok out
      → IsConsistent out.0.hops
  unfolding regenerate_rule write_chain
  regenerate_rule-IsConsistent hops out draw good old e =
      let (rs, resolved, tail) = ok_of_bind _ (resolve_hops store r [] hops) e in
      let (chain, placed, last) = ok_of_bind _ (place_chain env store r avoid rs) tail in
      let same : write_chain env store r chain.0 chain.1 ≡ out = cc last in
      subst (λ o. IsConsistent o.0.hops) same
        (kept_with-IsConsistent hops chain.1 good old (
          place_chain-IsPlaced hops rs chain draw (resolve_hops-IsChain store r [] hops rs resolved)
            placed))
