-- ===== src/Chain/Resolving.antt =====
-- The hops that the first loop of `RegenerateRule` resolves.
use nft.Base.{
  All, List, Option, Result, String, [], arith, distinct, eq_iff, eqb_iff, err, false, has, map,
  nat_eq, none, ok, ok_of_bind, ok_of_guard, pair_eq, refl, some, string_eq, subst, true, ℕ, ◌&&◌,
  ◌==◌, ◌∷◌, ◌≡◌, ◌≢◌, ◌⊎◌,
}
use nft.Ports.{RangeError, Segment, parse_port_range}
use nft.Ports.Parsing.{IsPortRange, parse_port_range-IsPortRange}
use nft.Ports.Picking.{IsSegment}
use nft.Rule.{codes}
use nft.Chain.{
  HopInput, NodeRow, RelayRule, Resolved, Store, find_node, hop_mode, named_range,
  normalize_forward_mode, resolve_as, resolve_hop, resolve_hops, resolve_on, resolve_with,
}
use nft.Chain.Assigning.{HasRange}

abbrev pub resolved_nodes : List Resolved → List ℕ
resolved_nodes [] = []
resolved_nodes (h ∷ hs) = h.node_id ∷ resolved_nodes hs

-- A mode of the column's CHECK, and no userspace relay for plain udp.
abbrev pub IsMode : String → String → Type 0
IsMode proto mode = (mode ≡ "kernel") ⊎ ((mode ≡ "userspace") × (proto ≢ "udp"))

abbrev pub IsReady : String → Resolved → Type 0
IsReady proto h = HasRange h × IsMode proto h.mode

hop_mode-IsMode : (proto mode : String) → IsMode proto (hop_mode proto mode)
unfolding hop_mode normalize_forward_mode
hop_mode-IsMode proto mode = ground (arith, eq_iff proto "udp")

IsSegment-All : (segs : List Segment) → All IsPortRange segs → All IsSegment segs
IsSegment-All [] p = tt
IsSegment-All (s ∷ segs) p = ((p.0.0, p.0.1), IsSegment-All segs p.1)

named_ok :
    (id : ℕ) (r : Result RangeError (List Segment)) (segs : List Segment)
    → named_range id r ≡ ok segs
    → r ≡ ok segs
unfolding named_range
named_ok id (ok s) segs e = cc e
named_ok id (err x) segs e = cc e

named_range-IsSegment :
    (id : ℕ) (spec : List ℕ) (segs : List Segment)
    → named_range id (parse_port_range spec) ≡ ok segs
    → (segs ≢ []) × All IsSegment segs
unfolding named_range
named_range-IsSegment id spec segs e =
    let parsed : parse_port_range spec ≡ ok segs = named_ok id (parse_port_range spec) segs e in
    let ranges = parse_port_range-IsPortRange spec segs parsed in
    (ranges.0, IsSegment-All segs ranges.1)

resolve_with-IsReady :
    (r : RelayRule) (hop : HopInput) (n : NodeRow) (relays : String × String) (h : Resolved)
    → resolve_with r hop n relays ≡ ok h
    → IsReady r.proto h × (h.node_id ≡ hop.node_id)
unfolding resolve_with resolve_as
resolve_with-IsReady r hop n relays h e =
    let (some_set, then_ok) = ok_of_guard ((relays.0 == "") && (relays.1 == "")) _ _ e in
    let (segs, parsed, last) =
      ok_of_bind _ (named_range n.id (parse_port_range (codes n.port_range))) then_ok in
    let same : resolve_as r hop relays segs ≡ h = cc last in
    subst (λ x. IsReady r.proto x × (x.node_id ≡ hop.node_id)) same
      (
        (
          named_range-IsSegment n.id (codes n.port_range) segs parsed,
          hop_mode-IsMode r.proto hop.mode,
        ),
        refl,
      )

resolve_on-IsReady :
    (r : RelayRule) (hop : HopInput) (n : Option NodeRow) (h : Resolved)
    → resolve_on r hop n ≡ ok h
    → IsReady r.proto h × (h.node_id ≡ hop.node_id)
unfolding resolve_on
resolve_on-IsReady r hop none h e = cc e
resolve_on-IsReady r hop (some n) h e = resolve_with-IsReady r hop n _ h e

-- Every hop is ready, in the order given, and no node comes twice or is one of `seen`.
abbrev pub IsChain : String → List ℕ → List HopInput → List Resolved → Type 0
IsChain proto seen hops rs =
    All (IsReady proto) rs
    × (resolved_nodes rs ≡ map (λ h. h.node_id) hops)
    × (distinct (resolved_nodes rs) ≡ true)
    × All (λ n. has n seen ≡ false) (resolved_nodes rs)

not_seen :
    (n : ℕ) (seen ms : List ℕ)
    → All (λ m. has m (n ∷ seen) ≡ false) ms
    → (has n ms ≡ false) × All (λ m. has m seen ≡ false) ms
unfolding has
not_seen n seen [] p = (refl, tt)
not_seen n seen (m ∷ ms) p =
    let rest = not_seen n seen ms p.1 in
    (ground (arith, p.0, rest.0, eqb_iff m n, eqb_iff n m), (ground (arith, p.0), rest.1))

IsChain-cons :
    (proto : String) (seen : List ℕ) (hop : HopInput) (hops : List HopInput) (h : Resolved)
    (hs : List Resolved)
    → has hop.node_id seen ≡ false
    → IsReady proto h
    → h.node_id ≡ hop.node_id
    → IsChain proto (hop.node_id ∷ seen) hops hs
    → IsChain proto seen (hop ∷ hops) (h ∷ hs)
unfolding distinct
IsChain-cons proto seen hop hops h hs fresh ready node (all_ready, nodes, apart, new) =
    let (once, unseen) = not_seen hop.node_id seen (resolved_nodes hs) new in
    (
      (ready, all_ready),
      rw (node, nodes) refl,
      rw (node, once, apart) refl,
      (rw node fresh, unseen),
    )

pub resolve_hops-IsChain :
    (store : Store) (r : RelayRule) (seen : List ℕ) (hops : List HopInput) (rs : List Resolved)
    → resolve_hops store r seen hops ≡ ok rs
    → IsChain r.proto seen hops rs
unfolding resolve_hops resolve_hop
resolve_hops-IsChain store r seen [] rs e =
    let same : [] ≡ rs = cc e in
    subst (IsChain r.proto seen []) same (tt, refl, unfold distinct in refl, tt)
resolve_hops-IsChain store r seen (hop ∷ hops) rs e =
    let (fresh, then_ok) = ok_of_guard (has hop.node_id seen) _ _ e in
    let (h, first, tail) =
      ok_of_bind _ (resolve_on r hop (find_node hop.node_id store.nodes)) then_ok in
    let (hs, second, last) = ok_of_bind _ (resolve_hops store r (hop.node_id ∷ seen) hops) tail in
    let same : h ∷ hs ≡ rs = cc last in
    let (ready, node) = resolve_on-IsReady r hop _ h first in
    let later = resolve_hops-IsChain store r (hop.node_id ∷ seen) hops hs second in
    subst (IsChain r.proto seen (hop ∷ hops)) same
      (IsChain-cons r.proto seen hop hops h hs fresh ready node later)
