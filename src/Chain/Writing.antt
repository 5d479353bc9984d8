-- ===== src/Chain/Writing.antt =====
-- The rows that `RegenerateRule` writes, beside those that it keeps.
use nft.Base.{
  All, All-filterb, List, String, [], ap, arith, distinct, distinct-cons, eqb_iff, false, filterb,
  has, map, nat_eq, pair_eq, refl, string_eq, true, ℕ, ◌+◌, ◌∷◌, ◌≡◌, ◌≢◌,
}
use nft.Ports.Namespaces.{IsStored}
use nft.Chain.{
  HopRow, Placed, RelayRule, hop_row, hop_rows, nodes_of, occupied_ports_on_node, target_of,
  without_rule,
}
use nft.Chain.Clashes.{Apart, HasStored, NoClash, occupied_ports-Apart}
use nft.Chain.Resolving.{IsMode, IsReady, resolved_nodes}

-- The table: each row of a known protocol and mode, and no two rows competing for one port.
pub record IsConsistent (hops : List HopRow) : Type 0 where
  pub stored : All HasStored hops
  pub modes : All (λ h. IsMode h.proto h.mode) hops
  pub no_clash : NoClash hops

other_node-Apart :
    (g : HopRow) (hs : List HopRow) → has g.node_id (nodes_of hs) ≡ false → All (Apart g) hs
unfolding nodes_of has
other_node-Apart g [] new = tt
other_node-Apart g (h ∷ hs) new = (
  λ same port ns a. ground (arith, same, new, eqb_iff h.node_id g.node_id),
  other_node-Apart g hs (ground (arith, new)),
)

pub distinct_nodes-NoClash : (hs : List HopRow) → distinct (nodes_of hs) ≡ true → NoClash hs
unfolding nodes_of
distinct_nodes-NoClash [] d = tt
distinct_nodes-NoClash (h ∷ hs) d =
    let (new, rest) = distinct-cons h.node_id (nodes_of hs) d in
    (other_node-Apart h hs new, distinct_nodes-NoClash hs rest)

pub All-swap :
    (P : HopRow → HopRow → Type 0) (gs hs : List HopRow)
    → All (λ h. All (λ g. P g h) gs) hs
    → All (λ g. All (P g) hs) gs
All-swap P [] hs p = tt
All-swap P (g ∷ gs) hs p = (firsts P g gs hs p, All-swap P gs hs (rests P g gs hs p))
  where
    firsts :
        (P : HopRow → HopRow → Type 0) (g : HopRow) (gs hs : List HopRow)
        → All (λ h. All (λ g. P g h) (g ∷ gs)) hs
        → All (P g) hs
    firsts P g gs [] p = tt
    firsts P g gs (h ∷ hs) p = (p.0.0, firsts P g gs hs p.1)

    rests :
        (P : HopRow → HopRow → Type 0) (g : HopRow) (gs hs : List HopRow)
        → All (λ h. All (λ g. P g h) (g ∷ gs)) hs
        → All (λ h. All (λ g. P g h) gs) hs
    rests P g gs [] p = tt
    rests P g gs (h ∷ hs) p = (p.0.1, rests P g gs hs p.1)

pub kept-other :
    (id : ℕ) (hs : List HopRow) → All (λ h. h.rule_id ≢ id) (filterb (without_rule id) hs)
kept-other id hs =
    All-filterb (λ h. h.rule_id ≢ id) (without_rule id)
      (λ h e. ground (arith, e, eqb_iff h.rule_id id)) hs

module _ (label : String → ℕ → String) (r : RelayRule) (comments : List (ℕ × String)) where
  pub nodes_of-hop_rows :
      (i : ℕ) (placed : List Placed)
      → nodes_of (hop_rows label r comments i placed) ≡ resolved_nodes (map (λ p. p.0) placed)
  unfolding nodes_of hop_rows hop_row
  nodes_of-hop_rows i [] = refl
  nodes_of-hop_rows i ((h, port) ∷ later) =
      ap (λ l. h.node_id ∷ l) (nodes_of-hop_rows (i + 1) later)

  pub hop_rows-fields :
      (i : ℕ) (placed : List Placed)
      → IsStored r.proto
      → All (λ p. IsReady r.proto p.0) placed
      → All HasStored (hop_rows label r comments i placed)
        × All (λ h. IsMode h.proto h.mode) (hop_rows label r comments i placed)
        × All (λ h. h.rule_id ≡ r.id) (hop_rows label r comments i placed)
  unfolding hop_rows hop_row
  hop_rows-fields i [] good ready = (tt, tt, tt)
  hop_rows-fields i ((h, port) ∷ later) good ready =
      let (a, b, c) = hop_rows-fields (i + 1) later good ready.1 in
      ((good, a), (ready.0.1, b), (refl, c))

  pub hop_rows-Apart :
      (kept : List HopRow) (i : ℕ) (placed : List Placed)
      → IsStored r.proto
      → All HasStored kept
      → All (λ h. h.rule_id ≢ r.id) kept
      → All (λ p. has p.1 (occupied_ports_on_node kept p.0.node_id r.proto r.id) ≡ false) placed
      → All (λ new. All (λ h. Apart h new) kept) (hop_rows label r comments i placed)
  unfolding hop_rows hop_row
  hop_rows-Apart kept i [] good stored other free = tt
  hop_rows-Apart kept i ((h, port) ∷ later) good stored other free = (
    occupied_ports-Apart kept r.id (hop_row label r comments i (h, port) (target_of r later)) stored
        good free.0 other,
    hop_rows-Apart kept (i + 1) later good stored other free.1,
  )
