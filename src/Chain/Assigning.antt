-- ===== src/Chain/Assigning.antt =====
-- The ports that the second loop of `RegenerateRule` settles on.
use nft.Base.{
  All, List, Option, String, [], ap, arith, false, has, map, nat_eq, none, ok, ok_of_bind, pair_eq,
  refl, some, string_eq, subst, true, ℕ, ◌+◌, ◌<◌, ◌∷◌, ◌≡◌, ◌≢◌,
}
use nft.Base.Int.{int_eq}
use nft.Ports.{Segment, pick_free_port_from_range, port_in_range, total_span}
use nft.Ports.Picking.{IsFreePick, IsSegment, pick_free_port_from_range-IsFreePick}
use nft.Base.Assoc.{get_or, lookup}
use nft.Chain.{
  HopRow, Placed, Resolved, add_port, assign_port, assign_ports, occupied_ports_on_node,
}

-- A hop whose node has a port range that the parser accepts.
abbrev pub HasRange : Resolved → Type 0
HasRange h = (h.port_segs ≢ []) × All IsSegment h.port_segs

total_span_positive : (segs : List Segment) → segs ≢ [] → All IsSegment segs → 0 < total_span segs
unfolding total_span
total_span_positive [] ne wf = elim (ne refl) [ ]
total_span_positive (s ∷ segs) ne wf = omega (arith, wf.0)

-- Within the node's range, and not held by another rule.
abbrev pub IsFree : List Segment → List ℕ → ℕ → Type 0
IsFree segs occ port = (port_in_range port segs ≡ true) × (has port occ ≡ false)

pub assign_port-IsFree :
    (offset prev : ℕ) (occ : List ℕ) (h : Resolved) (port : ℕ)
    → HasRange h
    → offset < total_span h.port_segs
    → assign_port offset prev occ h ≡ ok port
    → IsFree h.port_segs occ port
unfolding assign_port
assign_port-IsFree offset prev occ h port wf o e =
    let picked : ℕ = pick_free_port_from_range offset h.port_segs occ in
    let pick : IsFreePick h.port_segs occ picked =
      pick_free_port_from_range-IsFreePick offset h.port_segs occ wf.1 o in
    ground (arith, pick, e)

has-add_port :
    (o : Option ℕ) (port : ℕ) (occ : List ℕ)
    → has port (add_port o occ) ≡ false
    → has port occ ≡ false
unfolding add_port has
has-add_port none port occ h = h
has-add_port (some p) port occ h = ground (arith, h)

-- What a random offset is: below the bound that it was drawn for.
abbrev pub IsDraw : (ℕ → ℕ → ℕ) → Type 0
IsDraw intn = (i n : ℕ) → 0 < n → intn i n < n

module _ (intn : ℕ → ℕ → ℕ) (hops : List HopRow) (proto : String) (id : ℕ)
    (prev avoid : List (ℕ × ℕ)) where
  abbrev pub Fits : Placed → Type 0
  Fits p = IsFree p.0.port_segs (occupied_ports_on_node hops p.0.node_id proto id) p.1

  -- Every hop keeps its place and has a port of its node's range that no other rule holds there.
  pub assign_ports-Fits :
      (i : ℕ) (hs : List Resolved) (placed : List Placed)
      → IsDraw intn
      → All HasRange hs
      → assign_ports intn hops proto id prev avoid i hs ≡ ok placed
      → All Fits placed × (map (λ p. p.0) placed ≡ hs)
  unfolding assign_ports
  assign_ports-Fits i [] placed draw wf e =
      let same : [] ≡ placed = cc e in
      subst (λ l. All Fits l × (map (λ p. p.0) l ≡ [])) same (tt, refl)
  assign_ports-Fits i (h ∷ hs) placed draw wf e =
      let (port, first, tail) =
        ok_of_bind _
          (assign_port (intn i (total_span h.port_segs)) (get_or 0 h.node_id prev)
            (add_port (lookup h.node_id avoid) (occupied_ports_on_node hops h.node_id proto id)) h)
          e in
      let (rest, second, last) =
        ok_of_bind _ (assign_ports intn hops proto id prev avoid (i + 1) hs) tail in
      let same : (h, port) ∷ rest ≡ placed = cc last in
      let later = assign_ports-Fits (i + 1) hs rest draw wf.1 second in
      let offset : intn i (total_span h.port_segs) < total_span h.port_segs =
        draw i (total_span h.port_segs) (total_span_positive h.port_segs wf.0.0 wf.0.1) in
      let fits = assign_port-IsFree _ _ _ h port wf.0 offset first in
      subst (λ l. All Fits l × (map (λ p. p.0) l ≡ h ∷ hs)) same
        (
          ((fits.0, has-add_port (lookup h.node_id avoid) port _ fits.1), later.0),
          ap (λ l. h ∷ l) later.1,
        )
