-- ===== src/Ports/Picking.antt =====
-- What the port pickers of internal/db/rules.go and internal/portutil/port.go hand out.
use native.Mathlib.Nat.{mod-lt}
use nft.Ports.{
  Segment, pick_free_port, pick_free_port_from_range, port_at, port_in_range, scan, span,
  total_span,
}
use nft.Base.{
  All, Bool-cases, List, [], ap, arith, eqb, false, has, inl, inr, leb, ltb, nat_eq, pair_eq, refl,
  some, string_eq, subst, true, ℕ, ◌%◌, ◌&&◌, ◌+◌, ◌-◌, ◌<◌, ◌∷◌, ◌≡◌, ◌≢◌, ◌≤◌, ◌⊎◌,
}
use nft.Ports.Scan.{scan_complete_round, scan_sound}
use nft.Ports.{
  Segment, pick_free_port, pick_free_port_from_range, port_at, port_in_range, scan, span,
  total_span,
}

-- A segment as the parser makes it: not empty, and without port 0.
abbrev pub IsSegment : Segment → Type 0
IsSegment s = (1 ≤ s.0) × (s.0 ≤ s.1)

port_at_sound :
    (segs : List Segment) (cur idx p : ℕ)
    → All IsSegment segs
    → cur ≤ idx
    → port_at cur segs idx ≡ some p
    → (port_in_range p segs ≡ true) × (p ≢ 0)
unfolding port_at port_in_range
port_at_sound [] cur idx p wf h e = cc
port_at_sound ((lo, hi) ∷ segs) cur idx p wf h e =
    elim (Bool-cases (ltb idx (cur + (hi + 1 - lo)))) [
      | inl here ↦ let same : lo + (idx - cur) ≡ p = ground arith in (ground arith, ground arith)
      | inr later ↦
          let next : port_at (cur + (hi + 1 - lo)) segs idx ≡ some p = ground arith in
          let found = port_at_sound segs (cur + (hi + 1 - lo)) idx p wf.1 (ground arith) next in
          (ground (arith, found.0), found.1)
    ]

port_at_reached :
    (segs : List Segment) (cur p : ℕ)
    → port_in_range p segs ≡ true
    → (idx : ℕ) × (idx < total_span segs) × (port_at cur segs (cur + idx) ≡ some p)
unfolding port_at port_in_range total_span
port_at_reached [] cur p h = cc
port_at_reached ((lo, hi) ∷ segs) cur p h = elim (Bool-cases (leb lo p && leb p hi)) [
  | inl here ↦ (p - lo, ground arith, ground arith)
  | inr elsewhere ↦
      let (idx, below, found) = port_at_reached segs (cur + (hi + 1 - lo)) p (ground arith) in
      let shift : cur + (hi + 1 - lo) + idx ≡ cur + (hi + 1 - lo + idx) = omega arith in
      (hi + 1 - lo + idx, omega (arith, below), ground (arith, shift, found))
]

-- A free port of the segments, or 0 when every port of them is used.
abbrev pub IsFreePick : List Segment → List ℕ → ℕ → Type 0
IsFreePick segs used p =
    ((p ≢ 0) × (port_in_range p segs ≡ true) × (has p used ≡ false))
    ⊎ ((p ≡ 0) × ((q : ℕ) → port_in_range q segs ≡ true → has q used ≡ true))

-- Whatever the random offset, the picker returns a port of the ranges that is not used, and it
-- returns 0 only when every port of the ranges is used. The ranges are as the parser makes them.
pub pick_free_port_from_range-IsFreePick :
    (offset : ℕ) (segs : List Segment) (used : List ℕ)
    → All IsSegment segs
    → offset < total_span segs
    → IsFreePick segs used (pick_free_port_from_range offset segs used)
unfolding pick_free_port_from_range
pick_free_port_from_range-IsFreePick offset segs used wf o =
    let total : ℕ = total_span segs in
    let p : ℕ = scan (port_at 0 segs) total offset used total 0 in
    let real : (i r : ℕ) → port_at 0 segs i ≡ some r → r ≢ 0 =
      λ i r e. (port_at_sound segs 0 i r wf (omega arith) e).1 in
    elim (Bool-cases (eqb p 0)) [
      | inl nothing ↦ inr (
        ground arith,
        λ q h.
            let (idx, below, found) = port_at_reached segs 0 q h in
            scan_complete_round (port_at 0 segs) total offset used real (ground arith) o idx q below
              (subst (λ i. port_at 0 segs i ≡ some q) (omega arith) found),
      )
      | inr something ↦
          let (k, found, free) =
            scan_sound (port_at 0 segs) total offset used total 0 p refl (ground arith) in
          inl (ground arith, (port_at_sound segs 0 _ p wf (omega arith) found).0, free)
    ]

-- The same for the picker that is given one range, which starts at port 1 at least.
pub pick_free_port-IsFreePick :
    (offset start last : ℕ) (used : List ℕ)
    → IsSegment (start, last)
    → offset < span (start, last)
    → IsFreePick ((start, last) ∷ []) used (pick_free_port offset start last used)
unfolding pick_free_port port_in_range
pick_free_port-IsFreePick offset start last used wf o =
    let total : ℕ = span (start, last) in
    let p : ℕ = scan (λ idx. some (start + idx)) total offset used total 0 in
    elim (Bool-cases (eqb p 0)) [
      | inl nothing ↦ inr (
        ground arith,
        λ q h.
            let inside : (start ≤ q) × (q ≤ last) = (ground arith, ground arith) in
            scan_complete_round (λ idx. some (start + idx)) total offset used
              (λ i r e. ground (arith, wf.0)) (ground arith) o (q - start) q
              (omega (arith, wf.0, wf.1, inside.0, inside.1)) (ap some (omega (arith, inside.0))),
      )
      | inr something ↦
          let (k, found, free) =
            scan_sound (λ idx. some (start + idx)) total offset used total 0 p refl
              (ground arith) in
          let small : (offset + k) % total < total = mod-lt (offset + k) (omega (arith, o)) in
          inl (ground arith, ground (arith, wf.0, wf.1, found, small), free)
    ]
