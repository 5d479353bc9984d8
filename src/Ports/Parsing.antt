-- ===== src/Ports/Parsing.antt =====
-- What `ParsePortRange` of internal/db/rules.go accepts.
use nft.Ports.{
  RangeError, Segment, atoi, parse_bounds, parse_next, parse_part, parse_parts, parse_port_range,
  parse_single, parse_split, some_segment, trim_space,
}
use nft.Base.{
  All, List, Option, Result, [], arith, none, ok, ok_of_bind, some, subst, ℕ, ◌∷◌, ◌≡◌, ◌≢◌, ◌≤◌,
}
use nft.Base.Int.{negsuc, pos, ℤ}
use nft.Ports.{
  RangeError, Segment, atoi, parse_bounds, parse_next, parse_part, parse_parts, parse_port_range,
  parse_single, parse_split, some_segment, trim_space,
}

-- A parsed segment is a range of port numbers that is not empty.
abbrev pub IsPortRange : Segment → Type 0
IsPortRange s = (1 ≤ s.0) × (s.0 ≤ s.1) × (s.1 ≤ 65535)

parse_bounds-IsPortRange :
    (a b : Option ℤ) (seg : Segment) → parse_bounds a b ≡ ok seg → IsPortRange seg
unfolding parse_bounds
parse_bounds-IsPortRange none b seg e = cc
parse_bounds-IsPortRange (some a) none seg e = cc
parse_bounds-IsPortRange (some (pos a)) (some (pos b)) seg e = ground arith
parse_bounds-IsPortRange (some (negsuc a)) (some b) seg e = cc e
parse_bounds-IsPortRange (some (pos a)) (some (negsuc b)) seg e = ground arith

parse_single-IsPortRange :
    (a : Option ℤ) (seg : Segment) → parse_single a ≡ ok seg → IsPortRange seg
unfolding parse_single
parse_single-IsPortRange none seg e = cc
parse_single-IsPortRange (some (pos a)) seg e = ground arith
parse_single-IsPortRange (some (negsuc a)) seg e = cc e

parse_split-IsPortRange :
    (part : List ℕ) (cut : Option (List ℕ × List ℕ)) (seg : Segment)
    → parse_split part cut ≡ ok seg
    → IsPortRange seg
unfolding parse_split
parse_split-IsPortRange part none seg e = parse_single-IsPortRange (atoi part) seg e
parse_split-IsPortRange part (some (lo, hi)) seg e =
    parse_bounds-IsPortRange (atoi (trim_space lo)) (atoi (trim_space hi)) seg e

parse_next-IsPortRange :
    (part : List ℕ) (rest : Result RangeError (List Segment)) (segs : List Segment)
    → ((later : List Segment) → rest ≡ ok later → All IsPortRange later)
    → parse_next part rest ≡ ok segs
    → All IsPortRange segs
unfolding parse_next parse_part
parse_next-IsPortRange [] rest segs good e = good segs e
parse_next-IsPortRange (c ∷ cs) rest segs good e =
    let (seg, first, tail) = ok_of_bind _ (parse_part (c ∷ cs)) e in
    let (later, second, last) = ok_of_bind _ rest tail in
    let same : seg ∷ later ≡ segs = cc last in
    subst (All IsPortRange) same (parse_split-IsPortRange _ _ seg first, good later second)

parse_parts-IsPortRange :
    (parts : List (List ℕ)) (segs : List Segment)
    → parse_parts parts ≡ ok segs
    → All IsPortRange segs
unfolding parse_parts
parse_parts-IsPortRange [] segs e = let same : [] ≡ segs = cc e in subst (All IsPortRange) same tt
parse_parts-IsPortRange (part ∷ parts) segs e =
    parse_next-IsPortRange (trim_space part) (parse_parts parts) segs
      (parse_parts-IsPortRange parts) e

some_segment_lem : (l segs : List Segment) → some_segment l ≡ ok segs → (l ≡ segs) × (segs ≢ [])
some_segment_lem [] segs e = cc e
some_segment_lem (s ∷ l) segs e = (cc e, λ z. cc (z, e))

-- Every range that the parser returns lies within 1 and 65535 and is not empty, and there is one.
pub parse_port_range-IsPortRange :
    (spec : List ℕ) (segs : List Segment)
    → parse_port_range spec ≡ ok segs
    → (segs ≢ []) × All IsPortRange segs
unfolding parse_port_range
parse_port_range-IsPortRange spec segs e =
    let (parsed, first, last) = ok_of_bind some_segment _ e in
    let (same, some_range) = some_segment_lem parsed segs last in
    (some_range, subst (All IsPortRange) same (parse_parts-IsPortRange _ parsed first))
