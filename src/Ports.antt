-- ===== src/Ports.antt =====
-- internal/portutil/port.go and the port helpers of internal/db/rules.go. Text is read by its code
-- points; `rand.Intn` is a number that the caller gives, since any value leads to the same guarantees.
mod Atoi
pub mod Scan
pub mod Picking
pub mod Parsing
pub mod Namespaces
unfoldable pub use Atoi.{atoi, cut_at, digits_value, is_space, split_on, trim_left, trim_space}
use nft.Base.{
  Bool, List, Option, Result, String, [], err, false, has, if◌then◌else◌, leb, ltb, nat_eq, none,
  not, ok, pair_eq, some, string_eq, suc, zero, ℕ, ◌%◌, ◌&&◌, ◌+◌, ◌-◌, ◌==◌, ◌>>=◌, ◌||◌, ◌∷◌,
}
use nft.Base.Int.{int_eq, ltb_ℤ, pos, to_ℕ, ℤ}
use nft.Rule.{codes}

-- A segment is an inclusive range of ports.
abbrev pub Segment : Type 0
Segment = ℕ × ℕ

abbrev pub default_port_range : String
default_port_range = "10001-20000"

pub data RangeError : Type 0 where
  invalid_port out_of_range start_after_end empty_range : RangeError

abbrev pub port_ok : ℤ → Bool
port_ok z = not (ltb_ℤ z (pos 1) || ltb_ℤ (pos 65535) z)

unfoldable pub parse_bounds : Option ℤ → Option ℤ → Result RangeError Segment
parse_bounds (some lo) (some hi) =
    if not (port_ok lo && port_ok hi)
    then err out_of_range
    else if ltb_ℤ hi lo
    then err start_after_end
    else ok (to_ℕ lo, to_ℕ hi)
parse_bounds _ _ = err invalid_port

unfoldable pub parse_single : Option ℤ → Result RangeError Segment
parse_single (some p) = if port_ok p then ok (to_ℕ p, to_ℕ p) else err out_of_range
parse_single none = err invalid_port

-- One part of the list, already trimmed and not empty: "lo-hi" at the first dash, or one port.
unfoldable pub parse_split : List ℕ → Option (List ℕ × List ℕ) → Result RangeError Segment
parse_split part (some (lo, hi)) = parse_bounds (atoi (trim_space lo)) (atoi (trim_space hi))
parse_split part none = parse_single (atoi part)

unfoldable pub parse_part : List ℕ → Result RangeError Segment
parse_part part = parse_split part (cut_at b'-' part)

-- The loop over the parts; blank parts are skipped.
unfoldable pub parse_next :
    List ℕ → Result RangeError (List Segment) → Result RangeError (List Segment)
parse_next [] rest = rest
parse_next (c ∷ cs) rest = do seg ← parse_part (c ∷ cs); segs ← rest; ok (seg ∷ segs)

unfoldable pub parse_parts : List (List ℕ) → Result RangeError (List Segment)
parse_parts [] = ok []
parse_parts (part ∷ parts) = parse_next (trim_space part) (parse_parts parts)

abbrev pub or_default : List ℕ → List ℕ
or_default [] = codes default_port_range
or_default (c ∷ cs) = c ∷ cs

abbrev pub some_segment : List Segment → Result RangeError (List Segment)
some_segment [] = err empty_range
some_segment (s ∷ ss) = ok (s ∷ ss)

unfoldable pub parse_port_range : List ℕ → Result RangeError (List Segment)
parse_port_range spec = do
  segs ← parse_parts (split_on b',' (or_default (trim_space spec)))
  some_segment segs

unfoldable pub port_in_range : ℕ → List Segment → Bool
port_in_range port [] = false
port_in_range port (seg ∷ segs) = (leb seg.0 port && leb port seg.1) || port_in_range port segs

-- end - start + 1, where the program's ranges are not empty.
abbrev pub span : Segment → ℕ
span seg = seg.1 + 1 - seg.0

unfoldable pub total_span : List Segment → ℕ
total_span [] = 0
total_span (seg ∷ segs) = span seg + total_span segs

-- The inner loop of PickFreePortFromRange: the port at a linear index.
unfoldable pub port_at : ℕ → List Segment → ℕ → Option ℕ
port_at cur [] idx = none
port_at cur (seg ∷ segs) idx =
    if ltb idx (cur + span seg)
    then some (seg.0 + (idx - cur))
    else port_at (cur + span seg) segs idx

-- The outer loop of both pickers: indices from `offset` on, round the whole range, until one is free.
unfoldable pub scan : (ℕ → Option ℕ) → ℕ → ℕ → List ℕ → ℕ → ℕ → ℕ
scan candidate total offset used zero i = 0
scan candidate total offset used (suc n) i =
    let rest = scan candidate total offset used n (i + 1) in
    elim (candidate ((offset + i) % total)) [
      | none ↦ rest
      | some p ↦ if has p used then rest else p
    ]

unfoldable pub pick_free_port_from_range : ℕ → List Segment → List ℕ → ℕ
pick_free_port_from_range offset segs used =
    scan (port_at 0 segs) (total_span segs) offset used (total_span segs) 0

-- portutil.PickFreePort
unfoldable pub pick_free_port : ℕ → ℕ → ℕ → List ℕ → ℕ
pick_free_port offset start last used =
    scan (λ idx. some (start + idx)) (span (start, last)) offset used (span (start, last)) 0

abbrev pub stored_protos : List String
stored_protos = "tcp" ∷ "udp" ∷ "tcp+udp" ∷ []

unfoldable pub proto_namespaces : String → List String
proto_namespaces proto = if proto == "tcp+udp" then "tcp" ∷ "udp" ∷ [] else proto ∷ []

abbrev pub shares : List String → List String → Bool
shares want [] = false
shares want (ns ∷ rest) = has ns want || shares want rest

unfoldable pub overlapping_of : List String → List String → List String
overlapping_of want [] = []
overlapping_of want (cand ∷ rest) =
    let out = overlapping_of want rest in
    if shares want (proto_namespaces cand) then cand ∷ out else out

abbrev or_self : String → List String → List String
or_self proto [] = proto ∷ []
or_self proto (p ∷ ps) = p ∷ ps

unfoldable pub overlapping_protos : String → List String
unfolding overlapping_of
overlapping_protos proto = or_self proto (overlapping_of (proto_namespaces proto) stored_protos)
