-- ===== src/Dispatch/Claiming.antt =====
-- The keys that Partition claims for a row at one port.

use nft.Base.{
  List, String, [], arith, distinct, distinct-cons, false, has, has-append, if◌then◌else◌, nat_eq,
  pair_eq, refl, string_eq, test_refl, true, ◌++◌, ◌==◌, ◌∷◌, ◌≡◌, ◌≢◌,
}
use nft.Base.Int.{int_eq, ℤ}
use nft.Partition.{Key, namespaces}
use nft.Partition.Claims.{at_port}

-- The claims of a row.
pub has-at_port :
    (ns : String) (port : ℤ) (ps : List String) → has (ns, port) (at_port port ps) ≡ has ns ps
unfolding has
has-at_port ns port [] = refl
has-at_port ns port (p ∷ ps) = ground (arith, int_eq.test_iff port port, has-at_port ns port ps)

pub has-at_port_other :
    (ns : String) (port other : ℤ) (ps : List String)
    → other ≢ port
    → has (ns, port) (at_port other ps) ≡ false
unfolding has
has-at_port_other ns port other [] ne = refl
has-at_port_other ns port other (p ∷ ps) ne =
    ground (arith, ne, int_eq.test_iff other port, has-at_port_other ns port other ps ne)

pub distinct-at_port :
    (port : ℤ) (ps : List String) (rest : List Key)
    → distinct ps ≡ true
    → ((ns : String) → has ns ps ≡ true → has (ns, port) rest ≡ false)
    → distinct rest ≡ true
    → distinct (at_port port ps ++ rest) ≡ true
unfolding distinct has
distinct-at_port port [] rest d free r = r
distinct-at_port port (p ∷ ps) rest d free r =
    let (new, others) = distinct-cons p ps d in
    let mine : has (p, port) rest ≡ false = free p (ground (arith, test_refl p)) in
    let ih = distinct-at_port port ps rest others (λ ns h. free ns (ground (arith, h))) r in
    ground
      (arith, ih, new, mine, has-append (p, port) (at_port port ps) rest, has-at_port p port ps)

pub namespaces-distinct : (p : String) → distinct (namespaces p) ≡ true
unfolding namespaces distinct has
namespaces-distinct p =
    elim (p == "tcp+udp") as (λ b. distinct (if b then "tcp" ∷ "udp" ∷ [] else p ∷ []) ≡ true) [
      | true ↦ refl
      | false ↦ refl
    ]
