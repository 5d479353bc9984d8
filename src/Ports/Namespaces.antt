-- ===== src/Ports/Namespaces.antt =====
-- Which stored protocols compete for one port (internal/db/rules.go).
use nft.Base.{
  String, [], arith, eq_iff, false, has, inl, inr, nat_eq, pair_eq, refl, string_eq, true, ◌==◌,
  ◌↔◌, ◌∷◌, ◌≡◌, ◌⊎◌,
}
use nft.Ports.{overlapping_protos, proto_namespaces}
use nft.Partition.{namespaces}

-- The protocols that a rule can have.
abbrev pub IsStored : String → Type 0
IsStored p = (p ≡ "tcp") ⊎ ((p ≡ "udp") ⊎ (p ≡ "tcp+udp"))

-- The panel looks up the ports of `q` when it places a rule of `p`, against what the node compares.
abbrev pub Agree : String → String → Type 0
Agree p q =
    (has q (overlapping_protos p) ≡ true)
    ↔ ((ns : String) × (has ns (namespaces p) ≡ true) × (has ns (namespaces q) ≡ true))

share :
    (p q ns : String)
    → has q (overlapping_protos p) ≡ true
    → has ns (namespaces p) ≡ true
    → has ns (namespaces q) ≡ true
    → Agree p q
share p q ns h a b = (λ _. (ns, a, b), λ _. h)

apart :
    (p q : String)
    → has q (overlapping_protos p) ≡ false
    → ((ns : String) → has ns (namespaces p) ≡ true → has ns (namespaces q) ≡ false)
    → Agree p q
apart p q h other = (λ e. cc (e, h), λ w. cc (other w.0 w.1, w.2))

pub one_other :
    (a b ns : String) → (a == b) ≡ false → has ns (a ∷ []) ≡ true → has ns (b ∷ []) ≡ false
unfolding has
one_other a b ns ne h = ground (arith, eq_iff a ns, eq_iff b ns, eq_iff a b)

-- The panel keeps a rule off exactly the ports that are held under a protocol with a transport in
-- common, which is when `Partition` on the node would find two rules of one port in conflict.
pub overlapping_protos_iff : (p q : String) → IsStored p → IsStored q → Agree p q
unfolding overlapping_protos has proto_namespaces namespaces
overlapping_protos_iff p q (inl a) (inl b) = rw (a, b) (share "tcp" "tcp" "tcp" refl refl refl)
overlapping_protos_iff p q (inl a) (inr (inl b)) =
    rw (a, b) (apart "tcp" "udp" refl (λ ns. one_other "tcp" "udp" ns refl))
overlapping_protos_iff p q (inl a) (inr (inr b)) =
    rw (a, b) (share "tcp" "tcp+udp" "tcp" refl refl refl)
overlapping_protos_iff p q (inr (inl a)) (inl b) =
    rw (a, b) (apart "udp" "tcp" refl (λ ns. one_other "udp" "tcp" ns refl))
overlapping_protos_iff p q (inr (inl a)) (inr (inl b)) =
    rw (a, b) (share "udp" "udp" "udp" refl refl refl)
overlapping_protos_iff p q (inr (inl a)) (inr (inr b)) =
    rw (a, b) (share "udp" "tcp+udp" "udp" refl refl refl)
overlapping_protos_iff p q (inr (inr a)) (inl b) =
    rw (a, b) (share "tcp+udp" "tcp" "tcp" refl refl refl)
overlapping_protos_iff p q (inr (inr a)) (inr (inl b)) =
    rw (a, b) (share "tcp+udp" "udp" "udp" refl refl refl)
overlapping_protos_iff p q (inr (inr a)) (inr (inr b)) =
    rw (a, b) (share "tcp+udp" "tcp+udp" "tcp" refl refl refl)
