-- ===== src/Chain/Clashes.antt =====
-- No two rows of `rule_hops` compete for one port of a node.
use nft.Base.{
  All, All-append, Bool, Bool-cases, List, String, [], arith, eqb_iff, false, filterb, has, inl,
  inr, nat_eq, pair_eq, string_eq, true, ℕ, ◌++◌, ◌∷◌, ◌≡◌, ◌≢◌,
}
use nft.Partition.{namespaces}
use nft.Ports.{overlapping_protos}
use nft.Ports.Namespaces.{IsStored, overlapping_protos_iff}
use nft.Chain.{HopRow, competes, occupied_ports_on_node}

-- The two rows do not listen on one port of one node for a common transport.
abbrev pub Apart : HopRow → HopRow → Type 0
Apart g h =
    g.node_id ≡ h.node_id
    → g.listen_port ≡ h.listen_port
    → (ns : String) → has ns (namespaces g.proto) ≡ true
    → has ns (namespaces h.proto) ≡ false

abbrev pub NoClash : List HopRow → Type 0
NoClash [] = Unit
NoClash (h ∷ hs) = All (Apart h) hs × NoClash hs

-- The CHECK of the column `proto`.
abbrev pub HasStored : HopRow → Type 0
HasStored h = IsStored h.proto

pub All-filter :
    (P : HopRow → Type 0) (f : HopRow → Bool) (hs : List HopRow) → All P hs → All P (filterb f hs)
All-filter P f [] p = tt
All-filter P f (h ∷ hs) p =
    elim (f h) as (λ b. All P (elim b [ true ↦ h ∷ filterb f hs | false ↦ filterb f hs ])) [
      | true ↦ (p.0, All-filter P f hs p.1)
      | false ↦ All-filter P f hs p.1
    ]

pub NoClash-filter : (f : HopRow → Bool) (hs : List HopRow) → NoClash hs → NoClash (filterb f hs)
NoClash-filter f [] p = tt
NoClash-filter f (h ∷ hs) p =
    elim (f h) as (λ b. NoClash (elim b [ true ↦ h ∷ filterb f hs | false ↦ filterb f hs ])) [
      | true ↦ (All-filter (Apart h) f hs p.0, NoClash-filter f hs p.1)
      | false ↦ NoClash-filter f hs p.1
    ]

pub NoClash-append :
    (gs hs : List HopRow)
    → NoClash gs
    → NoClash hs
    → All (λ g. All (Apart g) hs) gs
    → NoClash (gs ++ hs)
NoClash-append [] hs p q r = q
NoClash-append (g ∷ gs) hs p q r =
    (All-append (Apart g) gs hs p.0 r.0, NoClash-append gs hs p.1 q r.1)

-- What a port that is not occupied says of the first row.
occupied_ports-first :
    (h : HopRow) (hs : List HopRow) (node port : ℕ) (proto : String) (id : ℕ)
    → has port (occupied_ports_on_node (h ∷ hs) node proto id) ≡ false
    → (has port (occupied_ports_on_node hs node proto id) ≡ false)
      × (competes node proto id h ≡ true → h.listen_port ≢ port)
unfolding occupied_ports_on_node has
occupied_ports-first h hs node port proto id free = elim (Bool-cases (competes node proto id h)) [
  | inl hit ↦ ground (arith, free)
  | inr miss ↦ ground (arith, free)
]

competes_same_node :
    (h : HopRow) (node : ℕ) (proto : String) (id : ℕ)
    → h.node_id ≡ node
    → has h.proto (overlapping_protos proto) ≡ true
    → h.rule_id ≢ id
    → competes node proto id h ≡ true
unfolding competes
competes_same_node h node proto id a b c =
    ground (arith, eqb_iff h.node_id node, eqb_iff h.rule_id id)

-- A port that is not occupied for a rule's protocol is apart from every row of the other rules.
pub occupied_ports-Apart :
    (hs : List HopRow) (id : ℕ) (new : HopRow)
    → All HasStored hs
    → HasStored new
    → has new.listen_port (occupied_ports_on_node hs new.node_id new.proto id) ≡ false
    → All (λ h. h.rule_id ≢ id) hs
    → All (λ h. Apart h new) hs
occupied_ports-Apart [] id new stored good free other = tt
occupied_ports-Apart (h ∷ hs) id new stored good free other =
    let first = occupied_ports-first h hs new.node_id new.listen_port new.proto id free in
    (
      λ node port ns a. elim (Bool-cases (has ns (namespaces new.proto))) [
        | inr apart ↦ apart
        | inl b ↦
            let meets : has h.proto (overlapping_protos new.proto) ≡ true =
              (overlapping_protos_iff new.proto h.proto good stored.0).1 (ns, b, a) in
            elim (first.1 (competes_same_node h new.node_id new.proto id node meets other.0)
              port) [ ]
      ],
      occupied_ports-Apart hs id new stored.1 good first.0 other.1,
    )
