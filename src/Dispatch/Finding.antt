-- ===== src/Dispatch/Finding.antt =====
-- Every key of a row leads to that row.
use nft.Dispatch.Pushing.{sort_by_port}
use nft.Dispatch.Sorting.{All-sort_by_port, NoClash-sort_by_port}
use nft.Dispatch.Whole.{Listed, Listed-filterb, Listed-sort_by_port}
use nft.Chain.Writing.{IsConsistent}
use nft.Chain.Clashes.{All-filter, Apart, HasStored, NoClash, NoClash-filter}
use nft.Base.{
  All, All-filterb, Bool, Bool-cases, List, String, [], ap, arith, eqb, eqb_iff, false, filterb,
  has, if◌then◌else◌, inl, inr, nat_eq, pair_eq, refl, some, string_eq, subst, sym, true, ℕ, ◌&&◌,
  ◌∙◌, ◌∷◌, ◌≡◌,
}
use nft.Base.Assoc.{insert, lookup, lookup-insert}
use nft.Chain.{HopRow}
use nft.Ports.{proto_namespaces}
use nft.Ports.Namespaces.{IsStored, one_other}
use nft.Partition.{namespaces}
use nft.Dispatch.Counting.{
  CounterKey, add_protos, at_listen_port, hop_counter_keys, hop_map, insert_keys, on_node,
  rule_hop_map_by_node,
}

lookup-insert_keys :
    (k : CounterKey) (ks : List CounterKey) (h : HopRow) (m : List (CounterKey × HopRow))
    → lookup k (insert_keys ks h m) ≡ (if has k ks then some h else lookup k m)
unfolding insert_keys has
lookup-insert_keys k [] h m = refl
lookup-insert_keys k (j ∷ ks) h m =
    ground (arith, lookup-insert_keys k ks h (insert j h m), lookup-insert j k h m)

abbrev Free : CounterKey → HopRow → Type 0
Free k h = has k (hop_counter_keys h.proto h.listen_port) ≡ false

lookup-hop_map :
    (k : CounterKey) (hs : List HopRow) (m : List (CounterKey × HopRow))
    → All (Free k) hs
    → lookup k (hop_map hs m) ≡ lookup k m
unfolding hop_map
lookup-hop_map k [] m free = refl
lookup-hop_map k (h ∷ hs) m free =
    lookup-hop_map k hs _ free.1 ∙ (lookup-insert_keys k _ h m ∙ rw free.0 refl)

-- The keys of the three protocols.
proto_keys : String → List String
proto_keys p = add_protos [] (p ∷ proto_namespaces p)

has-at_listen_port :
    (p : String) (port listen : ℕ) (ps : List String)
    → has (p, port) (at_listen_port listen ps) ≡ (has p ps && eqb listen port)
unfolding has
has-at_listen_port p port listen [] = refl
has-at_listen_port p port listen (q ∷ ps) = ground (arith, has-at_listen_port p port listen ps)

abbrev SharesNone : String → String → Type 0
SharesNone p q = (ns : String) → has ns (namespaces p) ≡ true → has ns (namespaces q) ≡ false

clash :
    (p q x y ns : String)
    → p ≡ x
    → q ≡ y
    → has ns (namespaces x) ≡ true
    → has ns (namespaces y) ≡ true
    → SharesNone p q
    → ⊥
clash p q x y ns a b h k apart =
    let both : has ns (namespaces q) ≡ true = rw b k in cc (apart ns (rw a h), both)

-- Rows that share no transport share no key.
protos_free :
    (p q k : String)
    → IsStored p
    → IsStored q
    → SharesNone p q
    → has k (proto_keys p) ≡ true
    → has k (proto_keys q) ≡ false
unfolding proto_keys add_protos proto_namespaces has namespaces
protos_free p q k (inl a) (inr (inl b)) apart mine =
    let tcp : has k ("tcp" ∷ []) ≡ true = subst (λ x. has k (proto_keys x) ≡ true) a mine in
    rw b (one_other "tcp" "udp" k refl tcp)
protos_free p q k (inr (inl a)) (inl b) apart mine =
    let udp : has k ("udp" ∷ []) ≡ true = subst (λ x. has k (proto_keys x) ≡ true) a mine in
    rw b (one_other "udp" "tcp" k refl udp)
protos_free p q k (inl a) (inl b) apart mine =
    absurd (clash p q "tcp" "tcp" "tcp" a b refl refl apart)
protos_free p q k (inl a) (inr (inr b)) apart mine =
    absurd (clash p q "tcp" "tcp+udp" "tcp" a b refl refl apart)
protos_free p q k (inr (inl a)) (inr (inl b)) apart mine =
    absurd (clash p q "udp" "udp" "udp" a b refl refl apart)
protos_free p q k (inr (inl a)) (inr (inr b)) apart mine =
    absurd (clash p q "udp" "tcp+udp" "udp" a b refl refl apart)
protos_free p q k (inr (inr a)) (inl b) apart mine =
    absurd (clash p q "tcp+udp" "tcp" "tcp" a b refl refl apart)
protos_free p q k (inr (inr a)) (inr (inl b)) apart mine =
    absurd (clash p q "tcp+udp" "udp" "udp" a b refl refl apart)
protos_free p q k (inr (inr a)) (inr (inr b)) apart mine =
    absurd (clash p q "tcp+udp" "tcp+udp" "tcp" a b refl refl apart)

abbrev pub IsKeyOf : CounterKey → HopRow → Type 0
IsKeyOf k h = has k (hop_counter_keys h.proto h.listen_port) ≡ true

key_parts :
    (k : CounterKey) (h : HopRow)
    → IsKeyOf k h
    → (has k.0 (proto_keys h.proto) ≡ true) × (h.listen_port ≡ k.1)
unfolding hop_counter_keys proto_keys
key_parts (p, port) h mine = ground (
  arith,
  mine,
  has-at_listen_port p port h.listen_port (proto_keys h.proto),
  eqb_iff h.listen_port port,
)

key-Free :
    (k : CounterKey) (h g : HopRow)
    → HasStored h
    → HasStored g
    → g.node_id ≡ h.node_id
    → Apart h g
    → IsKeyOf k h
    → Free k g
unfolding hop_counter_keys proto_keys
key-Free (p, port) h g a b same apart mine =
    let (proto, here) = key_parts (p, port) h mine in
    has-at_listen_port p port g.listen_port (proto_keys g.proto)
    ∙ (elim (Bool-cases (eqb g.listen_port port)) [
      | inl e ↦
          let there : h.listen_port ≡ g.listen_port =
            here ∙ sym ((eqb_iff g.listen_port port).0 e) in
          rw (protos_free h.proto g.proto p a b (apart (sym same) there) proto) refl
      | inr e ↦ ground (arith, e)
    ])

others-Free :
    (k : CounterKey) (h : HopRow) (gs : List HopRow)
    → HasStored h
    → All HasStored gs
    → All (λ g. g.node_id ≡ h.node_id) gs
    → All (Apart h) gs
    → IsKeyOf k h
    → All (Free k) gs
others-Free k h [] a stored same apart mine = tt
others-Free k h (g ∷ gs) a stored same apart mine = (
  key-Free k h g a stored.0 same.0 apart.0 mine,
  others-Free k h gs a stored.1 same.1 apart.1 mine,
)

hop_map-Listed :
    (k : CounterKey) (h : HopRow) (gs : List HopRow) (m : List (CounterKey × HopRow))
    → All HasStored gs
    → All (λ g. g.node_id ≡ h.node_id) gs
    → NoClash gs
    → Listed h gs
    → IsKeyOf k h
    → lookup k (hop_map gs m) ≡ some h
unfolding hop_map
hop_map-Listed k h [] m stored same apart listed mine = absurd listed
hop_map-Listed k h (g ∷ gs) m stored same apart (inr later) mine =
    hop_map-Listed k h gs _ stored.1 same.1 apart.1 later mine
hop_map-Listed k h (g ∷ gs) m stored same apart (inl here) mine =
    let a : HasStored h = subst HasStored here stored.0 in
    let others : All (Apart h) gs = subst (λ x. All (Apart x) gs) here apart.0 in
    let found : IsKeyOf k g = subst (IsKeyOf k) (sym here) mine in
    lookup-hop_map k gs _ (others-Free k h gs a stored.1 same.1 others mine)
    ∙ (lookup-insert_keys k (hop_counter_keys g.proto g.listen_port) g m
        ∙ rw found (ap (λ x. some x) here))

-- Of a consistent table, every row of a node is found under each of the keys that can carry its bytes:
-- no other row of the node takes one of them.
pub rule_hop_map_by_node-Listed :
    (hops : List HopRow) (h : HopRow) (k : CounterKey)
    → IsConsistent hops
    → Listed h hops
    → IsKeyOf k h
    → lookup k (rule_hop_map_by_node h.node_id hops) ≡ some h
unfolding rule_hop_map_by_node
rule_hop_map_by_node-Listed hops h k c listed mine =
    let f : HopRow → Bool = on_node h.node_id in
    let kept : List HopRow = filterb f hops in
    let here : All (λ g. g.node_id ≡ h.node_id) kept =
      All-filterb _ f (λ g e. ground (arith, e, eqb_iff g.node_id h.node_id)) hops in
    let mine_too : f h ≡ true = ground (arith, eqb_iff h.node_id h.node_id) in
    hop_map-Listed k h (sort_by_port kept) []
      (All-sort_by_port HasStored kept (All-filter HasStored f hops c.stored))
      (All-sort_by_port _ kept here) (NoClash-sort_by_port kept (NoClash-filter f hops c.no_clash))
      ((Listed-sort_by_port h kept).1 ((Listed-filterb f h hops).1 (listed, mine_too))) mine
