-- ===== src/Shaping/Classes.antt =====
-- The identifiers of the planned classes.

use nft.Base.{
  Bool-cases, List, String, [], arith, distinct, distinct-cons, eq_iff, false, has, inl, inr, map,
  nat_eq, not, pair_eq, refl, string_eq, subst, test_refl, true, ◌&&◌, ◌++◌, ◌==◌, ◌||◌, ◌∙◌, ◌∷◌,
  ◌≡◌,
}
use nft.Base.Assoc.{distinct-keys-insert, keys}
use nft.Base.Int.{eqb_ℤ, eqb_ℤ_iff, int_eq, ℤ}
use nft.Rule.{Rule}
use nft.Shaping.{
  Caps, Formats, ShapeClass, group_classes, insert_class, no_caps, note_rule, note_rules,
  plan_classes, port_classes, sort_classes,
}

abbrev pub ids : List ShapeClass → List String
ids classes = map (λ c. c.class_id) classes

has-insert_class :
    (x : String) (c : ShapeClass) (classes : List ShapeClass)
    → has x (ids (insert_class c classes)) ≡ (c.class_id == x || has x (ids classes))
unfolding insert_class has
has-insert_class x c [] = refl
has-insert_class x c (d ∷ classes) = ground (arith, has-insert_class x c classes)

has-sort_classes :
    (x : String) (classes : List ShapeClass)
    → has x (ids (sort_classes classes)) ≡ has x (ids classes)
unfolding sort_classes has
has-sort_classes x [] = refl
has-sort_classes x (c ∷ classes) =
    has-insert_class x c (sort_classes classes) ∙ rw (has-sort_classes x classes) refl

distinct-insert_class :
    (c : ShapeClass) (classes : List ShapeClass)
    → has c.class_id (ids classes) ≡ false
    → distinct (ids classes) ≡ true
    → distinct (ids (insert_class c classes)) ≡ true
unfolding insert_class has distinct
distinct-insert_class c [] h d = refl
distinct-insert_class c (e ∷ classes) h d = ground (
  arith,
  distinct-insert_class c classes,
  has-insert_class e.class_id c classes,
  eq_iff e.class_id c.class_id,
  eq_iff c.class_id e.class_id,
)

distinct-sort_classes :
    (classes : List ShapeClass)
    → distinct (ids classes) ≡ true
    → distinct (ids (sort_classes classes)) ≡ true
unfolding sort_classes
distinct-sort_classes [] d = d
distinct-sort_classes (c ∷ classes) d =
    let (new, rest) = distinct-cons c.class_id (ids classes) d in
    distinct-insert_class c (sort_classes classes) (has-sort_classes c.class_id classes ∙ new)
      (distinct-sort_classes classes rest)

has-ids :
    (x : String) (cs ds : List ShapeClass)
    → has x (ids (cs ++ ds)) ≡ (has x (ids cs) || has x (ids ds))
unfolding has
has-ids x [] ds = refl
has-ids x (c ∷ cs) ds = ground (arith, has-ids x cs ds)

-- Maps with each key once.
abbrev pub AreMaps : Caps → Type 0
AreMaps c = (distinct (keys c.groups) ≡ true) × (distinct (keys c.legacy) ≡ true)

note_rule-AreMaps : (r : Rule) (c : Caps) → AreMaps c → AreMaps (note_rule r c)
unfolding note_rule
note_rule-AreMaps r c h = ground (
  arith,
  h,
  distinct-keys-insert r.shape_group r.rate_mbytes c.groups,
  distinct-keys-insert r.src_port r.bandwidth_mbps c.legacy,
)

note_rules-AreMaps : (rules : List Rule) (c : Caps) → AreMaps c → AreMaps (note_rules rules c)
unfolding note_rules
note_rules-AreMaps [] c h = h
note_rules-AreMaps (r ∷ rules) c h =
    note_rules-AreMaps rules (note_rule r c) (note_rule-AreMaps r c h)

module _ (fmt : Formats) (injective : (a b : ℤ) → fmt.class_id a ≡ fmt.class_id b → a ≡ b) where
  same_id : (a b : ℤ) → (fmt.class_id a == fmt.class_id b) ≡ eqb_ℤ a b
  same_id a b = elim (Bool-cases (eqb_ℤ a b)) [
    | inl same ↦
        let e : a ≡ b = (eqb_ℤ_iff a b).0 same in
        rw same
          (subst (λ x. (fmt.class_id a == fmt.class_id x) ≡ true) e (test_refl (fmt.class_id a)))
    | inr other ↦
        ground
          (arith, other, eq_iff (fmt.class_id a) (fmt.class_id b), injective a b, eqb_ℤ_iff a b)
  ]

  has-group_classes :
      (a : ℤ) (groups : List (ℤ × ℤ))
      → has (fmt.class_id a) (ids (group_classes fmt groups)) ≡ has a (keys groups)
  unfolding group_classes has keys
  has-group_classes a [] = refl
  has-group_classes a ((sg, mbps) ∷ groups) = rw (same_id sg a, has-group_classes a groups) refl

  distinct-group_classes :
      (groups : List (ℤ × ℤ))
      → distinct (keys groups) ≡ true
      → distinct (ids (group_classes fmt groups)) ≡ true
  unfolding group_classes keys distinct
  distinct-group_classes [] d = refl
  distinct-group_classes ((sg, mbps) ∷ groups) d =
      ground (arith, d, has-group_classes sg groups, distinct-group_classes groups)

  has-port_classes :
      (groups : List (ℤ × ℤ)) (a : ℤ) (legacy : List (ℤ × ℤ))
      → has (fmt.class_id a) (ids (port_classes fmt groups legacy))
        ≡ (has a (keys legacy) && not (has a (keys groups)))
  unfolding port_classes has keys
  has-port_classes groups a [] = refl
  has-port_classes groups a ((port, mbps) ∷ legacy) =
      ground (arith, same_id port a, has-port_classes groups a legacy, eqb_ℤ_iff port a)

  -- The groups' classes, then the ports' that are no group's.
  distinct-port_classes :
      (groups legacy : List (ℤ × ℤ))
      → distinct (keys legacy) ≡ true
      → distinct (ids (port_classes fmt groups legacy)) ≡ true
  unfolding port_classes keys distinct
  distinct-port_classes groups [] d = refl
  distinct-port_classes groups ((port, mbps) ∷ legacy) d =
      ground (arith, d, has-port_classes groups port legacy, distinct-port_classes groups legacy)

  distinct-groups_then :
      (groups : List (ℤ × ℤ)) (rest : List ShapeClass)
      → distinct (keys groups) ≡ true
      → distinct (ids rest) ≡ true
      → ((a : ℤ) → has a (keys groups) ≡ true → has (fmt.class_id a) (ids rest) ≡ false)
      → distinct (ids (group_classes fmt groups ++ rest)) ≡ true
  unfolding group_classes keys distinct
  distinct-groups_then [] rest d e apart = e
  distinct-groups_then ((sg, mbps) ∷ groups) rest d e apart =
      let (new, later) = distinct-cons sg (keys groups) d in
      let own : has sg (keys ((sg, mbps) ∷ groups)) ≡ true = unfold has in rw (test_refl sg) refl in
      let free : has (fmt.class_id sg) (ids (group_classes fmt groups ++ rest)) ≡ false =
        has-ids (fmt.class_id sg) (group_classes fmt groups) rest
        ∙ rw (has-group_classes sg groups, new, apart sg own) refl in
      ground (
        arith,
        free,
        distinct-groups_then groups rest later e
            (λ a listed. apart a (unfold has in ground (arith, listed))),
      )

  -- No two planned classes have the same identifier, when the printed identifiers of two numbers differ.
  pub distinct-plan_classes : (rules : List Rule) → distinct (ids (plan_classes fmt rules)) ≡ true
  unfolding plan_classes
  distinct-plan_classes rules =
      let c = note_rules rules (no_caps fmt) in
      let maps = note_rules-AreMaps rules (no_caps fmt) (unfold keys distinct in (refl, refl)) in
      distinct-sort_classes _ (
        distinct-groups_then c.groups (port_classes fmt c.groups c.legacy) maps.0
          (distinct-port_classes c.groups c.legacy maps.1)
          (λ a listed. has-port_classes c.groups a c.legacy ∙ ground (arith, listed)))
