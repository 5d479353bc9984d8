-- ===== src/Shaping/Planning.antt =====
-- The marks that the ruleset sets, and the classes that their filters lead to.
use Prim.Native.Nat.{bit_or}
use nft.Rule.{Rule, group_shape_mark}
use Prim.Native.Nat.{bit_or}
use nft.Base.{
  All, Bool, Bool-cases, List, [], arith, eqb, eqb_iff, false, has, if◌then◌else◌, inl, inr, nat_eq,
  pair_eq, refl, some, string_eq, test_refl, true, ◌&&◌, ◌++◌, ◌==◌, ◌||◌, ◌∙◌, ◌∷◌, ◌≡◌, ◌⊎◌,
}
use nft.Base.Assoc.{has-keys-insert, keys}
use nft.Base.Int.{eqb_ℤ, eqb_ℤ_iff, int_eq, ltb_ℤ, pos, to_ℕ, ℤ}
use nft.Shaping.{
  Caps, Formats, ShapeClass, group_classes, insert_class, no_caps, note_rule, note_rules,
  plan_classes, port_classes, rule_mark, sort_classes,
}

module _ (fmt : Formats) where
  -- A class with this identifier and this filter is planned.
  unfoldable pub planned : ℤ → ℤ → List ShapeClass → Bool
  planned id mark [] = false
  planned id mark (c ∷ classes) =
      (c.class_id == fmt.class_id id && c.handle == fmt.handle mark) || planned id mark classes

  planned-insert_class :
      (id mark : ℤ) (c : ShapeClass) (classes : List ShapeClass)
      → planned id mark (insert_class c classes) ≡ (
          (c.class_id == fmt.class_id id && c.handle == fmt.handle mark) || planned id mark classes)
  unfolding planned insert_class
  planned-insert_class id mark c [] = refl
  planned-insert_class id mark c (d ∷ classes) =
      ground (arith, planned-insert_class id mark c classes)

  planned-sort_classes :
      (id mark : ℤ) (classes : List ShapeClass)
      → planned id mark (sort_classes classes) ≡ planned id mark classes
  unfolding planned sort_classes
  planned-sort_classes id mark [] = refl
  planned-sort_classes id mark (c ∷ classes) =
      planned-insert_class id mark c (sort_classes classes)
      ∙ rw (planned-sort_classes id mark classes) refl

  planned-append :
      (id mark : ℤ) (cs ds : List ShapeClass)
      → planned id mark (cs ++ ds) ≡ (planned id mark cs || planned id mark ds)
  unfolding planned
  planned-append id mark [] ds = refl
  planned-append id mark (c ∷ cs) ds = ground (arith, planned-append id mark cs ds)

  planned-group_classes :
      (sg : ℤ) (groups : List (ℤ × ℤ))
      → has sg (keys groups) ≡ true
      → planned sg (pos (bit_or 0x10000 (to_ℕ sg))) (group_classes fmt groups) ≡ true
  unfolding planned group_classes has keys
  planned-group_classes sg [] h = cc h
  planned-group_classes sg ((g, mbps) ∷ groups) h = elim (Bool-cases (eqb_ℤ g sg)) [
    | inl here ↦
        let same : g ≡ sg = (eqb_ℤ_iff g sg).0 here in
        rw
          (
            same,
            test_refl (fmt.class_id sg),
            test_refl (fmt.handle (pos (bit_or 0x10000 (to_ℕ sg)))),
          )
          refl
    | inr later ↦ ground (arith, later, h, planned-group_classes sg groups)
  ]

  planned-port_classes :
      (port : ℤ) (groups legacy : List (ℤ × ℤ))
      → has port (keys legacy) ≡ true
      → has port (keys groups) ≡ false
      → planned port port (port_classes fmt groups legacy) ≡ true
  unfolding planned port_classes has keys
  planned-port_classes port groups [] h free = cc h
  planned-port_classes port groups ((p, mbps) ∷ legacy) h free = elim (Bool-cases (eqb_ℤ p port)) [
    | inl here ↦
        let same : p ≡ port = (eqb_ℤ_iff p port).0 here in
        rw same (ground (arith, free, test_refl (fmt.class_id port), test_refl (fmt.handle port)))
    | inr later ↦ ground (arith, later, h, free, planned-port_classes port groups legacy)
  ]

  keeps_note_rule :
      (k : ℤ) (r : Rule) (c : Caps)
      → (has k (keys c.groups) ≡ true → has k (keys (note_rule r c).groups) ≡ true)
        × (has k (keys c.legacy) ≡ true → has k (keys (note_rule r c).legacy) ≡ true)
  unfolding note_rule
  keeps_note_rule k r c = (
    λ h. ground (arith, h, has-keys-insert r.shape_group k r.rate_mbytes c.groups),
    λ h. ground (arith, h, has-keys-insert r.src_port k r.bandwidth_mbps c.legacy),
  )

  keeps_note_rules :
      (k : ℤ) (rules : List Rule) (c : Caps)
      → (has k (keys c.groups) ≡ true → has k (keys (note_rules rules c).groups) ≡ true)
        × (has k (keys c.legacy) ≡ true → has k (keys (note_rules rules c).legacy) ≡ true)
  unfolding note_rules
  keeps_note_rules k [] c = (λ h. h, λ h. h)
  keeps_note_rules k (r ∷ rules) c =
      let step = keeps_note_rule k r c in
      let rest = keeps_note_rules k rules (note_rule r c) in
      (λ h. rest.0 (step.0 h), λ h. rest.1 (step.1 h))

  -- A rule with a group mark is in `groups`, any other rule with a cap is in `legacy`.
  abbrev Noted : Caps → Rule → Type 0
  Noted c r =
      (eqb (group_shape_mark r) 0 ≡ false → has r.shape_group (keys c.groups) ≡ true)
      × (eqb (group_shape_mark r) 0 ≡ true
          → ltb_ℤ (pos 0) r.bandwidth_mbps ≡ true
          → has r.src_port (keys c.legacy) ≡ true)

  note_rule-Noted : (r : Rule) (c : Caps) → Noted (note_rule r c) r
  unfolding note_rule
  note_rule-Noted r c = (
    λ marked. ground (
      arith,
      marked,
      has-keys-insert r.shape_group r.shape_group r.rate_mbytes c.groups,
      eqb_ℤ_iff r.shape_group r.shape_group,
    ),
    λ plain capped. ground (
      arith,
      plain,
      capped,
      has-keys-insert r.src_port r.src_port r.bandwidth_mbps c.legacy,
      eqb_ℤ_iff r.src_port r.src_port,
    ),
  )

  note_rules-Noted : (rules : List Rule) (c : Caps) → All (Noted (note_rules rules c)) rules
  unfolding note_rules
  note_rules-Noted [] c = tt
  note_rules-Noted (r ∷ rules) c =
      let own = note_rule-Noted r c in
      (
        (
          λ marked. (keeps_note_rules r.shape_group rules (note_rule r c)).0 (own.0 marked),
          λ plain capped.
              (keeps_note_rules r.src_port rules (note_rule r c)).1 (own.1 plain capped),
        ),
        note_rules-Noted rules (note_rule r c),
      )

  -- The class of the rule's group, or of its port.
  abbrev pub class_number : Rule → ℤ
  class_number r = if eqb (group_shape_mark r) 0 then r.src_port else r.shape_group

  abbrev pub group_ids : List Rule → List ℤ
  group_ids rules = keys (note_rules rules (no_caps fmt)).groups

  -- The mark of the rule leads to the class of its group or port, but that of a port which is a group's id.
  abbrev pub IsLed : List Rule → Rule → Type 0
  IsLed rules r =
      (m : ℤ)
      → rule_mark r ≡ some m
      → ((group_shape_mark r ≡ 0) × (has r.src_port (group_ids rules) ≡ true))
        ⊎ (planned (class_number r) m (plan_classes fmt rules) ≡ true)

  group_mark :
      (r : Rule)
      → eqb (group_shape_mark r) 0 ≡ false
      → group_shape_mark r ≡ bit_or 0x10000 (to_ℕ r.shape_group)
  unfolding group_shape_mark
  group_mark r marked = ground (arith, marked)

  either :
      (id m : ℤ) (rules : List Rule)
      → let c = note_rules rules (no_caps fmt) in
        (planned id m (group_classes fmt c.groups) ≡ true)
          ⊎ (planned id m (port_classes fmt c.groups c.legacy) ≡ true)
        → planned id m (plan_classes fmt rules) ≡ true
  unfolding plan_classes
  either id m rules h =
      let c = note_rules rules (no_caps fmt) in
      planned-sort_classes id m (group_classes fmt c.groups ++ port_classes fmt c.groups c.legacy)
      ∙ (planned-append id m (group_classes fmt c.groups) (port_classes fmt c.groups c.legacy)
          ∙ ground (arith, h))

  port_mark :
      (r : Rule) (m : ℤ)
      → eqb (group_shape_mark r) 0 ≡ true
      → rule_mark r ≡ some m
      → (ltb_ℤ (pos 0) r.bandwidth_mbps ≡ true) × (m ≡ r.src_port)
  unfolding rule_mark
  port_mark r m plain e = ground (arith, plain, e)

  own_mark :
      (r : Rule) (m : ℤ)
      → eqb (group_shape_mark r) 0 ≡ false
      → rule_mark r ≡ some m
      → m ≡ pos (bit_or 0x10000 (to_ℕ r.shape_group))
  unfolding rule_mark
  own_mark r m marked e = let whole = group_mark r marked in cc (rw (marked, whole) at e)

  rule-IsLed :
      (rules : List Rule) (r : Rule) → Noted (note_rules rules (no_caps fmt)) r → IsLed rules r
  rule-IsLed rules r noted m e = elim (Bool-cases (eqb (group_shape_mark r) 0)) [
    | inl plain ↦
        let (capped, same) = port_mark r m plain e in
        elim (Bool-cases (has r.src_port (group_ids rules))) [
          | inl taken ↦ inl ((eqb_iff (group_shape_mark r) 0).0 plain, taken)
          | inr free ↦ inr (
              rw (plain, same)
                (either r.src_port r.src_port rules
                  (inr (planned-port_classes r.src_port _ _ (noted.1 plain capped) free))))
        ]
    | inr marked ↦
        let same = own_mark r m marked e in
        inr (
          rw (marked, same)
            (either r.shape_group _ rules
              (inl (planned-group_classes r.shape_group _ (noted.0 marked)))))
  ]

  rules-IsLed :
      (rules rest : List Rule)
      → All (Noted (note_rules rules (no_caps fmt))) rest
      → All (IsLed rules) rest
  rules-IsLed rules [] noted = tt
  rules-IsLed rules (r ∷ rest) noted = (rule-IsLed rules r noted.0, rules-IsLed rules rest noted.1)

  -- For every rule that the ruleset marks, a class with a filter for that mark is planned under the number
  -- of the rule's group, or of its port when it has no group mark; but for a port that is the id of a group.
  pub plan_classes-IsLed : (rules : List Rule) → All (IsLed rules) rules
  plan_classes-IsLed rules = rules-IsLed rules rules (note_rules-Noted rules (no_caps fmt))
