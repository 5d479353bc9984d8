-- ===== src/Tests/Shaping.antt =====
-- Three rules: two of group 7, and one with a cap of its own.
use nft.Base.Assoc.{insert, keys}
use nft.Base.{
  All, List, String, [], ap, arith, distinct, has, if◌then◌else◌, length, map, nat_eq, pair_eq,
  refl, string_eq, suc, sym, true, zero, ℕ, ◌+◌, ◌∙◌, ◌∷◌, ◌≡◌,
}
use nft.Base.Int.{int_eq, ltb_ℤ, negsuc, pos, ℤ}
use nft.Rule.{Rule, codes, group_shape_mark}
use nft.Shaping.{
  Formats, group_classes, insert_class, note_rule, note_rules, plan_classes, port_classes,
  sort_classes,
}
use nft.Shaping.Planning.{IsLed, plan_classes-IsLed}
use nft.Shaping.Classes.{distinct-plan_classes, ids}
use nft.Tests.Inputs.{web_rule}

-- A numeral of bars in place of hexadecimal digits.
abbrev bars : ℕ → String
bars zero = String.[]
bars (suc n) = String.◌∷◌ "x" (bars n)

abbrev numeral : ℤ → String
numeral (pos n) = bars (n + n)
numeral (negsuc n) = bars (suc (n + n))

length-bars : (n : ℕ) → length (codes (bars n)) ≡ n
length-bars zero = refl
length-bars (suc n) = omega (arith, length-bars n)

bars-inj : (m n : ℕ) → bars m ≡ bars n → m ≡ n
bars-inj m n e = sym (length-bars m) ∙ (ap (λ s. length (codes s)) e ∙ length-bars n)

numeral-inj : (a b : ℤ) → numeral a ≡ numeral b → a ≡ b
numeral-inj (pos m) (pos n) e = ap pos (omega (arith, bars-inj (m + m) (n + n) e))
numeral-inj (pos m) (negsuc n) e = absurd (omega (arith, bars-inj (m + m) (suc (n + n)) e))
numeral-inj (negsuc m) (pos n) e = absurd (omega (arith, bars-inj (suc (m + m)) (n + n) e))
numeral-inj (negsuc m) (negsuc n) e =
    ap negsuc (omega (arith, bars-inj (suc (m + m)) (suc (n + n)) e))

abbrev test_formats : Formats
test_formats = record {
  class_id = numeral;
  rate = numeral;
  handle = λ z. if ltb_ℤ (pos 0xffff) z then "group" else numeral z;
}

abbrev capped_rule : Rule
capped_rule = record web_rule {
  src_port = pos 9;
  shape_group = pos 0;
  rate_mbytes = pos 0;
  bandwidth_mbps = pos 30;
}

abbrev shaped_rules : List Rule
shaped_rules =
    web_rule ∷ capped_rule ∷ record web_rule { src_port = pos 8444; rate_mbytes = pos 25 } ∷ []

-- The group takes the rate of its last rule.
plans_two :
    map (λ c. c.rate) (plan_classes test_formats shaped_rules)
    ≡ numeral (pos 25) ∷ numeral (pos 30) ∷ []
unfolding plan_classes note_rules note_rule group_shape_mark group_classes port_classes sort_classes
    insert_class has insert keys
plans_two = refl

no_id_twice : distinct (ids (plan_classes test_formats shaped_rules)) ≡ true
no_id_twice = distinct-plan_classes test_formats numeral-inj shaped_rules

plan_classes-IsLed_example : All (IsLed test_formats shaped_rules) shaped_rules
plan_classes-IsLed_example = plan_classes-IsLed test_formats shaped_rules
