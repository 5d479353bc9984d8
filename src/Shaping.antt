-- ===== src/Shaping.antt =====
-- The shaping of internal/tc/tc.go and the marks that RenderRuleset of internal/nft/nft.go sets. The
-- texts of fmt.Sprintf are parameters, and so is whether a tc command succeeds.
pub mod Planning
pub mod Classes
use Prim.Native.Nat.{bit_or, lt}
use Prim.Native.String.{compare}
use nft.Base.{
  Bool, List, Option, String, [], eqb, false, has, if◌then◌else◌, nat_eq, none, not, pair_eq, some,
  string_eq, true, ◌++◌, ◌==◌, ◌∷◌,
}
use nft.Base.Assoc.{insert, keys}
use nft.Base.Int.{int_eq, ltb_ℤ, pos, to_ℕ, ℤ}
use nft.Rule.{Rule, group_shape_mark}

-- "1:%x", "%dmbit" and "0x%x".
pub record Formats : Type 0 where
  pub class_id : ℤ → String
  pub rate : ℤ → String
  pub handle : ℤ → String

pub record ShapeClass : Type 0 where
  pub class_id : String
  pub rate : String
  pub handle : String

-- The mark that the rule's line in the prerouting chain sets: the group's, or else the port.
unfoldable pub rule_mark : Rule → Option ℤ
rule_mark r =
    if not (eqb (group_shape_mark r) 0)
    then some (pos (group_shape_mark r))
    else if ltb_ℤ (pos 0) r.bandwidth_mbps
    then some r.src_port
    else none

-- The maps `groups` and `legacy` of planClasses.
pub record Caps : Type 0 where
  pub groups : List (ℤ × ℤ)
  pub legacy : List (ℤ × ℤ)

unfoldable pub note_rule : Rule → Caps → Caps
note_rule r c =
    if not (eqb (group_shape_mark r) 0)
    then record c { groups = insert r.shape_group r.rate_mbytes c.groups }
    else if ltb_ℤ (pos 0) r.bandwidth_mbps
    then record c { legacy = insert r.src_port r.bandwidth_mbps c.legacy }
    else c

unfoldable pub note_rules : List Rule → Caps → Caps
note_rules [] c = c
note_rules (r ∷ rules) c = note_rules rules (note_rule r c)

-- string < string
abbrev pub text_less : String → String → Bool
text_less a b = elim (compare a b) [ lt ↦ true | _ ↦ false ]

unfoldable pub insert_class : ShapeClass → List ShapeClass → List ShapeClass
insert_class c [] = c ∷ []
insert_class c (d ∷ classes) =
    let rest = insert_class c classes in
    if text_less d.class_id c.class_id then d ∷ rest else c ∷ d ∷ classes

unfoldable pub sort_classes : List ShapeClass → List ShapeClass
sort_classes [] = []
sort_classes (c ∷ classes) = insert_class c (sort_classes classes)

module _ (fmt : Formats) where
  abbrev pub group_class : ℤ → ℤ → ShapeClass
  group_class sg mbps = record {
    class_id = fmt.class_id sg;
    rate = fmt.rate mbps;
    handle = fmt.handle (pos (bit_or 0x10000 (to_ℕ sg)));
  }

  unfoldable pub group_classes : List (ℤ × ℤ) → List ShapeClass
  group_classes [] = []
  group_classes ((sg, mbps) ∷ groups) = group_class sg mbps ∷ group_classes groups

  abbrev pub port_class : ℤ → ℤ → ShapeClass
  port_class port mbps = record {
    class_id = fmt.class_id port;
    rate = fmt.rate mbps;
    handle = fmt.handle port;
  }

  -- A port that is the id of a group gets no class of its own.
  unfoldable pub port_classes : List (ℤ × ℤ) → List (ℤ × ℤ) → List ShapeClass
  port_classes groups [] = []
  port_classes groups ((port, mbps) ∷ legacy) =
      let rest = port_classes groups legacy in
      if has port (keys groups) then rest else port_class port mbps ∷ rest

  abbrev pub no_caps : Caps
  no_caps = record { groups = []; legacy = [] }

  -- Go visits the maps in any order; the sort makes the plan the same.
  unfoldable pub plan_classes : List Rule → List ShapeClass
  plan_classes rules =
      let c = note_rules rules no_caps in
      sort_classes (group_classes c.groups ++ port_classes c.groups c.legacy)

-- The commands of Apply: the qdisc, its default class 1:1, and for each class the class and a filter for
-- either family.
pub data Command : Type 0 where
  delete_root add_root add_default : Command
  add_class : ShapeClass → Command
  add_filter : String → ShapeClass → Command

unfoldable pub class_commands : List ShapeClass → List Command
class_commands [] = []
class_commands (c ∷ classes) =
    add_class c ∷ add_filter "ip" c ∷ add_filter "ipv6" c ∷ class_commands classes

-- The first command that fails, after the commands that were run; none when all succeed.
unfoldable pub run_commands : (Command → Bool) → List Command → List Command × Option Command
run_commands succeeds [] = ([], none)
run_commands succeeds (c ∷ commands) =
    let rest = run_commands succeeds commands in
    if succeeds c then (c ∷ rest.0, rest.1) else (c ∷ [], some c)

unfoldable pub apply_classes : (Command → Bool) → List ShapeClass → List Command × Option Command
apply_classes succeeds [] = (delete_root ∷ [], none)
apply_classes succeeds (c ∷ classes) =
    let ran = run_commands succeeds (add_root ∷ add_default ∷ class_commands (c ∷ classes)) in
    (delete_root ∷ ran.0, ran.1)

-- Nothing is done without an interface.
unfoldable pub apply :
    Formats → (Command → Bool) → List Rule → String → List Command × Option Command
apply fmt succeeds rules iface =
    if iface == "" then ([], none) else apply_classes succeeds (plan_classes fmt rules)
