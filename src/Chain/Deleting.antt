-- ===== src/Chain/Deleting.antt =====
-- The deletions of internal/db/rules.go. ON DELETE CASCADE takes the hops of a deleted rule with it.
use nft.Base.{
  All, Bool, Bool-cases, List, [], arith, eqb, eqb_iff, false, filterb, has, if◌then◌else◌, inl,
  inr, nat_eq, none, not, pair_eq, refl, some, string_eq, true, ℕ, ◌&&◌, ◌||◌, ◌∷◌, ◌≡◌,
}
use nft.Chain.Linking.{All-map}
use nft.Chain.{HopRow, RelayRule, Store, nodes_of, of_rule}
use nft.Chain.Clashes.{All-filter, HasStored, NoClash-filter}
use nft.Chain.Resolving.{IsMode}
use nft.Chain.Writing.{IsConsistent}

-- SELECT DISTINCT, in an order of its own.
unfoldable distinct_of : List ℕ → List ℕ
distinct_of [] = []
distinct_of (n ∷ ns) = let rest = distinct_of ns in if has n rest then rest else n ∷ rest

unfoldable rule_ids : List HopRow → List ℕ
rule_ids [] = []
rule_ids (h ∷ hs) = h.rule_id ∷ rule_ids hs

abbrev pub in_rules : List ℕ → HopRow → Bool
in_rules ids h = has h.rule_id ids

unfoldable pub delete_rules : List ℕ → Store → Store
delete_rules ids store = record store {
  rules = filterb (λ r. not (has r.id ids)) store.rules;
  hops = filterb (λ h. not (in_rules ids h)) store.hops;
}

-- DeleteRule: the nodes of the rule's hops, and the tables without it.
unfoldable pub delete_rule : ℕ → Store → List ℕ × Store
unfolding distinct_of
delete_rule id store =
    (distinct_of (nodes_of (filterb (of_rule id) store.hops)), delete_rules (id ∷ []) store)

abbrev pub runs_through : ℕ → HopRow → Bool
runs_through node h = eqb h.node_id node || eqb h.via_node_id node

-- The rules with a hop that the test selects; without any, nothing is deleted.
unfoldable pub delete_selected : (HopRow → Bool) → (HopRow → Bool) → Store → List ℕ × Store
unfolding distinct_of rule_ids
delete_selected select told store =
    let ids = distinct_of (rule_ids (filterb select store.hops)) in
    (
      distinct_of (nodes_of (filterb (λ h. in_rules ids h && told h) store.hops)),
      delete_rules ids store,
    )

-- DeleteRulesUsingNode: the other nodes are told.
unfoldable pub delete_rules_using_node : ℕ → Store → List ℕ × Store
delete_rules_using_node node store =
    delete_selected (runs_through node) (λ h. not (eqb h.node_id node)) store

unfoldable pub owned_by : ℕ → ℕ → List RelayRule → Bool
owned_by user id [] = false
owned_by user id (r ∷ rs) =
    (eqb r.id id && (elim r.owner_id [ none ↦ false | some u ↦ eqb u user ])) || owned_by user id rs

-- DeleteRulesForUserNode: the user's rules that use the logical node.
unfoldable pub delete_rules_for_user_node : ℕ → ℕ → Store → List ℕ × Store
delete_rules_for_user_node user node store =
    delete_selected (λ h. owned_by user h.rule_id store.rules && eqb h.via_node_id node) (λ h. true)
      store

has-distinct_of : (n : ℕ) (ns : List ℕ) → has n (distinct_of ns) ≡ has n ns
unfolding distinct_of has
has-distinct_of n [] = refl
has-distinct_of n (m ∷ ns) = ground (arith, has-distinct_of n ns, has-distinct_of m ns, eqb_iff m n)

IsConsistent-filter :
    (f : HopRow → Bool) (hs : List HopRow) → IsConsistent hs → IsConsistent (filterb f hs)
IsConsistent-filter f hs c = record {
  stored = All-filter HasStored f hs c.stored;
  modes = All-filter (λ h. IsMode h.proto h.mode) f hs c.modes;
  no_clash = NoClash-filter f hs c.no_clash;
}

has-rule_ids :
    (n : ℕ) (select : HopRow → Bool) (h : HopRow) (hs : List HopRow)
    → has n (rule_ids (filterb select (h ∷ hs)))
      ≡ ((select h && eqb h.rule_id n) || has n (rule_ids (filterb select hs)))
unfolding rule_ids has
has-rule_ids n select h hs = ground arith

-- Every selected row belongs to a rule that is found.
abbrev IsCovered : (HopRow → Bool) → List HopRow → HopRow → Type 0
IsCovered select hs g = select g ≡ true → has g.rule_id (rule_ids (filterb select hs)) ≡ true

filterb-IsCovered : (select : HopRow → Bool) (hs : List HopRow) → All (IsCovered select hs) hs
filterb-IsCovered select [] = tt
filterb-IsCovered select (h ∷ hs) = (
  λ e. ground (arith, e, has-rule_ids h.rule_id select h hs, eqb_iff h.rule_id h.rule_id),
  All-map (IsCovered select hs) (IsCovered select (h ∷ hs)) hs
      (λ g f e. ground (arith, f e, has-rule_ids g.rule_id select h hs))
      (filterb-IsCovered select hs),
)

kept_clean :
    (P Q : HopRow → Type 0) (f : HopRow → Bool) (hs : List HopRow)
    → ((h : HopRow) → P h → f h ≡ true → Q h)
    → All P hs
    → All Q (filterb f hs)
kept_clean P Q f [] g p = tt
kept_clean P Q f (h ∷ hs) g p =
    (elim (f h)
        as (λ b. f h ≡ b → All Q (elim b [ true ↦ h ∷ filterb f hs | false ↦ filterb f hs ])) [
          | true ↦ λ e. (g h p.0 e, kept_clean P Q f hs g p.1)
          | false ↦ λ e. kept_clean P Q f hs g p.1
        ])
      refl

-- After a node's rules are deleted, no hop of any rule runs on it or belongs to its segment, and a
-- consistent table stays consistent.
pub delete_rules_using_node-IsConsistent :
    (node : ℕ) (store : Store)
    → IsConsistent store.hops
    → All (λ h. runs_through node h ≡ false) (delete_rules_using_node node store).1.hops
      × IsConsistent (delete_rules_using_node node store).1.hops
unfolding delete_rules_using_node delete_selected delete_rules
delete_rules_using_node-IsConsistent node store c =
    let ids : List ℕ = distinct_of (rule_ids (filterb (runs_through node) store.hops)) in
    (
      kept_clean (IsCovered (runs_through node) store.hops) (λ h. runs_through node h ≡ false)
          (λ h. not (in_rules ids h)) store.hops
          (λ h cov keep. elim (Bool-cases (runs_through node h)) [
            | inr apart ↦ apart
            | inl through ↦ ground (
              arith,
              cov through,
              keep,
              has-distinct_of h.rule_id (rule_ids (filterb (runs_through node) store.hops)),
            )
          ])
          (filterb-IsCovered (runs_through node) store.hops),
      IsConsistent-filter (λ h. not (in_rules ids h)) store.hops c,
    )
