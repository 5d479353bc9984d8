-- ===== src/Dispatch/Whole.antt =====
-- The rows that are sent: as a set, in their order, and as whole chains.
use nft.Base.{
  Bool, List, [], arith, eqb_iff, false, filterb, if◌then◌else◌, leb, refl, subst, true, ℕ, ◌↔◌,
  ◌∷◌, ◌≡◌, ◌⊎◌,
}
use nft.Chain.{HopRow}
use nft.Dispatch.Pushing.{
  Tables, active_rule_hops_for_push, insert_by_port, is_live, is_sent, sort_by_port,
}

-- The row is one of the list.
abbrev pub Listed : HopRow → List HopRow → Type 0
Listed h [] = ⊥
Listed h (g ∷ gs) = (g ≡ h) ⊎ Listed h gs

Listed-insert_by_port :
    (h g : HopRow) (gs : List HopRow) → Listed h (insert_by_port g gs) ↔ ((g ≡ h) ⊎ Listed h gs)
unfolding insert_by_port
Listed-insert_by_port h g [] = (λ i. i, λ i. i)
Listed-insert_by_port h g (k ∷ ks) =
    elim (leb g.listen_port k.listen_port)
      as (λ b.
        Listed h (if b then g ∷ k ∷ ks else k ∷ insert_by_port g ks)
        ↔ ((g ≡ h) ⊎ ((k ≡ h) ⊎ Listed h ks))) [
          | true ↦ (λ i. i, λ i. i)
          | false ↦ ground (arith, Listed-insert_by_port h g ks)
        ]

pub Listed-sort_by_port : (h : HopRow) (gs : List HopRow) → Listed h (sort_by_port gs) ↔ Listed h gs
unfolding sort_by_port
Listed-sort_by_port h [] = (λ i. i, λ i. i)
Listed-sort_by_port h (g ∷ gs) =
    ground (arith, Listed-sort_by_port h gs, Listed-insert_by_port h g (sort_by_port gs))

pub Listed-filterb :
    (f : HopRow → Bool) (h : HopRow) (gs : List HopRow)
    → Listed h (filterb f gs) ↔ (Listed h gs × (f h ≡ true))
Listed-filterb f h [] = (λ i. absurd i, λ i. absurd i.0)
Listed-filterb f h (g ∷ gs) =
    elim (f g)
        as (λ b.
          f g ≡ b
          → Listed h (elim b [ true ↦ g ∷ filterb f gs | false ↦ filterb f gs ])
            ↔ (((g ≡ h) ⊎ Listed h gs) × (f h ≡ true))) [
              | true ↦ λ e. ground (arith, e, Listed-filterb f h gs)
              | false ↦ λ e. ground (arith, e, Listed-filterb f h gs)
            ]
      refl

-- A row is sent to a node exactly when it is a row of that node whose rule is live.
pub Listed-active_rule_hops :
    (now : ℕ) (t : Tables) (node : ℕ) (h : HopRow)
    → Listed h (active_rule_hops_for_push now t node)
      ↔ (Listed h t.hops × (is_sent now t node h ≡ true))
unfolding active_rule_hops_for_push
Listed-active_rule_hops now t node h = ground (
  arith,
  Listed-sort_by_port h (filterb (is_sent now t node) t.hops),
  Listed-filterb (is_sent now t node) h t.hops,
)

-- A chain is sent as a whole or not at all: of two rows of one rule, one is sent to its node exactly
-- when the other is sent to its own, whatever is disabled, expired or used up.
pub active_rule_hops-whole :
    (now : ℕ) (t : Tables) (g h : HopRow)
    → Listed g t.hops
    → Listed h t.hops
    → g.rule_id ≡ h.rule_id
    → Listed g (active_rule_hops_for_push now t g.node_id)
    → Listed h (active_rule_hops_for_push now t h.node_id)
active_rule_hops-whole now t g h gs hs same sent =
    let live : is_live now t g.rule_id ≡ true =
      ground (arith, (Listed-active_rule_hops now t g.node_id g).0 sent) in
    let also : is_live now t h.rule_id ≡ true = subst (λ id. is_live now t id ≡ true) same live in
    (Listed-active_rule_hops now t h.node_id h).1
      (hs, ground (arith, also, eqb_iff h.node_id h.node_id))
