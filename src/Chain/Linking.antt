-- ===== src/Chain/Linking.antt =====
-- The chain that `RegenerateRule` writes hangs together.
use mathlib.Core.List.{append-nil}
use nft.Chain.Tables.{HopRow, NodeRow, RelayRule, Store, nodes_of, of_rule, without_rule}
use nft.Base.{
  All, Bool, Bool-cases, List, String, [], all, ap, arith, eqb_iff, false, filterb, if◌then◌else◌,
  inl, inr, map, ok, ok_of_bind, refl, subst, sym, true, ℕ, ◌++◌, ◌+◌, ◌∙◌, ◌∷◌, ◌≡◌, ◌≢◌,
}
use nft.Chain.Assigning.{IsDraw}
use nft.Chain.Resolving.{resolve_hops-IsChain}
use nft.Chain.Answering.{
  AnswersAt, IsResolved, IsResolved-AnswersAt, place_chain-IsResolved, resolve_hops-IsResolved,
}
use nft.Chain.Writing.{hop_rows-fields, kept-other, nodes_of-hop_rows}
use nft.Ports.Namespaces.{IsStored}
use nft.Chain.Regenerating.{kept, place_chain-IsPlaced}
use nft.Chain.{
  Address, Env, HopInput, HopRow, NodeRow, Placed, RelayRule, Store, hop_row, hop_rows, nodes_of,
  of_rule, place_chain, prev_comments, regenerate_rule, resolve_hops, target_of, without_rule,
  write_chain,
}

-- Each hop forwards to an address of the node of the next one and to the port on which that listens, and
-- the last to the rule's exit; the positions count up from `i`.
abbrev pub IsLinked : List NodeRow → RelayRule → ℕ → List HopRow → Type 0
IsLinked nodes r i [] = Unit
IsLinked nodes r i (h ∷ []) =
    (h.position ≡ i) × (h.target_host ≡ r.exit_host) × (h.target_port ≡ r.exit_port)
IsLinked nodes r i (h ∷ g ∷ rest) =
    (h.position ≡ i)
    × AnswersAt nodes g.node_id h.target_host
    × (h.target_port ≡ g.listen_port)
    × IsLinked nodes r (i + 1) (g ∷ rest)

module _ (label : String → ℕ → String) (nodes : List NodeRow) (r : RelayRule)
    (comments : List (ℕ × String)) where
  pub hop_rows-IsLinked :
      (i : ℕ) (placed : List Placed)
      → All (λ p. IsResolved nodes p.0) placed
      → IsLinked nodes r i (hop_rows label r comments i placed)
  unfolding hop_rows hop_row target_of
  hop_rows-IsLinked i [] all = tt
  hop_rows-IsLinked i (p ∷ []) all = (refl, refl, refl)
  hop_rows-IsLinked i (p ∷ q ∷ later) all = (
    refl,
    IsResolved-AnswersAt nodes r q later all.1.0,
    refl,
    hop_rows-IsLinked (i + 1) (q ∷ later) all.1,
  )

filterb_step :
    (f : HopRow → Bool) (h : HopRow) (hs : List HopRow) (b : Bool)
    → f h ≡ b
    → filterb f (h ∷ hs) ≡ (if b then h ∷ filterb f hs else filterb f hs)
filterb_step f h hs true e = ap (λ b. elim b [ true ↦ h ∷ filterb f hs | false ↦ filterb f hs ]) e
filterb_step f h hs false e = ap (λ b. elim b [ true ↦ h ∷ filterb f hs | false ↦ filterb f hs ]) e

filterb-All : (f : HopRow → Bool) (hs : List HopRow) → All (λ h. f h ≡ true) hs → filterb f hs ≡ hs
filterb-All f [] p = refl
filterb-All f (h ∷ hs) p = filterb_step f h hs true p.0 ∙ ap (λ l. h ∷ l) (filterb-All f hs p.1)

filterb-none :
    (f : HopRow → Bool) (hs : List HopRow) → All (λ h. f h ≡ false) hs → filterb f hs ≡ []
filterb-none f [] p = refl
filterb-none f (h ∷ hs) p = filterb_step f h hs false p.0 ∙ filterb-none f hs p.1

filterb-append :
    (f : HopRow → Bool) (gs hs : List HopRow) → filterb f (gs ++ hs) ≡ filterb f gs ++ filterb f hs
filterb-append f [] hs = refl
filterb-append f (g ∷ gs) hs = elim (Bool-cases (f g)) [
  | inl keep ↦
      filterb_step f g (gs ++ hs) true keep
      ∙ ap (λ l. g ∷ l) (filterb-append f gs hs)
      ∙ sym (ap (λ l. l ++ filterb f hs) (filterb_step f g gs true keep))
  | inr drop ↦
      filterb_step f g (gs ++ hs) false drop
      ∙ filterb-append f gs hs
      ∙ sym (ap (λ l. l ++ filterb f hs) (filterb_step f g gs false drop))
]

pub All-map :
    (P Q : HopRow → Type 0) (hs : List HopRow) → ((h : HopRow) → P h → Q h) → All P hs → All Q hs
All-map P Q [] f p = tt
All-map P Q (h ∷ hs) f p = (f h p.0, All-map P Q hs f p.1)

-- Of the rows kept and the rows written, those of the rule are the rows written.
of_rule-written :
    (id : ℕ) (kept rows : List HopRow)
    → All (λ h. h.rule_id ≢ id) kept
    → All (λ h. h.rule_id ≡ id) rows
    → filterb (of_rule id) (kept ++ rows) ≡ rows
of_rule-written id kept rows other own =
    filterb-append (of_rule id) kept rows
    ∙ ap (λ l. l ++ filterb (of_rule id) rows)
        (filterb-none (of_rule id) kept
          (All-map _ _ kept (λ h ne. ground (arith, ne, eqb_iff h.rule_id id)) other))
    ∙ filterb-All (of_rule id) rows
        (All-map _ _ rows (λ h e. ground (arith, e, eqb_iff h.rule_id id)) own)

without_rule-written :
    (id : ℕ) (kept rows : List HopRow)
    → All (λ h. h.rule_id ≢ id) kept
    → All (λ h. h.rule_id ≡ id) rows
    → filterb (without_rule id) (kept ++ rows) ≡ kept
without_rule-written id kept rows other own =
    filterb-append (without_rule id) kept rows
    ∙ (ap (λ l. filterb (without_rule id) kept ++ l)
          (filterb-none (without_rule id) rows
            (All-map _ _ rows (λ h e. ground (arith, e, eqb_iff h.rule_id id)) own))
        ∙ (append-nil _
            ∙ filterb-All (without_rule id) kept
                (All-map _ _ kept (λ h ne. ground (arith, ne, eqb_iff h.rule_id id)) other)))

module _ {ℓ} {Ip : Type ℓ} (env : Env Ip) (store : Store) (r : RelayRule)
    (avoid : List (ℕ × ℕ)) where
  -- A regenerated rule is one chain through the given nodes in the given order, from the entry at
  -- position 0 to the rule's exit, each hop forwarding to an address of the next node, IPv4 where that has
  -- one, and to the port on which the next hop listens; the hops of all other rules are untouched. The rule's protocol is a known one, and the random offsets
  -- are below their bounds.
  pub regenerate_rule-IsLinked :
      (hops : List HopInput) (out : Store × (Address × Address) × List ℕ)
      → IsDraw env.intn
      → IsStored r.proto
      → regenerate_rule env store r hops avoid ≡ ok out
      → (nodes_of (filterb (of_rule r.id) out.0.hops) ≡ map (λ h. h.node_id) hops)
        × IsLinked store.nodes r 0 (filterb (of_rule r.id) out.0.hops)
        × (filterb (without_rule r.id) out.0.hops ≡ filterb (without_rule r.id) store.hops)
  unfolding regenerate_rule write_chain
  regenerate_rule-IsLinked hops out draw good e =
      let (rs, resolved, tail) = ok_of_bind _ (resolve_hops store r [] hops) e in
      let (chain, placed, last) = ok_of_bind _ (place_chain env store r avoid rs) tail in
      let same : write_chain env store r chain.0 chain.1 ≡ out = cc last in
      let (ready, free, nodes, once) =
        place_chain-IsPlaced env store r avoid hops rs chain draw
          (resolve_hops-IsChain store r [] hops rs resolved) placed in
      let known =
        place_chain-IsResolved env store r avoid hops rs chain draw
          (resolve_hops-IsChain store r [] hops rs resolved)
          (resolve_hops-IsResolved store r [] hops rs resolved) placed in
      let comments : List (ℕ × String) = prev_comments (filterb (of_rule r.id) store.hops) [] in
      let rows : List HopRow = hop_rows env.hop_label r comments 0 chain.1 in
      let (stored, modes, own) = hop_rows-fields env.hop_label r comments 0 chain.1 good ready in
      let written =
        of_rule-written r.id (filterb (without_rule r.id) store.hops) rows
          (kept-other r.id store.hops) own in
      subst
        (λ o.
          (nodes_of (filterb (of_rule r.id) o.0.hops) ≡ map (λ h. h.node_id) hops)
          × IsLinked store.nodes r 0 (filterb (of_rule r.id) o.0.hops)
          × (filterb (without_rule r.id) o.0.hops ≡ filterb (without_rule r.id) store.hops))
        same
        (
          ap nodes_of written ∙ (nodes_of-hop_rows env.hop_label r comments 0 chain.1 ∙ nodes),
          subst (IsLinked store.nodes r 0) (sym written)
              (hop_rows-IsLinked env.hop_label store.nodes r comments 0 chain.1 known),
          without_rule-written r.id (filterb (without_rule r.id) store.hops) rows
              (kept-other r.id store.hops) own,
        )
