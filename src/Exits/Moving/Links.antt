-- ===== src/Exits/Moving/Links.antt =====
-- PropagateRepoExitChange keeps the chains of the rules linked.
use nft.Base.{
  All, All-filterb, Bool-cases, List, [], arith, eqb_iff, false, filterb, inl, inr, map, refl, true,
  ℕ, ◌+◌, ◌||◌, ◌∙◌, ◌∷◌, ◌≡◌, ◌≤◌,
}
use nft.Chain.{HopRow, RelayRule, of_rule}
use nft.Exits.Moving.{
  RepoChange, Tables, is_empty_key, is_last_hop, moved_hop, moved_rule, moves,
  propagate_repo_exit_change,
}

-- Each hop forwards to the port on which the next one listens, and the last to the rule's exit; the
-- positions count up from `i`.
abbrev pub IsLinked : RelayRule → ℕ → List HopRow → Type 0
IsLinked r i [] = Unit
IsLinked r i (h ∷ []) =
    (h.position ≡ i) × (h.target_host ≡ r.exit_host) × (h.target_port ≡ r.exit_port)
IsLinked r i (h ∷ g ∷ rest) =
    (h.position ≡ i) × (h.target_port ≡ g.listen_port) × IsLinked r (i + 1) (g ∷ rest)

filterb-map :
    (id : ℕ) (f : HopRow → HopRow) (hops : List HopRow)
    → ((h : HopRow) → (f h).rule_id ≡ h.rule_id)
    → filterb (of_rule id) (map f hops) ≡ map f (filterb (of_rule id) hops)
filterb-map id f [] same = refl
filterb-map id f (h ∷ hops) same = ground (arith, same h, filterb-map id f hops same)

is_last_hop-filterb :
    (hops : List HopRow) (h : HopRow)
    → is_last_hop hops h ≡ is_last_hop (filterb (of_rule h.rule_id) hops) h
unfolding is_last_hop
is_last_hop-filterb [] h = refl
is_last_hop-filterb (g ∷ hops) h = ground (arith, is_last_hop-filterb hops h)

IsLinked-position :
    (r : RelayRule) (i : ℕ) (h : HopRow) (hs : List HopRow) → IsLinked r i (h ∷ hs) → h.position ≡ i
IsLinked-position r i h [] linked = linked.0
IsLinked-position r i h (g ∷ hs) linked = linked.0

module _ (c : RepoChange) (hops : List HopRow) (r : RelayRule) where
  moved_hop-rule : (h : HopRow) → (moved_hop c hops h).rule_id ≡ h.rule_id
  moved_hop-rule h = ground arith

  -- Only the hops of `hs` matter for the hops of the rule from position `i` on.
  abbrev OnlyLater : ℕ → List HopRow → Type 0
  OnlyLater i hs =
      (h : HopRow) → h.rule_id ≡ r.id → i ≤ h.position → is_last_hop hops h ≡ is_last_hop hs h

  later-OnlyLater :
      (i : ℕ) (h : HopRow) (hs : List HopRow)
      → h.position ≡ i
      → OnlyLater i (h ∷ hs)
      → OnlyLater (i + 1) hs
  unfolding is_last_hop
  later-OnlyLater i h hs here only g own le = only g own (omega arith) ∙ ground (arith, here)

  last_moves :
      (h : HopRow)
      → is_last_hop hops h ≡ true
      → h.target_host ≡ r.exit_host
      → h.target_port ≡ r.exit_port
      → ((moved_hop c hops h).target_host ≡ (moved_rule c r).exit_host)
        × ((moved_hop c hops h).target_port ≡ (moved_rule c r).exit_port)
  last_moves h last host port = ground (arith, last, host, port)

  moved-IsLinked :
      (i : ℕ) (hs : List HopRow)
      → OnlyLater i hs
      → All (λ h. h.rule_id ≡ r.id) hs
      → IsLinked r i hs
      → IsLinked (moved_rule c r) i (map (moved_hop c hops) hs)
  unfolding is_last_hop
  moved-IsLinked i [] only own linked = tt
  moved-IsLinked i (h ∷ []) only own linked =
      let last : is_last_hop hops h ≡ true =
        only h own.0 (omega (arith, linked.0)) ∙ ground arith in
      let ends = last_moves h last linked.1 linked.2 in (ground (arith, linked.0), ends.0, ends.1)
  moved-IsLinked i (h ∷ g ∷ rest) only own linked =
      let next = IsLinked-position r (i + 1) g rest linked.2 in
      let inner : is_last_hop hops h ≡ false =
        only h own.0 (omega (arith, linked.0)) ∙ ground (arith, own.0, own.1.0, linked.0, next) in
      (
        ground (arith, linked.0),
        ground (arith, inner, linked.1),
        moved-IsLinked (i + 1) (g ∷ rest) (later-OnlyLater i h (g ∷ rest) linked.0 only) own.1
            linked.2,
      )

-- The hops of each rule are linked, up to the rule's exit.
abbrev pub LinkedRules : Tables → Type 0
LinkedRules t = All (λ r. IsLinked r 0 (filterb (of_rule r.id) t.hops)) t.rules

moved_hops-IsLinked :
    (c : RepoChange) (hops : List HopRow) (r : RelayRule)
    → IsLinked r 0 (filterb (of_rule r.id) hops)
    → IsLinked (moved_rule c r) 0 (filterb (of_rule r.id) (map (moved_hop c hops) hops))
moved_hops-IsLinked c hops r linked =
    rw (filterb-map r.id (moved_hop c hops) hops (moved_hop-rule c hops r)) (
      moved-IsLinked c hops r 0 (filterb (of_rule r.id) hops)
        (λ h own le. is_last_hop-filterb hops h ∙ rw own refl)
        (All-filterb (λ h. h.rule_id ≡ r.id) (of_rule r.id) (λ h e. (eqb_iff h.rule_id r.id).0 e)
          hops)
        linked)

moved_rule-id : (c : RepoChange) (r : RelayRule) → (moved_rule c r).id ≡ r.id
moved_rule-id c r = ground arith

moved_rules-IsLinked :
    (c : RepoChange) (hops : List HopRow) (rules : List RelayRule)
    → All (λ r. IsLinked r 0 (filterb (of_rule r.id) hops)) rules
    → All
        (λ r. IsLinked r 0 (filterb (of_rule r.id) (map (moved_hop c hops) hops)))
        (map (moved_rule c) rules)
moved_rules-IsLinked c hops [] linked = tt
moved_rules-IsLinked c hops (r ∷ rules) linked = (
  rw (moved_rule-id c r) (moved_hops-IsLinked c hops r linked.0),
  moved_rules-IsLinked c hops rules linked.1,
)

-- When the hops of every rule form a linked chain that ends at the rule's exit, they still do after an
-- entry of the node repository has moved.
pub propagate_repo_exit_change-LinkedRules :
    (now : ℕ) (c : RepoChange) (t : Tables)
    → LinkedRules t
    → LinkedRules (propagate_repo_exit_change now c t).1
unfolding propagate_repo_exit_change
propagate_repo_exit_change-LinkedRules now c t linked =
    elim (Bool-cases (is_empty_key c.old_key || is_empty_key c.new_key)) [
      | inl empty ↦ rw empty linked
      | inr full ↦ rw full (elim (Bool-cases (moves c)) [
        | inl moved ↦ rw moved (moved_rules-IsLinked c t.hops t.rules linked)
        | inr still ↦ rw still linked
      ])
    ]
