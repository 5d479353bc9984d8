-- ===== src/Exits/Moving/Carrying.antt =====
-- PropagateRepoExitChange as a whole: what it carries over, and what it leaves at the old address.
use nft.Chain.{RelayRule}
use nft.Base.{
  All, Bool-cases, List, Option, [], arith, distinct, eq_iff, eqb_iff, false, has, if◌then◌else◌,
  inl, inr, map, nat_eq, none, pair_eq, refl, some, string_eq, sym, true, ℕ, ◌==◌, ◌||◌, ◌∙◌, ◌∷◌,
  ◌≡◌, ◌≢◌,
}
use nft.Base.Assoc.{delete, keys, lookup, lookup-delete, lookup-insert, lookup-none, modify}
use nft.Exits.{LandingExit, LandingExitKey, LandingExits, landing_exit_key_eq}
use nft.Exits.Moving.{
  RepoChange, Tables, exits_to, is_empty_key, merged, move_row, move_rows, moved_rule, moves,
  propagate_repo_exit_change, refreshed, relocated, repo_rows,
}
use nft.Exits.Moving.Totals.{Found, other-relocated, used_by, used_by-modify, used_by-move_rows}

abbrev repo_of : Option LandingExit → Option LandingExit
repo_of none = none
repo_of (some r) = if r.source == "repo" then some r else none

has-repo_rows :
    (old : LandingExitKey) (v : ℕ) (t : LandingExits)
    → has (v, old) (keys t) ≡ false
    → has v (keys (repo_rows old t)) ≡ false
unfolding repo_rows keys has
has-repo_rows old v [] fresh = refl
has-repo_rows old v (((user, k), r) ∷ t) fresh =
    ground (arith, has-repo_rows old v t, landing_exit_key_eq.test_iff k old)

distinct-repo_rows :
    (old : LandingExitKey) (t : LandingExits)
    → distinct (keys t) ≡ true
    → distinct (keys (repo_rows old t)) ≡ true
unfolding repo_rows keys distinct
distinct-repo_rows old [] fresh = refl
distinct-repo_rows old (((user, k), r) ∷ t) fresh =
    ground (
      arith,
      distinct-repo_rows old t,
      has-repo_rows old user t,
      landing_exit_key_eq.test_iff k old,
    )

lookup-repo_rows :
    (old : LandingExitKey) (v : ℕ) (t : LandingExits)
    → distinct (keys t) ≡ true
    → lookup v (repo_rows old t) ≡ repo_of (lookup (v, old) t)
unfolding repo_rows keys distinct lookup
lookup-repo_rows old v [] fresh = refl
lookup-repo_rows old v (((user, k), r) ∷ t) fresh = ground (
  arith,
  lookup-repo_rows old v t,
  has-repo_rows old v t,
  lookup-none v (repo_rows old t),
  landing_exit_key_eq.test_iff k old,
  eqb_iff user v,
)

module _ (now : ℕ) (c : RepoChange) (moved : moves c ≡ true) (t : LandingExits)
    (fresh : distinct (keys t) ≡ true) where
  Found-repo_rows : Found now c moved (repo_rows c.old_key t) t
  Found-repo_rows v e listed = ground (arith, lookup-repo_rows c.old_key v t fresh, listed)

module _ (now : ℕ) (c : RepoChange) (still : moves c ≡ false) where
  used_by-refreshed :
      (user : ℕ) (rows : List (ℕ × LandingExit)) (t : LandingExits)
      → used_by user (move_rows now c rows t) ≡ used_by user t
  unfolding move_rows move_row
  used_by-refreshed user [] t = refl
  used_by-refreshed user ((owner, e) ∷ rows) t = rw still (
      used_by-refreshed user rows (modify (owner, c.old_key) (refreshed now c e) t)
      ∙ used_by-modify user (owner, c.old_key) (refreshed now c e) t (λ x. refl))

module _ (now : ℕ) (c : RepoChange) (moved : moves c ≡ true) where
  gone-relocated :
      (owner : ℕ) (e : LandingExit) (t : LandingExits) (o : Option LandingExit)
      → lookup (owner, c.old_key) (relocated now c owner e t o) ≡ none
  unfolding relocated
  gone-relocated owner e t none = ground (
    arith,
    moved,
    landing_exit_key_eq.test_iff c.new_key c.old_key,
    landing_exit_key_eq.test_iff c.old_key c.new_key,
    lookup-delete (owner, c.old_key) (owner, c.old_key) t,
    lookup-insert (owner, c.new_key) (owner, c.old_key) (refreshed now c e e)
        (delete (owner, c.old_key) t),
    landing_exit_key_eq.test_iff c.old_key c.old_key,
  )
  gone-relocated owner e t (some x) = ground (
    arith,
    lookup-delete (owner, c.old_key) (owner, c.old_key)
        (modify (owner, c.new_key) (merged now c e) t),
    landing_exit_key_eq.test_iff c.old_key c.old_key,
  )

  lookup-move_rows :
      (v : ℕ) (rows : List (ℕ × LandingExit)) (t : LandingExits)
      → lookup (v, c.old_key) (move_rows now c rows t)
        ≡ (if has v (keys rows) then none else lookup (v, c.old_key) t)
  unfolding move_rows move_row keys has
  lookup-move_rows v [] t = refl
  lookup-move_rows v ((owner, e) ∷ rows) t =
      let o = lookup (owner, c.new_key) t in
      rw (moved, lookup-move_rows v rows (relocated now c owner e t o))
        (ground
          (arith, gone-relocated owner e t o, other-relocated now c owner e t v o, eqb_iff owner v))

-- Moving an entry of the node repository leaves the traffic over the exits of each user the same, whether
-- the rows move or merge, when the keys of the table are distinct.
pub used_by-propagate_repo_exit_change :
    (now : ℕ) (c : RepoChange) (t : Tables) (user : ℕ)
    → distinct (keys t.exits) ≡ true
    → used_by user (propagate_repo_exit_change now c t).1.exits ≡ used_by user t.exits
unfolding propagate_repo_exit_change
used_by-propagate_repo_exit_change now c t user fresh =
    elim (Bool-cases (is_empty_key c.old_key || is_empty_key c.new_key)) [
      | inl empty ↦ rw empty refl
      | inr full ↦ rw full (elim (Bool-cases (moves c)) [
        | inl moved ↦
            used_by-move_rows now c moved user (repo_rows c.old_key t.exits) t.exits
              (distinct-repo_rows c.old_key t.exits fresh)
              (Found-repo_rows now c moved t.exits fresh) fresh
        | inr still ↦ used_by-refreshed now c still user (repo_rows c.old_key t.exits) t.exits
      ])
    ]

moved_away :
    (c : RepoChange) (rules : List RelayRule)
    → moves c ≡ true
    → All (λ r. exits_to c.old_key r ≡ false) (map (moved_rule c) rules)
moved_away c [] moved = tt
moved_away c (r ∷ rules) moved = (
  ground (
    arith,
    moved,
    landing_exit_key_eq.test_iff c.new_key c.old_key,
    landing_exit_key_eq.test_iff c.old_key c.new_key,
  ),
  moved_away c rules moved,
)

not_repo :
    (now : ℕ) (c : RepoChange) (t : LandingExits)
    → distinct (keys t) ≡ true
    → moves c ≡ true
    → (user : ℕ) (r : LandingExit)
    → lookup (user, c.old_key) (move_rows now c (repo_rows c.old_key t) t) ≡ some r
    → (r.source ≢ "repo") × (lookup (user, c.old_key) t ≡ some r)
not_repo now c t fresh moved user r there =
    let rows = repo_rows c.old_key t in
    let after = sym (lookup-move_rows now c moved user rows t) ∙ there in
    elim (Bool-cases (has user (keys rows))) [
      | inl listed ↦ cc (rw listed at after)
      | inr free ↦
          let kept : lookup (user, c.old_key) t ≡ some r = rw free at after in
          let none_left : repo_of (some r) ≡ none =
            rw kept at
              (sym (lookup-repo_rows c.old_key user t fresh) ∙ lookup-none user rows free) in
          (λ repo. ground (arith, repo, none_left, eq_iff r.source "repo"), kept)
    ]

-- When an entry moves to another address, and neither is empty, no rule exits to the old address any more,
-- and what is left there is a row that the user had before and that is not from the repository, when the
-- keys of the table are distinct.
pub propagate_repo_exit_change-leaves :
    (now : ℕ) (c : RepoChange) (t : Tables)
    → distinct (keys t.exits) ≡ true
    → is_empty_key c.old_key ≡ false
    → is_empty_key c.new_key ≡ false
    → moves c ≡ true
    → All (λ r. exits_to c.old_key r ≡ false) (propagate_repo_exit_change now c t).1.rules
      × ((user : ℕ) (r : LandingExit)
          → lookup (user, c.old_key) (propagate_repo_exit_change now c t).1.exits ≡ some r
          → (r.source ≢ "repo") × (lookup (user, c.old_key) t.exits ≡ some r))
unfolding propagate_repo_exit_change
propagate_repo_exit_change-leaves now c t fresh old new moved =
    rw (old, new)
      (
        rw moved (moved_away c t.rules moved),
        λ user r there. not_repo now c t.exits fresh moved user r there,
      )
