-- ===== src/Exits/Moving/Totals.antt =====
-- PropagateRepoExitChange loses no traffic of a user.
use nft.Base.Sums.{sum_by-delete, sum_by-insert, sum_by-modify}
use nft.Exits.Moving.{RepoChange, merged, move_row, move_rows, moves, refreshed, relocated}
use nft.Base.{
  List, Option, [], arith, distinct, distinct-cons, eqb, eqb_iff, false, if◌then◌else◌, nat_eq,
  none, pair_eq, refl, some, string_eq, sum_by, true, ℕ, ◌+◌, ◌∙◌, ◌∷◌, ◌≡◌,
}
use nft.Base.Assoc.{
  delete, distinct-keys-delete, distinct-keys-insert, keys, keys-modify, lookup, lookup-delete,
  lookup-insert, lookup-modify, lookup-none, modify,
}
use nft.Billing.{UserExitKey, user_exit_key_eq}
use nft.Exits.{LandingExit, LandingExits, landing_exit_key_eq}

-- The traffic over the rows of a user.
abbrev pub used_in : ℕ → UserExitKey × LandingExit → ℕ
used_in user p = if eqb p.0.0 user then p.1.used_bytes else 0

abbrev pub used_by : ℕ → LandingExits → ℕ
used_by user t = sum_by (used_in user) t

pub used_by-modify :
    (user : ℕ) (k : UserExitKey) (g : LandingExit → LandingExit) (t : LandingExits)
    → ((x : LandingExit) → (g x).used_bytes ≡ x.used_bytes)
    → used_by user (modify k g t) ≡ used_by user t
unfolding modify
used_by-modify user k g [] same = refl
used_by-modify user k g ((j, x) ∷ t) same = ground (arith, same x, used_by-modify user k g t same)

lookup-here :
    (owner : ℕ) (e : LandingExit) (rows : List (ℕ × LandingExit))
    → lookup owner ((owner, e) ∷ rows) ≡ some e
unfolding lookup
lookup-here owner e rows = ground arith

lookup-later :
    (owner v : ℕ) (e : LandingExit) (rows : List (ℕ × LandingExit))
    → eqb owner v ≡ false
    → lookup v ((owner, e) ∷ rows) ≡ lookup v rows
unfolding lookup
lookup-later owner v e rows other = ground (arith, other)

pub other-relocated :
    (now : ℕ) (c : RepoChange) (owner : ℕ) (e : LandingExit) (t : LandingExits) (v : ℕ)
    (o : Option LandingExit)
    → eqb owner v ≡ false
    → lookup (v, c.old_key) (relocated now c owner e t o) ≡ lookup (v, c.old_key) t
unfolding relocated
other-relocated now c owner e t v none other = ground (
  arith,
  other,
  lookup-insert (owner, c.new_key) (v, c.old_key) (refreshed now c e e)
      (delete (owner, c.old_key) t),
  lookup-delete (owner, c.old_key) (v, c.old_key) t,
)
other-relocated now c owner e t v (some x) other = ground (
  arith,
  other,
  lookup-delete (owner, c.old_key) (v, c.old_key) (modify (owner, c.new_key) (merged now c e) t),
  lookup-modify (owner, c.new_key) (v, c.old_key) (merged now c e) t,
)

module _ (now : ℕ) (c : RepoChange) (moved : moves c ≡ true) where
  -- The two keys of one user are not the same.
  other_key : (user owner : ℕ) → user_exit_key_eq.test (user, c.old_key) (owner, c.new_key) ≡ false
  other_key user owner = ground (arith, moved)

  module _ (user owner : ℕ) (e : LandingExit) (t : LandingExits) (fresh : distinct (keys t) ≡ true)
      (there : lookup (owner, c.old_key) t ≡ some e) where
    used_by-relocated :
        (o : Option LandingExit)
        → lookup (owner, c.new_key) t ≡ o
        → used_by user (relocated now c owner e t o) ≡ used_by user t
    unfolding relocated
    used_by-relocated none missing =
        let gone : lookup (owner, c.new_key) (delete (owner, c.old_key) t) ≡ none =
          ground (arith, lookup-delete (owner, c.old_key) (owner, c.new_key) t, missing) in
        rw
          (sum_by-insert (used_in user) (owner, c.new_key) (refreshed now c e e)
            (delete (owner, c.old_key) t) gone)
          (omega (arith, sum_by-delete (used_in user) (owner, c.old_key) t e fresh there))
    used_by-relocated (some x) found =
        let still : lookup (owner, c.old_key) (modify (owner, c.new_key) (merged now c e) t)
            ≡ some e =
          ground (
            arith,
            lookup-modify (owner, c.new_key) (owner, c.old_key) (merged now c e) t,
            there,
            moved,
            landing_exit_key_eq.test_iff c.new_key c.old_key,
            landing_exit_key_eq.test_iff c.old_key c.new_key,
          ) in
        let once : distinct (keys (modify (owner, c.new_key) (merged now c e) t)) ≡ true =
          rw (keys-modify (owner, c.new_key) (merged now c e) t) fresh in
        let both : used_in user ((owner, c.new_key), merged now c e x)
            ≡ used_in user ((owner, c.new_key), x) + used_in user ((owner, c.old_key), e) =
          ground arith in
        omega (
          arith,
          both,
          sum_by-delete (used_in user) (owner, c.old_key)
              (modify (owner, c.new_key) (merged now c e) t) e once still,
          sum_by-modify (used_in user) (owner, c.new_key) (merged now c e) t x found,
        )

    pub keys-relocated :
        (o : Option LandingExit) → distinct (keys (relocated now c owner e t o)) ≡ true
    unfolding relocated
    keys-relocated none =
        distinct-keys-insert (owner, c.new_key) (refreshed now c e e) (delete (owner, c.old_key) t)
          (distinct-keys-delete (owner, c.old_key) t fresh)
    keys-relocated (some x) =
        distinct-keys-delete (owner, c.old_key) (modify (owner, c.new_key) (merged now c e) t)
          (rw (keys-modify (owner, c.new_key) (merged now c e) t) fresh)

  -- The table has the rows that were read.
  abbrev pub Found : List (ℕ × LandingExit) → LandingExits → Type 0
  Found rows t =
      (v : ℕ) (e : LandingExit) → lookup v rows ≡ some e → lookup (v, c.old_key) t ≡ some e

  pub used_by-move_rows :
      (user : ℕ) (rows : List (ℕ × LandingExit)) (t : LandingExits)
      → distinct (keys rows) ≡ true
      → Found rows t
      → distinct (keys t) ≡ true
      → used_by user (move_rows now c rows t) ≡ used_by user t
  unfolding move_rows move_row keys
  used_by-move_rows user [] t once found fresh = refl
  used_by-move_rows user ((owner, e) ∷ rows) t once found fresh =
      let o = lookup (owner, c.new_key) t in
      let there : lookup (owner, c.old_key) t ≡ some e = found owner e (lookup-here owner e rows) in
      let (gone, later) = distinct-cons owner (keys rows) once in
      let still : Found rows (relocated now c owner e t o) = λ v f listed.
        let other : eqb owner v ≡ false =
          ground (arith, gone, lookup-none v rows, listed, eqb_iff owner v) in
        other-relocated now c owner e t v o other
        ∙ found v f (lookup-later owner v e rows other ∙ listed) in
      rw moved (
        used_by-move_rows user rows (relocated now c owner e t o) later still
          (keys-relocated user owner e t fresh there o)
        ∙ used_by-relocated user owner e t fresh there o refl)
