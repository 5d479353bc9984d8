-- ===== src/Exits/Syncing.antt =====
-- internal/db/landing_exits.go: what SyncUserLandingExits leaves under every key.
use nft.Base.{
  Bool, List, Option, String, [], arith, distinct, distinct-cons, eqb, false, has, if◌then◌else◌,
  nat_eq, none, not, pair_eq, refl, some, string_eq, true, ℕ, ◌&&◌, ◌==◌, ◌||◌, ◌∷◌, ◌≡◌,
}
use nft.Base.Assoc.{keys, lookup, lookup-delete, lookup-insert, lookup-modify, lookup-none}
use nft.Exits.{
  LandingExit, LandingExitInput, LandingExitKey, LandingExits, Pass, add_input, add_inputs,
  empty_ledger, existing_of, hidden, input_key, landing_exit_key_eq, sweep_row, sweep_rows,
  upserted,
}

-- The first of the inputs with that host and port.
unfoldable pub find_input : LandingExitKey → List LandingExitInput → Option LandingExitInput
find_input k [] = none
find_input k (e ∷ exits) = if input_key e == k then some e else find_input k exits

-- What becomes of a row whose exit is not in the source any more.
abbrev pub dropped : ℕ → Option LandingExit → Option LandingExit
dropped now none = none
dropped now (some r) =
    if r.source == "repo"
    then some r
    else if eqb r.quota_bytes 0 && eqb r.used_bytes 0
    then none
    else if r.present
    then some (record r { present = false; updated_at = now })
    else some r

-- The row a key should have after a source was synced, from its input and the row it had.
unfoldable pub synced_row : ℕ → Option LandingExitInput → Option LandingExit → Option LandingExit
synced_row now (some e) old = some (record {
  name = e.name;
  name_override = elim old [ none ↦ "" | some r ↦ r.name_override ];
  protocol = e.protocol;
  uri = e.uri;
  present = true;
  quota_bytes = elim old [ none ↦ 0 | some r ↦ r.quota_bytes ];
  used_bytes = elim old [ none ↦ 0 | some r ↦ r.used_bytes ];
  updated_at = now;
  expires_at = elim old [ none ↦ 0 | some r ↦ r.expires_at ];
  source = "auto";
})
synced_row now none old = dropped now old

abbrev pub added : ℕ → String → Option LandingExitInput → Option LandingExit → Option LandingExit
added now source none old = old
added now source (some e) old = some (upserted now source e old)

abbrev pub is_some {ℓ} : {A : Type ℓ} → Option A → Bool
is_some none = false
is_some (some a) = true

pub lookup-existing_of :
    (user : ℕ) (k : LandingExitKey) (t : LandingExits)
    → lookup k (existing_of user t) ≡ lookup (user, k) t
unfolding existing_of lookup
lookup-existing_of user k [] = refl
lookup-existing_of user k (((owner, j), r) ∷ t) = ground (arith, lookup-existing_of user k t)

module _ (now : ℕ) (source : String) (user : ℕ)
    (existing : List (LandingExitKey × LandingExit)) where
  pub listed-add_inputs :
      (exits : List LandingExitInput) (s : Pass) (k : LandingExitKey)
      → has k (add_inputs now source user existing exits s).listed
        ≡ (has k s.listed || is_some (find_input k exits))
  unfolding add_inputs add_input find_input has
  listed-add_inputs [] s k = ground arith
  listed-add_inputs (e ∷ exits) s k =
      rw (listed-add_inputs exits (add_input now source user existing e s) k)
        (ground (arith, landing_exit_key_eq.test_iff (input_key e) k))

  -- A key that the pass has met keeps what it was given, any other takes its first input.
  pub lookup-add_inputs :
      (exits : List LandingExitInput) (s : Pass) (k : LandingExitKey)
      → lookup (user, k) (add_inputs now source user existing exits s).table ≡ (
          if has k s.listed
          then lookup (user, k) s.table
          else added now source (find_input k exits) (lookup (user, k) s.table))
  unfolding add_inputs add_input find_input has
  lookup-add_inputs [] s k = ground arith
  lookup-add_inputs (e ∷ exits) s k =
      rw (lookup-add_inputs exits (add_input now source user existing e s) k) (
        ground (
          arith,
          landing_exit_key_eq.test_iff (input_key e) k,
          lookup-insert (user, input_key e) (user, k)
              (upserted now source e (lookup (user, input_key e) s.table)) s.table,
        ))

-- What the loop over the rows does under a key, from the row that was read and the row that is there.
abbrev pub swept : ℕ → Bool → Option LandingExit → Option LandingExit → Option LandingExit
swept now listed none old = old
swept now listed (some r) old =
    if listed || r.source == "repo"
    then old
    else if empty_ledger r
    then none
    else if not r.present
    then old
    else (elim old [ none ↦ none | some o ↦ some (hidden now o) ])

module _ (now user : ℕ) where
  pub listed-sweep_row :
      (k : LandingExitKey) (r : LandingExit) (s : Pass)
      → (sweep_row now user k r s).listed ≡ s.listed
  unfolding sweep_row
  listed-sweep_row k r s = ground arith

  pub lookup-sweep_row :
      (j k : LandingExitKey) (r : LandingExit) (s : Pass)
      → lookup (user, k) (sweep_row now user j r s).table ≡ (
          if j == k
          then swept now (has j s.listed) (some r) (lookup (user, k) s.table)
          else lookup (user, k) s.table)
  unfolding sweep_row
  lookup-sweep_row j k r s = ground (
    arith,
    lookup-delete (user, j) (user, k) s.table,
    lookup-modify (user, j) (user, k) (hidden now) s.table,
  )

  pub lookup-sweep_rows :
      (rows : List (LandingExitKey × LandingExit)) (s : Pass) (k : LandingExitKey)
      → distinct (keys rows) ≡ true
      → lookup (user, k) (sweep_rows now user rows s).table
        ≡ swept now (has k s.listed) (lookup k rows) (lookup (user, k) s.table)
  unfolding sweep_rows lookup keys
  lookup-sweep_rows [] s k fresh = refl
  lookup-sweep_rows ((j, r) ∷ rows) s k fresh =
      rw
        (
          lookup-sweep_rows rows (sweep_row now user j r s) k (distinct-cons j (keys rows) fresh).1,
          listed-sweep_row,
          lookup-sweep_row,
        )
        (ground (
          arith,
          landing_exit_key_eq.test_iff j k,
          distinct-cons j (keys rows) fresh,
          lookup-none j rows,
        ))

module _ (now : ℕ) (source : String) (user owner : ℕ) (other : eqb owner user ≡ false) where
  pub other-add_inputs :
      (existing : List (LandingExitKey × LandingExit)) (exits : List LandingExitInput) (s : Pass)
      (k : LandingExitKey)
      → lookup (owner, k) (add_inputs now source user existing exits s).table
        ≡ lookup (owner, k) s.table
  unfolding add_inputs add_input
  other-add_inputs existing [] s k = refl
  other-add_inputs existing (e ∷ exits) s k =
      rw (other-add_inputs existing exits (add_input now source user existing e s) k) (
        ground (
          arith,
          other,
          lookup-insert (user, input_key e) (owner, k)
              (upserted now source e (lookup (user, input_key e) s.table)) s.table,
        ))

  pub other-sweep_rows :
      (rows : List (LandingExitKey × LandingExit)) (s : Pass) (k : LandingExitKey)
      → lookup (owner, k) (sweep_rows now user rows s).table ≡ lookup (owner, k) s.table
  unfolding sweep_rows sweep_row
  other-sweep_rows [] s k = refl
  other-sweep_rows ((j, r) ∷ rows) s k = rw (other-sweep_rows rows (sweep_row now user j r s) k) (
      ground (
        arith,
        other,
        lookup-delete (user, j) (owner, k) s.table,
        lookup-modify (user, j) (owner, k) (hidden now) s.table,
      ))
