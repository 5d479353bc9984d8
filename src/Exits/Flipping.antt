-- ===== src/Exits/Flipping.antt =====
-- internal/db/landing_exits.go: which exits SyncUserLandingExits reports as flipped, and the primary key.
use nft.Base.{
  Bool, List, Option, String, [], arith, distinct, distinct-cons, false, has, has-append,
  if◌then◌else◌, nat_eq, none, not, pair_eq, refl, some, string_eq, true, ℕ, ◌&&◌, ◌==◌, ◌||◌, ◌∷◌,
  ◌≡◌,
}
use nft.Base.Assoc.{
  distinct-keys-delete, distinct-keys-insert, keys, keys-modify, lookup, lookup-none,
}
use nft.Exits.{
  LandingExit, LandingExitInput, LandingExitKey, LandingExits, Pass, add_input, add_inputs,
  empty_ledger, existing_of, hidden, input_key, landing_exit_key_eq, over_quota, returns_over,
  sweep_row, sweep_rows, upserted,
}
use nft.Exits.Syncing.{find_input, is_some, listed-sweep_row}

-- A row over its quota went from hidden to present or back.
abbrev pub flips : Option LandingExit → Option LandingExit → Bool
flips (some r) (some s) = over_quota r && (if r.present then not s.present else s.present)
flips _ _ = false

has_some :
    (user : ℕ) (k : LandingExitKey) (t : LandingExits)
    → has k (keys (existing_of user t)) ≡ has (user, k) (keys t)
unfolding existing_of has keys
has_some user k [] = refl
has_some user k (((owner, j), r) ∷ t) = ground (arith, has_some user k t)

pub distinct-existing_of :
    (user : ℕ) (t : LandingExits)
    → distinct (keys t) ≡ true
    → distinct (keys (existing_of user t)) ≡ true
unfolding existing_of distinct keys
distinct-existing_of user [] fresh = refl
distinct-existing_of user (((owner, j), r) ∷ t) fresh =
    ground (arith, distinct-existing_of user t, has_some user j t)

module _ (now : ℕ) (source : String) (user : ℕ)
    (existing : List (LandingExitKey × LandingExit)) where
  pub flipped-add_inputs :
      (exits : List LandingExitInput) (s : Pass) (k : LandingExitKey)
      → has k (add_inputs now source user existing exits s).flipped ≡ (
          has k s.flipped
          || (not (has k s.listed)
              && (is_some (find_input k exits) && returns_over (lookup k existing))))
  unfolding add_inputs add_input find_input has
  flipped-add_inputs [] s k = ground arith
  flipped-add_inputs (e ∷ exits) s k =
      rw (flipped-add_inputs exits (add_input now source user existing e s) k) (
        ground (
          arith,
          landing_exit_key_eq.test_iff (input_key e) k,
          has-append k s.flipped (input_key e ∷ []),
        ))

  pub keys-add_inputs :
      (exits : List LandingExitInput) (s : Pass)
      → distinct (keys s.table) ≡ true
      → distinct (keys (add_inputs now source user existing exits s).table) ≡ true
  unfolding add_inputs add_input
  keys-add_inputs [] s h = h
  keys-add_inputs (e ∷ exits) s h = keys-add_inputs exits (add_input now source user existing e s) (
      ground (
        arith,
        distinct-keys-insert (user, input_key e)
            (upserted now source e (lookup (user, input_key e) s.table)) s.table,
      ))

abbrev pub leaves_over : Bool → Option LandingExit → Bool
leaves_over listed none = false
leaves_over listed (some r) =
    not (listed || r.source == "repo") && (not (empty_ledger r) && (r.present && over_quota r))

module _ (now user : ℕ) where
  pub flipped-sweep_rows :
      (rows : List (LandingExitKey × LandingExit)) (s : Pass) (k : LandingExitKey)
      → distinct (keys rows) ≡ true
      → has k (sweep_rows now user rows s).flipped
        ≡ (has k s.flipped || leaves_over (has k s.listed) (lookup k rows))
  unfolding sweep_rows sweep_row lookup keys has
  flipped-sweep_rows [] s k fresh = ground arith
  flipped-sweep_rows ((j, r) ∷ rows) s k fresh =
      rw
        (
          flipped-sweep_rows rows (sweep_row now user j r s) k
              (distinct-cons j (keys rows) fresh).1,
          listed-sweep_row,
        )
        (ground (
          arith,
          landing_exit_key_eq.test_iff j k,
          distinct-cons j (keys rows) fresh,
          lookup-none j rows,
          has-append k s.flipped (j ∷ []),
        ))

  pub keys-sweep_row :
      (k : LandingExitKey) (r : LandingExit) (s : Pass)
      → distinct (keys s.table) ≡ true
      → distinct (keys (sweep_row now user k r s).table) ≡ true
  unfolding sweep_row
  keys-sweep_row k r s h =
      ground
        (arith, distinct-keys-delete (user, k) s.table, keys-modify (user, k) (hidden now) s.table)

  pub keys-sweep_rows :
      (rows : List (LandingExitKey × LandingExit)) (s : Pass)
      → distinct (keys s.table) ≡ true
      → distinct (keys (sweep_rows now user rows s).table) ≡ true
  unfolding sweep_rows
  keys-sweep_rows [] s h = h
  keys-sweep_rows ((k, r) ∷ rows) s h =
      keys-sweep_rows rows (sweep_row now user k r s) (keys-sweep_row k r s h)
