-- ===== src/Exits/Ledgers.antt =====
-- internal/db/landing_exits.go: SyncUserLandingExits and AppendUserLandingExits on the whole table.
use nft.Base.{
  Bool-cases, List, Option, arith, distinct, eqb, eqb_iff, false, has, if◌then◌else◌, inl, inr,
  nat_eq, none, pair_eq, refl, some, string_eq, true, ℕ, ◌&&◌, ◌||◌, ◌≡◌,
}
use nft.Base.Assoc.{keys, lookup}
use nft.Exits.{
  LandingExit, LandingExitInput, LandingExitKey, LandingExits, existing_of, returns_over, start,
  synced_pass, upserted,
}
use nft.Exits.Syncing.{
  added, find_input, is_some, listed-add_inputs, lookup-add_inputs, lookup-existing_of,
  lookup-sweep_rows, other-add_inputs, other-sweep_rows, swept, synced_row,
}
use nft.Exits.Flipping.{
  distinct-existing_of, flipped-add_inputs, flipped-sweep_rows, flips, keys-add_inputs,
  keys-sweep_rows, leaves_over,
}

swept-synced :
    (now : ℕ) (i : Option LandingExitInput) (o : Option LandingExit)
    → swept now (is_some i) o (added now "auto" i o) ≡ synced_row now i o
unfolding synced_row upserted
swept-synced now none none = refl
swept-synced now none (some r) = ground arith
swept-synced now (some e) none = refl
swept-synced now (some e) (some r) = refl

pub flips-synced :
    (now : ℕ) (i : Option LandingExitInput) (o : Option LandingExit)
    → ((is_some i && returns_over o) || leaves_over (is_some i) o) ≡ flips o (synced_row now i o)
unfolding synced_row upserted
flips-synced now none none = refl
flips-synced now none (some r) = ground arith
flips-synced now (some e) none = refl
flips-synced now (some e) (some r) = ground arith

module _ (now user : ℕ) (exits : List LandingExitInput) (t : LandingExits)
    (fresh : distinct (keys t) ≡ true) where
  -- Under every key of the user the pass leaves the row that the specification names.
  pub lookup-synced_pass :
      (k : LandingExitKey)
      → lookup (user, k) (synced_pass now user exits t).table
        ≡ synced_row now (find_input k exits) (lookup (user, k) t)
  lookup-synced_pass k =
      rw
        (
          lookup-sweep_rows now user (existing_of user t) _ k (distinct-existing_of user t fresh),
          listed-add_inputs now "auto" user (existing_of user t) exits (start t) k,
          lookup-add_inputs now "auto" user (existing_of user t) exits (start t) k,
          lookup-existing_of user k t,
        )
        (unfold has in swept-synced now (find_input k exits) (lookup (user, k) t))

  pub flipped-synced_pass :
      (k : LandingExitKey)
      → has k (synced_pass now user exits t).flipped
        ≡ flips (lookup (user, k) t) (lookup (user, k) (synced_pass now user exits t).table)
  flipped-synced_pass k =
      rw
        (
          lookup-synced_pass k,
          flipped-sweep_rows now user (existing_of user t) _ k (distinct-existing_of user t fresh),
          listed-add_inputs now "auto" user (existing_of user t) exits (start t) k,
          flipped-add_inputs now "auto" user (existing_of user t) exits (start t) k,
          lookup-existing_of user k t,
        )
        (unfold has in flips-synced now (find_input k exits) (lookup (user, k) t))

pub other-synced_pass :
    (now user owner : ℕ) (exits : List LandingExitInput) (t : LandingExits) (k : LandingExitKey)
    → eqb owner user ≡ false
    → lookup (owner, k) (synced_pass now user exits t).table ≡ lookup (owner, k) t
other-synced_pass now user owner exits t k other =
    rw
      (
        other-sweep_rows now "auto" user owner other (existing_of user t) _ k,
        other-add_inputs now "auto" user owner other (existing_of user t) exits (start t) k,
      )
      refl

pub keys-synced_pass :
    (now user : ℕ) (exits : List LandingExitInput) (t : LandingExits)
    → distinct (keys t) ≡ true
    → distinct (keys (synced_pass now user exits t).table) ≡ true
keys-synced_pass now user exits t fresh =
    keys-sweep_rows now user (existing_of user t) _
      (keys-add_inputs now "auto" user (existing_of user t) exits (start t) fresh)

pub flips_same : (o : Option LandingExit) → flips o o ≡ false
flips_same none = refl
flips_same (some r) = ground arith

module _ (now user : ℕ) (exits : List LandingExitInput) (t : LandingExits)
    (fresh : distinct (keys t) ≡ true) where
  -- The same for the keys of all users.
  pub row-synced_pass :
      (owner : ℕ) (k : LandingExitKey)
      → lookup (owner, k) (synced_pass now user exits t).table ≡ (
          if eqb owner user
          then synced_row now (find_input k exits) (lookup (owner, k) t)
          else lookup (owner, k) t)
  row-synced_pass owner k = elim (Bool-cases (eqb owner user)) [
    | inl own ↦
        let same : owner ≡ user = (eqb_iff owner user).0 own in
        rw (own, same) (lookup-synced_pass now user exits t fresh k)
    | inr other ↦ rw other (other-synced_pass now user owner exits t k other)
  ]
