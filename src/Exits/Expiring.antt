-- ===== src/Exits/Expiring.antt =====
-- internal/db/landing_exits.go and internal/server/server.go: exits that expire, run over their quota or
-- are deleted.
use nft.Exits.Ledgers.{flipped-synced_pass, lookup-synced_pass}
use nft.Exits.Materialized.{keys-sync_user_landing_exits, sync_cases}
use nft.Exits.Flipping.{flips}
use nft.Exits.Syncing.{find_input, synced_row}
use nft.Base.{
  Bool, List, Option, Option-cases, String, arith, distinct, false, has, if◌then◌else◌, inl, inr,
  nat_eq, none, not, pair_eq, refl, some, string_eq, sym, test_refl, true, ℕ, ◌≡◌,
}
use nft.Base.Assoc.{keys, keys-modify, lookup, lookup-modify, modify}
use nft.Billing.{UserExitKey}
use nft.Exits.{
  LandingExit, LandingExitInput, LandingExitKey, LandingExits, Synced, sync_user_landing_exits,
  upserted,
}
use nft.Exits.Editing.{
  exceeds, exit_row_present, exits_exceeding_quota, expired_landing_exits, expires, expiring,
  has-exits_exceeding_quota, has-expired_landing_exits, hide_all, hide_if, keys-hide_all,
  landing_expiry_enforcer, lookup-hide_all, set_user_landing_exit_expires,
}

module _ (t : LandingExits) (fresh : distinct (keys t) ≡ true) where
  -- A tick of the enforcer hides exactly the rows that have expired and keeps every other row, and then no
  -- exit is listed as expired at that time, when the keys of the table are distinct.
  pub lookup-landing_expiry_enforcer :
      (now later : ℕ) (k : UserExitKey)
      → (lookup k (landing_expiry_enforcer now later t)
          ≡ hide_if (expires now (lookup k t)) later (lookup k t))
        × (has k (expired_landing_exits now (landing_expiry_enforcer now later t)) ≡ false)
  unfolding landing_expiry_enforcer
  lookup-landing_expiry_enforcer now later k =
      let row : lookup k (hide_all later (expired_landing_exits now t) t)
          ≡ hide_if (expires now (lookup k t)) later (lookup k t) =
        rw (lookup-hide_all, has-expired_landing_exits now k t fresh) refl in
      let kept = keys-hide_all later (expired_landing_exits now t) t in
      (
        row,
        rw
            (
              has-expired_landing_exits now k (hide_all later (expired_landing_exits now t) t)
                  (rw kept fresh),
              row,
            )
            (ground arith),
      )

  set_expires_missing :
      (now expires_at : ℕ) (k : UserExitKey)
      → lookup k t ≡ none
      → set_user_landing_exit_expires now k expires_at t ≡ (false, false, t)
  unfolding set_user_landing_exit_expires exit_row_present
  set_expires_missing now expires_at k missing = ground (arith, missing)

  set_expires_found :
      (now expires_at : ℕ) (k : UserExitKey) (r : LandingExit)
      → lookup k t ≡ some r
      → set_user_landing_exit_expires now k expires_at t
        ≡ (true, true, modify k (expiring now expires_at) t)
  unfolding set_user_landing_exit_expires exit_row_present
  set_expires_found now expires_at k r there = ground (arith, there)

  lookup-set_user_landing_exit_expires :
      (now expires_at : ℕ) (k : UserExitKey)
      → (lookup k (set_user_landing_exit_expires now k expires_at t).2
          ≡ (elim (lookup k t) [ none ↦ none | some r ↦ some (expiring now expires_at r) ]))
        × (keys (set_user_landing_exit_expires now k expires_at t).2 ≡ keys t)
  lookup-set_user_landing_exit_expires now expires_at k = elim (Option-cases (lookup k t)) [
    | inl missing ↦ rw (set_expires_missing now expires_at k missing, missing) (refl, refl)
    | inr found ↦
        rw
          (
            set_expires_found now expires_at k found.0 found.1,
            keys-modify,
            lookup-modify,
            found.1,
            test_refl k,
          )
          (refl, refl)
  ]

  -- Right after its expiry was set an exit is not listed as expired, when the keys are distinct.
  pub expired-set_user_landing_exit_expires :
      (now expires_at : ℕ) (k : UserExitKey)
      → has k (expired_landing_exits now (set_user_landing_exit_expires now k expires_at t).2)
        ≡ false
  expired-set_user_landing_exit_expires now expires_at k =
      let after = lookup-set_user_landing_exit_expires now expires_at k in
      rw
        (
          has-expired_landing_exits now k (set_user_landing_exit_expires now k expires_at t).2
              (rw after.1 fresh),
          after.0,
        )
        (ground arith)

exceeds-synced :
    (now : ℕ) (i : Option LandingExitInput) (o : Option LandingExit)
    → flips o (synced_row now i o)
      ≡ (if exceeds o then not (exceeds (synced_row now i o)) else exceeds (synced_row now i o))
unfolding synced_row upserted
exceeds-synced now none none = refl
exceeds-synced now none (some r) = ground arith
exceeds-synced now (some e) none = ground arith
exceeds-synced now (some e) (some r) = ground arith

not_both : (b : Bool) → (if b then not b else b) ≡ false
not_both true = refl
not_both false = refl

-- SyncUserLandingExits reports exactly the keys that ExitsExceedingQuota lists before it or after it,
-- but not both times, when the keys of the table are distinct.
pub flipped-exits_exceeding_quota :
    (now : ℕ) (users : List (ℕ × (String × String))) (user : ℕ) (exits : List LandingExitInput)
    (source : String × String) (t : LandingExits) (z : Synced)
    → distinct (keys t) ≡ true
    → sync_user_landing_exits now users user exits source t ≡ some z
    → (k : LandingExitKey)
    → has k z.flipped ≡ (
        if has k (exits_exceeding_quota user t)
        then not (has k (exits_exceeding_quota user z.table))
        else has k (exits_exceeding_quota user z.table))
flipped-exits_exceeding_quota now users user exits source t z fresh e k =
    let after = keys-sync_user_landing_exits now users user exits source t fresh z e in
    rw (has-exits_exceeding_quota user k t fresh, has-exits_exceeding_quota user k z.table after)
      (elim (sync_cases now users user exits source t z e) [
        | inl same ↦
            rw (same.0, same.1) (unfold has in sym (not_both (exceeds (lookup (user, k) t))))
        | inr passed ↦
            rw
              (
                passed.0,
                passed.1,
                flipped-synced_pass now user exits t fresh k,
                lookup-synced_pass now user exits t fresh k,
              )
              (exceeds-synced now (find_input k exits) (lookup (user, k) t))
      ])
