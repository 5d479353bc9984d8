-- ===== src/Exits/Materialized.antt =====
-- internal/db/landing_exits.go: SyncUserLandingExits and AppendUserLandingExits, whole.
use nft.Exits.Flipping.{flips}
use nft.Base.{
  Bool, Bool-cases, List, Option, String, [], arith, distinct, eqb, false, has, if◌then◌else◌, inl,
  inr, nat_eq, none, pair_eq, refl, some, string_eq, true, ℕ, ◌&&◌, ◌==◌, ◌≡◌, ◌⊎◌,
}
use nft.Base.Assoc.{keys, lookup}
use nft.Exits.{
  LandingExit, LandingExitInput, LandingExitKey, LandingExits, Synced, empty_ledger, sync_from,
  sync_user_landing_exits, synced_pass, upserted,
}
use nft.Exits.Syncing.{dropped, find_input, synced_row}
use nft.Exits.Ledgers.{
  flipped-synced_pass, flips_same, keys-synced_pass, lookup-synced_pass, row-synced_pass,
}

-- A row is there with the quota, the usage, the expiry and the rename of another.
abbrev pub KeepsLedger : LandingExit → Option LandingExit → Type 0
KeepsLedger r none = ⊥
KeepsLedger r (some s) =
    (s.quota_bytes ≡ r.quota_bytes)
    × (s.used_bytes ≡ r.used_bytes)
    × (s.expires_at ≡ r.expires_at)
    × (s.name_override ≡ r.name_override)

KeepsLedger-dropped :
    (now : ℕ) (r : LandingExit) → empty_ledger r ≡ false → KeepsLedger r (dropped now (some r))
KeepsLedger-dropped now r full = elim (Bool-cases (r.source == "repo")) [
  | inl repo ↦ rw repo (refl, refl, refl, refl)
  | inr auto ↦
      rw (auto, full)
        (elim (Bool-cases r.present) [
          | inl shown ↦ rw shown (refl, refl, refl, refl)
          | inr gone ↦ rw gone (refl, refl, refl, refl)
        ])
]

KeepsLedger-owned :
    (now : ℕ) (own : Bool) (i : Option LandingExitInput) (r : LandingExit)
    → empty_ledger r ≡ false
    → KeepsLedger r (if own then synced_row now i (some r) else some r)
unfolding synced_row upserted
KeepsLedger-owned now false i r full = (refl, refl, refl, refl)
KeepsLedger-owned now true (some e) r full = (refl, refl, refl, refl)
KeepsLedger-owned now true none r full = KeepsLedger-dropped now r full

flips-again :
    (now later : ℕ) (i : Option LandingExitInput) (o : Option LandingExit)
    → flips (synced_row now i o) (synced_row later i (synced_row now i o)) ≡ false
unfolding synced_row upserted
flips-again now later (some e) none = ground arith
flips-again now later (some e) (some r) = ground arith
flips-again now later none none = refl
flips-again now later none (some r) = ground arith

module _ (now : ℕ) (users : List (ℕ × (String × String))) (user : ℕ) (exits : List LandingExitInput)
    (source : String × String) (t : LandingExits) where
  -- A sync of a user that is there returns. It counts as synced exactly when the user's source is still
  -- the one that was resolved. Then the table holds, under every key of the user, the row of the
  -- specification: the first input of that key, else what remains of the old row; without that, and under
  -- the keys of other users, it holds the old row. The keys of the table being distinct.
  pub lookup-sync_user_landing_exits :
      (current : String × String)
      → distinct (keys t) ≡ true
      → lookup user users ≡ some current
      → (z : Synced) × (sync_user_landing_exits now users user exits source t ≡ some z)
        × (z.synced ≡ (current == source))
        × ((owner : ℕ) (k : LandingExitKey)
            → lookup (owner, k) z.table ≡ (
                if (current == source) && eqb owner user
                then synced_row now (find_input k exits) (lookup (owner, k) t)
                else lookup (owner, k) t))
  unfolding sync_user_landing_exits sync_from
  lookup-sync_user_landing_exits current fresh found =
      rw found (elim (Bool-cases (current == source)) [
        | inl e ↦ rw e (_, refl, refl, λ owner k. row-synced_pass now user exits t fresh owner k)
        | inr e ↦ rw e (_, refl, refl, λ owner k. refl)
      ])

  pub sync_cases :
      (z : Synced)
      → sync_user_landing_exits now users user exits source t ≡ some z
      → ((z.table ≡ t) × (z.flipped ≡ []) × (z.synced ≡ false))
        ⊎ ((z.table ≡ (synced_pass now user exits t).table)
            × (z.flipped ≡ (synced_pass now user exits t).flipped))
  unfolding sync_user_landing_exits sync_from
  sync_cases z e = go (lookup user users) e
    where
      go :
          (o : Option (String × String))
          → sync_from now user exits source t o ≡ some z
          → ((z.table ≡ t) × (z.flipped ≡ []) × (z.synced ≡ false))
            ⊎ ((z.table ≡ (synced_pass now user exits t).table)
                × (z.flipped ≡ (synced_pass now user exits t).flipped))
      go none e = cc
      go (some current) e = elim (Bool-cases (current == source)) [
        | inl c ↦ let h = rw c at e in inr (cc h, cc h)
        | inr c ↦ let h = rw c at e in inl (cc h, cc h, cc h)
      ]

  module _ (fresh : distinct (keys t) ≡ true) (z : Synced)
      (e : sync_user_landing_exits now users user exits source t ≡ some z) where
    pub keys-sync_user_landing_exits : distinct (keys z.table) ≡ true
    keys-sync_user_landing_exits = elim (sync_cases z e) [
      | inl same ↦ rw same.0 fresh
      | inr passed ↦ rw passed.0 (keys-synced_pass now user exits t fresh)
    ]

    pub flipped-sync_user_landing_exits :
        (k : LandingExitKey)
        → has k z.flipped ≡ flips (lookup (user, k) t) (lookup (user, k) z.table)
    flipped-sync_user_landing_exits k = elim (sync_cases z e) [
      | inl same ↦ rw (same.0, same.1, flips_same) (unfold has in refl)
      | inr passed ↦ rw (passed.0, passed.1) (flipped-synced_pass now user exits t fresh k)
    ]

    -- A sync keeps every row that has a quota or a usage, with its quota, usage, expiry and rename, whosever
    -- it is, when the keys of the table are distinct.
    pub ledger-sync_user_landing_exits :
        (owner : ℕ) (k : LandingExitKey) (r : LandingExit)
        → lookup (owner, k) t ≡ some r
        → empty_ledger r ≡ false
        → KeepsLedger r (lookup (owner, k) z.table)
    ledger-sync_user_landing_exits owner k r there full = elim (sync_cases z e) [
      | inl same ↦ rw (same.0, there) (refl, refl, refl, refl)
      | inr passed ↦
          rw (passed.0, row-synced_pass now user exits t fresh owner k, there)
            (KeepsLedger-owned now (eqb owner user) (find_input k exits) r full)
    ]

-- A second sync of the same source, on what a first one has left and at any time, reports no exit.
pub again-sync_user_landing_exits :
    (now later : ℕ) (users : List (ℕ × (String × String))) (user : ℕ)
    (exits : List LandingExitInput) (source : String × String) (t : LandingExits) (z w : Synced)
    → distinct (keys t) ≡ true
    → sync_user_landing_exits now users user exits source t ≡ some z
    → z.synced ≡ true
    → sync_user_landing_exits later users user exits source z.table ≡ some w
    → (k : LandingExitKey) → has k w.flipped ≡ false
again-sync_user_landing_exits now later users user exits source t z w fresh e done e' k =
    let next = keys-sync_user_landing_exits now users user exits source t fresh z e in
    elim (sync_cases now users user exits source t z e) [
      | inl same ↦ cc (same.2, done)
      | inr passed ↦ elim (sync_cases later users user exits source z.table w e') [
        | inl same ↦ rw same.1 (unfold has in refl)
        | inr next_all ↦
            rw
              (
                next_all.1,
                flipped-synced_pass later user exits z.table next k,
                lookup-synced_pass later user exits z.table next k,
                passed.0,
                lookup-synced_pass now user exits t fresh k,
              )
              (flips-again now later (find_input k exits) (lookup (user, k) t))
      ]
    ]
