-- ===== src/Upgrade/Settling.antt =====
-- How the state of an upgrade changes with time.
use nft.Base.{
  Bool-cases, List, Option, String, [], arith, false, if◌then◌else◌, inl, inr, nat_eq, none,
  pair_eq, refl, some, string_eq, subst, sym, true, ℕ, ◌&&◌, ◌+◌, ◌<◌, ◌==◌, ◌∷◌, ◌≡◌, ◌≢◌, ◌≤◌,
  ◌⊎◌,
}
use nft.Upgrade.{
  Semver, UpgradeRow, UpgradeStatus, derive_upgrade_status, has_text, no_upgrade, parse_semver,
  parsed_ge, pending, segments_ge, semver_ge, status_of, status_since, stuck, text_ge, up_to_date,
  upgrade_grace,
}

text_ge-total : (a b : List ℕ) → (text_ge a b ≡ true) ⊎ (text_ge b a ≡ true)
unfolding text_ge
text_ge-total a [] = inl refl
text_ge-total [] (d ∷ ds) = inr refl
text_ge-total (c ∷ cs) (d ∷ ds) = ground (arith, text_ge-total cs ds)

segments_ge-total : (p q : Semver) → (segments_ge p q ≡ true) ⊎ (segments_ge q p ≡ true)
segments_ge-total (a, (b, c)) (x, (y, z)) = ground arith

parsed_ge-total :
    (p q : Option Semver) (a b : List ℕ) → (parsed_ge p q a b ≡ true) ⊎ (parsed_ge q p b a ≡ true)
parsed_ge-total (some p) (some q) a b = segments_ge-total p q
parsed_ge-total (some p) none a b = text_ge-total a b
parsed_ge-total none (some q) a b = text_ge-total a b
parsed_ge-total none none a b = text_ge-total a b

-- Of any two versions, one is at least the other, whether they parse or not.
pub semver_ge-total : (a b : List ℕ) → (semver_ge a b ≡ true) ⊎ (semver_ge b a ≡ true)
unfolding semver_ge
semver_ge-total a b = parsed_ge-total (parse_semver a) (parse_semver b) a b

-- The only change that time alone brings.
abbrev pub Moves : ℕ → ℕ → ℕ → UpgradeStatus → UpgradeStatus → Type 0
Moves at now later before after =
    (after ≡ before)
    ⊎ ((before ≡ pending)
        × (after ≡ stuck)
        × (now ≤ at + upgrade_grace)
        × (at + upgrade_grace < later))

status_since-Moves :
    (n : UpgradeRow) (at now later : ℕ)
    → now ≤ later
    → Moves at now later (status_since n now at) (status_since n later at)
      × (at + upgrade_grace < later → status_since n later at ≢ pending)
unfolding status_since
status_since-Moves n at now later le = elim (Bool-cases (n.last_upgrade_status == "error")) [
  | inl failed ↦ rw failed (inl refl, λ h e. cc e)
  | inr fine ↦
      elim (Bool-cases
        (has_text n.last_upgrade_version && semver_ge n.agent_version n.last_upgrade_version)) [
          | inl taken ↦ rw (fine, taken) (inl refl, λ h e. cc e)
          | inr not_yet ↦ rw (fine, not_yet) (ground (arith, le))
        ]
]

abbrev Settles : ℕ → ℕ → ℕ → (ℕ → UpgradeStatus) → Type 0
Settles at now later status =
    Moves at now later (status now) (status later)
    × (at + upgrade_grace < later → status later ≢ pending)

status_of-Settles :
    (n : UpgradeRow) (server : List ℕ) (sha : String) (at now later : ℕ)
    → now ≤ later
    → Settles at now later (λ t. status_of n server sha t (some at))
unfolding status_of
status_of-Settles n server sha at now later le =
    elim (up_to_date n server sha)
      as (λ b. Settles at now later (λ t. if b then no_upgrade else status_since n t at)) [
        | true ↦ (inl refl, λ h e. cc e)
        | false ↦ status_since-Moves n at now later le
      ]

-- While a node reports nothing new, its upgrade changes state at most once, from pending to stuck as the
-- grace period ends, and after that it is not pending: an upgrade that takes no effect does not look
-- pending for ever.
pub derive_upgrade_status_settles :
    (n : UpgradeRow) (server : List ℕ) (sha : String) (at now later : ℕ)
    → n.last_upgrade_at ≡ some at
    → now ≤ later
    → Moves at now later
        (derive_upgrade_status n server sha now)
        (derive_upgrade_status n server sha later)
      × (at + upgrade_grace < later → derive_upgrade_status n server sha later ≢ pending)
derive_upgrade_status_settles n server sha at now later since le =
    subst (λ o. Settles at now later (λ t. status_of n server sha t o)) (sym since)
      (status_of-Settles n server sha at now later le)
