-- ===== src/Cycle/Due.antt =====
-- When a cycle's reset is due.
use nft.Base.Int.{ltb_ℤ, negsuc, pos, to_ℕ}
use nft.Cycle.{
  Ledgers, UserTraffic, check_and_reset_traffic_cycle, cycle_start, is_due, period_of, update_where,
  zero_user, zero_user_traffic_ledgers,
}
use native.Mathlib.Nat.{div-add-mod', mod-lt}
use nft.Base.{
  Bool-cases, List, Option, [], arith, eqb, if◌then◌else◌, inl, inr, none, refl, some, suc, true,
  zero, ℕ, ◌*◌, ◌+◌, ◌-◌, ◌/◌, ◌<◌, ◌↔◌, ◌∷◌, ◌≡◌, ◌≤◌,
}

abbrev pub cycle_of : ℕ → UserTraffic → ℕ
cycle_of now u = (now - u.created_at) / period_of u

le_mul : (a b p : ℕ) → a ≤ b → a * p ≤ b * p
le_mul a b zero h = omega arith
le_mul a b (suc p) h = omega (arith, h, le_mul a b p h)

div_between : (e p : ℕ) → 0 < p → ((e / p) * p ≤ e) × (e < (e / p) * p + p)
div_between e p h =
    let split = div-add-mod' e p in
    let rest = mod-lt e h in (omega (arith, split), omega (arith, split, rest))

-- A reset within an earlier cycle is one of before this cycle's start.
cycle_lt :
    (first later last p : ℕ)
    → 0 < p
    → first ≤ later
    → (first / p) * p ≤ last
    → last ≤ first
    → (last < (later / p) * p) ↔ (first / p < later / p)
cycle_lt first later last p pos_p le lo hi = (
  λ h. ground (arith, h, lo, le_mul (later / p) (first / p) p),
  λ h.
      let next = le_mul (suc (first / p)) (later / p) p h in
      omega (arith, next, hi, (div_between first p pos_p).1),
)

-- The first row of a user.
unfoldable pub user_row : ℕ → List UserTraffic → Option UserTraffic
user_row id [] = none
user_row id (u ∷ us) = if eqb u.id id then some u else user_row id us

user_row-update :
    (id now : ℕ) (us : List UserTraffic) (u : UserTraffic)
    → user_row id us ≡ some u
    → user_row id (update_where (λ v. eqb v.id id) (zero_user now) us) ≡ some (zero_user now u)
unfolding user_row update_where
user_row-update id now [] u e = cc e
user_row-update id now (v ∷ us) u e = elim (Bool-cases (eqb v.id id)) [
  | inl same ↦ ground (arith, e, same)
  | inr ne ↦ ground (arith, e, ne, user_row-update id now us u)
]

period_pos : (u : UserTraffic) → ltb_ℤ (pos 0) u.traffic_reset_days ≡ true → 0 < period_of u
period_pos u on =
    elim u.traffic_reset_days as (λ d. ltb_ℤ (pos 0) d ≡ true → 0 < to_ℕ d * 86400) [
      | pos n ↦ λ h. ground (arith, h)
      | negsuc n ↦ λ h. absurd (cc h)
    ]
      on

cycle_start_le :
    (now : ℕ) (u : UserTraffic)
    → ltb_ℤ (pos 0) u.traffic_reset_days ≡ true
    → u.created_at ≤ now
    → cycle_start now u ≤ now
cycle_start_le now u on born =
    omega (arith, born, (div_between (now - u.created_at) (period_of u) (period_pos u on)).0)

is_due_iff :
    (first later : ℕ) (u : UserTraffic)
    → ltb_ℤ (pos 0) u.traffic_reset_days ≡ true
    → u.created_at ≤ first
    → first ≤ later
    → cycle_start first u ≤ u.last_traffic_reset_at
    → u.last_traffic_reset_at ≤ first
    → (is_due later u ≡ true) ↔ (cycle_of first u < cycle_of later u)
unfolding is_due
is_due_iff first later u on born le lo hi =
    let c : ℕ = u.created_at in
    let last : ℕ = u.last_traffic_reset_at in
    let (to, from) =
      cycle_lt (first - c) (later - c) (last - c) (period_of u) (period_pos u on)
        (omega (arith, born, le)) (omega (arith, lo)) (omega (arith, hi)) in
    (λ h. to (ground (arith, h, lo)), λ h. ground (arith, from h, on, born, le, lo))

-- The user's row after a check.
abbrev settled : ℕ → UserTraffic → UserTraffic
settled first u = if is_due first u then zero_user first u else u

check_row :
    (first : ℕ) (u : UserTraffic) (l : Ledgers)
    → user_row u.id l.users ≡ some u
    → user_row u.id (check_and_reset_traffic_cycle first u l).1.users ≡ some (settled first u)
unfolding check_and_reset_traffic_cycle zero_user_traffic_ledgers
check_row first u l row = elim (Bool-cases (is_due first u)) [
  | inl due ↦ rw due (user_row-update u.id first l.users u row)
  | inr not_due ↦ rw not_due row
]

check_answer :
    (now : ℕ) (u : UserTraffic) (l : Ledgers)
    → (check_and_reset_traffic_cycle now u l).0 ≡ is_due now u
unfolding check_and_reset_traffic_cycle
check_answer now u l = ground arith

-- Checking leaves the last reset within the cycle.
settled_lem :
    (first : ℕ) (u : UserTraffic)
    → ltb_ℤ (pos 0) u.traffic_reset_days ≡ true
    → u.created_at ≤ first
    → u.last_traffic_reset_at ≤ first
    → (cycle_start first u ≤ (settled first u).last_traffic_reset_at)
      × ((settled first u).last_traffic_reset_at ≤ first)
unfolding is_due
settled_lem first u on born past = ground (arith, cycle_start_le first u on born, on, born, past)

settled_same :
    (first : ℕ) (u : UserTraffic)
    → ((settled first u).created_at ≡ u.created_at)
      × ((settled first u).traffic_reset_days ≡ u.traffic_reset_days)
settled_same first u = ground arith

same_cycle :
    (v u : UserTraffic)
    → v.created_at ≡ u.created_at
    → v.traffic_reset_days ≡ u.traffic_reset_days
    → (n : ℕ) → (cycle_of n v ≡ cycle_of n u) × (cycle_start n v ≡ cycle_start n u)
same_cycle v u c d n = rw (c, d) (refl, refl)

-- Once the cycle has been checked, a later check of the same user resets exactly when a boundary of the
-- cycle lies between the two, so at most once in a cycle; the clock not going back, and the last reset
-- not in the future.
pub reset_once_a_cycle :
    (first later : ℕ) (u : UserTraffic) (l : Ledgers)
    → user_row u.id l.users ≡ some u
    → ltb_ℤ (pos 0) u.traffic_reset_days ≡ true
    → u.created_at ≤ first
    → first ≤ later
    → u.last_traffic_reset_at ≤ first
    → (u' : UserTraffic) × (user_row u.id (check_and_reset_traffic_cycle first u l).1.users
        ≡ some u')
      × (((check_and_reset_traffic_cycle later u' (check_and_reset_traffic_cycle first u l).1).0
            ≡ true)
          ↔ (cycle_of first u < cycle_of later u))
reset_once_a_cycle first later u l row on born le past =
    let v : UserTraffic = settled first u in
    let (same_created, same_days) = settled_same first u in
    let (lo, hi) = settled_lem first u on born past in
    let cycles = same_cycle v u same_created same_days in
    let iff =
      is_due_iff first later v (rw same_days on) (omega (arith, born, same_created)) le
        (omega (arith, lo, (cycles first).1)) hi in
    (
      v,
      check_row first u l row,
      rw check_answer (
        λ h. omega (arith, iff.0 h, (cycles first).0, (cycles later).0),
        λ h. iff.1 (omega (arith, h, (cycles first).0, (cycles later).0)),
      ),
    )
