-- ===== src/Login/Guessing.antt =====
-- How many wrong guesses one key can make.
use nft.Base.{
  All, Bool-cases, List, Option, [], arith, if◌then◌else◌, inl, inr, ltb, none, refl, some, true, ℕ,
  ◌&&◌, ◌+◌, ◌-◌, ◌<◌, ◌∷◌, ◌≡◌, ◌≤◌,
}
use nft.Login.{
  LoginAttempt, count_failure, current, fresh, login_lockout, login_max_failures, login_window,
  may_attempt,
}
use nft.Login.Keys.{fail, key_step}

-- The login handler asks first, then compares the password, and then records a failure; other requests run
-- in between.
pub data Attempt : Type 0 where
  ask wrong : ℕ → Attempt

abbrev pub time_of : Attempt → ℕ
time_of (ask t) = t
time_of (wrong t) = t

-- How many guesses are let in, when at most `most` of them are being compared at a time, `flying` of them
-- now, and each turns out wrong.
unfoldable pub admitted : ℕ → List Attempt → ℕ → Option LoginAttempt → ℕ
admitted most [] flying a = 0
admitted most (ask t ∷ es) flying a =
    let let_in = 1 + admitted most es (flying + 1) a in
    let turned_away = admitted most es flying a in
    if may_attempt t a && ltb flying most then let_in else turned_away
admitted most (wrong t ∷ es) flying a =
    let recorded = admitted most es (flying - 1) (key_step fail t a) in
    let nothing = admitted most es flying a in if ltb 0 flying then recorded else nothing

abbrev pub Within : ℕ → ℕ → Type 0
Within start t = (start ≤ t) × (t < start + login_window)

-- What one more failure does to an entry.
count_failure_lem :
    (now : ℕ) (a : LoginAttempt)
    → ((count_failure now a).failures ≡ a.failures + 1)
      × ((count_failure now a).window_start ≡ a.window_start)
      × (login_max_failures ≤ a.failures + 1
          → (count_failure now a).locked_until ≡ now + login_lockout)
unfolding count_failure
count_failure_lem now a = ground arith

module _ (start most : ℕ) where
  -- Locked for the rest of the ten minutes.
  admitted-locked :
      (es : List Attempt) (flying : ℕ) (a : LoginAttempt)
      → All (λ e. Within start (time_of e)) es
      → start ≤ a.window_start
      → login_max_failures ≤ a.failures
      → start + login_lockout ≤ a.locked_until
      → admitted most es flying (some a) ≡ 0
  unfolding admitted may_attempt key_step current
  admitted-locked [] flying a inside began full locked = refl
  admitted-locked (ask t ∷ es) flying a inside began full locked =
      let away : ltb t a.locked_until ≡ true = ground (arith, inside.0.1, locked) in
      rw away (admitted-locked es flying a inside.1 began full locked)
  admitted-locked (wrong t ∷ es) flying a inside began full locked =
      let next : LoginAttempt = count_failure t a in
      let (more, kept_start, lock) = count_failure_lem t a in
      let same : current t (some a) ≡ a = ground (arith, began, inside.0.0, inside.0.1) in
      let again =
        admitted-locked es (flying - 1) next inside.1 (omega (arith, kept_start, began))
          (omega (arith, more, full))
          (let set = lock (omega (arith, full)) in omega (arith, set, inside.0.0)) in
      ground (arith, same, again, admitted-locked es flying a inside.1 began full locked)

  admitted-lt :
      (es : List Attempt) (flying : ℕ) (a : LoginAttempt)
      → All (λ e. Within start (time_of e)) es
      → start ≤ a.window_start
      → flying ≤ most
      → a.failures < login_max_failures
      → admitted most es flying (some a) + flying + a.failures < login_max_failures + most
  unfolding admitted key_step current
  admitted-lt [] flying a inside began few left = omega (arith, few, left)
  admitted-lt (ask t ∷ es) flying a inside began few left =
      let away = admitted-lt es flying a inside.1 began few left in
      elim (Bool-cases (may_attempt t (some a) && ltb flying most)) [
        | inl through ↦
            let room : flying < most = ground (arith, through) in
            let more = admitted-lt es (flying + 1) a inside.1 began (omega (arith, room)) left in
            rw through (omega (arith, more))
        | inr turned ↦ rw turned away
      ]
  admitted-lt (wrong t ∷ es) flying a inside began few left =
      let next : LoginAttempt = count_failure t a in
      let (more, kept_start, lock) = count_failure_lem t a in
      let same : current t (some a) ≡ a = ground (arith, began, inside.0.0, inside.0.1) in
      let later_start : start ≤ next.window_start = omega (arith, kept_start, began) in
      let away = admitted-lt es flying a inside.1 began few left in
      elim (Bool-cases (ltb 0 flying)) [
        | inr grounded ↦ rw grounded away
        | inl some_fly ↦ elim (Bool-cases (ltb next.failures login_max_failures)) [
          | inl below ↦
              let ih =
                admitted-lt es (flying - 1) next inside.1 later_start (omega (arith, few))
                  (ground (arith, below)) in
              let one : 0 < flying = ground (arith, some_fly) in
              rw (some_fly, same) (omega (arith, ih, more, one))
          | inr reached ↦
              let full : login_max_failures ≤ next.failures = ground (arith, reached) in
              let none_in =
                admitted-locked es (flying - 1) next inside.1 later_start full
                  (let set = lock (omega (arith, full, more)) in omega (arith, set, inside.0.0)) in
              rw (some_fly, same) (omega (arith, none_in, few, left))
        ]
      ]

  admitted-lt_fresh :
      (es : List Attempt) (flying : ℕ)
      → All (λ e. Within start (time_of e)) es
      → flying ≤ most
      → admitted most es flying none + flying < login_max_failures + most
  unfolding admitted key_step current may_attempt
  admitted-lt_fresh [] flying inside few = omega (arith, few)
  admitted-lt_fresh (ask t ∷ es) flying inside few =
      let away = admitted-lt_fresh es flying inside.1 few in
      elim (Bool-cases (ltb flying most)) [
        | inl room ↦
            let more = admitted-lt_fresh es (flying + 1) inside.1 (ground (arith, room)) in
            rw room (omega (arith, more))
        | inr turned ↦ rw turned away
      ]
  admitted-lt_fresh (wrong t ∷ es) flying inside few =
      let (more, kept_start, lock) = count_failure_lem t (fresh t) in
      let away = admitted-lt_fresh es flying inside.1 few in
      elim (Bool-cases (ltb 0 flying)) [
        | inr grounded ↦ rw grounded away
        | inl some_fly ↦
            let ih =
              admitted-lt es (flying - 1) (count_failure t (fresh t)) inside.1
                (omega (arith, kept_start, inside.0.0)) (omega (arith, few))
                (omega (arith, more)) in
            let one : 0 < flying = ground (arith, some_fly) in
            rw some_fly (omega (arith, ih, more, one))
      ]

  -- From a clean start, however the requests of one key interleave within ten minutes, fewer wrong guesses
  -- than eight and the number that the panel compares at a time are let in: eight, when it compares one
  -- after the other.
  pub guesses_bounded :
      (es : List Attempt)
      → All (λ e. Within start (time_of e)) es
      → admitted most es 0 none < login_max_failures + most
  guesses_bounded es inside = omega (arith, admitted-lt_fresh es 0 inside (omega arith))
