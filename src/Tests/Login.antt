-- ===== src/Tests/Login.antt =====
-- Runs of the login limiter.
use nft.Base.Assoc.{delete, insert, lookup}
use nft.Base.{List, [], arith, nat_eq, none, pair_eq, refl, string_eq, ℕ, ◌*◌, ◌+◌, ◌<◌, ◌∷◌, ◌≡◌}
use nft.Login.{
  allowed, count_failure, current, login_max_failures, may_attempt, prune_locked, record_failure,
  record_success,
}
use nft.Login.Keys.{Event, ask, fail, key_all, serve_all, serve_call, succeed}
use nft.Login.Pruning.{allowed-key_all}
use nft.Login.Guessing.{Attempt, admitted, ask, guesses_bounded, wrong}

abbrev minute : ℕ
minute = 60_000_000_000

abbrev noon : ℕ
noon = 63_000_000_000 * 1_000_000_000

-- Two wrong guesses for ann, one of bob, and then a login of bob eleven minutes later.
abbrev morning : List Event
morning =
    record { at = noon; key = "ann"; call = fail }
    ∷ record { at = noon + minute; key = "bob"; call = fail }
    ∷ record { at = noon + 2 * minute; key = "ann"; call = fail }
    ∷ record { at = noon + 13 * minute; key = "bob"; call = succeed }
    ∷ []

bob_pruned : lookup "bob" (serve_all morning []) ≡ none
unfolding serve_all serve_call record_success delete prune_locked record_failure insert
    count_failure current lookup
bob_pruned = refl

allowed-key_all_example :
    (allowed (noon + 14 * minute) "ann" (serve_all morning [])).0
    ≡ may_attempt (noon + 14 * minute) (key_all "ann" morning none)
allowed-key_all_example =
    allowed-key_all noon (noon + 14 * minute) morning "ann"
      (omega arith, (omega arith, (omega arith, (omega arith, tt)))) (omega arith)

-- Two guesses in flight at once.
abbrev three_tries : List Attempt
three_tries =
    ask noon ∷ ask (noon + minute) ∷ wrong (noon + minute) ∷ wrong (noon + 2 * minute) ∷ []

guesses_bounded_example : admitted 2 three_tries 0 none < login_max_failures + 2
guesses_bounded_example = guesses_bounded noon 2 three_tries (
  (omega arith, omega arith),
  ((omega arith, omega arith), ((omega arith, omega arith), ((omega arith, omega arith), tt))),
)
