-- ===== src/Login.antt =====
-- internal/server/loginlimit.go: the guard against guessing passwords. A time is a number of nanoseconds
-- since Go's zero time, so that a zero `lockedUntil` lies before every clock reading; the mutex makes
-- each operation one step, and one reading of the clock stands for the two that it may take. A map of
-- Go is an association list.
pub mod Keys
pub mod Pruning
pub mod Guessing
use nft.Base.{
  Bool, List, Option, String, [], if◌then◌else◌, leb, ltb, nat_eq, none, not, pair_eq, some,
  string_eq, true, ℕ, ◌&&◌, ◌+◌, ◌∷◌,
}
use nft.Base.Assoc.{delete, insert, lookup}

abbrev pub login_max_failures : ℕ
login_max_failures = 8

-- Ten minutes, both.
abbrev pub login_window : ℕ
login_window = 600_000_000_000

abbrev pub login_lockout : ℕ
login_lockout = 600_000_000_000

pub record LoginAttempt : Type 0 where
  pub failures : ℕ
  pub window_start : ℕ
  pub locked_until : ℕ

abbrev pub LoginLimiter : Type 0
LoginLimiter = List (String × LoginAttempt)

-- now.Sub(a.windowStart) > loginWindow
abbrev pub window_elapsed : ℕ → LoginAttempt → Bool
window_elapsed now a = ltb (a.window_start + login_window) now

abbrev pub is_stale : ℕ → LoginAttempt → Bool
is_stale now a = window_elapsed now a && ltb a.locked_until now

unfoldable pub prune_locked : ℕ → LoginLimiter → LoginLimiter
prune_locked now [] = []
prune_locked now ((key, a) ∷ l) =
    let rest = prune_locked now l in if is_stale now a then rest else (key, a) ∷ rest

unfoldable pub may_attempt : ℕ → Option LoginAttempt → Bool
may_attempt now none = true
may_attempt now (some a) = not (ltb now a.locked_until)

abbrev pub fresh : ℕ → LoginAttempt
fresh now = record { failures = 0; window_start = now; locked_until = 0 }

-- The entry that a failure counts toward: a new one when there is none, or its window has elapsed.
unfoldable pub current : ℕ → Option LoginAttempt → LoginAttempt
current now none = fresh now
current now (some a) = if window_elapsed now a then fresh now else a

unfoldable pub count_failure : ℕ → LoginAttempt → LoginAttempt
count_failure now a =
    if leb login_max_failures (a.failures + 1)
    then record a { failures = a.failures + 1; locked_until = now + login_lockout }
    else record a { failures = a.failures + 1 }

-- The operations. Asking prunes too, so it returns the limiter as well.
unfoldable pub allowed : ℕ → String → LoginLimiter → Bool × LoginLimiter
allowed now key l = let pruned = prune_locked now l in (may_attempt now (lookup key pruned), pruned)

unfoldable pub record_failure : ℕ → String → LoginLimiter → LoginLimiter
record_failure now key l =
    let pruned = prune_locked now l in
    insert key (count_failure now (current now (lookup key pruned))) pruned

unfoldable pub record_success : ℕ → String → LoginLimiter → LoginLimiter
record_success now key l = delete key (prune_locked now l)
