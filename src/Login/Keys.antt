-- ===== src/Login/Keys.antt =====
-- The limiter as its users may think of it: each key has a machine of its own, which forgets nothing.

use nft.Base.{
  List, Option, String, [], if◌then◌else◌, nat_eq, none, pair_eq, some, string_eq, ℕ, ◌==◌, ◌∷◌,
  ◌≤◌,
}
use nft.Login.{
  LoginAttempt, LoginLimiter, allowed, count_failure, current, record_failure, record_success,
}

pub data Call : Type 0 where
  ask fail succeed : Call

-- A call at a time for a key.
pub record Event : Type 0 where
  pub at : ℕ
  pub key : String
  pub call : Call

-- The limiter runs the calls of all keys.
unfoldable pub serve_call : Call → ℕ → String → LoginLimiter → LoginLimiter
serve_call ask now key l = (allowed now key l).1
serve_call fail now key l = record_failure now key l
serve_call succeed now key l = record_success now key l

abbrev pub serve : Event → LoginLimiter → LoginLimiter
serve e l = serve_call e.call e.at e.key l

unfoldable pub serve_all : List Event → LoginLimiter → LoginLimiter
serve_all [] l = l
serve_all (e ∷ es) l = serve_all es (serve e l)

-- A key's machine sees its own calls alone, and only a success clears it.
unfoldable pub key_step : Call → ℕ → Option LoginAttempt → Option LoginAttempt
key_step ask now a = a
key_step fail now a = some (count_failure now (current now a))
key_step succeed now a = none

unfoldable pub key_all : String → List Event → Option LoginAttempt → Option LoginAttempt
key_all key [] a = a
key_all key (e ∷ es) a = key_all key es (if e.key == key then key_step e.call e.at a else a)

-- The clock does not go back, from a first reading on.
abbrev pub Forward : ℕ → List Event → Type 0
Forward t [] = Unit
Forward t (e ∷ es) = (t ≤ e.at) × Forward e.at es

-- The last reading.
abbrev pub last_time : ℕ → List Event → ℕ
last_time t [] = t
last_time t (e ∷ es) = last_time e.at es
