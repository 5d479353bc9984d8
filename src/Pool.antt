-- ===== src/Pool.antt =====
-- internal/forward/connpool.go: the pool of connections that a listener keeps ready. A connection is a
-- number, that of its socket; a time is in nanoseconds. The goroutine that fills the pool holds at most
-- one connection that it has dialed and not yet put in. Every receive from the channel and every send to
-- it is one step, so that calls of Get, the goroutine and Close come in any order.
pub mod Owning
use nft.Base.{
  Bool, List, Option, [], eqb, if◌then◌else◌, length, ltb, none, some, true, ℕ, ◌++◌, ◌+◌, ◌<◌, ◌∷◌,
  ◌≡◌,
}

abbrev pub TimedConn : Type 0
TimedConn = ℕ × ℕ

abbrev pub pool_conn_max_age : ℕ
pool_conn_max_age = 90_000_000_000

pub record ConnPool : Type 0 where
  pub size : ℕ
  pub idle : List TimedConn
  -- Dialed by the filling goroutine, not yet in the channel.
  pub dialed : Option TimedConn
  pub cancelled : Bool
  -- Given out by Get, and closed by the pool.
  pub handed : List ℕ
  pub closed : List ℕ

abbrev pub hand_out : ℕ → ConnPool → ConnPool
hand_out c p = record p { handed = c ∷ p.handed }

abbrev pub close_conn : ℕ → ConnPool → ConnPool
close_conn c p = record p { closed = c ∷ p.closed }

-- Get: one turn of its loop, for a connection that it has received from the channel.
unfoldable pub receive : ℕ → (ℕ → Bool) → TimedConn → List TimedConn → ConnPool → ConnPool
receive now alive tc rest p =
    let taken : ConnPool = record p { idle = rest } in
    if ltb (tc.1 + pool_conn_max_age) now
    then close_conn tc.0 taken
    else if alive tc.0
    then hand_out tc.0 taken
    else close_conn tc.0 taken

abbrev pub conns : List TimedConn → List ℕ
conns [] = []
conns ((c, created) ∷ idle) = c ∷ conns idle

-- replenish has dialed, has put the connection in, or has found the pool closed.
abbrev pub dial_done : TimedConn → ConnPool → ConnPool
dial_done tc p = record p { dialed = some tc }

abbrev pub put : TimedConn → ConnPool → ConnPool
put tc p = record p { idle = p.idle ++ tc ∷ []; dialed = none }

abbrev pub give_up : TimedConn → ConnPool → ConnPool
give_up tc p = record p { dialed = none; closed = tc.0 ∷ p.closed }

-- Close: the cancellation, and the draining of one connection, once the goroutine has ended.
abbrev pub cancel : ConnPool → ConnPool
cancel p = record p { cancelled = true }

abbrev pub drain : TimedConn → List TimedConn → ConnPool → ConnPool
drain tc rest p = close_conn tc.0 (record p { idle = rest })

unfoldable pub count : ℕ → List ℕ → ℕ
count k [] = 0
count k (c ∷ cs) = let rest = count k cs in if eqb c k then 1 + rest else rest

abbrev pub count_dialed : ℕ → Option TimedConn → ℕ
count_dialed k none = 0
count_dialed k (some tc) = if eqb tc.0 k then 1 else 0

-- In how many places a connection is.
abbrev pub places : ℕ → ConnPool → ℕ
places k p =
    count k (conns p.idle) + count_dialed k p.dialed + (count k p.handed + count k p.closed)

-- Get dials only when the channel is empty, the goroutine only when it is not full. A new socket is none
-- of those that the pool has seen.
pub data Step (p q : ConnPool) : Type 0 where
  receiving :
      (now : ℕ) (alive : ℕ → Bool) (tc : TimedConn) (rest : List TimedConn)
      → p.idle ≡ tc ∷ rest
      → q ≡ receive now alive tc rest p
      → Step p q
  falling_back : (c : ℕ) → places c p ≡ 0 → p.idle ≡ [] → q ≡ hand_out c p → Step p q
  dialing :
      (tc : TimedConn)
      → places tc.0 p ≡ 0
      → p.dialed ≡ none
      → length p.idle < p.size
      → q ≡ dial_done tc p
      → Step p q
  putting : (tc : TimedConn) → p.dialed ≡ some tc → length p.idle < p.size → q ≡ put tc p → Step p q
  giving_up :
      (tc : TimedConn) → p.dialed ≡ some tc → p.cancelled ≡ true → q ≡ give_up tc p → Step p q
  cancelling : q ≡ cancel p → Step p q
  draining :
      (tc : TimedConn) (rest : List TimedConn)
      → p.cancelled ≡ true
      → p.dialed ≡ none
      → p.idle ≡ tc ∷ rest
      → q ≡ drain tc rest p
      → Step p q

pub data Reach (p : ConnPool) : ConnPool → Type 0 where
  here : Reach p p
  next : {q r : ConnPool} → Reach p q → Step q r → Reach p r
