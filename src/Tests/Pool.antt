-- ===== src/Tests/Pool.antt =====
-- A pool of one connection that is dialed, put in and given out.
use nft.Base.{[], arith, false, length, none, refl, true, ℕ, ◌≤◌}
use nft.Pool.{
  ConnPool, Reach, TimedConn, count, dial_done, dialing, here, next, places, put, putting, receive,
  receiving,
}
use nft.Pool.Owning.{Reach-places}

abbrev start_pool : ConnPool
start_pool = record {
  size = 1;
  idle = [];
  dialed = none;
  cancelled = false;
  handed = [];
  closed = [];
}

abbrev conn : TimedConn
conn = (7, 1000)

abbrev ready_pool : ConnPool
ready_pool = put conn (dial_done conn start_pool)

abbrev used_pool : ConnPool
used_pool = receive 2000 (λ c. true) conn [] ready_pool

start_empty : (k : ℕ) → places k start_pool ≤ 1
unfolding count
start_empty k = omega arith

used-Reach : Reach start_pool used_pool
unfolding count
used-Reach =
    next
      (next (next here (dialing conn refl refl (omega arith) refl))
        (putting conn refl (omega arith) refl))
      (receiving 2000 (λ c. true) conn [] refl refl)

Reach-places_example :
    ((k : ℕ) → (places k used_pool ≤ 1) × (places k start_pool ≤ places k used_pool))
    × (length used_pool.idle ≤ used_pool.size)
Reach-places_example = Reach-places used-Reach start_empty (omega arith)
