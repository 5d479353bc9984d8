-- ===== src/Tests/Telemetry.antt =====
-- A daemon whose first batch is refused, whose second is lost on the way, and whose third waits.
use nft.Base.{
  List, [], arith, distinct, false, has, nat_eq, pair_eq, refl, some, string_eq, true, ℕ, ◌+◌, ◌∷◌,
  ◌≡◌,
}
use nft.Base.Assoc.{delete, get_or, insert, lookup}
use nft.Counters.{
  Counter, Key, add_deltas, counter_samples, delta, elapsed_since, fold_counter, fold_counters,
  grow, park, parked, prune, re_add, re_add_counters, rewind, to_samples,
}
use nft.Counters.Growth.{reading}
use nft.Counters.Sampling.{reported_down, reported_up}
use nft.Telemetry.{
  Event, ack, counters_ack, counters_tick, handle, run_frames, send_counters, sweep,
  take_pending_counters, tick, track_pending_counters,
}
use nft.Telemetry.Books.{book, book_all, no_account}
use nft.Telemetry.Waiting.{waiting_down, waiting_up}
use nft.Telemetry.Delivery.{delivered_once, first_channel}

abbrev web : Key
web = ("tcp", 8443)

abbrev web_at : ℕ → ℕ → List Counter
web_at up down = record { proto = "tcp"; listen_port = 8443; bytes_up = up; bytes_down = down } ∷ []

abbrev frames : List Event
frames =
    tick (some (web_at 100 10)) 1000 true
    ∷ ack 1 false
    ∷ tick (some (web_at 150 20)) 2000 false
    ∷ tick (some (web_at 170 30)) 3000 true
    ∷ ack 9 true
    ∷ ack 3 true
    ∷ tick (some (web_at 200 40)) 4000 true
    ∷ []

-- The third frame carried all of the 170 bytes, and was acked.
settles_once : (book_all web frames first_channel no_account).settled_up ≡ 170
unfolding book_all book handle counters_tick counters_ack send_counters track_pending_counters
    take_pending_counters sweep counter_samples fold_counters fold_counter add_deltas grow delta
    parked prune to_samples re_add_counters re_add park rewind reported_up insert delete lookup
    get_or has elapsed_since
settles_once = refl

delivered_once_example :
    let end = run_frames frames first_channel in
    let a = book_all web frames first_channel no_account in
    let t = counter_samples (some (web_at 260 45)) 5000 end.sampler in
    (a.settled_up + a.lost_up + waiting_up web end.pending_counters + reported_up web t.0 ≡ 260)
    × (a.settled_down + a.lost_down + waiting_down web end.pending_counters + reported_down web t.0
        ≡ 45)
delivered_once_example =
    delivered_once web frames (web_at 260 45) 5000 true (260, 45)
      (unfold distinct has reading in
        (
          refl,
          (
            (100, 10),
            refl,
            omega arith,
            omega arith,
            (
              refl,
              (
                (150, 20),
                refl,
                omega arith,
                omega arith,
                (
                  refl,
                  (
                    (170, 30),
                    refl,
                    omega arith,
                    omega arith,
                    (
                      refl,
                      (
                        (200, 40),
                        refl,
                        omega arith,
                        omega arith,
                        (refl, ((260, 45), refl, omega arith, omega arith, tt)),
                      ),
                    ),
                  ),
                ),
              ),
            ),
          ),
        ))
      (unfold reading in refl)
