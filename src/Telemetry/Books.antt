-- ===== src/Telemetry/Books.antt =====
-- The books of one key over the frames of a daemon: what was acked and what was dropped.
use nft.Base.{
  List, [], distinct, if◌then◌else◌, map, nat_eq, none, pair_eq, some, string_eq, true, ℕ, ◌+◌, ◌-◌,
  ◌∷◌, ◌≡◌, ◌≤◌,
}
use nft.Counters.{Key, Sample, counter_key, counter_samples}
use nft.Counters.Growth.{reading}
use nft.Counters.Sampling.{IsMap, reported_down, reported_up}
use nft.Telemetry.{Channel, Event, Pending, ack, capped, handle, sweep, take_pending_counters, tick}
use nft.Telemetry.Parking.{cursor, parked_at}
use nft.Telemetry.Waiting.{Issued, waiting_down, waiting_up}

-- Of one key: the bytes of the batches that were acked, and of those that were dropped unanswered.
pub record Account : Type 0 where
  pub settled_up : ℕ
  pub settled_down : ℕ
  pub lost_up : ℕ
  pub lost_down : ℕ

abbrev pub no_account : Account
no_account = record { settled_up = 0; settled_down = 0; lost_up = 0; lost_down = 0 }

-- What tracking a batch drops: an empty batch is not tracked.
abbrev pub drop_unanswered : Key → List Sample → ℕ → Pending → Account → Account
drop_unanswered k [] now m a = a
drop_unanswered k (s ∷ samples) now m a = record a {
  lost_up = a.lost_up + (waiting_up k m - waiting_up k (capped (sweep now m)));
  lost_down = a.lost_down + (waiting_down k m - waiting_down k (capped (sweep now m)));
}

unfoldable pub book : Key → Event → Channel → Account → Account
book k (tick reading now written) ch a =
    drop_unanswered k (counter_samples reading now ch.sampler).0 now ch.pending_counters a
book k (ack id accepted) ch a =
    let taken = (take_pending_counters id ch.pending_counters).0 in
    if accepted
    then record a {
      settled_up = a.settled_up + reported_up k taken;
      settled_down = a.settled_down + reported_down k taken;
    }
    else a

unfoldable pub book_all : Key → List Event → Channel → Account → Account
book_all k [] ch a = a
book_all k (e ∷ es) ch a = book_all k es (handle e ch) (book k e ch a)

-- The readings list each key once and have the key `k`, whose counter does not go down from `seen` on.
-- A tick may find no reading.
abbrev pub Steady : Key → ℕ × ℕ → List Event → Type 0
Steady k seen [] = Unit
Steady k seen (ack id accepted ∷ es) = Steady k seen es
Steady k seen (tick none now written ∷ es) = Steady k seen es
Steady k seen (tick (some cs) now written ∷ es) =
    (distinct (map counter_key cs) ≡ true)
    × ((c : ℕ × ℕ) × (reading k cs ≡ some c) × (seen.0 ≤ c.0) × (seen.1 ≤ c.1) × Steady k c es)

-- The books balance, with `up` and `down` bytes just reported.
pub record Books (k : Key) (seen : ℕ × ℕ) (a : Account) (up down : ℕ) (ch : Channel) : Type 0 where
  pub ledgers : IsMap ch.sampler
  pub issued : Issued ch.id_seq ch.pending_counters
  pub ups :
      a.settled_up + a.lost_up + waiting_up k ch.pending_counters + up + (parked_at k ch.sampler).0
      ≡ (cursor k ch.sampler).0
  pub downs :
      a.settled_down
        + a.lost_down
        + waiting_down k ch.pending_counters
        + down
        + (parked_at k ch.sampler).1
      ≡ (cursor k ch.sampler).1
  pub behind_up : (cursor k ch.sampler).0 ≤ seen.0
  pub behind_down : (cursor k ch.sampler).1 ≤ seen.1
