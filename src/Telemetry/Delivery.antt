-- ===== src/Telemetry/Delivery.antt =====
-- Every byte that the data plane counts is delivered once, over any sequence of ticks and acks.
use nft.Base.{
  Bool, List, [], ap, arith, distinct, false, map, nat_eq, none, pair_eq, refl, some, string_eq,
  true, ℕ, ◌++◌, ◌+◌, ◌∷◌, ◌≡◌, ◌≤◌,
}
use nft.Base.Assoc.{get_or, keys}
use nft.Counters.{Counter, Key, Sample, counter_key, counter_samples}
use nft.Counters.Growth.{reading}
use nft.Counters.Sampling.{counter_samples-IsMap, reported_down, reported_up}
use nft.Counters.Readding.{re_add_counters-IsMap}
use nft.Telemetry.{
  Channel, Event, ack, capped, counters_ack, counters_tick, handle, run_frames, send_counters,
  sweep, take_pending_counters, tick, track_pending_counters,
}
use nft.Telemetry.Parking.{counter_samples-settles, re_add_counters-GivesBack}
use nft.Telemetry.Waiting.{
  Issued-capped, Issued-delete, Issued-insert, Issued-next, waiting-capped, waiting-insert,
  waiting-take, waiting_down, waiting_up,
}
use nft.Telemetry.Books.{Account, Books, Steady, book, book_all, drop_unanswered, no_account}

module _ (k : Key) (seen : ℕ × ℕ) (a : Account) (now : ℕ) where
  send-Books :
      (written : Bool) (samples : List Sample) (ch : Channel)
      → Books k seen a (reported_up k samples) (reported_down k samples) ch
      → Books k seen
          (drop_unanswered k samples now ch.pending_counters a)
          0
          0
          (send_counters samples now written ch)
  unfolding send_counters track_pending_counters
  send-Books written [] ch b = record {
    ledgers = b.ledgers;
    issued = Issued-next ch.id_seq ch.pending_counters b.issued;
    ups = unfold reported_up reported_down in b.ups;
    downs = unfold reported_up reported_down in b.downs;
    behind_up = b.behind_up;
    behind_down = b.behind_down;
  }
  send-Books true (s ∷ samples) ch b =
      let m = ch.pending_counters in
      let kept = Issued-capped now ch.id_seq m b.issued in
      let fewer = waiting-capped k now m in
      let more = waiting-insert k ch.id_seq (s ∷ samples, now) (capped (sweep now m)) kept in
      record {
        ledgers = b.ledgers;
        issued = Issued-insert ch.id_seq (s ∷ samples, now) (capped (sweep now m)) kept;
        ups = omega (arith, b.ups, fewer, more.0);
        downs = omega (arith, b.downs, fewer, more.1);
        behind_up = b.behind_up;
        behind_down = b.behind_down;
      }
  send-Books false (s ∷ samples) ch b =
      let m = ch.pending_counters in
      let kept = Issued-capped now ch.id_seq m b.issued in
      let fewer = waiting-capped k now m in
      let more = waiting-insert k ch.id_seq (s ∷ samples, now) (capped (sweep now m)) kept in
      let back = re_add_counters-GivesBack k (s ∷ samples) ch.sampler in
      rw more.2 (record {
        ledgers = re_add_counters-IsMap (s ∷ samples) ch.sampler b.ledgers;
        issued = Issued-next ch.id_seq (capped (sweep now m)) kept;
        ups = omega (arith, b.ups, fewer, back.0);
        downs = omega (arith, b.downs, fewer, back.1);
        behind_up = omega (arith, back.2, b.behind_up);
        behind_down = omega (arith, back.3, b.behind_down);
      })

module _ (k : Key) (seen : ℕ × ℕ) (a : Account) (ch : Channel) (b : Books k seen a 0 0 ch) where
  reported-Books :
      (cs : List Counter) (now : ℕ) (c : ℕ × ℕ)
      → distinct (map counter_key cs) ≡ true
      → reading k cs ≡ some c
      → seen.0 ≤ c.0
      → seen.1 ≤ c.1
      → let t = counter_samples (some cs) now ch.sampler in
        Books k c a (reported_up k t.0) (reported_down k t.0) (record ch { sampler = t.1 })
  reported-Books cs now c d read up down =
      let t = counter_samples (some cs) now ch.sampler in
      let settles =
        counter_samples-settles k cs now ch.sampler c b.ledgers d read
          (omega (arith, b.behind_up, up)) (omega (arith, b.behind_down, down)) in
      record {
        ledgers = counter_samples-IsMap cs now ch.sampler b.ledgers;
        issued = b.issued;
        ups = rw (settles.2, settles.3) (omega (arith, settles.0, b.ups));
        downs = rw (settles.2, settles.3) (omega (arith, settles.1, b.downs));
        behind_up = rw settles.2 (omega arith);
        behind_down = rw settles.2 (omega arith);
      }

  ack-Books :
      (id : ℕ) (accepted : Bool)
      → Books k seen (book k (ack id accepted) ch a) 0 0 (counters_ack id accepted ch)
  unfolding counters_ack book
  ack-Books id true =
      let taken = waiting-take k id ch.pending_counters b.issued.0 in
      record {
        ledgers = b.ledgers;
        issued =
            unfold take_pending_counters in Issued-delete ch.id_seq id ch.pending_counters b.issued;
        ups = omega (arith, b.ups, taken);
        downs = omega (arith, b.downs, taken);
        behind_up = b.behind_up;
        behind_down = b.behind_down;
      }
  ack-Books id false =
      let taken = waiting-take k id ch.pending_counters b.issued.0 in
      let samples = (take_pending_counters id ch.pending_counters).0 in
      let back = re_add_counters-GivesBack k samples ch.sampler in
      record {
        ledgers = re_add_counters-IsMap samples ch.sampler b.ledgers;
        issued =
            unfold take_pending_counters in Issued-delete ch.id_seq id ch.pending_counters b.issued;
        ups = omega (arith, b.ups, taken, back);
        downs = omega (arith, b.downs, taken, back);
        behind_up = omega (arith, back, b.behind_up);
        behind_down = omega (arith, back, b.behind_down);
      }

  idle-Books :
      (now : ℕ) (written : Bool)
      → Books k seen (book k (tick none now written) ch a) 0 0 (counters_tick none now written ch)
  unfolding counters_tick book counter_samples
  idle-Books now written =
      send-Books k seen a now written [] ch (unfold reported_up reported_down in b)

abbrev pub first_channel : Channel
first_channel = record {
  sampler = record { last_counters = []; pending_flush_deltas = []; last_counter_at = none };
  id_seq = 0;
  pending_counters = [];
}

delivered_from :
    (k : Key) (seen : ℕ × ℕ) (a : Account) (es : List Event) (cs : List Counter) (now : ℕ)
    (written : Bool) (c : ℕ × ℕ) (ch : Channel)
    → Books k seen a 0 0 ch
    → Steady k seen (es ++ tick (some cs) now written ∷ [])
    → reading k cs ≡ some c
    → let end = run_frames es ch in
      let b = book_all k es ch a in
      let t = counter_samples (some cs) now end.sampler in
      (b.settled_up + b.lost_up + waiting_up k end.pending_counters + reported_up k t.0 ≡ c.0)
      × (b.settled_down + b.lost_down + waiting_down k end.pending_counters + reported_down k t.0
          ≡ c.1)
unfolding run_frames book_all
delivered_from k seen a [] cs now written c ch b (d, (c', read', up, down, tt)) read =
    let same : c' ≡ c = cc (read, read') in
    let settles =
      counter_samples-settles k cs now ch.sampler c b.ledgers d read
        (omega (arith, b.behind_up, up, ap (λ p. p.0) same))
        (omega (arith, b.behind_down, down, ap (λ p. p.1) same)) in
    (omega (arith, b.ups, settles.0), omega (arith, b.downs, settles.1))
delivered_from k seen a (ack id accepted ∷ es) cs now written c ch b steady read =
    delivered_from k seen (book k (ack id accepted) ch a) es cs now written c
      (handle (ack id accepted) ch) (unfold handle in ack-Books k seen a ch b id accepted) steady
      read
delivered_from k seen a (tick none at_ms sent ∷ es) cs now written c ch b steady read =
    delivered_from k seen _ es cs now written c (handle (tick none at_ms sent) ch)
      (unfold handle in idle-Books k seen a ch b at_ms sent) steady read
delivered_from k seen a (tick (some ds) at_ms sent ∷ es) cs now written c ch b
      (d, (e, read', up, down, later)) read =
    delivered_from k e _ es cs now written c (handle (tick (some ds) at_ms sent) ch)
      (unfold handle counters_tick book in
        send-Books k e a at_ms sent _ _ (reported-Books k seen a ch b ds at_ms e d read' up down))
      later read

-- From a daemon's start, over any ticks, failed writes, acks and refusals, whose readings list each key
-- once, have the key and do not go down: what was acked, what was dropped unanswered, what waits for an
-- ack and what the next tick reports add up, in each direction, to the reading of that tick.
pub delivered_once :
    (k : Key) (es : List Event) (cs : List Counter) (now : ℕ) (written : Bool) (c : ℕ × ℕ)
    → Steady k (0, 0) (es ++ tick (some cs) now written ∷ [])
    → reading k cs ≡ some c
    → let end = run_frames es first_channel in
      let a = book_all k es first_channel no_account in
      let t = counter_samples (some cs) now end.sampler in
      (a.settled_up + a.lost_up + waiting_up k end.pending_counters + reported_up k t.0 ≡ c.0)
      × (a.settled_down + a.lost_down + waiting_down k end.pending_counters + reported_down k t.0
          ≡ c.1)
delivered_once k es cs now written c steady read =
    delivered_from k (0, 0) no_account es cs now written c first_channel
      (unfold distinct keys get_or in
        record {
          ledgers = record { cursors = refl; deltas = refl };
          issued = (refl, tt);
          ups = refl;
          downs = refl;
          behind_up = omega arith;
          behind_down = omega arith;
        })
      steady read
