-- ===== src/Tests/Counting.antt =====
-- The counter sampler on concrete readings.
use nft.Base.{
  List, [], distinct, has, map, nat_eq, pair_eq, refl, some, string_eq, true, ℕ, ◌+◌, ◌<◌, ◌↔◌, ◌∷◌,
  ◌≡◌, ◌⊎◌,
}
use nft.Base.Assoc.{get_or, insert, keys, lookup}
use nft.Counters.{
  Counter, Key, Sampler, add_deltas, counter_key, counter_samples, delta, elapsed_since,
  fold_counter, fold_counters, grow, parked, prune, re_add_counters, to_samples,
}
use nft.Counters.Growth.{growth_down, growth_up, reading}
use nft.Counters.Sampling.{IsMap, reported_down, reported_up}
use nft.Counters.Readding.{ahead, refused_batch_reported}
use nft.Counters.Flushing.{Flushed, flush_exact, tick, volume_down, volume_up}

abbrev https : Key
https = ("tcp", 8443)

abbrev read : ℕ → ℕ → List Counter
read up down =
    record { proto = "tcp"; listen_port = 8443; bytes_up = up; bytes_down = down }
    ∷ record { proto = "udp"; listen_port = 53; bytes_up = 5; bytes_down = 9 }
    ∷ []

-- 100 bytes up and 40 down were seen so far, and 30 up are parked.
abbrev running : Sampler
running = record {
  last_counters = (https, (100, 40)) ∷ [];
  pending_flush_deltas = (https, (30, 0)) ∷ [];
  last_counter_at = some 1000;
}

running-IsMap : IsMap running
unfolding keys distinct has
running-IsMap = record { cursors = refl; deltas = refl }

read_once : (up down : ℕ) → distinct (map counter_key (read up down)) ≡ true
unfolding distinct has
read_once up down = refl

eighty_bytes : reported_up https (counter_samples (some (read 150 45)) 2000 running).0 ≡ 80
unfolding counter_samples fold_counters fold_counter add_deltas grow delta parked prune to_samples
    elapsed_since reported_up has lookup insert get_or
eighty_bytes = refl

no_reset : ahead https (read 170 45) (counter_samples (some (read 150 45)) 2000 running).1 ≡ true
unfolding counter_samples fold_counters fold_counter add_deltas grow delta parked prune to_samples
    elapsed_since has lookup insert get_or ahead reading
no_reset = refl

refused_batch_reported_example :
    let tick = counter_samples (some (read 150 45)) 2000 running in
    let again = counter_samples (some (read 170 45)) 3000 (re_add_counters tick.0 tick.1) in
    (reported_up https again.0
      ≡ reported_up https tick.0 + growth_up https (read 170 45) tick.1.last_counters)
    × (reported_down https again.0
        ≡ reported_down https tick.0 + growth_down https (read 170 45) tick.1.last_counters)
refused_batch_reported_example =
    refused_batch_reported https (read 150 45) (read 170 45) 2000 3000 running running-IsMap
      (read_once 150 45) (read_once 170 45) no_reset

-- Before the flush 150 bytes up and 45 down; 60 and 20 by the next tick.
quiet_flush : Flushed https (read 150 45) (read 60 20) 2000 running (150, 45) (60, 20)
unfolding reading
quiet_flush = record {
  is_map = running-IsMap;
  once = read_once 150 45;
  once' = read_once 60 20;
  before = refl;
  after = refl;
}

abbrev old_up : ℕ
old_up = 150

abbrev old_down : ℕ
old_down = 45

flush_exact_example :
    ((reported_up https (tick https (read 150 45) (read 60 20) 2000 running (150, 45) (60, 20))
        ≡ volume_up https (read 150 45) (read 60 20) 2000 running (150, 45) (60, 20))
      ↔ ((60 < 150) ⊎ (old_up ≡ 0)))
    × ((reported_down https (tick https (read 150 45) (read 60 20) 2000 running (150, 45) (60, 20))
          ≡ volume_down https (read 150 45) (read 60 20) 2000 running (150, 45) (60, 20))
        ↔ ((20 < 45) ⊎ (old_down ≡ 0)))
flush_exact_example =
    flush_exact https (read 150 45) (read 60 20) 2000 running (150, 45) (60, 20) quiet_flush

-- 400 and 90 by the next tick: more than before the flush.
busy_flush : Flushed https (read 150 45) (read 400 90) 2000 running (150, 45) (400, 90)
unfolding reading
busy_flush = record {
  is_map = running-IsMap;
  once = read_once 150 45;
  once' = read_once 400 90;
  before = refl;
  after = refl;
}
