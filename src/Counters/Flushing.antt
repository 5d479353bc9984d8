-- ===== src/Counters/Flushing.antt =====
-- What the fold before a table flush saves. The flush recreates the kernel table, so every counter
-- starts again from 0 while the cursor stays at the value that it had before the flush.
use nft.Base.{
  List, arith, distinct, map, nat_eq, pair_eq, some, string_eq, true, ℕ, ◌+◌, ◌<◌, ◌↔◌, ◌≡◌, ◌≤◌,
  ◌⊎◌,
}
use nft.Base.Assoc.{get_or-lookup, lookup}
use nft.Counters.{
  Counter, Key, Sample, Sampler, counter_key, counter_samples, delta, fold_before_flush,
  fold_counters,
}
use nft.Counters.Growth.{
  at, fold_counters-at, fold_counters-cursor, fold_counters-distinct, growth_down, growth_up,
  reading,
}
use nft.Counters.Sampling.{IsMap, counter_samples-reported, reported_down, reported_up}
use nft.Counters.Readding.{growth-reading}

module _ (k : Key) (cur cur' : List Counter) (now : ℕ) (s : Sampler) (b c : ℕ × ℕ) where
  -- `b` was read of the key before the flush, and `c` at the first tick after it.
  pub record Flushed : Type 0 where
    pub is_map : IsMap s
    pub once : distinct (map counter_key cur) ≡ true
    pub once' : distinct (map counter_key cur') ≡ true
    pub before : reading k cur ≡ some b
    pub after : reading k cur' ≡ some c

  -- The true volume: what was parked, the growth up to the flush, and all that came after it.
  pub volume_up : ℕ
  volume_up = (at k s.pending_flush_deltas).0 + growth_up k cur s.last_counters + c.0

  pub volume_down : ℕ
  volume_down = (at k s.pending_flush_deltas).1 + growth_down k cur s.last_counters + c.1

  pub tick : List Sample
  tick = (counter_samples (some cur') now (fold_before_flush (some cur) s)).0

  after_flush :
      Flushed
      → (reported_up k tick + c.0 ≡ volume_up + delta c.0 b.0)
        × (reported_down k tick + c.1 ≡ volume_down + delta c.1 b.1)
  unfolding tick volume_up volume_down fold_before_flush
  after_flush v =
      let done = fold_counters cur s.pending_flush_deltas s.last_counters in
      let folded = fold_before_flush (some cur) s in
      let kept =
        fold_counters-distinct cur s.pending_flush_deltas s.last_counters v.is_map.deltas
          v.is_map.cursors in
      let sampled =
        counter_samples-reported k cur' now folded (record { cursors = kept.1; deltas = kept.0 })
          v.once' in
      let gained = fold_counters-at k cur s.pending_flush_deltas s.last_counters v.once in
      let found : lookup k done.1 ≡ some b =
        rw (fold_counters-cursor k cur s.pending_flush_deltas s.last_counters v.once, v.before) in
      let cursor : at k done.1 ≡ b = rw (get_or-lookup (0, 0) k done.1, found) in
      let grown = growth-reading k cur' done.1 in
      let grown_up : growth_up k cur' done.1 ≡ delta c.0 b.0 = rw (grown.0, v.after, cursor) in
      let grown_down : growth_down k cur' done.1 ≡ delta c.1 b.1 = rw (grown.1, v.after, cursor) in
      (omega (arith, sampled.0, gained.0, grown_up), omega (arith, sampled.1, gained.1, grown_down))

  -- The bytes around a flush are reported exactly when each counter is still below its old value at the
  -- next tick, or had counted nothing before: then the cursor shows the reset.
  pub flush_exact :
      Flushed
      → ((reported_up k tick ≡ volume_up) ↔ ((c.0 < b.0) ⊎ (b.0 ≡ 0)))
        × ((reported_down k tick ≡ volume_down) ↔ ((c.1 < b.1) ⊎ (b.1 ≡ 0)))
  unfolding delta
  flush_exact v =
      let (up, down) = after_flush v in
      (
        (λ e. ground (arith, up, e), λ h. ground (arith, up, h)),
        (λ e. ground (arith, down, e), λ h. ground (arith, down, h)),
      )

  -- But when a counter has passed its value of before the flush by the next tick, the reset is not
  -- seen, and the report falls short of the true volume by that old value.
  pub flush_undercount :
      Flushed
      → b.0 ≤ c.0
      → b.1 ≤ c.1
      → (reported_up k tick + b.0 ≡ volume_up) × (reported_down k tick + b.1 ≡ volume_down)
  unfolding delta
  flush_undercount v h h' = ground (arith, after_flush v)
