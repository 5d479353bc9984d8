-- ===== src/Telemetry/Parking.antt =====
-- What the sampler stands for, over a tick and over the return of a batch.
use nft.Base.{
  List, Option-cases, [], arith, distinct, if◌then◌else◌, inl, inr, map, nat_eq, none, pair_eq,
  pair_test_iff, refl, some, string_eq, true, ℕ, ◌+◌, ◌-◌, ◌==◌, ◌∙◌, ◌∷◌, ◌≡◌, ◌≤◌,
}
use nft.Base.Assoc.{get_or-insert, get_or-lookup, lookup}
use nft.Counters.{
  Counter, Key, Sample, Sampler, counter_key, counter_samples, delta, park, re_add, re_add_counters,
  rewind, sample_key,
}
use nft.Counters.Growth.{at, at-add_deltas, at-grow, growth_down, growth_up, reading}
use nft.Counters.Sampling.{
  IsMap, counter_samples-cursor, counter_samples-reported, nothing_pending, reported_down,
  reported_up,
}
use nft.Counters.Readding.{growth-reading}

abbrev pub cursor : Key → Sampler → ℕ × ℕ
cursor k s = at k s.last_counters

abbrev pub parked_at : Key → Sampler → ℕ × ℕ
parked_at k s = at k s.pending_flush_deltas

-- The sampler `s'` owes `up` and `down` more for the key than `s` does, and its cursor is not ahead.
abbrev pub GivesBack : Key → ℕ → ℕ → Sampler → Sampler → Type 0
GivesBack k up down s s' =
    ((parked_at k s').0 + (cursor k s).0 ≡ (parked_at k s).0 + (cursor k s').0 + up)
    × ((parked_at k s').1 + (cursor k s).1 ≡ (parked_at k s).1 + (cursor k s').1 + down)
    × ((cursor k s').0 ≤ (cursor k s).0)
    × ((cursor k s').1 ≤ (cursor k s).1)

module _ (j k : Key) (up down : ℕ) (s : Sampler) where
  park-GivesBack :
      lookup j s.last_counters ≡ none
      → GivesBack k (if j == k then up else 0) (if j == k then down else 0) s (park j up down s)
  unfolding park
  park-GivesBack missing =
      ground (arith, at-grow j k up down s.pending_flush_deltas, pair_test_iff string_eq nat_eq j k)

  rewind-GivesBack :
      (l : ℕ × ℕ)
      → lookup j s.last_counters ≡ some l
      → GivesBack k (if j == k then up else 0) (if j == k then down else 0) s (rewind j up down l s)
  unfolding rewind
  rewind-GivesBack l found = ground (
    arith,
    found,
    pair_test_iff string_eq nat_eq j k,
    at-add_deltas j k (up - l.0) (down - l.1) s.pending_flush_deltas,
    get_or-insert (0, 0) j k (l.0 - up, l.1 - down) s.last_counters,
    get_or-lookup (0, 0) j s.last_counters,
  )

re_add-GivesBack :
    (k : Key) (b : Sample) (s : Sampler)
    → GivesBack k
        (if sample_key b == k then b.bytes_up else 0)
        (if sample_key b == k then b.bytes_down else 0)
        s
        (re_add b s)
unfolding re_add
re_add-GivesBack k b s = elim (Option-cases (lookup (sample_key b) s.last_counters)) [
  | inl e ↦ rw (e, re_add) (park-GivesBack (sample_key b) k b.bytes_up b.bytes_down s e)
  | inr (l, e) ↦ rw (e, re_add) (rewind-GivesBack (sample_key b) k b.bytes_up b.bytes_down s l e)
]

pub re_add_counters-GivesBack :
    (k : Key) (bs : List Sample) (s : Sampler)
    → GivesBack k (reported_up k bs) (reported_down k bs) s (re_add_counters bs s)
unfolding re_add_counters reported_up reported_down
re_add_counters-GivesBack k [] s = ground arith
re_add_counters-GivesBack k (b ∷ bs) s =
    let step = re_add-GivesBack k b s in
    let rest = re_add_counters-GivesBack k bs (re_add b s) in omega (arith, step, rest)

delta_ahead : (cur last : ℕ) → last ≤ cur → delta cur last + last ≡ cur
unfolding delta
delta_ahead cur last h = ground arith

-- A tick whose reading of the key is not behind the cursor reports what was parked and what the reading
-- is ahead, and leaves nothing parked and the cursor on the reading.
pub counter_samples-settles :
    (k : Key) (cs : List Counter) (now : ℕ) (s : Sampler) (c : ℕ × ℕ)
    → IsMap s
    → distinct (map counter_key cs) ≡ true
    → reading k cs ≡ some c
    → (cursor k s).0 ≤ c.0
    → (cursor k s).1 ≤ c.1
    → let t = counter_samples (some cs) now s in
      (reported_up k t.0 + (cursor k s).0 ≡ (parked_at k s).0 + c.0)
      × (reported_down k t.0 + (cursor k s).1 ≡ (parked_at k s).1 + c.1)
      × (cursor k t.1 ≡ c)
      × (parked_at k t.1 ≡ (0, 0))
counter_samples-settles k cs now s c v d read up down =
    let t = counter_samples (some cs) now s in
    let reported = counter_samples-reported k cs now s v d in
    let grown_up : growth_up k cs s.last_counters ≡ delta c.0 (cursor k s).0 =
      rw read at (growth-reading k cs s.last_counters).0 in
    let grown_down : growth_down k cs s.last_counters ≡ delta c.1 (cursor k s).1 =
      rw read at (growth-reading k cs s.last_counters).1 in
    (
      omega (arith, reported.0, grown_up, delta_ahead c.0 (cursor k s).0 up),
      omega (arith, reported.1, grown_down, delta_ahead c.1 (cursor k s).1 down),
      get_or-lookup (0, 0) k t.1.last_counters
          ∙ rw (counter_samples-cursor k cs now s d, read) refl,
      nothing_pending k cs now s,
    )
