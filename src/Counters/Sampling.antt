-- ===== src/Counters/Sampling.antt =====
-- What one tick of the sampler reports, and where it leaves the cursor.
use nft.Base.{
  Bool-cases, List, Option-cases, [], arith, distinct, distinct-cons, false, has, if◌then◌else◌,
  inl, inr, map, nat_eq, none, pair_test_iff, pair_eq, refl, some, string_eq, subst, true, ℕ, ◌+◌,
  ◌==◌, ◌∷◌, ◌≡◌,
}
use nft.Base.Assoc.{get_or, get_or-lookup_none, keys, lookup}
use nft.Counters.{
  Counter, Key, Ledger, Sample, Sampler, counter_key, counter_samples, elapsed_since, fold_counters,
  parked, prune, sample_key, to_samples,
}
use nft.Counters.Growth.{
  at, fold_counters-at, fold_counters-cursor, fold_counters-distinct, growth_down, growth_up,
  reading,
}

-- The bytes that a batch reports for a key.
unfoldable pub reported_up : Key → List Sample → ℕ
reported_up k [] = 0
reported_up k (s ∷ ss) = (if sample_key s == k then s.bytes_up else 0) + reported_up k ss

unfoldable pub reported_down : Key → List Sample → ℕ
reported_down k [] = 0
reported_down k (s ∷ ss) = (if sample_key s == k then s.bytes_down else 0) + reported_down k ss

reported-to_samples_none :
    (k : Key) (e : ℕ) (m : Ledger)
    → has k (keys m) ≡ false
    → (reported_up k (to_samples e m) ≡ 0) × (reported_down k (to_samples e m) ≡ 0)
unfolding reported_up reported_down to_samples keys has
reported-to_samples_none k e [] h = (refl, refl)
reported-to_samples_none k e ((j, b) ∷ m) h = ground (arith, reported-to_samples_none k e m)

pub reported-to_samples :
    (k : Key) (e : ℕ) (m : Ledger)
    → distinct (keys m) ≡ true
    → (reported_up k (to_samples e m) ≡ (at k m).0)
      × (reported_down k (to_samples e m) ≡ (at k m).1)
unfolding reported_up reported_down to_samples keys get_or
reported-to_samples k e [] d = (refl, refl)
reported-to_samples k e ((j, b) ∷ m) d =
    let unique = distinct-cons j (keys m) d in
    let ih = reported-to_samples k e m unique.1 in
    elim (Bool-cases (j == k)) [
      | inl q ↦
          let same : j ≡ k = (pair_test_iff string_eq nat_eq j k).0 q in
          let rest =
            reported-to_samples_none k e m (subst (λ i. has i (keys m) ≡ false) same unique.0) in
          ground (arith, q, rest)
      | inr q ↦ ground (arith, q, ih)
    ]

has-keys-parked : (k : Key) (m : Ledger) → has k (keys m) ≡ false → has k (keys (parked m)) ≡ false
unfolding parked keys has
has-keys-parked k [] h = refl
has-keys-parked k ((j, b) ∷ m) h = ground (arith, has-keys-parked k m)

distinct-parked : (m : Ledger) → distinct (keys m) ≡ true → distinct (keys (parked m)) ≡ true
unfolding parked keys distinct
distinct-parked [] d = refl
distinct-parked ((j, b) ∷ m) d = ground (arith, distinct-parked m, has-keys-parked j m)

at-parked :
    (k : Key) (m : Ledger)
    → distinct (keys m) ≡ true
    → ((at k (parked m)).0 ≡ (at k m).0) × ((at k (parked m)).1 ≡ (at k m).1)
unfolding parked keys distinct get_or
at-parked k [] d = (refl, refl)
at-parked k ((j, b) ∷ m) d = ground (
  arith,
  at-parked k m,
  get_or-lookup_none (0, 0) k m,
  get_or-lookup_none (0, 0) k (parked m),
  has-keys-parked k m,
  pair_test_iff string_eq nat_eq j k,
)

-- A sampler whose maps hold each key once, as Go's maps do.
pub record IsMap (s : Sampler) : Type 0 where
  pub cursors : distinct (keys s.last_counters) ≡ true
  pub deltas : distinct (keys s.pending_flush_deltas) ≡ true

-- One tick reports, for every key and direction, the parked bytes plus the growth since the cursor,
-- when the data plane lists each key once.
pub counter_samples-reported :
    (k : Key) (cur : List Counter) (now : ℕ) (s : Sampler)
    → IsMap s
    → distinct (map counter_key cur) ≡ true
    → (reported_up k (counter_samples (some cur) now s).0
        ≡ (at k s.pending_flush_deltas).0 + growth_up k cur s.last_counters)
      × (reported_down k (counter_samples (some cur) now s).0
          ≡ (at k s.pending_flush_deltas).1 + growth_down k cur s.last_counters)
unfolding counter_samples
counter_samples-reported k cur now s v d =
    let kept =
      fold_counters-distinct cur (parked s.pending_flush_deltas) s.last_counters
        (distinct-parked s.pending_flush_deltas v.deltas) v.cursors in
    let total =
      reported-to_samples k (elapsed_since s.last_counter_at now)
        (fold_counters cur (parked s.pending_flush_deltas) s.last_counters).0 kept.0 in
    omega (
      arith,
      total,
      fold_counters-at k cur (parked s.pending_flush_deltas) s.last_counters d,
      at-parked k s.pending_flush_deltas v.deltas,
    )

lookup-prune :
    (k : Key) (seen : List Key) (m : Ledger)
    → lookup k (prune seen m) ≡ (if has k seen then lookup k m else none)
unfolding lookup prune
lookup-prune k seen [] = ground arith
lookup-prune k seen ((j, b) ∷ m) =
    ground (arith, lookup-prune k seen m, pair_test_iff string_eq nat_eq j k)

reading-has :
    (k : Key) (cs : List Counter)
    → has k (map counter_key cs) ≡ (elim (reading k cs) [ none ↦ false | some b ↦ true ])
unfolding reading has
reading-has k [] = refl
reading-has k (c ∷ cs) = ground (arith, reading-has k cs)

-- After a tick the cursor of every key is its reading; a key that was not read has none.
pub counter_samples-cursor :
    (k : Key) (cur : List Counter) (now : ℕ) (s : Sampler)
    → distinct (map counter_key cur) ≡ true
    → lookup k (counter_samples (some cur) now s).1.last_counters ≡ reading k cur
unfolding counter_samples
counter_samples-cursor k cur now s d =
    rw (lookup-prune, fold_counters-cursor k cur (parked s.pending_flush_deltas) s.last_counters d)
      (elim (Option-cases (reading k cur)) [
        | inl e ↦ rw (reading-has, e)
        | inr (b, e) ↦ rw (reading-has, e)
      ])

has-keys-prune :
    (k : Key) (seen : List Key) (m : Ledger)
    → has k (keys m) ≡ false
    → has k (keys (prune seen m)) ≡ false
unfolding prune keys has
has-keys-prune k seen [] h = refl
has-keys-prune k seen ((j, b) ∷ m) h = ground (arith, has-keys-prune k seen m)

distinct-prune :
    (seen : List Key) (m : Ledger)
    → distinct (keys m) ≡ true
    → distinct (keys (prune seen m)) ≡ true
unfolding prune keys distinct
distinct-prune seen [] d = refl
distinct-prune seen ((j, b) ∷ m) d = ground (arith, distinct-prune seen m, has-keys-prune j seen m)

pub counter_samples-IsMap :
    (cur : List Counter) (now : ℕ) (s : Sampler)
    → IsMap s
    → IsMap (counter_samples (some cur) now s).1
unfolding counter_samples
counter_samples-IsMap cur now s v = record {
  cursors =
      distinct-prune _ _
        (fold_counters-distinct cur (parked s.pending_flush_deltas) s.last_counters
          (distinct-parked s.pending_flush_deltas v.deltas) v.cursors).1;
  deltas = unfold keys distinct in refl;
}

pub nothing_pending :
    (k : Key) (cur : List Counter) (now : ℕ) (s : Sampler)
    → at k (counter_samples (some cur) now s).1.pending_flush_deltas ≡ (0, 0)
unfolding counter_samples get_or
nothing_pending k cur now s = refl
