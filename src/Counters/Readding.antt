-- ===== src/Counters/Readding.antt =====
-- What a rejected batch is worth after it has been given back.
use nft.Base.{
  Bool, Bool-cases, List, Option-cases, [], ap, arith, test_refl, distinct, false, if◌then◌else◌,
  inl, inr, leb, map, nat_eq, none, pair_test_iff, pair_eq, refl, some, string_eq, subst, true, ℕ,
  ◌&&◌, ◌+◌, ◌-◌, ◌==◌, ◌∷◌, ◌≡◌,
}
use nft.Base.Assoc.{
  distinct-keys-insert, get_or-insert, get_or-lookup, insert, lookup, lookup-insert,
}
use nft.Counters.{
  Counter, Key, Ledger, Sample, Sampler, counter_key, counter_samples, delta, grow, park, re_add,
  re_add_counters, rewind, sample_key,
}
use nft.Counters.Sampling.{
  IsMap, counter_samples-IsMap, counter_samples-reported, nothing_pending, reported_down,
  reported_up,
}
use nft.Counters.Growth.{
  at, at-add_deltas, at-grow, distinct-add_deltas, growth-insert, growth_down, growth_up, reading,
}

-- What the next tick will report for a key if the data plane reads `cs` then.
abbrev pub owed_up : Key → List Counter → Sampler → ℕ
owed_up k cs s = (at k s.pending_flush_deltas).0 + growth_up k cs s.last_counters

abbrev pub owed_down : Key → List Counter → Sampler → ℕ
owed_down k cs s = (at k s.pending_flush_deltas).1 + growth_down k cs s.last_counters

-- The counter of a key was not reset since its cursor was taken.
unfoldable pub ahead : Key → List Counter → Sampler → Bool
ahead k cs s = elim (lookup k s.last_counters) [
  | none ↦ true
  | some l ↦ elim (reading k cs) [ none ↦ false | some c ↦ leb l.0 c.0 && leb l.1 c.1 ]
]

pub growth-reading :
    (k : Key) (cs : List Counter) (last : Ledger)
    → (growth_up k cs last ≡ (elim (reading k cs) [ none ↦ 0 | some c ↦ delta c.0 (at k last).0 ]))
      × (growth_down k cs last
          ≡ (elim (reading k cs) [ none ↦ 0 | some c ↦ delta c.1 (at k last).1 ]))
unfolding growth_up growth_down reading
growth-reading k [] last = (refl, refl)
growth-reading k (c ∷ cs) last = ground (arith, growth-reading k cs last)

abbrev Owes : Key → List Counter → Sampler → Sampler → ℕ → ℕ → Type 0
Owes k cs s s' up down =
    (owed_up k cs s' ≡ owed_up k cs s + up)
    × (owed_down k cs s' ≡ owed_down k cs s + down)
    × (ahead k cs s' ≡ true)

module _ (cs : List Counter) (k : Key) (up down : ℕ) (st : Sampler) where
  rewind_self :
      (l : ℕ × ℕ)
      → lookup k st.last_counters ≡ some l
      → ahead k cs st ≡ true
      → Owes k cs st (rewind k up down l st) up down
  unfolding rewind ahead delta
  rewind_self l found h =
      let l' : ℕ × ℕ = (l.0 - up, l.1 - down) in
      ground (
        arith,
        at-add_deltas k k (up - l.0) (down - l.1) st.pending_flush_deltas,
        test_refl k,
        lookup-insert k k l' st.last_counters,
        get_or-insert (0, 0) k k l' st.last_counters,
        get_or-lookup (0, 0) k st.last_counters,
        growth-reading k cs st.last_counters,
        growth-reading k cs (insert k l' st.last_counters),
      )

  rewind_other :
      (j : Key) (l : ℕ × ℕ)
      → (k == j) ≡ false
      → ahead j cs st ≡ true
      → Owes j cs st (rewind k up down l st) 0 0
  unfolding rewind ahead
  rewind_other j l ne h =
      let l' : ℕ × ℕ = (l.0 - up, l.1 - down) in
      ground (
        arith,
        ne,
        at-add_deltas k j (up - l.0) (down - l.1) st.pending_flush_deltas,
        lookup-insert k j l' st.last_counters,
        growth-insert j k l' cs st.last_counters,
      )

  park_self : ahead k cs st ≡ true → Owes k cs st (park k up down st) up down
  unfolding park ahead
  park_self h = ground (arith, at-grow k k up down st.pending_flush_deltas, test_refl k)

  park_other :
      (j : Key) → (k == j) ≡ false → ahead j cs st ≡ true → Owes j cs st (park k up down st) 0 0
  unfolding park ahead
  park_other j ne h = ground (arith, ne, at-grow k j up down st.pending_flush_deltas)

re_add_self :
    (cs : List Counter) (s : Sample) (st : Sampler)
    → ahead (sample_key s) cs st ≡ true
    → Owes (sample_key s) cs st (re_add s st) s.bytes_up s.bytes_down
unfolding re_add
re_add_self cs s st h = elim (Option-cases (lookup (sample_key s) st.last_counters)) [
  | inl e ↦ rw (e, re_add) (park_self cs (sample_key s) s.bytes_up s.bytes_down st h)
  | inr (l, e) ↦ rw (e, re_add) (rewind_self cs (sample_key s) s.bytes_up s.bytes_down st l e h)
]

re_add_other :
    (cs : List Counter) (k : Key) (s : Sample) (st : Sampler)
    → (sample_key s == k) ≡ false
    → ahead k cs st ≡ true
    → Owes k cs st (re_add s st) 0 0
unfolding re_add
re_add_other cs k s st ne h = elim (Option-cases (lookup (sample_key s) st.last_counters)) [
  | inl e ↦ rw (e, re_add) (park_other cs (sample_key s) s.bytes_up s.bytes_down st k ne h)
  | inr (l, e) ↦ rw (e, re_add) (rewind_other cs (sample_key s) s.bytes_up s.bytes_down st k l ne h)
]

re_add-Owes :
    (cs : List Counter) (k : Key) (s : Sample) (st : Sampler)
    → ahead k cs st ≡ true
    → Owes k cs st
        (re_add s st)
        (if sample_key s == k then s.bytes_up else 0)
        (if sample_key s == k then s.bytes_down else 0)
re_add-Owes cs k s st h = elim (Bool-cases (sample_key s == k)) [
  | inl q ↦
      let same : sample_key s ≡ k = (pair_test_iff string_eq nat_eq (sample_key s) k).0 q in
      rw q (
        subst (λ j. ahead j cs st ≡ true → Owes j cs st (re_add s st) s.bytes_up s.bytes_down) same
          (re_add_self cs s st) h)
  | inr q ↦ rw q (re_add_other cs k s st q h)
]

-- Giving a batch back adds what it reports for a key to what the next tick owes for that key, whatever
-- the order of the samples, as long as the counter of the key has not been reset in between.
pub re_add_counters-Owes :
    (cs : List Counter) (k : Key) (ss : List Sample) (st : Sampler)
    → ahead k cs st ≡ true
    → Owes k cs st (re_add_counters ss st) (reported_up k ss) (reported_down k ss)
unfolding re_add_counters reported_up reported_down
re_add_counters-Owes cs k [] st h = (omega arith, omega arith, h)
re_add_counters-Owes cs k (s ∷ ss) st h =
    let step = re_add-Owes cs k s st h in
    let rest = re_add_counters-Owes cs k ss (re_add s st) step.2 in
    (omega (arith, step.0, rest.0), omega (arith, step.1, rest.1), rest.2)

re_add-IsMap : (s : Sample) (st : Sampler) → IsMap st → IsMap (re_add s st)
unfolding re_add park rewind grow
re_add-IsMap s st v = elim (Option-cases (lookup (sample_key s) st.last_counters)) [
  | inl e ↦
      rw (e, re_add)
        (record {
          cursors = v.cursors;
          deltas = distinct-keys-insert (sample_key s) _ st.pending_flush_deltas v.deltas;
        })
  | inr (l, e) ↦
      rw (e, re_add)
        (record {
          cursors = distinct-keys-insert (sample_key s) _ st.last_counters v.cursors;
          deltas = distinct-add_deltas (sample_key s) _ _ st.pending_flush_deltas v.deltas;
        })
]

pub re_add_counters-IsMap :
    (ss : List Sample) (st : Sampler) → IsMap st → IsMap (re_add_counters ss st)
unfolding re_add_counters
re_add_counters-IsMap [] st v = v
re_add_counters-IsMap (s ∷ ss) st v = re_add_counters-IsMap ss (re_add s st) (re_add-IsMap s st v)

-- A batch that the panel refuses is not lost: after the tick that made it and the return of its
-- samples, the next tick reports for every key the refused bytes plus the growth since, when the data
-- plane lists each key once and no counter was reset or dropped in between.
pub refused_batch_reported :
    (k : Key) (cur cur' : List Counter) (now now' : ℕ) (s : Sampler)
    → IsMap s
    → distinct (map counter_key cur) ≡ true
    → distinct (map counter_key cur') ≡ true
    → let tick = counter_samples (some cur) now s in
      ahead k cur' tick.1 ≡ true
      → let again = counter_samples (some cur') now' (re_add_counters tick.0 tick.1) in
        (reported_up k again.0 ≡ reported_up k tick.0 + growth_up k cur' tick.1.last_counters)
        × (reported_down k again.0
            ≡ reported_down k tick.0 + growth_down k cur' tick.1.last_counters)
refused_batch_reported k cur cur' now now' s v d d' h =
    let tick = counter_samples (some cur) now s in
    let back = re_add_counters tick.0 tick.1 in
    let good = re_add_counters-IsMap tick.0 tick.1 (counter_samples-IsMap cur now s v) in
    let again = counter_samples-reported k cur' now' back good d' in
    let owes = re_add_counters-Owes cur' k tick.0 tick.1 h in
    let empty = nothing_pending k cur now s in
    let empty_up = ap (λ b. b.0) empty in
    let empty_down = ap (λ b. b.1) empty in
    (omega (arith, again.0, owes.0, empty_up), omega (arith, again.1, owes.1, empty_down))
