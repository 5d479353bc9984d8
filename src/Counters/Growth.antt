-- ===== src/Counters/Growth.antt =====
-- What folding a batch of counters into a ledger does at each key.
use nft.Base.{
  Bool-cases, List, Option, [], ap, arith, distinct, distinct-cons, false, has, if◌then◌else◌, inl,
  inr, map, nat_eq, none, pair_test_iff, pair_eq, refl, some, string_eq, subst, true, ℕ, ◌+◌, ◌==◌,
  ◌∙◌, ◌∷◌, ◌≡◌,
}
use nft.Base.Assoc.{
  distinct-keys-insert, get_or, get_or-insert, insert, keys, lookup, lookup-insert,
}
use nft.Counters.{
  Counter, Key, Ledger, add_deltas, counter_key, delta, fold_counter, fold_counters, grow,
}

abbrev pub at : Key → Ledger → ℕ × ℕ
at k m = get_or (0, 0) k m

-- By how much the counter of a key has grown since the cursor.
unfoldable pub growth_up : Key → List Counter → Ledger → ℕ
growth_up k [] last = 0
growth_up k (c ∷ cs) last =
    if counter_key c == k then delta c.bytes_up (at k last).0 else growth_up k cs last

unfoldable pub growth_down : Key → List Counter → Ledger → ℕ
growth_down k [] last = 0
growth_down k (c ∷ cs) last =
    if counter_key c == k then delta c.bytes_down (at k last).1 else growth_down k cs last

pub at-grow :
    (k j : Key) (up down : ℕ) (m : Ledger)
    → at j (grow k up down m) ≡ (if k == j then ((at k m).0 + up, (at k m).1 + down) else at j m)
unfolding grow
at-grow k j up down m = get_or-insert (0, 0) k j _ m

pub at-add_deltas :
    (k j : Key) (up down : ℕ) (m : Ledger)
    → ((at j (add_deltas k up down m)).0 ≡ (at j m).0 + (if k == j then up else 0))
      × ((at j (add_deltas k up down m)).1 ≡ (at j m).1 + (if k == j then down else 0))
unfolding add_deltas
at-add_deltas k j up down m =
    ground (arith, at-grow k j up down m, pair_test_iff string_eq nat_eq k j)

growth-other :
    (k : Key) (cs : List Counter) (last : Ledger)
    → has k (map counter_key cs) ≡ false
    → (growth_up k cs last ≡ 0) × (growth_down k cs last ≡ 0)
unfolding growth_up growth_down has
growth-other k [] last h = (refl, refl)
growth-other k (c ∷ cs) last h = ground (arith, growth-other k cs last)

-- The cursor of another key does not matter.
pub growth-insert :
    (k j : Key) (b : ℕ × ℕ) (cs : List Counter) (last : Ledger)
    → (j == k) ≡ false
    → (growth_up k cs (insert j b last) ≡ growth_up k cs last)
      × (growth_down k cs (insert j b last) ≡ growth_down k cs last)
unfolding growth_up growth_down
growth-insert k j b [] last h = (refl, refl)
growth-insert k j b (c ∷ cs) last h =
    let moved : at k (insert j b last) ≡ at k last = rw (get_or-insert (0, 0) j k b last, h) in
    let ih = growth-insert k j b cs last h in (rw (moved, ih.0), rw (moved, ih.1))

-- Over counters of distinct keys, each key gains exactly its growth since the cursor.
pub fold_counters-at :
    (k : Key) (cs : List Counter) (into last : Ledger)
    → distinct (map counter_key cs) ≡ true
    → ((at k (fold_counters cs into last).0).0 ≡ (at k into).0 + growth_up k cs last)
      × ((at k (fold_counters cs into last).0).1 ≡ (at k into).1 + growth_down k cs last)
unfolding fold_counters fold_counter growth_up growth_down distinct
fold_counters-at k [] into last d = omega arith
fold_counters-at k (c ∷ cs) into last d =
    let seen = at (counter_key c) last in
    let up = delta c.bytes_up seen.0 in
    let down = delta c.bytes_down seen.1 in
    let last' = insert (counter_key c) (c.bytes_up, c.bytes_down) last in
    let unique = distinct-cons (counter_key c) (map counter_key cs) d in
    let ih = fold_counters-at k cs (add_deltas (counter_key c) up down into) last' unique.1 in
    let step = at-add_deltas (counter_key c) k up down into in
    elim (Bool-cases (counter_key c == k)) [
      | inl e ↦
          let same : counter_key c ≡ k = (pair_test_iff string_eq nat_eq (counter_key c) k).0 e in
          let rest =
            growth-other k cs last'
              (subst (λ j. has j (map counter_key cs) ≡ false) same unique.0) in
          let cursor : seen ≡ at k last = ap (λ j. at j last) same in
          ground (arith, e, cursor, rest, ih, step)
      | inr e ↦
          let rest = growth-insert k (counter_key c) (c.bytes_up, c.bytes_down) cs last e in
          ground (arith, e, rest, ih, step)
    ]

pub distinct-add_deltas :
    (k : Key) (up down : ℕ) (m : Ledger)
    → distinct (keys m) ≡ true
    → distinct (keys (add_deltas k up down m)) ≡ true
unfolding add_deltas grow
distinct-add_deltas k up down m d =
    ground (arith, distinct-keys-insert k ((at k m).0 + up, (at k m).1 + down) m d)

-- Both maps stay maps: no key twice.
pub fold_counters-distinct :
    (cs : List Counter) (into last : Ledger)
    → distinct (keys into) ≡ true
    → distinct (keys last) ≡ true
    → (distinct (keys (fold_counters cs into last).0) ≡ true)
      × (distinct (keys (fold_counters cs into last).1) ≡ true)
unfolding fold_counters fold_counter
fold_counters-distinct [] into last d d' = (d, d')
fold_counters-distinct (c ∷ cs) into last d d' =
    fold_counters-distinct cs _ _ (distinct-add_deltas (counter_key c) _ _ into d)
      (distinct-keys-insert (counter_key c) _ last d')

-- The reading of a key, if the batch has one.
unfoldable pub reading : Key → List Counter → Option (ℕ × ℕ)
reading k [] = none
reading k (c ∷ cs) = if counter_key c == k then some (c.bytes_up, c.bytes_down) else reading k cs

pub reading-other :
    (k : Key) (cs : List Counter) → has k (map counter_key cs) ≡ false → reading k cs ≡ none
unfolding reading has
reading-other k [] h = refl
reading-other k (c ∷ cs) h = ground (arith, reading-other k cs)

abbrev pub or_else {ℓ} : {A : Type ℓ} → Option A → Option A → Option A
or_else none d = d
or_else (some a) d = some a

-- The cursor of a key becomes its reading, and stays where it was without one.
pub fold_counters-cursor :
    (k : Key) (cs : List Counter) (into last : Ledger)
    → distinct (map counter_key cs) ≡ true
    → lookup k (fold_counters cs into last).1 ≡ or_else (reading k cs) (lookup k last)
unfolding fold_counters fold_counter reading
fold_counters-cursor k [] into last d = refl
fold_counters-cursor k (c ∷ cs) into last d =
    let b : ℕ × ℕ = (c.bytes_up, c.bytes_down) in
    let unique = distinct-cons (counter_key c) (map counter_key cs) d in
    let moved = lookup-insert (counter_key c) k b last in
    fold_counters-cursor k cs _ (insert (counter_key c) b last) unique.1
    ∙ elim (Bool-cases (counter_key c == k)) [
      | inl e ↦
          let same : counter_key c ≡ k = (pair_test_iff string_eq nat_eq (counter_key c) k).0 e in
          let rest =
            reading-other k cs (subst (λ j. has j (map counter_key cs) ≡ false) same unique.0) in
          rw (e, rest, moved, e)
      | inr e ↦ rw (e, moved, e)
    ]
