-- ===== src/Telemetry/Waiting.antt =====
-- The batches that wait for an ack: identifiers, and how many bytes of a key they hold.
use nft.Base.{
  All, Bool-cases, List, Option-cases, [], all, arith, distinct, eqb, false, has, inl, inr, length,
  ltb, nat_eq, pair_eq, refl, string_eq, sum_by, true, ℕ, ◌+◌, ◌-◌, ◌∷◌, ◌≡◌, ◌≤◌,
}
use nft.Base.Assoc.{
  delete, distinct-keys-delete, distinct-keys-insert, insert, keys, lookup, lookup-none,
}
use nft.Base.Sums.{delete-insert_new, delete-missing, sum_by-delete, sum_by-insert}
use nft.Counters.{Key, Sample}
use nft.Counters.Sampling.{reported_down, reported_up}
use nft.Telemetry.{Pending, capped, pending_counters_ttl, sweep, take_pending_counters}

-- The bytes of a key in the batches that wait.
abbrev pub waiting_up : Key → Pending → ℕ
waiting_up k m = sum_by (λ p. reported_up k p.1.0) m

abbrev pub waiting_down : Key → Pending → ℕ
waiting_down k m = sum_by (λ p. reported_down k p.1.0) m

-- No identifier is held twice, and all of them have been given out.
abbrev pub Issued : ℕ → Pending → Type 0
Issued n m = (distinct (keys m) ≡ true) × All (λ p. p.0 ≤ n) m

Issued-unused : (n : ℕ) (m : Pending) → All (λ p. p.0 ≤ n) m → has (n + 1) (keys m) ≡ false
unfolding keys has
Issued-unused n [] h = refl
Issued-unused n ((id, b) ∷ m) h = ground (arith, Issued-unused n m h.1, h.0)

has-sweep :
    (now id : ℕ) (m : Pending) → has id (keys m) ≡ false → has id (keys (sweep now m)) ≡ false
unfolding sweep keys has
has-sweep now id [] h = refl
has-sweep now id ((j, b) ∷ m) h = ground (arith, has-sweep now id m)

distinct-sweep :
    (now : ℕ) (m : Pending) → distinct (keys m) ≡ true → distinct (keys (sweep now m)) ≡ true
unfolding sweep keys distinct
distinct-sweep now [] h = refl
distinct-sweep now ((j, b) ∷ m) h = ground (arith, distinct-sweep now m, has-sweep now j m)

bounded-sweep : (now n : ℕ) (m : Pending) → All (λ p. p.0 ≤ n) m → All (λ p. p.0 ≤ n) (sweep now m)
unfolding sweep
bounded-sweep now n [] h = tt
bounded-sweep now n ((j, b) ∷ m) h = elim (Bool-cases (ltb pending_counters_ttl (now - b.1))) [
  | inl old ↦ rw old (bounded-sweep now n m h.1)
  | inr young ↦ rw young (h.0, bounded-sweep now n m h.1)
]

pub Issued-capped : (now n : ℕ) (m : Pending) → Issued n m → Issued n (capped (sweep now m))
Issued-capped now n m h = elim (Bool-cases (ltb 32 (length (sweep now m)))) [
  | inl full ↦ rw full (unfold keys distinct in refl, tt)
  | inr room ↦ rw room (distinct-sweep now m h.0, bounded-sweep now n m h.1)
]

waiting-sweep :
    (k : Key) (now : ℕ) (m : Pending)
    → (waiting_up k (sweep now m) ≤ waiting_up k m)
      × (waiting_down k (sweep now m) ≤ waiting_down k m)
unfolding sweep
waiting-sweep k now [] = ground arith
waiting-sweep k now ((j, b) ∷ m) = ground (arith, waiting-sweep k now m)

pub waiting-capped :
    (k : Key) (now : ℕ) (m : Pending)
    → (waiting_up k (capped (sweep now m)) ≤ waiting_up k m)
      × (waiting_down k (capped (sweep now m)) ≤ waiting_down k m)
waiting-capped k now m = ground (arith, waiting-sweep k now m)

bounded-insert :
    (n id : ℕ) (b : List Sample × ℕ) (m : Pending)
    → id ≤ n
    → All (λ p. p.0 ≤ n) m
    → All (λ p. p.0 ≤ n) (insert id b m)
unfolding insert
bounded-insert n id b [] h all = (h, tt)
bounded-insert n id b ((j, d) ∷ m) h all = elim (Bool-cases (eqb j id)) [
  | inl same ↦ rw same (h, all.1)
  | inr other ↦ rw other (all.0, bounded-insert n id b m h all.1)
]

bounded-delete : (n id : ℕ) (m : Pending) → All (λ p. p.0 ≤ n) m → All (λ p. p.0 ≤ n) (delete id m)
unfolding delete
bounded-delete n id [] all = tt
bounded-delete n id ((j, d) ∷ m) all = elim (Bool-cases (eqb j id)) [
  | inl same ↦ rw same (bounded-delete n id m all.1)
  | inr other ↦ rw other (all.0, bounded-delete n id m all.1)
]

bounded_later : (n : ℕ) (m : Pending) → All (λ p. p.0 ≤ n) m → All (λ p. p.0 ≤ n + 1) m
bounded_later n [] h = tt
bounded_later n ((j, b) ∷ m) h = (omega (arith, h.0), bounded_later n m h.1)

pub Issued-next : (n : ℕ) (m : Pending) → Issued n m → Issued (n + 1) m
Issued-next n m h = (h.0, bounded_later n m h.1)

pub Issued-delete : (n id : ℕ) (m : Pending) → Issued n m → Issued n (delete id m)
Issued-delete n id m h = (distinct-keys-delete id m h.0, bounded-delete n id m h.1)

pub Issued-insert :
    (n : ℕ) (b : List Sample × ℕ) (m : Pending) → Issued n m → Issued (n + 1) (insert (n + 1) b m)
Issued-insert n b m h = (
  distinct-keys-insert (n + 1) b m h.0,
  bounded-insert (n + 1) (n + 1) b m (omega arith) (bounded_later n m h.1),
)

-- A batch under a new identifier adds its bytes; without it they are gone again.
pub waiting-insert :
    (k : Key) (n : ℕ) (b : List Sample × ℕ) (m : Pending)
    → Issued n m
    → (waiting_up k (insert (n + 1) b m) ≡ waiting_up k m + reported_up k b.0)
      × (waiting_down k (insert (n + 1) b m) ≡ waiting_down k m + reported_down k b.0)
      × (delete (n + 1) (insert (n + 1) b m) ≡ m)
waiting-insert k n b m h =
    let unused = lookup-none (n + 1) m (Issued-unused n m h.1) in
    (
      sum_by-insert (λ p. reported_up k p.1.0) (n + 1) b m unused,
      sum_by-insert (λ p. reported_down k p.1.0) (n + 1) b m unused,
      delete-insert_new (n + 1) b m unused,
    )

pub waiting-take :
    (k : Key) (id : ℕ) (m : Pending)
    → distinct (keys m) ≡ true
    → let t = take_pending_counters id m in
      (waiting_up k t.1 + reported_up k t.0 ≡ waiting_up k m)
      × (waiting_down k t.1 + reported_down k t.0 ≡ waiting_down k m)
unfolding take_pending_counters
waiting-take k id m h = elim (Option-cases (lookup id m)) [
  | inl missing ↦ rw missing (
      rw (delete-missing id m missing)
        (unfold reported_up reported_down in (omega arith, omega arith)))
  | inr found ↦ rw found.1 (
    sum_by-delete (λ p. reported_up k p.1.0) id m found.0 h found.1,
    sum_by-delete (λ p. reported_down k p.1.0) id m found.0 h found.1,
  )
]
