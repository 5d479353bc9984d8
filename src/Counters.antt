-- ===== src/Counters.antt =====
-- internal/daemon/counters.go: the agent's counter sampler. The maps are keyed by "proto/port" in the
-- source and by the pair here; a missing map and an empty one behave alike. Byte counts of the data
-- plane never go below zero and stay under 2^63, so they are natural numbers; a clock reading is in
-- milliseconds.
pub mod Growth
pub mod Sampling
pub mod Readding
pub mod Flushing
use nft.Base.{
  List, Option, String, [], eqb, has, if◌then◌else◌, ltb, map, nat_eq, none, pair_eq, some,
  string_eq, ℕ, ◌&&◌, ◌+◌, ◌-◌, ◌||◌, ◌∷◌,
}
use nft.Base.Assoc.{get_or, insert, lookup}

pub record Counter : Type 0 where
  pub proto : String
  pub listen_port : ℕ
  pub bytes_up : ℕ
  pub bytes_down : ℕ

-- `CounterSample` of internal/wsproto/messages.go, less the field of agents before v0.33.
pub record Sample : Type 0 where
  pub proto : String
  pub listen_port : ℕ
  pub bytes_up : ℕ
  pub bytes_down : ℕ
  pub elapsed_ms : ℕ

abbrev pub Key : Type 0
Key = String × ℕ

abbrev pub Ledger : Type 0
Ledger = List (Key × (ℕ × ℕ))

-- The daemon's fields under countersMu; no clock reading is the zero time.
pub record Sampler : Type 0 where
  pub last_counters : Ledger
  pub pending_flush_deltas : Ledger
  pub last_counter_at : Option ℕ

abbrev pub counter_key : Counter → Key
counter_key c = (c.proto, c.listen_port)

abbrev pub sample_key : Sample → Key
sample_key s = (s.proto, s.listen_port)

-- A value below the last one is a reset, and counts whole.
unfoldable pub delta : ℕ → ℕ → ℕ
delta cur last = if ltb cur last then cur else cur - last

unfoldable pub grow : Key → ℕ → ℕ → Ledger → Ledger
grow k up down m = let old = get_or (0, 0) k m in insert k (old.0 + up, old.1 + down) m

-- The guarded update that ends each loop: two zero deltas write nothing.
unfoldable pub add_deltas : Key → ℕ → ℕ → Ledger → Ledger
add_deltas k up down m = if ltb 0 up || ltb 0 down then grow k up down m else m

-- One turn of the loop that `counterSamples` and `foldCountersBeforeFlush` share: the deltas of one
-- counter go to `into`, and the cursor moves.
unfoldable pub fold_counter : Counter → Ledger → Ledger → Ledger × Ledger
fold_counter c into last =
    let seen = get_or (0, 0) (counter_key c) last in
    (
      add_deltas (counter_key c) (delta c.bytes_up seen.0) (delta c.bytes_down seen.1) into,
      insert (counter_key c) (c.bytes_up, c.bytes_down) last,
    )

unfoldable pub fold_counters : List Counter → Ledger → Ledger → Ledger × Ledger
fold_counters [] into last = (into, last)
fold_counters (c ∷ cs) into last =
    let next = fold_counter c into last in fold_counters cs next.0 next.1

unfoldable pub elapsed_since : Option ℕ → ℕ → ℕ
elapsed_since none now = 0
elapsed_since (some at) now = if ltb 30000 (now - at) then 30000 else now - at

-- The parked deltas that are not zero.
unfoldable pub parked : Ledger → Ledger
parked [] = []
parked ((k, b) ∷ m) = let rest = parked m in if eqb b.0 0 && eqb b.1 0 then rest else (k, b) ∷ rest

-- The loop that drops the keys which the data plane no longer reports.
unfoldable pub prune : List Key → Ledger → Ledger
prune seen [] = []
prune seen ((k, b) ∷ m) = let rest = prune seen m in if has k seen then (k, b) ∷ rest else rest

unfoldable pub to_samples : ℕ → Ledger → List Sample
to_samples elapsed [] = []
to_samples elapsed ((k, b) ∷ m) =
    let rest = to_samples elapsed m in
    if eqb b.0 0 && eqb b.1 0
    then rest
    else record {
      proto = k.0;
      listen_port = k.1;
      bytes_up = b.0;
      bytes_down = b.1;
      elapsed_ms = elapsed;
    }
      ∷ rest

-- `none` is a failed read of the data plane.
unfoldable pub counter_samples : Option (List Counter) → ℕ → Sampler → List Sample × Sampler
counter_samples none now s = ([], s)
counter_samples (some cur) now s =
    let done = fold_counters cur (parked s.pending_flush_deltas) s.last_counters in
    (
      to_samples (elapsed_since s.last_counter_at now) done.0,
      record {
        last_counters = prune (map counter_key cur) done.1;
        pending_flush_deltas = [];
        last_counter_at = some now;
      },
    )

unfoldable pub fold_before_flush : Option (List Counter) → Sampler → Sampler
fold_before_flush none s = s
fold_before_flush (some cur) s =
    let done = fold_counters cur s.pending_flush_deltas s.last_counters in
    record s { last_counters = done.1; pending_flush_deltas = done.0 }

-- The whole sample is parked when its key has no cursor.
unfoldable pub park : Key → ℕ → ℕ → Sampler → Sampler
park k up down st = record st { pending_flush_deltas = grow k up down st.pending_flush_deltas }

-- Otherwise the cursor goes down by the sample, to 0 at least, and what does not fit is parked.
unfoldable pub rewind : Key → ℕ → ℕ → ℕ × ℕ → Sampler → Sampler
rewind k up down last st = record st {
  last_counters = insert k (last.0 - up, last.1 - down) st.last_counters;
  pending_flush_deltas = add_deltas k (up - last.0) (down - last.1) st.pending_flush_deltas;
}

-- One turn of the loop of `reAddCounters`.
unfoldable pub re_add : Sample → Sampler → Sampler
re_add s st = elim (lookup (sample_key s) st.last_counters) [
  | none ↦ park (sample_key s) s.bytes_up s.bytes_down st
  | some last ↦ rewind (sample_key s) s.bytes_up s.bytes_down last st
]

unfoldable pub re_add_counters : List Sample → Sampler → Sampler
re_add_counters [] st = st
re_add_counters (s ∷ ss) st = re_add_counters ss (re_add s st)
