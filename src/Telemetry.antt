-- ===== src/Telemetry.antt =====
-- internal/daemon/dialer.go: the counter frames between the agent's sampler and the panel, with the
-- batches that wait for their counters_ack. Times are in milliseconds. A frame's identifier "ctr-N" is
-- its number N; the numbers that proxy frames take from the same sequence are not modelled. The
-- connection is a parameter: the environment says whether a write succeeds and which acks arrive.
pub mod Parking
pub mod Waiting
pub mod Books
pub mod Delivery
use nft.Base.{
  Bool, List, Option, [], if◌then◌else◌, length, ltb, nat_eq, none, pair_eq, some, string_eq, ℕ,
  ◌+◌, ◌-◌, ◌∷◌,
}
use nft.Base.Assoc.{delete, insert, lookup}
use nft.Counters.{Counter, Sample, Sampler, counter_samples, re_add_counters}

-- A batch with the time when it was sent.
abbrev pub Pending : Type 0
Pending = List (ℕ × (List Sample × ℕ))

pub record Channel : Type 0 where
  pub sampler : Sampler
  pub id_seq : ℕ
  pub pending_counters : Pending

abbrev pub pending_counters_ttl : ℕ
pending_counters_ttl = 8000

-- The sweep of the batches that the panel never answered.
unfoldable pub sweep : ℕ → Pending → Pending
sweep now [] = []
sweep now ((id, b) ∷ m) =
    let rest = sweep now m in if ltb pending_counters_ttl (now - b.1) then rest else (id, b) ∷ rest

abbrev pub capped : Pending → Pending
capped m = if ltb 32 (length m) then [] else m

unfoldable pub track_pending_counters : ℕ → List Sample → ℕ → Pending → Pending
track_pending_counters id samples now m = insert id (samples, now) (capped (sweep now m))

abbrev pub samples_of : Option (List Sample × ℕ) → List Sample
samples_of none = []
samples_of (some b) = b.0

-- The samples of a batch, which leaves the map.
unfoldable pub take_pending_counters : ℕ → Pending → List Sample × Pending
take_pending_counters id m = (samples_of (lookup id m), delete id m)

-- One tick with the batch that CountersFn has returned: an empty batch is sent and not tracked.
unfoldable pub send_counters : List Sample → ℕ → Bool → Channel → Channel
send_counters [] now written ch = record ch { id_seq = ch.id_seq + 1 }
send_counters (s ∷ samples) now written ch =
    let id = ch.id_seq + 1 in
    let tracked = track_pending_counters id (s ∷ samples) now ch.pending_counters in
    if written then record ch { id_seq = id; pending_counters = tracked } else record {
      sampler = re_add_counters (s ∷ samples) ch.sampler;
      id_seq = id;
      pending_counters = delete id tracked;
    }

unfoldable pub counters_tick : Option (List Counter) → ℕ → Bool → Channel → Channel
counters_tick reading now written ch =
    let t = counter_samples reading now ch.sampler in
    send_counters t.0 now written (record ch { sampler = t.1 })

-- The frame counters_ack: a batch that the panel refuses goes back to the sampler.
unfoldable pub counters_ack : ℕ → Bool → Channel → Channel
counters_ack id accepted ch =
    let taken = take_pending_counters id ch.pending_counters in
    record ch {
      sampler = if accepted then ch.sampler else re_add_counters taken.0 ch.sampler;
      pending_counters = taken.1;
    }

-- What the serve loop meets: a tick with the data plane's reading, the clock and the fate of the write,
-- or an ack, which may be for no batch that waits.
pub data Event : Type 0 where
  tick : Option (List Counter) → ℕ → Bool → Event
  ack : ℕ → Bool → Event

unfoldable pub handle : Event → Channel → Channel
handle (tick reading now written) ch = counters_tick reading now written ch
handle (ack id accepted) ch = counters_ack id accepted ch

unfoldable pub run_frames : List Event → Channel → Channel
run_frames [] ch = ch
run_frames (e ∷ es) ch = run_frames es (handle e ch)
