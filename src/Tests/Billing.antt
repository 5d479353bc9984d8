-- ===== src/Tests/Billing.antt =====
-- A batch of a node with a two-hop rule whose last hop is here.
use nft.Base.{
  List, [], eqb, false, nat_eq, pair_eq, refl, some, string_eq, sum_by, true, ℕ, ◌*◌, ◌+◌, ◌∷◌, ◌≡◌,
  ◌⊎◌,
}
use nft.Base.Assoc.{get_or, lookup}
use nft.Billing.{
  BilledRule, Hop, Loaded, Sample, add_samples, billed_delta, directions, has_positions, is_final,
  no_adds, rule_owner, total_delta,
}
use nft.Billing.Accounting.{add_samples_exact, charge}
use nft.Billing.Posting.{apply_counters_settled, posted}
use nft.Billing.Tables.{Database, Ledgers, Reads, apply_counters, reset_cycles}

abbrev last_hop : Hop
last_hop = record { id = 21; rule_id = 8; position = 1 }

abbrev owned_rule : BilledRule
owned_rule = record { node_id = 1; owner_id = some 3; exit_host = "10.9.9.8"; exit_port = 9000 }

abbrev test_loaded : Loaded
test_loaded = record {
  node_id = 2;
  unidirectional = false;
  hop_map = (("tcp", 200), last_hop) ∷ [];
  rule_map = (8, owned_rule) ∷ [];
  seg_first = [];
  exit_set = (3, ("10.9.9.8", 9000)) ∷ [];
  max_pos = (8, 1) ∷ [];
  weigh = λ n b. b * 2;
}

abbrev sample_of : ℕ → ℕ → ℕ → Sample
sample_of port up down = record {
  proto = "tcp";
  listen_port = port;
  bytes_up = up;
  bytes_down = down;
  bytes_delta = up + down;
}

abbrev test_samples : List Sample
test_samples = sample_of 200 10 20 ∷ sample_of 999 5 0 ∷ []

add_samples_exact_example :
    (get_or 0 3 (add_samples test_loaded test_samples no_adds).user_adds
      ≡ sum_by (charge test_loaded 3) test_samples)
    × ((add_samples test_loaded test_samples no_adds).raw_add
        ≡ sum_by (λ s. total_delta (directions s)) test_samples)
add_samples_exact_example = add_samples_exact test_loaded 3 test_samples

charged_once : sum_by (charge test_loaded 3) test_samples ≡ 30
unfolding total_delta directions lookup rule_owner billed_delta has_positions is_final get_or
charged_once = refl

abbrev test_ledgers : Ledgers
test_ledgers = record {
  node_raw = 100;
  node_daily = 0;
  hops = [];
  user_nodes = [];
  users = (3, 7) ∷ [];
  user_daily = [];
  user_totals = [];
  rule_exits = [];
  landing_exits = [];
}

abbrev test_database : Database
test_database = record { begins = true; takes = λ i. true; commits = true }

-- The cycle of the owner ends with this batch.
abbrev test_reads : Reads
test_reads = record {
  hop_map = true;
  node = true;
  resets = 3 ∷ [];
  owns_hop = λ user hop. eqb user 3;
  owns_rule = λ user rule. eqb user 3;
}

apply_counters_settled_example :
    let ready = reset_cycles test_reads (3 ∷ []) test_ledgers in
    let new = posted (add_samples test_loaded test_samples no_adds) ready in
    let out = apply_counters test_database test_reads test_loaded test_samples test_ledgers in
    ((out ≡ (false, test_ledgers)) ⊎ (out ≡ (false, ready)))
    ⊎ ((out ≡ (true, new))
        × (new.node_raw ≡ 100 + sum_by (λ s. total_delta (directions s)) test_samples))
apply_counters_settled_example =
    apply_counters_settled test_database test_reads test_loaded (sample_of 200 10 20)
      (sample_of 999 5 0 ∷ []) test_ledgers
