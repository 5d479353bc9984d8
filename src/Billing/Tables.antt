-- ===== src/Billing/Tables.antt =====
-- What `applyCounters` of internal/server/hub.go does around the loop: the reads that can fail, the cycles
-- that end, the transaction and its acknowledgement. Go walks a map in an order of its own; the statements
-- here come in the order of the lists.
use nft.Base.{
  Bool, Equality, List, Option, [], eqb, false, if◌then◌else◌, ltb, map, nat_eq, none, pair_eq,
  some, string_eq, true, ℕ, ◌&&◌, ◌++◌, ◌+◌, ◌==◌, ◌∷◌,
}
use nft.Billing.{Adds, HopWrite, Loaded, Sample, UserExitKey, add_samples, add_to, no_adds}

-- The ledgers that the transaction writes.
pub record Ledgers : Type 0 where
  pub node_raw : ℕ
  pub node_daily : ℕ
  pub hops : List (ℕ × HopWrite)
  pub user_nodes : List ((ℕ × ℕ) × ℕ)
  pub users : List (ℕ × ℕ)
  pub user_daily : List (ℕ × ℕ)
  pub user_totals : List (ℕ × ℕ)
  pub rule_exits : List (ℕ × ℕ)
  pub landing_exits : List (UserExitKey × ℕ)

-- One UPDATE, and the whole transaction as the statements in the order of the source.
pub data Statement : Type 0 where
  add_raw add_daily_raw : ℕ → Statement
  update_hop : ℕ → HopWrite → Statement
  add_user_node : ℕ × ℕ → ℕ → Statement
  add_traffic add_user_daily add_total add_rule_exit : ℕ → ℕ → Statement
  add_landing_exit : UserExitKey → ℕ → Statement

-- UPDATE ... SET n = n + ? WHERE k = ?: a missing row is left missing.
unfoldable pub bump {ℓ} : {K : Type ℓ} ⦃e : Equality K⦄ → K → ℕ → List (K × ℕ) → List (K × ℕ)
bump k n [] = []
bump k n ((j, m) ∷ rows) =
    let rest = bump k n rows in if j == k then (j, m + n) ∷ rest else (j, m) ∷ rest

unfoldable pub bump_hop : ℕ → HopWrite → List (ℕ × HopWrite) → List (ℕ × HopWrite)
bump_hop id w [] = []
bump_hop id w ((j, old) ∷ rows) =
    let rest = bump_hop id w rows in
    if eqb j id
    then (
      j,
      record w {
        add_total = old.add_total + w.add_total;
        add_billed = old.add_billed + w.add_billed;
      },
    )
      ∷ rest
    else (j, old) ∷ rest

unfoldable pub execute : Statement → Ledgers → Ledgers
execute (add_raw n) d = record d { node_raw = d.node_raw + n }
execute (add_daily_raw n) d = record d { node_daily = d.node_daily + n }
execute (update_hop id w) d = record d { hops = bump_hop id w d.hops }
execute (add_user_node k n) d = record d { user_nodes = bump k n d.user_nodes }
execute (add_traffic u n) d = record d { users = bump u n d.users }
execute (add_user_daily u n) d = record d { user_daily = add_to u n d.user_daily }
execute (add_total u n) d = record d { user_totals = bump u n d.user_totals }
execute (add_rule_exit r n) d = record d { rule_exits = bump r n d.rule_exits }
execute (add_landing_exit k n) d = record d { landing_exits = bump k n d.landing_exits }

unfoldable pub traffic_statements : List (ℕ × ℕ) → List Statement
traffic_statements [] = []
traffic_statements ((u, n) ∷ rest) = add_traffic u n ∷ add_user_daily u n ∷ traffic_statements rest

unfoldable pub statements : Adds → List Statement
statements a =
    (if ltb 0 a.raw_add then add_raw a.raw_add ∷ add_daily_raw a.raw_add ∷ [] else [])
    ++ (map (λ p. update_hop p.0 p.1) a.hop_writes
        ++ (map (λ p. add_user_node p.0 p.1) a.user_node_adds
            ++ (traffic_statements a.user_adds
                ++ (map (λ p. add_total p.0 p.1) a.total_user_adds
                    ++ (map (λ p. add_rule_exit p.0 p.1) a.rule_exit_adds
                        ++ map (λ p. add_landing_exit p.0 p.1) a.exit_adds)))))

-- What the database does with the transaction: whether it begins, which statements it takes, and
-- whether it commits.
pub record Database : Type 0 where
  pub begins : Bool
  pub takes : ℕ → Bool
  pub commits : Bool

-- The statements from index i on, up to the first that fails.
unfoldable pub run : Database → ℕ → List Statement → Ledgers → Option Ledgers
run db i [] d = some d
run db i (s ∷ ss) d =
    let rest = run db (i + 1) ss (execute s d) in if db.takes i then rest else none

unfoldable pub finish : Database → Ledgers → Option Ledgers → Bool × Ledgers
finish db old none = (false, old)
finish db old (some new) = if db.commits then (true, new) else (false, old)

unfoldable pub flush : Database → List Statement → Ledgers → Bool × Ledgers
flush db [] d = (true, d)
flush db (s ∷ ss) d = if db.begins then finish db d (run db 0 (s ∷ ss) d) else (false, d)

-- What the reads before the transaction give: whether the hop map and the node are read, and the users
-- whose cycle CheckAndResetTrafficCycle has reset, each in a transaction of its own, with the rows of hops
-- and rules that are theirs.
pub record Reads : Type 0 where
  pub hop_map : Bool
  pub node : Bool
  pub resets : List ℕ
  pub owns_hop : ℕ → ℕ → Bool
  pub owns_rule : ℕ → ℕ → Bool

-- UPDATE ... SET n = 0 WHERE ...
unfoldable pub zero_where {ℓ} : {K : Type ℓ} → (K → Bool) → List (K × ℕ) → List (K × ℕ)
zero_where p [] = []
zero_where p ((k, n) ∷ rows) = (k, if p k then 0 else n) ∷ zero_where p rows

unfoldable pub zero_hops : (ℕ → Bool) → List (ℕ × HopWrite) → List (ℕ × HopWrite)
zero_hops p [] = []
zero_hops p ((id, w) ∷ rows) =
    (id, if p id then record w { add_total = 0; add_billed = 0 } else w) ∷ zero_hops p rows

-- ZeroUserTrafficLedgers on these ledgers; the daily ones are kept.
unfoldable pub zero_ledgers : Reads → ℕ → Ledgers → Ledgers
zero_ledgers reads u d = record d {
  hops = zero_hops (reads.owns_hop u) d.hops;
  user_nodes = zero_where (λ k. eqb k.0 u) d.user_nodes;
  users = zero_where (λ k. eqb k u) d.users;
  user_totals = zero_where (λ k. eqb k u) d.user_totals;
  rule_exits = zero_where (reads.owns_rule u) d.rule_exits;
  landing_exits = zero_where (λ k. eqb k.0 u) d.landing_exits;
}

unfoldable pub reset_cycles : Reads → List ℕ → Ledgers → Ledgers
reset_cycles reads [] d = d
reset_cycles reads (u ∷ us) d = reset_cycles reads us (zero_ledgers reads u d)

-- The acknowledgement and the ledgers after a batch; an empty batch is a heartbeat.
unfoldable pub apply_counters : Database → Reads → Loaded → List Sample → Ledgers → Bool × Ledgers
apply_counters db reads l [] d = (true, d)
apply_counters db reads l (s ∷ ss) d =
    if reads.hop_map && reads.node
    then flush db (statements (add_samples l (s ∷ ss) no_adds)) (reset_cycles reads reads.resets d)
    else (false, d)
