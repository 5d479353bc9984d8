-- ===== src/Billing/Posting.antt =====
-- What a batch leaves in the ledgers, whatever the database does with its transaction.
use nft.Base.{
  nat_eq, pair_eq, string_eq, Bool, Bool-cases, Equality, List, Option, [], all, ap, arith, false,
  if◌then◌else◌, inl, inr, ltb, map, none, refl, some, suc, sum_by, true, zero, ℕ, ◌&&◌, ◌++◌, ◌+◌,
  ◌∙◌, ◌∷◌, ◌≡◌, ◌⊎◌,
}
use nft.Billing.Accounting.{add_samples_exact}
use nft.Billing.{
  Adds, HopWrite, Loaded, Sample, UserExitKey, add_samples, add_to, directions, no_adds,
  total_delta,
}
use nft.Billing.Tables.{
  Database, Ledgers, Reads, Statement, add_daily_raw, add_landing_exit, add_raw, add_rule_exit,
  add_total, add_user_node, apply_counters, bump, bump_hop, execute, finish, flush, reset_cycles,
  run, statements, traffic_statements, update_hop, zero_ledgers,
}

-- Every addition of a map, each to the row of its key.
unfoldable pub bump_all {ℓ} :
    {K : Type ℓ} ⦃e : Equality K⦄ → List (K × ℕ) → List (K × ℕ) → List (K × ℕ)
bump_all [] rows = rows
bump_all ((k, n) ∷ m) rows = bump_all m (bump k n rows)

unfoldable pub bump_hops : List (ℕ × HopWrite) → List (ℕ × HopWrite) → List (ℕ × HopWrite)
bump_hops [] rows = rows
bump_hops ((id, w) ∷ m) rows = bump_hops m (bump_hop id w rows)

unfoldable pub add_all : List (ℕ × ℕ) → List (ℕ × ℕ) → List (ℕ × ℕ)
add_all [] rows = rows
add_all ((k, n) ∷ m) rows = add_all m (add_to k n rows)

-- The ledgers with everything added that the loop has gathered, table by table.
abbrev pub posted : Adds → Ledgers → Ledgers
posted a d = record {
  node_raw = d.node_raw + a.raw_add;
  node_daily = d.node_daily + a.raw_add;
  hops = bump_hops a.hop_writes d.hops;
  user_nodes = bump_all a.user_node_adds d.user_nodes;
  users = bump_all a.user_adds d.users;
  user_daily = add_all a.user_adds d.user_daily;
  user_totals = bump_all a.total_user_adds d.user_totals;
  rule_exits = bump_all a.rule_exit_adds d.rule_exits;
  landing_exits = bump_all a.exit_adds d.landing_exits;
}

unfoldable execute_all : List Statement → Ledgers → Ledgers
execute_all [] d = d
execute_all (s ∷ ss) d = execute_all ss (execute s d)

execute_all-append :
    (xs ys : List Statement) (d : Ledgers)
    → execute_all (xs ++ ys) d ≡ execute_all ys (execute_all xs d)
unfolding execute_all
execute_all-append [] ys d = refl
execute_all-append (x ∷ xs) ys d = execute_all-append xs ys (execute x d)

run-execute_all :
    (db : Database) (i : ℕ) (ss : List Statement) (d e : Ledgers)
    → run db i ss d ≡ some e
    → e ≡ execute_all ss d
unfolding run execute_all
run-execute_all db i [] d e h = cc h
run-execute_all db i (s ∷ ss) d e h = elim (Bool-cases (db.takes i)) [
  | inl taken ↦
      let rest : run db (i + 1) ss (execute s d) ≡ some e = cc (rw taken at h) in
      run-execute_all db (i + 1) ss (execute s d) e rest
  | inr failed ↦ absurd (cc (rw failed at h))
]

-- Each kind of statement writes its own table.
hops_all :
    (m : List (ℕ × HopWrite)) (d : Ledgers)
    → execute_all (map (λ p. update_hop p.0 p.1) m) d ≡ record d { hops = bump_hops m d.hops }
unfolding execute_all execute bump_hops
hops_all [] d = refl
hops_all ((k, n) ∷ m) d = hops_all m (record d { hops = bump_hop k n d.hops })

user_nodes_all :
    (m : List ((ℕ × ℕ) × ℕ)) (d : Ledgers)
    → execute_all (map (λ p. add_user_node p.0 p.1) m) d
      ≡ record d { user_nodes = bump_all m d.user_nodes }
unfolding execute_all execute bump_all
user_nodes_all [] d = refl
user_nodes_all ((k, n) ∷ m) d = user_nodes_all m (record d { user_nodes = bump k n d.user_nodes })

users_all :
    (m : List (ℕ × ℕ)) (d : Ledgers)
    → execute_all (traffic_statements m) d
      ≡ record d { users = bump_all m d.users; user_daily = add_all m d.user_daily }
unfolding execute_all execute bump_all add_all traffic_statements
users_all [] d = refl
users_all ((k, n) ∷ m) d =
    users_all m (record d { users = bump k n d.users; user_daily = add_to k n d.user_daily })

user_totals_all :
    (m : List (ℕ × ℕ)) (d : Ledgers)
    → execute_all (map (λ p. add_total p.0 p.1) m) d
      ≡ record d { user_totals = bump_all m d.user_totals }
unfolding execute_all execute bump_all
user_totals_all [] d = refl
user_totals_all ((k, n) ∷ m) d =
    user_totals_all m (record d { user_totals = bump k n d.user_totals })

rule_exits_all :
    (m : List (ℕ × ℕ)) (d : Ledgers)
    → execute_all (map (λ p. add_rule_exit p.0 p.1) m) d
      ≡ record d { rule_exits = bump_all m d.rule_exits }
unfolding execute_all execute bump_all
rule_exits_all [] d = refl
rule_exits_all ((k, n) ∷ m) d = rule_exits_all m (record d { rule_exits = bump k n d.rule_exits })

landing_exits_all :
    (m : List (UserExitKey × ℕ)) (d : Ledgers)
    → execute_all (map (λ p. add_landing_exit p.0 p.1) m) d
      ≡ record d { landing_exits = bump_all m d.landing_exits }
unfolding execute_all execute bump_all
landing_exits_all [] d = refl
landing_exits_all ((k, n) ∷ m) d =
    landing_exits_all m (record d { landing_exits = bump k n d.landing_exits })

raw_all :
    (n : ℕ) (d : Ledgers)
    → execute_all (if ltb 0 n then add_raw n ∷ add_daily_raw n ∷ [] else []) d
      ≡ record d { node_raw = d.node_raw + n; node_daily = d.node_daily + n }
unfolding execute_all execute
raw_all zero d =
    let raw : d.node_raw ≡ d.node_raw + 0 = omega arith in
    let daily : d.node_daily ≡ d.node_daily + 0 = omega arith in
    ap (λ n. record d { node_raw = n; node_daily = d.node_daily }) raw
    ∙ ap (λ n. record d { node_raw = d.node_raw + 0; node_daily = n }) daily
raw_all (suc n) d = let some_bytes : ltb 0 (suc n) ≡ true = ground arith in rw some_bytes refl

execute_all-statements : (a : Adds) (d : Ledgers) → execute_all (statements a) d ≡ posted a d
unfolding statements
execute_all-statements a d =
    rw (execute_all-append, raw_all, execute_all-append, hops_all)
      (rw (execute_all-append, user_nodes_all, execute_all-append, users_all)
        (rw (execute_all-append, user_totals_all, execute_all-append, rule_exits_all)
          (rw landing_exits_all refl)))

-- What a flush leaves: on a refusal the ledgers as they were, otherwise those of every statement.
abbrev Settled : Ledgers → Ledgers → Bool × Ledgers → Type 0
Settled d new out = (out ≡ (false, d)) ⊎ (out ≡ (true, new))

finish-Settled :
    (db : Database) (d new : Ledgers) (o : Option Ledgers)
    → ((e : Ledgers) → o ≡ some e → e ≡ new)
    → Settled d new (finish db d o)
unfolding finish
finish-Settled db d new none all = inl refl
finish-Settled db d new (some e) all = elim (Bool-cases db.commits) [
  | inl committed ↦ rw (committed, all e refl) (inr refl)
  | inr refused ↦ rw refused (inl refl)
]

flush-Settled :
    (db : Database) (ss : List Statement) (d : Ledgers)
    → Settled d (execute_all ss d) (flush db ss d)
unfolding flush run finish
flush-Settled db [] d = unfold execute_all in inr refl
flush-Settled db (s ∷ ss) d = elim (Bool-cases db.begins) [
  | inl begun ↦
      rw begun (finish-Settled db d _ (run db 0 (s ∷ ss) d) (run-execute_all db 0 (s ∷ ss) d))
  | inr refused ↦ rw refused (inl refl)
]

reset_cycles-raw :
    (reads : Reads) (us : List ℕ) (d : Ledgers) → (reset_cycles reads us d).node_raw ≡ d.node_raw
unfolding reset_cycles zero_ledgers
reset_cycles-raw reads [] d = refl
reset_cycles-raw reads (u ∷ us) d = reset_cycles-raw reads us (zero_ledgers reads u d)

-- Whatever the database does, a batch that is no heartbeat is posted as a whole or not at all: refused, with
-- no ledger changed but, if it came that far, for the cycles that were reset before; or acknowledged, with
-- everything that its samples add written to every table, and so every byte of them to the node's raw
-- ledger.
pub apply_counters_settled :
    (db : Database) (reads : Reads) (l : Loaded) (s : Sample) (ss : List Sample) (d : Ledgers)
    → let ready = reset_cycles reads reads.resets d in
      let new = posted (add_samples l (s ∷ ss) no_adds) ready in
      ((apply_counters db reads l (s ∷ ss) d ≡ (false, d))
        ⊎ (apply_counters db reads l (s ∷ ss) d ≡ (false, ready)))
      ⊎ ((apply_counters db reads l (s ∷ ss) d ≡ (true, new))
          × (new.node_raw ≡ d.node_raw + sum_by (λ x. total_delta (directions x)) (s ∷ ss)))
unfolding apply_counters
apply_counters_settled db reads l s ss d =
    let adds : Adds = add_samples l (s ∷ ss) no_adds in
    let ready : Ledgers = reset_cycles reads reads.resets d in
    let (users, raw) = add_samples_exact l 0 (s ∷ ss) in
    elim (Bool-cases (reads.hop_map && reads.node)) [
      | inr failed ↦ rw failed (inl (inl refl))
      | inl fine ↦ rw fine (elim (flush-Settled db (statements adds) ready) [
        | inl refused ↦ inl (inr refused)
        | inr acked ↦ inr (
          acked ∙ ap (λ x. (true, x)) (execute_all-statements adds ready),
          omega (arith, raw, reset_cycles-raw reads reads.resets d),
        )
      ])
    ]
