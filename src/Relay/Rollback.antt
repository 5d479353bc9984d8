-- ===== src/Relay/Rollback.antt =====
-- The two planes after a reconciliation.
use nft.Base.{
  Bool, Bool-cases, List, Option, Result, [], err, inl, inr, nat_eq, none, ok, pair_eq, refl, some,
  string_eq, true, ℕ, ◌∷◌, ◌≡◌, ◌⊎◌,
}
use nft.Base.Assoc.{lookup}
use nft.Base.Int.{int_eq, ℤ}
use nft.Rule.{Rule}
use nft.Partition.{Conflict, partition}
use nft.Relay.{
  Backend, Calls, Listener, Listeners, desired_groups, desired_of, finish_update, open_all, open_at,
  reconcile_listeners, retune_all,
}
use nft.Relay.Planes.{
  Applied, Dataplane, Machine, after_partition, after_userspace, apply_kernel, bind_failed,
  conflict, kernel_failed, reconcile_planes,
}
use nft.Relay.Reconciling.{Matches, reconcile_listeners-Matches}

open_at-free :
    (go : Calls) (binds : ℤ → Bool) (size : ℕ) (port : ℤ) (r : Rule) (o : Option Listener)
    (ls : Listeners)
    → binds port ≡ true
    → (open_at go binds size port r o ls).1 ≡ []
unfolding open_at
open_at-free go binds size port r (some l) ls free = refl
open_at-free go binds size port r none ls free = rw free refl

open_all-free :
    (go : Calls) (binds : ℤ → Bool) (size : ℕ) (desired : List (ℤ × Rule)) (ls : Listeners)
    → ((q : ℤ) → binds q ≡ true)
    → (open_all go binds size desired ls).1 ≡ []
unfolding open_all
open_all-free go binds size [] ls free = refl
open_all-free go binds size ((port, r) ∷ desired) ls free =
    rw (open_at-free go binds size port r (lookup port ls) ls (free port))
      (open_all-free go binds size desired _ free)

reconcile_listeners-free :
    (go : Calls) (binds : ℤ → Bool) (rules : List Rule) (b : Backend)
    → ((q : ℤ) → binds q ≡ true)
    → (reconcile_listeners go binds rules b).0 ≡ []
unfolding reconcile_listeners finish_update
reconcile_listeners-free go binds rules b free =
    rw
      (open_all-free go binds b.pool_size (desired_of rules [])
        (retune_all (desired_groups rules []) b.listeners) free)
      refl

-- The planes run what the data plane last took.
abbrev pub InStep : Calls → Dataplane → Type 0
InStep go d = Matches go d.last_userspace d.userspace × (d.kernel ≡ d.last_kernel)

abbrev pub SameRules : Dataplane → Dataplane → Type 0
SameRules d e =
    (e.kernel ≡ d.kernel) × (e.last_userspace ≡ d.last_userspace) × (e.last_kernel ≡ d.last_kernel)

-- The outcomes: applied as a whole; refused by the kernel, and back in step with the old rules; refused
-- with a conflict; or a port that cannot be bound, with the kernel untouched.
abbrev pub Settled : Calls → List Rule → Dataplane → Applied → Type 0
Settled go rules d out =
    ((out.0 ≡ none) × InStep go out.1 × (partition rules ≡ ok (out.1.kernel, out.1.last_userspace)))
    ⊎ (((out.0 ≡ some kernel_failed) × InStep go out.1 × SameRules d out.1)
        ⊎ (((c : Conflict) × (out.0 ≡ some (conflict c)) × (out.1 ≡ d))
            ⊎ ((ports : List ℤ) × (out.0 ≡ some (bind_failed ports)) × SameRules d out.1)))

apply_kernel-Settled :
    (go : Calls) (m : Machine) (rules : List Rule) (parts : List Rule × List Rule) (d : Dataplane)
    (b : Backend)
    → ((q : ℤ) → m.rebinds q ≡ true)
    → d.kernel ≡ d.last_kernel
    → partition rules ≡ ok parts
    → Matches go parts.1 b
    → Settled go rules d (apply_kernel go m parts (record d { userspace = b }))
unfolding apply_kernel
apply_kernel-Settled go m rules parts d b free same valid new =
    elim (Bool-cases (m.takes parts.0)) [
      | inl taken ↦ rw taken (inl (refl, (new, refl), valid))
      | inr refused ↦
          let back =
            reconcile_listeners-Matches go m.rebinds d.last_userspace b
              (reconcile_listeners-free go m.rebinds d.last_userspace b free) in
          rw refused (inr (inl (refl, (back.0, same), (refl, refl, refl))))
    ]

after_userspace-Settled :
    (go : Calls) (m : Machine) (rules : List Rule) (parts : List Rule × List Rule) (d : Dataplane)
    (done : List ℤ × Backend)
    → ((q : ℤ) → m.rebinds q ≡ true)
    → d.kernel ≡ d.last_kernel
    → partition rules ≡ ok parts
    → (done.0 ≡ [] → Matches go parts.1 done.1)
    → Settled go rules d (after_userspace go m parts d done)
unfolding after_userspace
after_userspace-Settled go m rules parts d (port ∷ ports, b) free same valid new =
    inr (inr (inr (port ∷ ports, refl, (refl, refl, refl))))
after_userspace-Settled go m rules parts d ([], b) free same valid new =
    apply_kernel-Settled go m rules parts d b free same valid (new refl)

after_partition-Settled :
    (go : Calls) (m : Machine) (rules : List Rule) (d : Dataplane)
    (split : Result Conflict (List Rule × List Rule))
    → ((q : ℤ) → m.rebinds q ≡ true)
    → d.kernel ≡ d.last_kernel
    → partition rules ≡ split
    → Settled go rules d (after_partition go m d split)
unfolding after_partition
after_partition-Settled go m rules d (err c) free same valid = inr (inr (inl (c, refl, refl)))
after_partition-Settled go m rules d (ok parts) free same valid =
    after_userspace-Settled go m rules parts d _ free same valid
      (λ e. (reconcile_listeners-Matches go m.binds parts.1 d.userspace e).0)

-- When the two planes start in step with the rules that were last taken and the rollback can bind its
-- ports, a reconciliation ends in one of four ways: both planes run the split of the new rules; the
-- kernel refused, and both run the old rules again; the rules are in conflict, and nothing has changed;
-- or a port could not be bound, and the kernel and the rules to roll back to are as before.
pub reconcile_planes-Settled :
    (go : Calls) (m : Machine) (rules : List Rule) (d : Dataplane)
    → ((q : ℤ) → m.rebinds q ≡ true)
    → InStep go d
    → Settled go rules d (reconcile_planes go m rules d)
unfolding reconcile_planes
reconcile_planes-Settled go m rules d free step =
    after_partition-Settled go m rules d (partition rules) free step.1 refl
