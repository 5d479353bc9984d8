-- ===== src/Tests/Relay.antt =====
-- The userspace listeners of a node with one rule.
use nft.Base.{
  Bool, [], false, nat_eq, none, not, pair_eq, refl, some, string_eq, true, ◌==◌, ◌∷◌, ◌≡◌, ◌≢◌,
}
use nft.Base.Assoc.{insert, lookup}
use nft.Base.Int.{int_eq, pos, ℤ}
use nft.Rule.{Rule}
use nft.Relay.{
  Backend, Calls, Listener, close_others, desired_groups, desired_of, finish_update, open_all,
  open_at, reconcile_listeners, retune_all, update, update_all,
}
use nft.Relay.Planes.{Dataplane, Machine, reconcile_planes}
use nft.Relay.Reconciling.{Counts, Matches, reconcile_listeners-Matches}
use nft.Relay.Failing.{IsUnlimited, StaysAs, reconcile_listeners_failed}
use nft.Relay.Rollback.{InStep, Settled, reconcile_planes-Settled}
use nft.Tests.Inputs.{web_rule}

abbrev calls : Calls
calls = record { join_host_port = λ host port. host; trim_space = λ s. s }

abbrev relayed : Rule
relayed = record web_rule { mode = "userspace" }

abbrev relayed_too : Rule
relayed_too = record relayed { src_port = pos 8444 }

abbrev empty_backend : Backend
empty_backend = record { listeners = []; groups = []; pool_size = 4 }

abbrev running : Backend
running = (reconcile_listeners calls (λ q. true) (relayed ∷ []) empty_backend).1

bound : (reconcile_listeners calls (λ q. true) (relayed ∷ []) empty_backend).0 ≡ []
unfolding reconcile_listeners finish_update open_all open_at desired_of insert lookup retune_all
    desired_groups
bound = refl

reconcile_listeners-Matches_example :
    Matches calls (relayed ∷ []) running
    × ((q : ℤ) (l : Listener)
        → lookup q running.listeners ≡ some l
        → Counts (lookup q empty_backend.listeners) l)
reconcile_listeners-Matches_example =
    reconcile_listeners-Matches calls (λ q. true) (relayed ∷ []) empty_backend bound

-- The new port is taken by another program.
abbrev taken : ℤ → Bool
taken q = not (q == pos 8444)

refused : (reconcile_listeners calls taken (relayed_too ∷ []) running).0 ≢ []
unfolding reconcile_listeners finish_update open_all open_at desired_of insert lookup retune_all
    desired_groups close_others update_all update
refused = λ e. cc e

reconcile_listeners_failed_example :
    ((q : ℤ) (l : Listener)
      → lookup q running.listeners ≡ some l
      → StaysAs
          (desired_groups (relayed_too ∷ []) [])
          l
          (lookup q (reconcile_listeners calls taken (relayed_too ∷ []) running).1.listeners))
    × ((q : ℤ) (l : Listener)
        → lookup q running.listeners ≡ none
        → lookup q (reconcile_listeners calls taken (relayed_too ∷ []) running).1.listeners ≡ some l
        → IsUnlimited calls (lookup q (desired_of (relayed_too ∷ []) [])) l)
reconcile_listeners_failed_example =
    reconcile_listeners_failed calls taken (relayed_too ∷ []) running refused

abbrev planes : Dataplane
planes = record {
  userspace = running;
  kernel = [];
  last_userspace = relayed ∷ [];
  last_kernel = [];
}

-- nftables refuses every ruleset.
abbrev old_kernel : Machine
old_kernel = record { binds = λ q. true; rebinds = λ q. true; takes = λ rs. false }

planes-InStep : InStep calls planes
planes-InStep = (reconcile_listeners-Matches_example.0, refl)

reconcile_planes-Settled_example :
    Settled calls
      (relayed_too ∷ [])
      planes
      (reconcile_planes calls old_kernel (relayed_too ∷ []) planes)
reconcile_planes-Settled_example =
    reconcile_planes-Settled calls old_kernel (relayed_too ∷ []) planes (λ q. refl) planes-InStep
