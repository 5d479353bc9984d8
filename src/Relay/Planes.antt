-- ===== src/Relay/Planes.antt =====
-- internal/forward/dataplane.go: userspace first, then the kernel, and the userspace rolled back when the
-- kernel refuses. The firewall, whose errors are only logged, is left out. nftables is atomic: a refused
-- ruleset leaves the kernel's rules as they were.
use nft.Base.{Bool, List, Option, Result, [], err, if◌then◌else◌, none, ok, some, ◌∷◌}
use nft.Base.Int.{ℤ}
use nft.Rule.{Rule}
use nft.Partition.{Conflict, partition}
use nft.Relay.{Backend, Calls, reconcile_listeners}

pub record Dataplane : Type 0 where
  pub userspace : Backend
  -- What nftables runs.
  pub kernel : List Rule
  pub last_userspace : List Rule
  pub last_kernel : List Rule

-- Which ports can be bound now and during the rollback, and whether nftables takes the rules.
pub record Machine : Type 0 where
  pub binds : ℤ → Bool
  pub rebinds : ℤ → Bool
  pub takes : List Rule → Bool

pub data ApplyError : Type 0 where
  conflict : Conflict → ApplyError
  bind_failed : List ℤ → ApplyError
  kernel_failed : ApplyError

abbrev pub Applied : Type 0
Applied = Option ApplyError × Dataplane

unfoldable pub apply_kernel : Calls → Machine → List Rule × List Rule → Dataplane → Applied
apply_kernel go m parts d =
    if m.takes parts.0
    then (none, record d { kernel = parts.0; last_kernel = parts.0; last_userspace = parts.1 })
    else (
      some kernel_failed,
      record d { userspace = (reconcile_listeners go m.rebinds d.last_userspace d.userspace).1 },
    )

unfoldable pub after_userspace :
    Calls → Machine → List Rule × List Rule → Dataplane → List ℤ × Backend → Applied
after_userspace go m parts d (port ∷ ports, b) =
    (some (bind_failed (port ∷ ports)), record d { userspace = b })
after_userspace go m parts d ([], b) = apply_kernel go m parts (record d { userspace = b })

unfoldable pub after_partition :
    Calls → Machine → Dataplane → Result Conflict (List Rule × List Rule) → Applied
after_partition go m d (err c) = (some (conflict c), d)
after_partition go m d (ok parts) =
    after_userspace go m parts d (reconcile_listeners go m.binds parts.1 d.userspace)

unfoldable pub reconcile_planes : Calls → Machine → List Rule → Dataplane → Applied
reconcile_planes go m rules d = after_partition go m d (partition rules)
