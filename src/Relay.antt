-- ===== src/Relay.antt =====
-- internal/forward/userspace.go and dataplane.go: the listeners of the userspace data plane, and its
-- reconciliation together with the kernel. A listener is what a change of rules sees of it; a token
-- bucket is its rate, not its debt. Go's maps are association lists, in some order.
pub mod Opening
pub mod Updating
pub mod Reconciling
pub mod Failing
pub mod Planes
pub mod Rollback
use nft.Base.{
  Bool, List, Option, String, [], if◌then◌else◌, ltb, nat_eq, none, pair_eq, some, string_eq, ℕ,
  ◌&&◌, ◌++◌, ◌==◌, ◌∷◌,
}
use nft.Base.Assoc.{insert, lookup}
use nft.Base.Int.{int_eq, ltb_ℤ, negsuc, pos, ℤ}
use nft.Rule.{Rule}

-- What the program calls of Go's packages net and strings.
pub record Calls : Type 0 where
  pub join_host_port : String → ℤ → String
  pub trim_space : String → String

pub record Target : Type 0 where
  pub addr : String
  pub exit_proxy : String

-- The bucket that a direction is limited by, with its rate: none, that of a group, one that was a group's
-- until the group was removed, or one of its own. The listeners of a group hold one bucket.
pub data Limit : Type 0 where
  unlimited : Limit
  shared : ℤ → ℤ → Limit
  detached own : ℤ → Limit

pub record Listener : Type 0 where
  pub tgt : Target
  pub lim : Limit
  pub lim_down : Limit
  pub bytes_up : ℕ
  pub bytes_down : ℕ
  -- The address that a pool of connections is kept to.
  pub pool : Option String

abbrev pub Listeners : Type 0
Listeners = List (ℤ × Listener)

pub record Backend : Type 0 where
  pub listeners : Listeners
  -- The rate of each group.
  pub groups : List (ℤ × ℤ)
  pub pool_size : ℕ

unfoldable pub target_addr : Calls → Rule → String
target_addr go r =
    go.join_host_port (if r.dest_ip == "" then r.dest_host else r.dest_ip) r.dest_port

abbrev pub target_of : Calls → Rule → Target
target_of go r = record { addr = target_addr go r; exit_proxy = go.trim_space r.exit_proxy }

abbrev pub pool_for : ℕ → Target → Option String
pool_for pool_size tgt = if ltb 0 pool_size && tgt.exit_proxy == "" then some tgt.addr else none

-- openListener, when the port can be bound.
abbrev pub opened : Calls → ℕ → Rule → Listener
opened go pool_size r = record {
  tgt = target_of go r;
  lim = unlimited;
  lim_down = unlimited;
  bytes_up = 0;
  bytes_down = 0;
  pool = pool_for pool_size (target_of go r);
}

abbrev pub is_group_shaped : Rule → Bool
is_group_shaped r = ltb_ℤ (pos 0) r.shape_group && ltb_ℤ (pos 0) r.rate_mbytes

unfoldable pub desired_of : List Rule → List (ℤ × Rule) → List (ℤ × Rule)
desired_of [] m = m
desired_of (r ∷ rs) m = desired_of rs (insert r.src_port r m)

-- The groups after the loops over `desiredGroups` and `b.groups`: those that are desired, at their rate.
unfoldable pub desired_groups : List Rule → List (ℤ × ℤ) → List (ℤ × ℤ)
desired_groups [] m = m
desired_groups (r ∷ rs) m =
    desired_groups rs (if is_group_shaped r then insert r.shape_group r.rate_mbytes m else m)

abbrev pub group_limit : ℤ → Option ℤ → Limit
group_limit group none = unlimited
group_limit group (some mbps) = shared group mbps

abbrev pub make_limiter : ℤ → Limit
make_limiter mbps = if ltb_ℤ (pos 0) mbps then own mbps else unlimited

-- The first two loops: SetLimit on the bucket of a group that stays, under every listener that holds it,
-- and no change to the bucket of a group that is deleted from the map. When the group comes back, it gets
-- a new bucket, which only the listeners that are updated then hold.
abbrev pub retune_shared : ℤ → ℤ → Option ℤ → Limit
retune_shared group old none = detached old
retune_shared group old (some mbps) = shared group mbps

unfoldable pub retune : List (ℤ × ℤ) → Limit → Limit
retune groups unlimited = unlimited
retune groups (shared group old) = retune_shared group old (lookup group groups)
retune groups (detached old) = detached old
retune groups (own mbps) = own mbps

abbrev pub retuned : List (ℤ × ℤ) → Listener → Listener
retuned groups l = record l { lim = retune groups l.lim; lim_down = retune groups l.lim_down }

unfoldable pub retune_all : List (ℤ × ℤ) → Listeners → Listeners
retune_all groups [] = []
retune_all groups ((port, l) ∷ ls) = (port, retuned groups l) ∷ retune_all groups ls

-- Of the upload and of the download.
unfoldable pub limits_of : List (ℤ × ℤ) → Rule → Limit × Limit
limits_of groups r =
    let bucket = group_limit r.shape_group (lookup r.shape_group groups) in
    if is_group_shaped r then (bucket, bucket) else (make_limiter r.bandwidth_mbps, unlimited)

-- A port of the rules that has no listener yet.
unfoldable pub open_at :
    Calls → (ℤ → Bool) → ℕ → ℤ → Rule → Option Listener → Listeners → Listeners × List ℤ
open_at go binds pool_size port r (some l) ls = (ls, [])
open_at go binds pool_size port r none ls =
    if binds port then (insert port (opened go pool_size r) ls, []) else (ls, port ∷ [])

-- The new listeners, and the ports that could not be bound.
unfoldable pub open_all : Calls → (ℤ → Bool) → ℕ → List (ℤ × Rule) → Listeners → Listeners × List ℤ
open_all go binds pool_size [] ls = (ls, [])
open_all go binds pool_size ((port, r) ∷ desired) ls =
    let one = open_at go binds pool_size port r (lookup port ls) ls in
    let rest = open_all go binds pool_size desired one.0 in (rest.0, one.1 ++ rest.1)

unfoldable pub same_target : Target → Target → Bool
same_target a b = a.addr == b.addr && a.exit_proxy == b.exit_proxy

unfoldable pub update : Calls → List (ℤ × ℤ) → ℕ → Rule → Listener → Listener
update go groups pool_size r l =
    let tgt = target_of go r in
    let limits = limits_of groups r in
    record l {
      tgt = tgt;
      lim = limits.0;
      lim_down = limits.1;
      pool = if same_target l.tgt tgt then l.pool else pool_for pool_size tgt;
    }

abbrev pub update_at : ℤ → (Listener → Listener) → Option Listener → Listeners → Listeners
update_at port f none ls = ls
update_at port f (some l) ls = insert port (f l) ls

unfoldable pub update_all : Calls → List (ℤ × ℤ) → ℕ → List (ℤ × Rule) → Listeners → Listeners
update_all go groups pool_size [] ls = ls
update_all go groups pool_size ((port, r) ∷ desired) ls =
    update_all go groups pool_size desired
      (update_at port (update go groups pool_size r) (lookup port ls) ls)

abbrev pub keep_one : Option Rule → ℤ → Listener → Listeners → Listeners
keep_one none port l rest = rest
keep_one (some r) port l rest = (port, l) ∷ rest

-- The last loop closes the listeners that no rule asks for.
unfoldable pub close_others : List (ℤ × Rule) → Listeners → Listeners
close_others desired [] = []
close_others desired ((port, l) ∷ ls) =
    keep_one (lookup port desired) port l (close_others desired ls)

-- With an error the function returns before it updates or closes anything.
unfoldable pub finish_update : Calls → List (ℤ × Rule) → Backend → List ℤ → List ℤ × Backend
finish_update go desired b (port ∷ ports) = (port ∷ ports, b)
finish_update go desired b [] = (
  [],
  record b {
    listeners = close_others desired (update_all go b.groups b.pool_size desired b.listeners);
  },
)

-- userspaceBackend.Reconcile, with the ports that could not be bound, none of them for a nil error; `binds` tells which ports can be bound.
unfoldable pub reconcile_listeners : Calls → (ℤ → Bool) → List Rule → Backend → List ℤ × Backend
reconcile_listeners go binds rules b =
    let desired = desired_of rules [] in
    let groups = desired_groups rules [] in
    let tried = open_all go binds b.pool_size desired (retune_all groups b.listeners) in
    finish_update go desired (record b { listeners = tried.0; groups = groups }) tried.1

abbrev pub max_pool_size : ℕ
max_pool_size = 1024

unfoldable pub clamp_pool_size : ℤ → ℕ
clamp_pool_size (negsuc n) = 0
clamp_pool_size (pos n) = if ltb max_pool_size n then max_pool_size else n

abbrev pub set_pool_size : ℤ → Backend → Backend
set_pool_size n b = record b { pool_size = clamp_pool_size n }

abbrev pub close_backend : Backend → Backend
close_backend b = record b { listeners = []; groups = [] }
