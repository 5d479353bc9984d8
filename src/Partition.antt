-- ===== src/Partition.antt =====
-- internal/forward/partition.go: the split of a node's rules over the kernel and userspace data planes.
-- The map `claimed` is keyed by "proto/port" in the source and by the pair here; its value, the text
-- `who`, is made from the claiming rule, which stands for it.
pub mod Claims
pub mod Exact
pub mod Routing
use nft.Base.{
  List, Result, String, [], err, if◌then◌else◌, nat_eq, none, ok, pair_eq, some, string_eq, ◌++◌,
  ◌==◌, ◌>>=◌, ◌∷◌,
}
use nft.Base.Assoc.{insert, lookup}
use nft.Base.Int.{int_eq, ℤ}
use nft.Rule.{Rule, effective_mode, mode_kernel, mode_userspace}

abbrev pub Key : Type 0
Key = String × ℤ

pub data Conflict : Type 0 where
  claimed_twice : Key → Rule → Rule → Conflict
  unsupported : Rule → Conflict

pub record Split : Type 0 where
  pub claimed : List (Key × Rule)
  pub kernel : List Rule
  pub userspace : List Rule

-- The namespaces that a protocol occupies; `protoNamespaces` of internal/db/rules.go says the same.
unfoldable pub namespaces : String → List String
namespaces proto = if proto == "tcp+udp" then "tcp" ∷ "udp" ∷ [] else proto ∷ []

-- The loop of the closure `claim`.
unfoldable pub claim :
    Rule → ℤ → List String → List (Key × Rule) → Result Conflict (List (Key × Rule))
claim who port [] claimed = ok claimed
claim who port (p ∷ ps) claimed = elim (lookup (p, port) claimed) [
  | some prev ↦ err (claimed_twice (p, port) prev who)
  | none ↦ claim who port ps (insert (p, port) who claimed)
]

abbrev pub udp_part : Rule → Rule
udp_part r = record r { proto = "udp"; mode = mode_kernel }

abbrev pub tcp_part : Rule → Rule
tcp_part r = record r { proto = "tcp"; mode = mode_userspace }

-- One turn of the loop over the rules.
unfoldable pub place : Split → Rule → Result Conflict Split
place s r =
    if effective_mode r == mode_kernel
    then (do
      claimed ← claim r r.src_port (namespaces r.proto) s.claimed
      ok (record s { claimed = claimed; kernel = s.kernel ++ r ∷ [] }))
    else if r.proto == "tcp"
    then (do
      claimed ← claim r r.src_port (namespaces "tcp") s.claimed
      ok (record s { claimed = claimed; userspace = s.userspace ++ r ∷ [] }))
    else if r.proto == "tcp+udp"
    then (do
      claimed ← claim r r.src_port (namespaces "tcp+udp") s.claimed
      ok (record {
        claimed = claimed;
        kernel = s.kernel ++ udp_part r ∷ [];
        userspace = s.userspace ++ tcp_part r ∷ [];
      }))
    else err (unsupported r)

unfoldable pub place_all : Split → List Rule → Result Conflict Split
place_all s [] = ok s
place_all s (r ∷ rs) = elim (place s r) [ ok s' ↦ place_all s' rs | err e ↦ err e ]

abbrev pub empty_split : Split
empty_split = record { claimed = []; kernel = []; userspace = [] }

unfoldable pub partition : List Rule → Result Conflict (List Rule × List Rule)
partition rs = do s ← place_all empty_split rs; ok (s.kernel, s.userspace)
