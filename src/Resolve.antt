-- ===== src/Resolve.antt =====
-- ResolveHosts of internal/nft/nft.go: the addresses that the rules' host names stand for. The resolver is
-- a parameter: `lookup_all` gives LookupAll's addresses, or none for its error. An address in its 4-byte
-- form prints as the same address in 16 bytes does, so both are `net.text`.
pub mod Picking
pub mod Families
pub mod Settling
pub mod Outage
use nft.Base.{
  Bool, List, Option, Result, String, [], err, false, if◌then◌else◌, nat_eq, none, not, ok, pair_eq,
  some, string_eq, true, ◌&&◌, ◌++◌, ◌==◌, ◌||◌, ◌∷◌,
}
use nft.Net.{Net, ips_equal, is_ipv6, parses}
use nft.Rule.{Rule}

pub data PickError : Type 0 where
  no_ipv4 no_ipv6 no_usable_address : PickError

-- One entry of `errs`, with the address or the host it names.
pub data ResolveError : Type 0 where
  ipv6_disabled ipv4_disabled lookup_failed : String → ResolveError
  no_address : String → PickError → ResolveError

-- BlockV4 and blockV6.
pub record Locks : Type 0 where
  pub block_v4 : Bool
  pub block_v6 : Bool

-- The variables of the loop of pickResolvedIP.
pub record Candidates : Type 0 where
  pub first_a : String
  pub first_aaaa : String
  pub cur_ok : Bool

pub record Resolving : Type 0 where
  pub rules : List Rule
  pub changed : Bool
  pub errs : List ResolveError

abbrev pub first_of : String → String → String
first_of old new = if old == "" then new else old

module _ {ℓ} {Ip : Type ℓ} (net : Net Ip) (locks : Locks) where
  abbrev pub is_current : String → String → Bool
  is_current current canon = not (current == "") && ips_equal net current canon

  unfoldable pub note_ip : String → Option Ip → Candidates → Candidates
  note_ip current none s = s
  note_ip current (some ip) s =
      if not (net.to4 ip)
      then (if locks.block_v6 then s else record s {
        first_aaaa = first_of s.first_aaaa (net.text ip);
        cur_ok = s.cur_ok || is_current current (net.text ip);
      })
      else if locks.block_v4
      then s
      else record s {
        first_a = first_of s.first_a (net.text ip);
        cur_ok = s.cur_ok || is_current current (net.text ip);
      }

  unfoldable pub note_addrs : String → List String → Candidates → Candidates
  note_addrs current [] s = s
  note_addrs current (a ∷ addrs) s = note_addrs current addrs (note_ip current (net.parse_ip a) s)

  abbrev pub no_candidates : Candidates
  no_candidates = record { first_a = ""; first_aaaa = ""; cur_ok = false }

  unfoldable pub choose : String → Candidates → Result PickError String
  choose current s =
      if s.cur_ok
      then ok current
      else if not (s.first_a == "")
      then ok s.first_a
      else if not (s.first_aaaa == "")
      then ok s.first_aaaa
      else if locks.block_v6 && not locks.block_v4
      then err no_ipv4
      else if locks.block_v4 && not locks.block_v6
      then err no_ipv6
      else err no_usable_address

  unfoldable pub pick_resolved_ip : List String → String → Result PickError String
  pick_resolved_ip addrs current = choose current (note_addrs current addrs no_candidates)

  -- An address that the lock refuses becomes the host of its rule.
  abbrev pub refused : Rule → Rule
  refused r = record r { dest_host = first_of r.dest_host r.dest_ip; dest_ip = "" }

  -- A rule with what its turn of the loop adds to `changed` and `errs`.
  abbrev pub Turn : Type 0
  Turn = Rule × Bool × List ResolveError

  -- The first half of a turn.
  unfoldable pub lock_family : Rule → Turn
  lock_family r =
      if r.dest_ip == ""
      then (r, false, [])
      else if locks.block_v6 && is_ipv6 net r.dest_ip
      then (refused r, true, ipv6_disabled r.dest_ip ∷ [])
      else if locks.block_v4 && not (is_ipv6 net r.dest_ip)
      then (refused r, true, ipv4_disabled r.dest_ip ∷ [])
      else (r, false, [])

  unfoldable pub take_ip : Rule → Result PickError String → Turn
  take_ip r (err e) = (r, false, no_address r.dest_host e ∷ [])
  take_ip r (ok ip) =
      if ip == r.dest_ip then (r, false, []) else (record r { dest_ip = ip }, true, [])

  unfoldable pub take_addrs : Rule → Option (List String) → Turn
  take_addrs r none = (r, false, lookup_failed r.dest_host ∷ [])
  take_addrs r (some addrs) = take_ip r (pick_resolved_ip addrs r.dest_ip)

  module _ (lookup_all : String → Option (List String)) where
    -- The second half.
    unfoldable pub look_up : Rule → Turn
    look_up r =
        if r.dest_host == "" || parses net r.dest_host
        then (r, false, [])
        else take_addrs r (lookup_all r.dest_host)

    unfoldable pub resolve_rule : Rule → Turn
    resolve_rule r =
        let first = lock_family r in
        let second = look_up first.0 in (second.0, first.1 || second.1, first.2 ++ second.2)

    unfoldable pub resolve_hosts_opts : List Rule → Resolving
    resolve_hosts_opts [] = record { rules = []; changed = false; errs = [] }
    resolve_hosts_opts (r ∷ rs) =
        let turn = resolve_rule r in
        let rest = resolve_hosts_opts rs in
        record {
          rules = turn.0 ∷ rest.rules;
          changed = turn.1 || rest.changed;
          errs = turn.2 ++ rest.errs;
        }
