-- ===== src/Resolve/Families.antt =====
-- The family lock of ResolveHostsOpts.
use nft.Base.{
  All, Bool-cases, List, Option, Result, String, [], arith, err, false, inl, inr, nat_eq, none, not,
  ok, pair_eq, refl, some, string_eq, true, ◌&&◌, ◌==◌, ◌∷◌, ◌≡◌,
}
use nft.Net.{Net, is_ipv6}
use nft.Rule.{Rule}
use nft.Resolve.{
  Locks, PickError, lock_family, look_up, pick_resolved_ip, resolve_hosts_opts, resolve_rule,
  take_addrs, take_ip,
}
use nft.Resolve.Picking.{Prints, is_allowed, pick_resolved_ip-allowed}

module _ {ℓ} {Ip : Type ℓ} (net : Net Ip) (locks : Locks) where
  lock_family-allowed : (r : Rule) → is_allowed net locks (lock_family net locks r).0.dest_ip ≡ true
  unfolding lock_family
  lock_family-allowed r = elim (Bool-cases (r.dest_ip == "")) [
    | inl bare ↦ rw (bare, bare) refl
    | inr set ↦ elim (Bool-cases (locks.block_v6 && is_ipv6 net r.dest_ip)) [
      | inl v6 ↦ rw (set, v6) refl
      | inr ok_v6 ↦ elim (Bool-cases (locks.block_v4 && not (is_ipv6 net r.dest_ip))) [
        | inl v4 ↦ rw (set, ok_v6, v4) refl
        | inr ok_v4 ↦ rw (set, ok_v6, ok_v4) (ground (arith, set, ok_v6, ok_v4))
      ]
    ]
  ]

  -- A rule whose address is allowed passes the lock as it is.
  pub lock_family-idle :
      (r : Rule) → is_allowed net locks r.dest_ip ≡ true → lock_family net locks r ≡ (r, false, [])
  unfolding lock_family
  lock_family-idle r h = ground (arith, h)

  module _ (prints : Prints net locks) where
    take_ip-allowed :
        (r : Rule) (picked : Result PickError String)
        → ((ip : String) → picked ≡ ok ip → is_allowed net locks ip ≡ true)
        → is_allowed net locks r.dest_ip ≡ true
        → is_allowed net locks (take_ip net locks r picked).0.dest_ip ≡ true
    unfolding take_ip
    take_ip-allowed r (err e) good h = h
    take_ip-allowed r (ok ip) good h = ground (arith, h, good ip refl)

    take_addrs-allowed :
        (r : Rule) (o : Option (List String))
        → is_allowed net locks r.dest_ip ≡ true
        → is_allowed net locks (take_addrs net locks r o).0.dest_ip ≡ true
    unfolding take_addrs
    take_addrs-allowed r none h = h
    take_addrs-allowed r (some addrs) h =
        take_ip-allowed r (pick_resolved_ip net locks addrs r.dest_ip)
          (λ ip picked. pick_resolved_ip-allowed net locks addrs r.dest_ip ip prints h picked) h

    module _ (lookup_all : String → Option (List String)) where
      look_up-allowed :
          (r : Rule)
          → is_allowed net locks r.dest_ip ≡ true
          → is_allowed net locks (look_up net locks lookup_all r).0.dest_ip ≡ true
      unfolding look_up
      look_up-allowed r h = ground (arith, h, take_addrs-allowed r (lookup_all r.dest_host) h)

      pub resolve_rule-allowed :
          (r : Rule) → is_allowed net locks (resolve_rule net locks lookup_all r).0.dest_ip ≡ true
      unfolding resolve_rule
      resolve_rule-allowed r = look_up-allowed (lock_family net locks r).0 (lock_family-allowed r)

      -- Whatever the resolver answers, no rule comes out with an address of a locked family, when
      -- `net.ParseIP` reads what `IP.String` prints.
      pub resolve_hosts_opts-allowed :
          (rules : List Rule)
          → All
              (λ r. is_allowed net locks r.dest_ip ≡ true)
              (resolve_hosts_opts net locks lookup_all rules).rules
      unfolding resolve_hosts_opts
      resolve_hosts_opts-allowed [] = tt
      resolve_hosts_opts-allowed (r ∷ rules) =
          (resolve_rule-allowed r, resolve_hosts_opts-allowed rules)
