-- ===== src/Resolve/Settling.antt =====
-- A second run of ResolveHosts over the same answers changes nothing.
use nft.Base.{
  Bool, Bool-cases, List, Option, Result, String, [], arith, err, false, inl, inr, nat_eq, none, ok,
  pair_eq, refl, some, string_eq, test_refl, true, ◌==◌, ◌||◌, ◌∷◌, ◌≡◌,
}
use nft.Net.{Net, parses}
use nft.Rule.{Rule}
use nft.Resolve.{
  Locks, PickError, ResolveError, lock_family, look_up, pick_resolved_ip, resolve_hosts_opts,
  resolve_rule, take_addrs, take_ip,
}
use nft.Resolve.Picking.{Prints, pick_resolved_ip-again}
use nft.Resolve.Families.{lock_family-idle, resolve_rule-allowed}

-- Turns that leave the rule as it is.
abbrev Idle {ℓ} :
    {Ip : Type ℓ} → Net Ip → Locks → (Rule → Rule × Bool × List ResolveError) → Rule → Type 0
Idle net locks f r = ((f r).0 ≡ r) × ((f r).1 ≡ false)

module _ {ℓ} {Ip : Type ℓ} (net : Net Ip) (locks : Locks)
    (same : (ip : Ip) → net.equal ip ip ≡ true) where
  take_ip-again :
      (addrs : List String) (r : Rule) (picked : Result PickError String)
      → pick_resolved_ip net locks addrs r.dest_ip ≡ picked
      → Idle net locks
          (λ s. take_ip net locks s (pick_resolved_ip net locks addrs s.dest_ip))
          (take_ip net locks r picked).0
  unfolding take_ip
  take_ip-again addrs r (err e) picked = rw picked (refl, refl)
  take_ip-again addrs r (ok ip) picked = elim (Bool-cases (ip == r.dest_ip)) [
    | inl kept ↦ rw (kept, picked, kept) (refl, refl)
    | inr moved ↦
        rw (moved, pick_resolved_ip-again net locks same addrs r.dest_ip ip picked, test_refl ip)
          (refl, refl)
  ]

  take_addrs-again :
      (r : Rule) (o : Option (List String))
      → Idle net locks (λ s. take_addrs net locks s o) (take_addrs net locks r o).0
  unfolding take_addrs
  take_addrs-again r none = (refl, refl)
  take_addrs-again r (some addrs) =
      take_ip-again addrs r (pick_resolved_ip net locks addrs r.dest_ip) refl

  take_addrs-host :
      (r : Rule) (o : Option (List String)) → (take_addrs net locks r o).0.dest_host ≡ r.dest_host
  unfolding take_addrs take_ip
  take_addrs-host r none = refl
  take_addrs-host r (some addrs) = go (pick_resolved_ip net locks addrs r.dest_ip)
    where
      go :
          (picked : Result PickError String)
          → (take_ip net locks r picked).0.dest_host ≡ r.dest_host
      go (err e) = refl
      go (ok ip) = ground arith

  module _ (lookup_all : String → Option (List String)) where
    look_up-again :
        (r : Rule)
        → Idle net locks (look_up net locks lookup_all) (look_up net locks lookup_all r).0
    unfolding look_up
    look_up-again r = elim (Bool-cases (r.dest_host == "" || parses net r.dest_host)) [
      | inl literal ↦ rw (literal, literal) (refl, refl)
      | inr name ↦
          rw (name, take_addrs-host r (lookup_all r.dest_host), name)
            (take_addrs-again r (lookup_all r.dest_host))
    ]

    resolve_rule-again :
        (prints : Prints net locks) (r : Rule)
        → Idle net locks (resolve_rule net locks lookup_all) (resolve_rule net locks lookup_all r).0
    unfolding resolve_rule
    resolve_rule-again prints r =
        rw
          (lock_family-idle net locks (resolve_rule net locks lookup_all r).0
            (resolve_rule-allowed net locks prints lookup_all r))
          (look_up-again (lock_family net locks r).0)

    -- A second resolution with the same answers leaves all rules as they are and reports no change, when
    -- `net.ParseIP` reads what `IP.String` prints and `IP.Equal` is reflexive.
    pub resolve_hosts_opts-again :
        (prints : Prints net locks) (rules : List Rule)
        → let once = resolve_hosts_opts net locks lookup_all rules in
          let twice = resolve_hosts_opts net locks lookup_all once.rules in
          (twice.rules ≡ once.rules) × (twice.changed ≡ false)
    unfolding resolve_hosts_opts
    resolve_hosts_opts-again prints [] = (refl, refl)
    resolve_hosts_opts-again prints (r ∷ rules) =
        let turn = resolve_rule-again prints r in
        let rest = resolve_hosts_opts-again prints rules in
        rw (turn.0, turn.1, rest.0, rest.1) (refl, refl)
