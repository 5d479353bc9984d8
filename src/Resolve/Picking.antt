-- ===== src/Resolve/Picking.antt =====
-- What pickResolvedIP returns.
use nft.Base.{
  Bool, List, Option, Option-cases, String, [], arith, eq_iff, false, if◌then◌else◌, inl, inr,
  nat_eq, none, not, ok, pair_eq, refl, some, string_eq, subst, test_refl, true, ◌&&◌, ◌==◌, ◌||◌,
  ◌∷◌, ◌≡◌, ◌⊎◌,
}
use nft.Net.{Net, ips_equal, is_ipv6}
use nft.Resolve.{
  Candidates, Locks, choose, is_current, no_candidates, note_addrs, note_ip, pick_resolved_ip,
}

module _ {ℓ} {Ip : Type ℓ} (net : Net Ip) (locks : Locks) where
  -- No address, or one of a family that is not locked.
  abbrev pub is_allowed : String → Bool
  is_allowed x = x == "" || (if is_ipv6 net x then not locks.block_v6 else not locks.block_v4)

  -- `net.ParseIP` reads what `IP.String` prints.
  abbrev pub Prints : Type ℓ
  Prints = (s : String) (ip : Ip) → net.parse_ip s ≡ some ip → net.parse_ip (net.text ip) ≡ some ip

  abbrev pub AreAllowed : Candidates → Type 0
  AreAllowed s = (is_allowed s.first_a ≡ true) × (is_allowed s.first_aaaa ≡ true)

  family_of_text :
      (ip : Ip)
      → net.parse_ip (net.text ip) ≡ some ip
      → is_ipv6 net (net.text ip) ≡ not (net.to4 ip)
  unfolding is_ipv6
  family_of_text ip printed = ground (arith, printed)

  note_ip-AreAllowed :
      (current : String) (o : Option Ip) (s : Candidates)
      → ((ip : Ip) → o ≡ some ip → net.parse_ip (net.text ip) ≡ some ip)
      → AreAllowed s
      → AreAllowed (note_ip net locks current o s)
  unfolding note_ip
  note_ip-AreAllowed current none s printed h = h
  note_ip-AreAllowed current (some ip) s printed h =
      ground (arith, family_of_text ip (printed ip refl), h)

  note_addrs-AreAllowed :
      (current : String) (addrs : List String) (s : Candidates)
      → Prints
      → AreAllowed s
      → AreAllowed (note_addrs net locks current addrs s)
  unfolding note_addrs
  note_addrs-AreAllowed current [] s prints h = h
  note_addrs-AreAllowed current (a ∷ addrs) s prints h =
      note_addrs-AreAllowed current addrs (note_ip net locks current (net.parse_ip a) s) prints
        (note_ip-AreAllowed current (net.parse_ip a) s (prints a) h)

  -- From an allowed address the choice is an allowed address.
  pub pick_resolved_ip-allowed :
      (addrs : List String) (current ip : String)
      → Prints
      → is_allowed current ≡ true
      → pick_resolved_ip net locks addrs current ≡ ok ip
      → is_allowed ip ≡ true
  unfolding pick_resolved_ip choose
  pick_resolved_ip-allowed addrs current ip prints h picked =
      let good =
        note_addrs-AreAllowed current addrs (no_candidates net locks) prints (refl, refl) in
      ground (arith, good, h, picked)

  -- The address is of a family that is not locked, and is `x`.
  abbrev offer : String → Option Ip → Bool
  offer x none = false
  offer x (some ip) =
      (if net.to4 ip then not locks.block_v4 else not locks.block_v6)
      && is_current net locks x (net.text ip)

  unfoldable offers : String → List String → Bool
  offers x [] = false
  offers x (a ∷ addrs) = offer x (net.parse_ip a) || offers x addrs

  cur_ok-note_ip :
      (current : String) (o : Option Ip) (s : Candidates)
      → (note_ip net locks current o s).cur_ok ≡ (s.cur_ok || offer current o)
  unfolding note_ip
  cur_ok-note_ip current none s = ground arith
  cur_ok-note_ip current (some ip) s = ground arith

  or_assoc : (a b c : Bool) → ((a || b) || c) ≡ (a || (b || c))
  or_assoc a b c = ground arith

  cur_ok-note_addrs :
      (current : String) (addrs : List String) (s : Candidates)
      → (note_addrs net locks current addrs s).cur_ok ≡ (s.cur_ok || offers current addrs)
  unfolding note_addrs offers
  cur_ok-note_addrs current [] s = ground arith
  cur_ok-note_addrs current (a ∷ addrs) s =
      rw
        (
          cur_ok-note_addrs current addrs (note_ip net locks current (net.parse_ip a) s),
          cur_ok-note_ip current (net.parse_ip a) s,
        )
        (or_assoc s.cur_ok (offer current (net.parse_ip a)) (offers current addrs))

  module _ (same : (ip : Ip) → net.equal ip ip ≡ true) where
    ips_equal_same : (x : String) → ips_equal net x x ≡ true
    unfolding ips_equal
    ips_equal_same x = elim (Option-cases (net.parse_ip x)) [
      | inl bad ↦ rw (bad, ips_equal) (test_refl x)
      | inr good ↦ ground (arith, good.1, same good.0)
    ]

    -- A first candidate that the loop has found is offered.
    offer-note_ip :
        (current x : String) (o : Option Ip) (s : Candidates)
        → (x == "") ≡ false
        → ((note_ip net locks current o s).first_a ≡ x → (s.first_a ≡ x) ⊎ (offer x o ≡ true))
          × ((note_ip net locks current o s).first_aaaa ≡ x
              → (s.first_aaaa ≡ x) ⊎ (offer x o ≡ true))
    unfolding note_ip
    offer-note_ip current x none s full = (λ e. inl e, λ e. inl e)
    offer-note_ip current x (some ip) s full = (
      λ e. ground (arith, e, full, ips_equal_same x),
      λ e. ground (arith, e, full, ips_equal_same x),
    )

    offers-note_addrs :
        (current x : String) (addrs : List String) (s : Candidates)
        → (x == "") ≡ false
        → ((note_addrs net locks current addrs s).first_a ≡ x
            → (s.first_a ≡ x) ⊎ (offers x addrs ≡ true))
          × ((note_addrs net locks current addrs s).first_aaaa ≡ x
              → (s.first_aaaa ≡ x) ⊎ (offers x addrs ≡ true))
    unfolding note_addrs offers
    offers-note_addrs current x [] s full = (λ e. inl e, λ e. inl e)
    offers-note_addrs current x (a ∷ addrs) s full =
        let step = offer-note_ip current x (net.parse_ip a) s full in
        let rest =
          offers-note_addrs current x addrs (note_ip net locks current (net.parse_ip a) s) full in
        (λ e. ground (arith, step.0, rest.0 e), λ e. ground (arith, step.1, rest.1 e))

    choose_cases :
        (current ip : String) (s : Candidates)
        → choose net locks current s ≡ ok ip
        → ((s.cur_ok ≡ true) × (current ≡ ip))
          ⊎ (((ip == "") ≡ false) × ((s.first_a ≡ ip) ⊎ (s.first_aaaa ≡ ip)))
    unfolding choose
    choose_cases current ip s e = ground (arith, e)

    offered :
        (addrs : List String) (current ip : String)
        → (ip == "") ≡ false
        → let s = note_addrs net locks current addrs (no_candidates net locks) in
          (s.first_a ≡ ip) ⊎ (s.first_aaaa ≡ ip) → offers ip addrs ≡ true
    offered addrs current ip full (inl e) =
        let found = (offers-note_addrs current ip addrs (no_candidates net locks) full).0 e in
        ground (arith, found, full, eq_iff ip "")
    offered addrs current ip full (inr e) =
        let found = (offers-note_addrs current ip addrs (no_candidates net locks) full).1 e in
        ground (arith, found, full, eq_iff ip "")

    -- What was picked is picked again.
    pub pick_resolved_ip-again :
        (addrs : List String) (current ip : String)
        → pick_resolved_ip net locks addrs current ≡ ok ip
        → pick_resolved_ip net locks addrs ip ≡ ok ip
    unfolding pick_resolved_ip choose
    pick_resolved_ip-again addrs current ip picked =
        elim (choose_cases current ip (note_addrs net locks current addrs (no_candidates net locks))
          picked) [
            | inl kept ↦
                subst
                  (λ x.
                    choose net locks x (note_addrs net locks x addrs (no_candidates net locks))
                    ≡ ok ip)
                  kept.1 picked
            | inr fresh ↦
                let found = offered addrs current ip fresh.0 fresh.1 in
                rw (choose, cur_ok-note_addrs ip addrs (no_candidates net locks), found) refl
          ]
