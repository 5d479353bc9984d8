-- ===== src/Billing/Accounting.antt =====
-- What a batch adds to the ledgers.
use nft.Base.{
  Bool-cases, List, Option, [], ap, arith, eqb, eqb_iff, if◌then◌else◌, inl, inr, ltb, nat_eq, none,
  pair_eq, refl, some, string_eq, sum_by, sym, ℕ, ◌&&◌, ◌+◌, ◌∙◌, ◌∷◌, ◌≡◌, ◌≤◌,
}
use nft.Base.Assoc.{get_or, get_or-insert, insert, lookup}
use nft.Billing.{
  Adds, BilledRule, Hop, Loaded, Sample, add_exit, add_found, add_hop, add_matched, add_owner,
  add_sample, add_samples, add_segment, add_to, add_user, billed_base, billed_delta, directions,
  has_positions, is_final, no_adds, rule_owner, total_delta,
}

-- The sum of a ledger's entries.
abbrev pub sum_values : List (ℕ × ℕ) → ℕ
sum_values [] = 0
sum_values ((k, n) ∷ m) = n + sum_values m

sum_values-add_to : (k n : ℕ) (m : List (ℕ × ℕ)) → sum_values (add_to k n m) ≡ sum_values m + n
unfolding add_to insert get_or
sum_values-add_to k n [] = omega arith
sum_values-add_to k n ((j, w) ∷ m) = ground (arith, sum_values-add_to k n m)

-- The bytes of a sample's final hop that the loop charges to a user: when the hop is the last of a
-- loaded rule of that owner, and the sample has billed bytes.
abbrev pub charge_owner : Loaded → Hop → Sample → Option ℕ → ℕ → ℕ
charge_owner l rh s none u = 0
charge_owner l rh s (some v) u =
    if eqb v u && (ltb 0 (billed_delta l s) && (has_positions l.max_pos && is_final l rh))
    then total_delta s
    else 0

abbrev pub charge_found : Loaded → Sample → Option Hop → ℕ → ℕ
charge_found l s none u = 0
charge_found l s (some rh) u = charge_owner l rh s (rule_owner (lookup rh.rule_id l.rule_map)) u

abbrev pub charge : Loaded → ℕ → Sample → ℕ
charge l u raw =
    let s = directions raw in charge_found l s (lookup (s.proto, s.listen_port) l.hop_map) u

module _ (l : Loaded) where
  add_exit-users :
      (rh : Hop) (r : Option BilledRule) (n : ℕ) (o : Option ℕ) (a : Adds)
      → ((add_exit l rh r n o a).user_adds ≡ a.user_adds)
        × ((add_exit l rh r n o a).raw_add ≡ a.raw_add)
        × ((add_exit l rh r n o a).rule_exit_adds ≡ a.rule_exit_adds)
        × ((add_exit l rh r n o a).total_user_adds ≡ a.total_user_adds)
  unfolding add_exit
  add_exit-users rh r n none a = (refl, refl, refl, refl)
  add_exit-users rh r n (some u) a = ground arith

  add_segment-users :
      (rh : Hop) (u n : ℕ) (a : Adds)
      → ((add_segment l rh u n a).user_adds ≡ a.user_adds)
        × ((add_segment l rh u n a).raw_add ≡ a.raw_add)
        × ((add_segment l rh u n a).rule_exit_adds ≡ a.rule_exit_adds)
        × ((add_segment l rh u n a).total_user_adds ≡ a.total_user_adds)
  unfolding add_segment
  add_segment-users rh u n a = ground arith

  -- The ledgers of the users and of the rules agree, and hold no more than the node's raw ledger.
  abbrev pub Agree : Adds → Type 0
  Agree a =
      (a.total_user_adds ≡ a.user_adds)
      × (sum_values a.rule_exit_adds ≡ sum_values a.user_adds)
      × (sum_values a.user_adds ≤ a.raw_add)

  -- What one turn of the loop does to them: `n` more bytes for the user, when it is `u`.
  abbrev Charged : ℕ → ℕ → Adds → Adds → Type 0
  Charged u n a b = (get_or 0 u b.user_adds ≡ get_or 0 u a.user_adds + n) × (b.raw_add ≡ a.raw_add)

  add_user-Charged :
      (rh : Hop) (v u n : ℕ) (a : Adds)
      → Charged u
          (if eqb v u && (has_positions l.max_pos && is_final l rh) then n else 0)
          a
          (add_user l rh v n a)
  unfolding add_user add_to
  add_user-Charged rh v u n a =
      ground (arith, get_or-insert 0 v u (get_or 0 v a.user_adds + n) a.user_adds, eqb_iff v u)

  add_user-Agree :
      (rh : Hop) (v n : ℕ) (a : Adds)
      → a.total_user_adds ≡ a.user_adds
      → sum_values a.rule_exit_adds ≡ sum_values a.user_adds
      → sum_values a.user_adds + n ≤ a.raw_add
      → Agree (add_user l rh v n a)
  unfolding add_user
  add_user-Agree rh v n a p q h = ground (
    arith,
    p,
    q,
    h,
    sum_values-add_to v n a.user_adds,
    sum_values-add_to rh.rule_id n a.rule_exit_adds,
  )

  add_owner-Charged :
      (rh : Hop) (s : Sample) (o : Option ℕ) (u : ℕ) (a : Adds)
      → Charged u (charge_owner l rh s o u) a (add_owner l rh s o a)
  unfolding add_owner
  add_owner-Charged rh s none u a = (omega arith, refl)
  add_owner-Charged rh s (some v) u a =
      let segment : Adds = add_segment l rh v (billed_delta l s) a in
      ground (
        arith,
        add_user-Charged rh v u (total_delta s) segment,
        add_segment-users rh v (billed_delta l s) a,
      )

  add_owner-Agree :
      (rh : Hop) (s : Sample) (o : Option ℕ) (a : Adds)
      → a.total_user_adds ≡ a.user_adds
      → sum_values a.rule_exit_adds ≡ sum_values a.user_adds
      → sum_values a.user_adds + total_delta s ≤ a.raw_add
      → Agree (add_owner l rh s o a)
  unfolding add_owner
  add_owner-Agree rh s none a p q h = (p, q, omega (arith, h))
  add_owner-Agree rh s (some v) a p q h =
      let (users, raw, exits, totals) = add_segment-users rh v (billed_delta l s) a in
      let segment : Adds = add_segment l rh v (billed_delta l s) a in
      elim (Bool-cases (ltb 0 (billed_delta l s))) [
        | inl billed ↦ rw billed (
            add_user-Agree rh v (total_delta s) segment (totals ∙ p ∙ sym users)
              (ap sum_values exits ∙ q ∙ sym (ap sum_values users)) (rw (users, raw) h))
        | inr unbilled ↦ rw unbilled (p, q, omega (arith, h))
      ]

  add_matched-Charged :
      (rh : Hop) (s : Sample) (u : ℕ) (a : Adds)
      → Charged u
          (charge_owner l rh s (rule_owner (lookup rh.rule_id l.rule_map)) u)
          a
          (add_matched l rh s a)
  unfolding add_matched add_hop
  add_matched-Charged rh s u a =
      let r : Option BilledRule = lookup rh.rule_id l.rule_map in
      let exit : Adds = add_exit l rh r (total_delta s) (rule_owner r) a in
      let hop : Adds = add_hop rh s (billed_base l r (billed_delta l s)) exit in
      let (users, raw, exits, totals) = add_exit-users rh r (total_delta s) (rule_owner r) a in
      let (charged, kept) = add_owner-Charged rh s (rule_owner r) u hop in
      (charged ∙ ap (λ m. get_or 0 u m + charge_owner l rh s (rule_owner r) u) users, kept ∙ raw)

  add_matched-Agree :
      (rh : Hop) (s : Sample) (a : Adds)
      → a.total_user_adds ≡ a.user_adds
      → sum_values a.rule_exit_adds ≡ sum_values a.user_adds
      → sum_values a.user_adds + total_delta s ≤ a.raw_add
      → Agree (add_matched l rh s a)
  unfolding add_matched add_hop
  add_matched-Agree rh s a p q h =
      let r : Option BilledRule = lookup rh.rule_id l.rule_map in
      let exit : Adds = add_exit l rh r (total_delta s) (rule_owner r) a in
      let hop : Adds = add_hop rh s (billed_base l r (billed_delta l s)) exit in
      let (users, raw, exits, totals) = add_exit-users rh r (total_delta s) (rule_owner r) a in
      add_owner-Agree rh s (rule_owner r) hop (totals ∙ p ∙ sym users)
        (ap sum_values exits ∙ q ∙ sym (ap sum_values users)) (rw (users, raw) h)

  add_found-Charged :
      (s : Sample) (o : Option Hop) (u : ℕ) (a : Adds)
      → Charged u (charge_found l s o u) a (add_found l s o a)
  unfolding add_found
  add_found-Charged s none u a = (omega arith, refl)
  add_found-Charged s (some rh) u a = add_matched-Charged rh s u a

  add_found-Agree :
      (s : Sample) (o : Option Hop) (a : Adds)
      → a.total_user_adds ≡ a.user_adds
      → sum_values a.rule_exit_adds ≡ sum_values a.user_adds
      → sum_values a.user_adds + total_delta s ≤ a.raw_add
      → Agree (add_found l s o a)
  unfolding add_found
  add_found-Agree s none a p q h = (p, q, omega (arith, h))
  add_found-Agree s (some rh) a p q h = add_matched-Agree rh s a p q h

  add_samples_users :
      (u : ℕ) (ss : List Sample) (a : Adds)
      → (get_or 0 u (add_samples l ss a).user_adds
          ≡ get_or 0 u a.user_adds + sum_by (charge l u) ss)
        × ((add_samples l ss a).raw_add ≡ a.raw_add + sum_by (λ s. total_delta (directions s)) ss)
  unfolding add_samples add_sample
  add_samples_users u [] a = (omega arith, omega arith)
  add_samples_users u (s ∷ ss) a =
      let d : Sample = directions s in
      let (charged, kept) =
        add_found-Charged d (lookup (d.proto, d.listen_port) l.hop_map) u
          (record a { raw_add = a.raw_add + total_delta d }) in
      let (later, raw) = add_samples_users u ss (add_sample l s a) in
      (omega (arith, later, charged), omega (arith, raw, kept))

  add_samples_from : (ss : List Sample) (a : Adds) → Agree a → Agree (add_samples l ss a)
  unfolding add_samples add_sample
  add_samples_from [] a ag = ag
  add_samples_from (s ∷ ss) a (p, q, h) =
      let d : Sample = directions s in
      add_samples_from ss (add_sample l s a) (
        add_found-Agree d (lookup (d.proto, d.listen_port) l.hop_map)
          (record a { raw_add = a.raw_add + total_delta d }) p q (omega (arith, h)))

  -- A batch adds to the node's raw ledger every byte of its samples, and to a user's traffic exactly
  -- the bytes that the user's rules carried at their final hops, counted once, of the samples that
  -- have billed bytes.
  pub add_samples_exact :
      (u : ℕ) (ss : List Sample)
      → (get_or 0 u (add_samples l ss no_adds).user_adds ≡ sum_by (charge l u) ss)
        × ((add_samples l ss no_adds).raw_add ≡ sum_by (λ s. total_delta (directions s)) ss)
  unfolding get_or
  add_samples_exact u ss =
      let (users, raw) = add_samples_users u ss no_adds in
      (omega (arith, users), omega (arith, raw))

  -- The traffic of a batch over all users is that of its rules' exits, the users' lifetime totals grow
  -- by the same entries, and both are at most what the node forwarded.
  pub add_samples-Agree : (ss : List Sample) → Agree (add_samples l ss no_adds)
  add_samples-Agree ss = add_samples_from ss no_adds (refl, refl, omega arith)
