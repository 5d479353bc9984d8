-- ===== src/Cycle/Zeroing.antt =====
-- What a reset of one user's traffic clears, and what it leaves.
use nft.Base.{Bool, List, [], arith, eqb, filterb, map, not, refl, sum_by, ℕ, ◌+◌, ◌∷◌, ◌≡◌}
use nft.Cycle.{HopTraffic, Ledgers, has_owner, is_owner, update_where, zero_user_traffic_ledgers}

module _ {ℓ} {A : Type ℓ} (p : A → Bool) (f : A → A) where
  -- An update leaves the rows that are not selected,
  update_where-other :
      ((x : A) → p (f x) ≡ p x)
      → (xs : List A) → filterb (λ x. not (p x)) (update_where p f xs) ≡ filterb (λ x. not (p x)) xs
  unfolding update_where
  update_where-other same [] = refl
  update_where-other same (x ∷ xs) = ground (arith, same x, update_where-other same xs)

  -- and changes no column that its assignment does not name.
  update_where-map {κ} :
      {B : Type κ}
      → (g : A → B) → ((x : A) → g (f x) ≡ g x)
      → (xs : List A) → map g (update_where p f xs) ≡ map g xs
  unfolding update_where
  update_where-map g same [] = refl
  update_where-map g same (x ∷ xs) = ground (arith, same x, update_where-map g same xs)

  update_where-sum :
      (n : A → ℕ)
      → ((x : A) → p (f x) ≡ p x)
      → ((x : A) → n (f x) ≡ 0)
      → (xs : List A) → sum_by n (filterb p (update_where p f xs)) ≡ 0
  unfolding update_where
  update_where-sum n same zeroed [] = refl
  update_where-sum n same zeroed (x ∷ xs) =
      ground (arith, same x, zeroed x, update_where-sum n same zeroed xs)

-- The columns that hold the last sample of the hop.
abbrev pub last_of_hop : HopTraffic → (ℕ × ℕ) × (ℕ × (ℕ × ℕ))
last_of_hop h = ((h.rule_id, h.position), (h.last_bytes, (h.last_bytes_up, h.last_bytes_down)))

-- The rows of the user, and those of everyone else, of each table.
pub record Cleared (user : ℕ) (old new : Ledgers) : Type 0 where
  pub users_zero :
      sum_by
        (λ u. u.traffic_used_bytes + u.total_traffic_used_bytes)
        (filterb (λ u. eqb u.id user) new.users)
      ≡ 0
  pub grants_zero :
      sum_by (λ g. g.traffic_used_bytes) (filterb (λ g. eqb g.user_id user) new.grants) ≡ 0
  pub exits_zero : sum_by (λ e. e.used_bytes) (filterb (λ e. eqb e.user_id user) new.exits) ≡ 0
  pub hops_zero :
      sum_by (λ h. h.total_bytes + h.billed_bytes) (filterb (has_owner user old.rules) new.hops) ≡ 0
  pub rules_zero :
      sum_by (λ r. r.exit_bytes) (filterb (λ r. is_owner user r.owner_id) new.rules) ≡ 0
  pub other_users :
      filterb (λ u. not (eqb u.id user)) new.users ≡ filterb (λ u. not (eqb u.id user)) old.users
  pub other_grants :
      filterb (λ g. not (eqb g.user_id user)) new.grants
      ≡ filterb (λ g. not (eqb g.user_id user)) old.grants
  pub other_exits :
      filterb (λ e. not (eqb e.user_id user)) new.exits
      ≡ filterb (λ e. not (eqb e.user_id user)) old.exits
  pub other_hops :
      filterb (λ h. not (has_owner user old.rules h)) new.hops
      ≡ filterb (λ h. not (has_owner user old.rules h)) old.hops
  pub other_rules :
      filterb (λ r. not (is_owner user r.owner_id)) new.rules
      ≡ filterb (λ r. not (is_owner user r.owner_id)) old.rules
  pub last_kept : map last_of_hop new.hops ≡ map last_of_hop old.hops

-- A reset sets what the cycle has counted to zero in every row of the user, in the tables of users, grants,
-- landing exits, hops and rules, changes no row of anyone else, and keeps the last_ columns of every hop.
pub zero_user_traffic_ledgers-Cleared :
    (user last_reset_at : ℕ) (l : Ledgers)
    → Cleared user l (zero_user_traffic_ledgers user last_reset_at l)
unfolding zero_user_traffic_ledgers
zero_user_traffic_ledgers-Cleared user last_reset_at l = record {
  users_zero = update_where-sum _ _ _ (λ u. refl) (λ u. refl) l.users;
  grants_zero = update_where-sum _ _ _ (λ u. refl) (λ u. refl) l.grants;
  exits_zero = update_where-sum _ _ _ (λ u. refl) (λ u. refl) l.exits;
  hops_zero = update_where-sum _ _ _ (λ u. refl) (λ u. refl) l.hops;
  rules_zero = update_where-sum _ _ _ (λ u. refl) (λ u. refl) l.rules;
  other_users = update_where-other _ _ (λ u. refl) l.users;
  other_grants = update_where-other _ _ (λ u. refl) l.grants;
  other_exits = update_where-other _ _ (λ u. refl) l.exits;
  other_hops = update_where-other _ _ (λ u. refl) l.hops;
  other_rules = update_where-other _ _ (λ u. refl) l.rules;
  last_kept = update_where-map _ _ _ (λ u. refl) l.hops;
}
