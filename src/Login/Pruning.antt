-- ===== src/Login/Pruning.antt =====
-- Pruning cannot be seen, and keys do not disturb each other.
use nft.Login.Keys.{
  Call, Event, Forward, ask, fail, key_all, key_step, last_time, serve, serve_all, serve_call,
  succeed,
}
use nft.Base.Assoc.{
  delete, distinct-keys-insert, keys, lookup, lookup-delete, lookup-insert, lookup-none,
}
use nft.Base.{
  Bool-cases, List, Option, String, [], ap, arith, distinct, false, has, if◌then◌else◌, inl, inr,
  nat_eq, none, pair_eq, refl, some, string_eq, subst, sym, test_refl, true, ℕ, ◌==◌, ◌∙◌, ◌∷◌, ◌≡◌,
  ◌≤◌, ◌⊎◌,
}
use nft.Login.{
  LoginAttempt, LoginLimiter, allowed, count_failure, current, is_stale, may_attempt, prune_locked,
  record_failure, record_success,
}

-- What the limiter holds for a key, against the key's machine: the same, or nothing where the
-- machine's entry no longer matters.
abbrev pub Follows : ℕ → Option LoginAttempt → Option LoginAttempt → Type 0
Follows t held own =
    (held ≡ own) ⊎ ((held ≡ none) × ((a : LoginAttempt) × (own ≡ some a) × (is_stale t a ≡ true)))

later-Follows :
    (t now : ℕ) (held own : Option LoginAttempt)
    → t ≤ now
    → Follows t held own
    → Follows now held own
later-Follows t now held own h (inl e) = inl e
later-Follows t now held own h (inr (e, (a, f, s))) = inr (e, (a, f, ground (arith, h, s)))

has-keys-prune_locked :
    (now : ℕ) (key : String) (l : LoginLimiter)
    → has key (keys l) ≡ false
    → has key (keys (prune_locked now l)) ≡ false
unfolding prune_locked keys has
has-keys-prune_locked now key [] h = refl
has-keys-prune_locked now key ((k, a) ∷ l) h = ground (arith, h, has-keys-prune_locked now key l)

distinct-prune_locked :
    (now : ℕ) (l : LoginLimiter)
    → distinct (keys l) ≡ true
    → distinct (keys (prune_locked now l)) ≡ true
unfolding prune_locked keys distinct
distinct-prune_locked now [] h = h
distinct-prune_locked now ((k, a) ∷ l) h =
    ground (arith, h, has-keys-prune_locked now k l, distinct-prune_locked now l)

abbrev kept : ℕ → Option LoginAttempt → Option LoginAttempt
kept now none = none
kept now (some a) = if is_stale now a then none else some a

lookup-prune_locked :
    (now : ℕ) (key : String) (l : LoginLimiter)
    → distinct (keys l) ≡ true
    → lookup key (prune_locked now l) ≡ kept now (lookup key l)
unfolding prune_locked keys distinct lookup
lookup-prune_locked now key [] h = refl
lookup-prune_locked now key ((k, a) ∷ l) h = elim (Bool-cases (string_eq.test k key)) [
  | inl here ↦
      let same : k ≡ key = (string_eq.test_iff k key).0 here in
      let gone : lookup key (prune_locked now l) ≡ none = lookup-none key (prune_locked now l) (
        subst (λ x. has x (keys (prune_locked now l)) ≡ false) same
          (has-keys-prune_locked now k l (ground (arith, h)))) in
      ground (arith, here, gone)
  | inr elsewhere ↦ ground (arith, elsewhere, lookup-prune_locked now key l, h)
]

-- Pruning at a later time keeps the correspondence.
kept-Follows :
    (now : ℕ) (held own : Option LoginAttempt)
    → Follows now held own
    → Follows now (kept now held) own
kept-Follows now none own (inl e) = inl e
kept-Follows now (some a) own (inl e) = ground (arith, e)
kept-Follows now held own (inr (e, (a, f, s))) = rw e (inr (refl, (a, f, s)))

-- A later reading of the entry gives the same failure count.
current-Follows :
    (now : ℕ) (held own : Option LoginAttempt)
    → Follows now held own
    → current now held ≡ current now own
unfolding current
current-Follows now held own (inl e) = ap (current now) e
current-Follows now held own (inr (e, (a, f, s))) = rw (e, f) (ground (arith, s))

-- The limiter pruned, for any key.
prune_locked-Follows :
    (now : ℕ) (l : LoginLimiter) (key : String) (own : Option LoginAttempt)
    → distinct (keys l) ≡ true
    → Follows now (lookup key l) own
    → Follows now (lookup key (prune_locked now l)) own
prune_locked-Follows now l key own d f =
    subst (λ o. Follows now o own) (sym (lookup-prune_locked now key l d))
      (kept-Follows now (lookup key l) own f)

-- One call keeps the correspondence for its own key,
serve_call_own :
    (c : Call) (now : ℕ) (key : String) (l : LoginLimiter) (own : Option LoginAttempt)
    → Follows now (lookup key (prune_locked now l)) own
    → Follows now (lookup key (serve_call c now key l)) (key_step c now own)
unfolding serve_call allowed record_failure record_success key_step
serve_call_own ask now key l own f = f
serve_call_own fail now key l own f = inl (
    lookup-insert key key _ (prune_locked now l)
    ∙ (rw (test_refl key) refl
        ∙ ap (λ a. some (count_failure now a)) (current-Follows now _ own f)))
serve_call_own succeed now key l own f =
    inl (lookup-delete key key (prune_locked now l) ∙ rw (test_refl key) refl)

-- and leaves every other key alone.
serve_call_other :
    (c : Call) (now : ℕ) (key other : String) (l : LoginLimiter)
    → (key == other) ≡ false
    → lookup other (serve_call c now key l) ≡ lookup other (prune_locked now l)
unfolding serve_call allowed record_failure record_success
serve_call_other ask now key other l ne = refl
serve_call_other fail now key other l ne =
    lookup-insert key other _ (prune_locked now l) ∙ rw ne refl
serve_call_other succeed now key other l ne =
    lookup-delete key other (prune_locked now l) ∙ rw ne refl

serve_call-Follows :
    (c : Call) (now : ℕ) (key : String) (l : LoginLimiter) (other : String)
    (own : Option LoginAttempt)
    → distinct (keys l) ≡ true
    → Follows now (lookup other l) own
    → Follows now
        (lookup other (serve_call c now key l))
        (if key == other then key_step c now own else own)
serve_call-Follows c now key l other own d f =
    let pruned = prune_locked-Follows now l other own d f in
    elim (Bool-cases (key == other)) [
      | inl same ↦
          let e : key ≡ other = (string_eq.test_iff key other).0 same in
          rw same (
            subst (λ k. Follows now (lookup other (serve_call c now k l)) (key_step c now own))
              (sym e) (serve_call_own c now other l own pruned))
      | inr ne ↦
          rw ne
            (subst (λ o. Follows now o own) (sym (serve_call_other c now key other l ne)) pruned)
    ]

has-keys-delete :
    (key k : String) (l : LoginLimiter)
    → has k (keys l) ≡ false
    → has k (keys (delete key l)) ≡ false
unfolding delete keys has
has-keys-delete key k [] h = h
has-keys-delete key k ((j, a) ∷ l) h = ground (arith, h, has-keys-delete key k l)

distinct-delete :
    (key : String) (l : LoginLimiter)
    → distinct (keys l) ≡ true
    → distinct (keys (delete key l)) ≡ true
unfolding delete keys distinct
distinct-delete key [] h = h
distinct-delete key ((k, a) ∷ l) h =
    ground (arith, h, distinct-delete key l, has-keys-delete key k l)

serve_call-distinct :
    (c : Call) (now : ℕ) (key : String) (l : LoginLimiter)
    → distinct (keys l) ≡ true
    → distinct (keys (serve_call c now key l)) ≡ true
unfolding serve_call allowed record_failure record_success
serve_call-distinct ask now key l d = distinct-prune_locked now l d
serve_call-distinct fail now key l d =
    distinct-keys-insert key _ (prune_locked now l) (distinct-prune_locked now l d)
serve_call-distinct succeed now key l d =
    distinct-delete key (prune_locked now l) (distinct-prune_locked now l d)

serve_all-Follows :
    (t : ℕ) (es : List Event) (l : LoginLimiter) (key : String) (own : Option LoginAttempt)
    → Forward t es
    → distinct (keys l) ≡ true
    → Follows t (lookup key l) own
    → (distinct (keys (serve_all es l)) ≡ true)
      × Follows (last_time t es) (lookup key (serve_all es l)) (key_all key es own)
unfolding serve_all key_all
serve_all-Follows t [] l key own forward d f = (d, f)
serve_all-Follows t (e ∷ es) l key own forward d f =
    serve_all-Follows e.at es (serve e l) key _ forward.1
      (serve_call-distinct e.call e.at e.key l d)
      (serve_call-Follows e.call e.at e.key l key own d
        (later-Follows t e.at (lookup key l) own forward.0 f))

may_attempt-Follows :
    (now : ℕ) (held own : Option LoginAttempt)
    → Follows now held own
    → may_attempt now held ≡ may_attempt now own
unfolding may_attempt
may_attempt-Follows now held own (inl e) = ap (may_attempt now) e
may_attempt-Follows now held own (inr (e, (a, f, s))) = rw (e, f) (ground (arith, s))

-- Whatever calls were made for whatever keys, the limiter lets a key attempt a login exactly when the
-- machine that sees that key's calls alone, and never prunes, does; while the clock does not go back.
pub allowed-key_all :
    (t now : ℕ) (es : List Event) (key : String)
    → Forward t es
    → last_time t es ≤ now
    → (allowed now key (serve_all es [])).0 ≡ may_attempt now (key_all key es none)
unfolding allowed keys distinct lookup
allowed-key_all t now es key forward later =
    let (d, f) = serve_all-Follows t es [] key none forward refl (inl refl) in
    may_attempt-Follows now _ _ (
      prune_locked-Follows now (serve_all es []) key _ d
        (later-Follows (last_time t es) now _ _ later f))
