-- ===== src/Relay/Reconciling.antt =====
-- What a reconciliation of the userspace listeners leaves.
use nft.Relay.Opening.{lookup-open_all, open_all-none, opened_at}
use nft.Relay.Updating.{kept_at, lookup-close_others, lookup-update_all, updated_at}
use nft.Base.{
  Bool, Bool-cases, List, Option, [], ap, distinct, inl, inr, nat_eq, none, pair_eq, refl, some,
  string_eq, subst, sym, true, ℕ, ◌==◌, ◌∙◌, ◌∷◌, ◌≡◌,
}
use nft.Base.Assoc.{distinct-keys-insert, insert, keys, lookup}
use nft.Base.Int.{int_eq, ℤ}
use nft.Rule.{Rule}
use nft.Relay.{
  Backend, Calls, Listener, Listeners, close_others, desired_groups, desired_of, finish_update,
  limits_of, open_all, opened, reconcile_listeners, retune_all, retuned, target_of, update,
  update_all,
}

-- The listener of a rule: its target, and the buckets that limit it.
abbrev pub Serves : Calls → List (ℤ × ℤ) → Rule → Listener → Type 0
Serves go groups r l = (l.tgt ≡ target_of go r) × ((l.lim, l.lim_down) ≡ limits_of groups r)

abbrev pub AtPort : Calls → List (ℤ × ℤ) → Option Rule → Option Listener → Type 0
AtPort go groups none o = o ≡ none
AtPort go groups (some r) o = (l : Listener) × (o ≡ some l) × Serves go groups r l

-- Every rule has its listener, and there are no others.
abbrev pub Matches : Calls → List Rule → Backend → Type 0
Matches go rules b =
    (q : ℤ) → AtPort go b.groups (lookup q (desired_of rules [])) (lookup q b.listeners)

-- A listener that stays goes on counting, and a new one starts from zero.
abbrev pub Counts : Option Listener → Listener → Type 0
Counts none l = (l.bytes_up ≡ 0) × (l.bytes_down ≡ 0)
Counts (some old) l = (l.bytes_up ≡ old.bytes_up) × (l.bytes_down ≡ old.bytes_down)

pub distinct-desired_of :
    (rules : List Rule) (m : List (ℤ × Rule))
    → distinct (keys m) ≡ true
    → distinct (keys (desired_of rules m)) ≡ true
unfolding desired_of
distinct-desired_of [] m d = d
distinct-desired_of (r ∷ rs) m d =
    distinct-desired_of rs (insert r.src_port r m) (distinct-keys-insert r.src_port r m d)

finish_update-none :
    (go : Calls) (desired : List (ℤ × Rule)) (b : Backend) (failed : List ℤ)
    → (finish_update go desired b failed).0 ≡ []
    → failed ≡ []
unfolding finish_update
finish_update-none go desired b [] e = refl
finish_update-none go desired b (port ∷ ports) e = e

-- What becomes of one port.
abbrev after_at :
    Calls → (ℤ → Bool) → List (ℤ × ℤ) → ℕ → ℤ → Option Rule → Option Listener → Option Listener
after_at go binds groups pool_size q r l =
    kept_at r (updated_at go groups pool_size r (opened_at go binds pool_size q r l))

same_counts :
    (go : Calls) (groups : List (ℤ × ℤ)) (pool_size : ℕ) (r : Rule) (l m : Listener)
    → some (update go groups pool_size r l) ≡ some m
    → (m.bytes_up ≡ l.bytes_up) × (m.bytes_down ≡ l.bytes_down)
unfolding update
same_counts go groups pool_size r l m e =
    let same : update go groups pool_size r l ≡ m = cc e in
    (sym (ap (λ x. x.bytes_up) same), sym (ap (λ x. x.bytes_down) same))

after_at-AtPort :
    (go : Calls) (binds : ℤ → Bool) (groups : List (ℤ × ℤ)) (pool_size : ℕ) (q : ℤ)
    (r : Option Rule) (l : Option Listener)
    → ((x : Rule) → r ≡ some x → l ≡ none → binds q ≡ true)
    → AtPort go groups r (after_at go binds groups pool_size q r l)
      × ((m : Listener) → after_at go binds groups pool_size q r l ≡ some m → Counts l m)
unfolding update
after_at-AtPort go binds groups pool_size q none l bound = (refl, λ m e. cc e)
after_at-AtPort go binds groups pool_size q (some r) (some l) bound = (
  (update go groups pool_size r l, refl, (refl, refl)),
  λ m e. same_counts go groups pool_size r l m e,
)
after_at-AtPort go binds groups pool_size q (some r) none bound =
    let fresh : Listener = opened go pool_size r in
    rw (bound r refl refl) (
      (update go groups pool_size r fresh, refl, (refl, refl)),
      λ m e. same_counts go groups pool_size r fresh m e,
    )

finish_update-done :
    (go : Calls) (desired : List (ℤ × Rule)) (b : Backend) (failed : List ℤ)
    → failed ≡ []
    → (finish_update go desired b failed).1 ≡ record b {
      listeners = close_others desired (update_all go b.groups b.pool_size desired b.listeners);
    }
unfolding finish_update
finish_update-done go desired b [] e = refl
finish_update-done go desired b (port ∷ ports) e = cc e

pub no_rules-distinct : distinct (keys {K = ℤ} {V = Rule} []) ≡ true
unfolding keys distinct
no_rules-distinct = refl

lookup_after :
    (go : Calls) (binds : ℤ → Bool) (groups : List (ℤ × ℤ)) (pool_size : ℕ)
    (desired : List (ℤ × Rule)) (ls : Listeners) (q : ℤ)
    → distinct (keys desired) ≡ true
    → lookup q (
        close_others desired
          (update_all go groups pool_size desired (open_all go binds pool_size desired ls).0))
      ≡ after_at go binds groups pool_size q (lookup q desired) (lookup q ls)
lookup_after go binds groups pool_size desired ls q d =
    lookup-close_others desired _ q
    ∙ ap (kept_at (lookup q desired)) (
        lookup-update_all go groups pool_size desired _ q d
        ∙ ap (updated_at go groups pool_size (lookup q desired))
            (lookup-open_all go binds pool_size desired ls q d))

abbrev pub retuned_at : List (ℤ × ℤ) → Option Listener → Option Listener
retuned_at groups none = none
retuned_at groups (some l) = some (retuned groups l)

pub lookup-retune_all :
    (groups : List (ℤ × ℤ)) (ls : Listeners) (q : ℤ)
    → lookup q (retune_all groups ls) ≡ retuned_at groups (lookup q ls)
unfolding retune_all lookup
lookup-retune_all groups [] q = refl
lookup-retune_all groups ((port, l) ∷ ls) q = elim (Bool-cases (port == q)) [
  | inl here ↦ rw here refl
  | inr there ↦ rw there (lookup-retune_all groups ls q)
]

-- Retuning changes no counter.
Counts-retuned :
    (groups : List (ℤ × ℤ)) (o : Option Listener) (m : Listener)
    → Counts (retuned_at groups o) m
    → Counts o m
Counts-retuned groups none m c = c
Counts-retuned groups (some l) m c = c

abbrev Finished : Calls → List Rule → Listeners → Backend → Type 0
Finished go rules old b =
    Matches go rules b
    × ((q : ℤ) (l : Listener) → lookup q b.listeners ≡ some l → Counts (lookup q old) l)

-- When every new port could be bound, each rule has its listener, with its target and its limits, and
-- there are no others; and a listener that stays keeps its counters, and a new one starts at zero.
pub reconcile_listeners-Matches :
    (go : Calls) (binds : ℤ → Bool) (rules : List Rule) (b : Backend)
    → (reconcile_listeners go binds rules b).0 ≡ []
    → Matches go rules (reconcile_listeners go binds rules b).1
      × ((q : ℤ) (l : Listener)
          → lookup q (reconcile_listeners go binds rules b).1.listeners ≡ some l
          → Counts (lookup q b.listeners) l)
unfolding reconcile_listeners
reconcile_listeners-Matches go binds rules b fine =
    let desired = desired_of rules [] in
    let d : distinct (keys desired) ≡ true = distinct-desired_of rules [] no_rules-distinct in
    let groups = desired_groups rules [] in
    let size : ℕ = b.pool_size in
    let ls = retune_all groups b.listeners in
    let tried = open_all go binds size desired ls in
    let started : Backend = record b { listeners = tried.0; groups = groups } in
    let none_failed : tried.1 ≡ [] = finish_update-none go desired started tried.1 fine in
    let ports = λ (q : ℤ).
      after_at-AtPort go binds groups size q (lookup q desired) (lookup q ls)
        (open_all-none go binds size desired ls d none_failed q) in
    let row = λ (q : ℤ). lookup_after go binds groups size desired ls q d in
    subst (Finished go rules b.listeners)
      (sym (finish_update-done go desired started tried.1 none_failed))
      (
        λ q. subst (AtPort go groups (lookup q desired)) (sym (row q)) (ports q).0,
        λ q l e. Counts-retuned groups (lookup q b.listeners) l (
            subst (λ o. Counts o l) (lookup-retune_all groups b.listeners q)
              ((ports q).1 l (sym (row q) ∙ e))),
      )
