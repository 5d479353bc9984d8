-- ===== src/Relay/Failing.antt =====
-- What a reconciliation of the userspace listeners leaves when a port cannot be bound.
use nft.Relay.Opening.{lookup-open_all, opened_at}
use nft.Base.{
  Bool, Bool-cases, List, Option, Option-cases, [], ap, distinct, inl, inr, nat_eq, none, pair_eq,
  refl, some, string_eq, sym, true, ℕ, ◌∙◌, ◌∷◌, ◌≡◌, ◌≢◌, ◌⊎◌,
}
use nft.Base.Assoc.{keys, lookup}
use nft.Base.Int.{int_eq, ℤ}
use nft.Rule.{Rule}
use nft.Relay.{
  Backend, Calls, Limit, Listener, desired_groups, desired_of, detached, finish_update, open_all,
  opened, own, reconcile_listeners, retune, retune_all, retuned, shared, target_of, unlimited,
}
use nft.Relay.Reconciling.{distinct-desired_of, lookup-retune_all, no_rules-distinct, retuned_at}

finish_update-failed :
    (go : Calls) (desired : List (ℤ × Rule)) (b : Backend) (failed : List ℤ)
    → (finish_update go desired b failed).0 ≢ []
    → (finish_update go desired b failed).1 ≡ b
unfolding finish_update
finish_update-failed go desired b [] ne = absurd (ne refl)
finish_update-failed go desired b (port ∷ ports) ne = refl

-- Opened for a rule, but with neither limit set.
abbrev pub IsUnlimited : Calls → Option Rule → Listener → Type 0
IsUnlimited go none l = ⊥
IsUnlimited go (some r) l =
    (l.tgt ≡ target_of go r) × (l.lim ≡ unlimited) × (l.lim_down ≡ unlimited)

opened_at-none :
    (go : Calls) (binds : ℤ → Bool) (pool_size : ℕ) (q : ℤ) (r : Option Rule) (l : Listener)
    → opened_at go binds pool_size q r none ≡ some l
    → IsUnlimited go r l
opened_at-none go binds pool_size q none l e = absurd (cc e)
opened_at-none go binds pool_size q (some r) l e = elim (Bool-cases (binds q)) [
  | inl bound ↦
      let fresh : opened go pool_size r ≡ l = cc (bound, e) in
      (sym (ap (λ x. x.tgt) fresh), sym (ap (λ x. x.lim) fresh), sym (ap (λ x. x.lim_down) fresh))
  | inr failed ↦ absurd (cc (failed, e))
]

opened_at-kept :
    (go : Calls) (binds : ℤ → Bool) (pool_size : ℕ) (q : ℤ) (r : Option Rule) (l : Listener)
    → opened_at go binds pool_size q r (some l) ≡ some l
opened_at-kept go binds pool_size q none l = refl
opened_at-kept go binds pool_size q (some r) l = refl

-- The bucket of a group takes the group's rate, and keeps its own when the group has none any more; no
-- other limit changes.
abbrev pub IsRetuned : List (ℤ × ℤ) → Limit → Limit → Type 0
IsRetuned groups unlimited m = m ≡ unlimited
IsRetuned groups (shared group old) m =
    ((lookup group groups ≡ none) × (m ≡ detached old))
    ⊎ ((mbps : ℤ) × (lookup group groups ≡ some mbps) × (m ≡ shared group mbps))
IsRetuned groups (detached old) m = m ≡ detached old
IsRetuned groups (own mbps) m = m ≡ own mbps

retune-IsRetuned : (groups : List (ℤ × ℤ)) (l : Limit) → IsRetuned groups l (retune groups l)
unfolding retune
retune-IsRetuned groups unlimited = refl
retune-IsRetuned groups (shared group old) = elim (Option-cases (lookup group groups)) [
  | inl e ↦ inl (e, rw e refl)
  | inr (mbps, e) ↦ inr (mbps, e, rw e refl)
]
retune-IsRetuned groups (detached old) = refl
retune-IsRetuned groups (own mbps) = refl

-- The listener stays, but for the rates of the buckets that it shares.
abbrev pub StaysAs : List (ℤ × ℤ) → Listener → Option Listener → Type 0
StaysAs groups l o =
    (m : Listener) × (o ≡ some m)
    × (m.tgt ≡ l.tgt)
    × (m.bytes_up ≡ l.bytes_up)
    × (m.bytes_down ≡ l.bytes_down)
    × (m.pool ≡ l.pool)
    × IsRetuned groups l.lim m.lim
    × IsRetuned groups l.lim_down m.lim_down

-- When a port cannot be bound, every listener of before stays, also on ports that no rule asks for, with its
-- target, its counters, its pool and its own limits, but a bucket that it shares with a group already has
-- the rate that the new rules give the group; and a listener that was opened for a rule stays open without
-- the rule's limits.
pub reconcile_listeners_failed :
    (go : Calls) (binds : ℤ → Bool) (rules : List Rule) (b : Backend)
    → (reconcile_listeners go binds rules b).0 ≢ []
    → ((q : ℤ) (l : Listener)
        → lookup q b.listeners ≡ some l
        → StaysAs
            (desired_groups rules [])
            l
            (lookup q (reconcile_listeners go binds rules b).1.listeners))
      × ((q : ℤ) (l : Listener)
          → lookup q b.listeners ≡ none
          → lookup q (reconcile_listeners go binds rules b).1.listeners ≡ some l
          → IsUnlimited go (lookup q (desired_of rules [])) l)
unfolding reconcile_listeners
reconcile_listeners_failed go binds rules b failed =
    let desired = desired_of rules [] in
    let size : ℕ = b.pool_size in
    let groups = desired_groups rules [] in
    let ls = retune_all groups b.listeners in
    let d : distinct (keys desired) ≡ true = distinct-desired_of rules [] no_rules-distinct in
    let tried = open_all go binds size desired ls in
    let started : Backend = record b { listeners = tried.0; groups = groups } in
    let same = finish_update-failed go desired started tried.1 failed in
    let row = λ (q : ℤ).
      ap (λ x. lookup q x.listeners) same ∙ lookup-open_all go binds size desired ls q d in
    let tuned = λ (q : ℤ) (o : Option Listener) (e : lookup q b.listeners ≡ o).
      lookup-retune_all groups b.listeners q ∙ ap (retuned_at groups) e in
    (
      λ q l e. (
        retuned groups l,
        row q
            ∙ (ap (opened_at go binds size q (lookup q desired)) (tuned q (some l) e)
                ∙ opened_at-kept go binds size q (lookup q desired) (retuned groups l)),
        refl,
        refl,
        refl,
        refl,
        retune-IsRetuned groups l.lim,
        retune-IsRetuned groups l.lim_down,
      ),
      λ q l e f.
          opened_at-none go binds size q (lookup q desired) l
            (sym (row q ∙ ap (opened_at go binds size q (lookup q desired)) (tuned q none e)) ∙ f),
    )
