-- ===== src/Relay/Opening.antt =====
-- The loop that opens listeners.
use nft.Base.{
  Bool, Bool-cases, List, Option, [], ap, arith, distinct, distinct-cons, false, has, if◌then◌else◌,
  inl, inr, nat_eq, none, pair_eq, refl, some, string_eq, subst, sym, test_refl, true, ℕ, ◌++◌,
  ◌==◌, ◌∙◌, ◌∷◌, ◌≡◌,
}
use nft.Base.Assoc.{keys, lookup, lookup-insert, lookup-none}
use nft.Base.Int.{int_eq, ℤ}
use nft.Rule.{Rule}
use nft.Relay.{Calls, Listener, Listeners, open_all, open_at, opened}

abbrev pub opened_at : Calls → (ℤ → Bool) → ℕ → ℤ → Option Rule → Option Listener → Option Listener
opened_at go binds pool_size port none l = l
opened_at go binds pool_size port (some r) (some l) = some l
opened_at go binds pool_size port (some r) none =
    if binds port then some (opened go pool_size r) else none

both_empty : (xs ys : List ℤ) → xs ++ ys ≡ [] → (xs ≡ []) × (ys ≡ [])
both_empty [] ys e = (refl, e)
both_empty (x ∷ xs) ys e = cc e

module _ (go : Calls) (binds : ℤ → Bool) (pool_size : ℕ) where
  own_port :
      (port : ℤ) (r : Rule) (ls : Listeners) (o : Option Listener)
      → lookup port ls ≡ o
      → lookup port (open_at go binds pool_size port r o ls).0
        ≡ opened_at go binds pool_size port (some r) o
  unfolding open_at
  own_port port r ls (some l) e = e
  own_port port r ls none e = elim (Bool-cases (binds port)) [
    | inl bound ↦
        rw bound (lookup-insert port port (opened go pool_size r) ls ∙ rw (test_refl port) refl)
    | inr failed ↦ rw failed e
  ]

  other_port :
      (port : ℤ) (r : Rule) (ls : Listeners) (o : Option Listener) (q : ℤ)
      → (port == q) ≡ false
      → lookup q (open_at go binds pool_size port r o ls).0 ≡ lookup q ls
  unfolding open_at
  other_port port r ls (some l) q ne = refl
  other_port port r ls none q ne = elim (Bool-cases (binds port)) [
    | inl bound ↦ rw bound (lookup-insert port q (opened go pool_size r) ls ∙ rw ne refl)
    | inr failed ↦ rw failed refl
  ]

  -- A listener that was there stays as it was, and a desired port without one gets one if it can.
  pub lookup-open_all :
      (desired : List (ℤ × Rule)) (ls : Listeners) (q : ℤ)
      → distinct (keys desired) ≡ true
      → lookup q (open_all go binds pool_size desired ls).0
        ≡ opened_at go binds pool_size q (lookup q desired) (lookup q ls)
  unfolding open_all lookup keys distinct
  lookup-open_all [] ls q d = refl
  lookup-open_all ((port, r) ∷ desired) ls q d =
      let (new, rest) = distinct-cons port (keys desired) d in
      let now : Listeners = (open_at go binds pool_size port r (lookup port ls) ls).0 in
      let ih = lookup-open_all desired now q rest in
      elim (Bool-cases (port == q)) [
        | inl same ↦
            let e : port ≡ q = (int_eq.test_iff port q).0 same in
            let gone : lookup q desired ≡ none =
              lookup-none q desired (subst (λ x. has x (keys desired) ≡ false) e new) in
            let mine : lookup q now ≡ opened_at go binds pool_size q (some r) (lookup q ls) =
              subst (λ x. lookup x now ≡ opened_at go binds pool_size x (some r) (lookup x ls)) e
                (own_port port r ls (lookup port ls) refl) in
            rw same (ih ∙ rw gone mine)
        | inr ne ↦ rw ne (
            ih
            ∙ ap (opened_at go binds pool_size q (lookup q desired))
                (other_port port r ls (lookup port ls) q ne))
      ]

  bound_port :
      (port : ℤ) (r : Rule) (ls : Listeners) (o : Option Listener)
      → o ≡ none
      → (open_at go binds pool_size port r o ls).1 ≡ []
      → binds port ≡ true
  unfolding open_at
  bound_port port r ls (some l) e f = cc e
  bound_port port r ls none e f = elim (Bool-cases (binds port)) [
    | inl bound ↦ bound
    | inr failed ↦ cc (failed, f)
  ]

  -- When no port has failed, every new port could be bound.
  pub open_all-none :
      (desired : List (ℤ × Rule)) (ls : Listeners)
      → distinct (keys desired) ≡ true
      → (open_all go binds pool_size desired ls).1 ≡ []
      → (q : ℤ) (r : Rule) → lookup q desired ≡ some r
      → lookup q ls ≡ none
      → binds q ≡ true
  unfolding open_all lookup keys distinct
  open_all-none [] ls d e q r want fresh = cc want
  open_all-none ((port, s) ∷ desired) ls d e q r want fresh =
      let (new, rest) = distinct-cons port (keys desired) d in
      let one = open_at go binds pool_size port s (lookup port ls) ls in
      elim (Bool-cases (port == q)) [
        | inl same ↦
            let at : port ≡ q = (int_eq.test_iff port q).0 same in
            subst (λ x. binds x ≡ true) at
              (bound_port port s ls (lookup port ls)
                (subst (λ x. lookup x ls ≡ none) (sym at) fresh) (both_empty one.1 _ e).0)
        | inr ne ↦
            open_all-none desired one.0 rest (both_empty one.1 _ e).1 q r (ground (arith, want, ne))
              (other_port port s ls (lookup port ls) q ne ∙ fresh)
      ]
