-- ===== src/Relay/Updating.antt =====
-- The loops that update the listeners of the rules and close the others.
use nft.Base.{
  Bool-cases, List, Option, Option-cases, [], ap, distinct, distinct-cons, false, has, inl, inr,
  nat_eq, none, pair_eq, refl, some, string_eq, subst, test_refl, true, ℕ, ◌==◌, ◌∙◌, ◌∷◌, ◌≡◌,
}
use nft.Base.Assoc.{keys, lookup, lookup-insert, lookup-none}
use nft.Base.Int.{int_eq, ℤ}
use nft.Rule.{Rule}
use nft.Relay.{Calls, Listener, Listeners, close_others, update, update_all, update_at}

abbrev pub updated_at : Calls → List (ℤ × ℤ) → ℕ → Option Rule → Option Listener → Option Listener
updated_at go groups pool_size none l = l
updated_at go groups pool_size (some r) none = none
updated_at go groups pool_size (some r) (some l) = some (update go groups pool_size r l)

module _ (go : Calls) (groups : List (ℤ × ℤ)) (pool_size : ℕ) where
  own_update :
      (port : ℤ) (r : Rule) (ls : Listeners) (o : Option Listener)
      → lookup port ls ≡ o
      → lookup port (update_at port (update go groups pool_size r) o ls)
        ≡ updated_at go groups pool_size (some r) o
  own_update port r ls none e = e
  own_update port r ls (some l) e =
      lookup-insert port port (update go groups pool_size r l) ls ∙ rw (test_refl port) refl

  other_update :
      (port : ℤ) (f : Listener → Listener) (ls : Listeners) (o : Option Listener) (q : ℤ)
      → (port == q) ≡ false
      → lookup q (update_at port f o ls) ≡ lookup q ls
  other_update port f ls none q ne = refl
  other_update port f ls (some l) q ne = lookup-insert port q (f l) ls ∙ rw ne refl

  pub lookup-update_all :
      (desired : List (ℤ × Rule)) (ls : Listeners) (q : ℤ)
      → distinct (keys desired) ≡ true
      → lookup q (update_all go groups pool_size desired ls)
        ≡ updated_at go groups pool_size (lookup q desired) (lookup q ls)
  unfolding update_all lookup keys distinct
  lookup-update_all [] ls q d = refl
  lookup-update_all ((port, r) ∷ desired) ls q d =
      let (new, rest) = distinct-cons port (keys desired) d in
      let f : Listener → Listener = update go groups pool_size r in
      let now : Listeners = update_at port f (lookup port ls) ls in
      let ih = lookup-update_all desired now q rest in
      elim (Bool-cases (port == q)) [
        | inl same ↦
            let e : port ≡ q = (int_eq.test_iff port q).0 same in
            let gone : lookup q desired ≡ none =
              lookup-none q desired (subst (λ x. has x (keys desired) ≡ false) e new) in
            let mine : lookup q now ≡ updated_at go groups pool_size (some r) (lookup q ls) =
              subst (λ x. lookup x now ≡ updated_at go groups pool_size (some r) (lookup x ls)) e
                (own_update port r ls (lookup port ls) refl) in
            rw same (ih ∙ rw gone mine)
        | inr ne ↦ rw ne (
            ih
            ∙ ap (updated_at go groups pool_size (lookup q desired))
                (other_update port f ls (lookup port ls) q ne))
      ]

abbrev pub kept_at : Option Rule → Option Listener → Option Listener
kept_at none l = none
kept_at (some r) l = l

pub lookup-close_others :
    (desired : List (ℤ × Rule)) (ls : Listeners) (q : ℤ)
    → lookup q (close_others desired ls) ≡ kept_at (lookup q desired) (lookup q ls)
unfolding close_others lookup
lookup-close_others desired [] q = elim (Option-cases (lookup q desired)) [
  | inl e ↦ rw e refl
  | inr (r, e) ↦ rw e refl
]
lookup-close_others desired ((port, l) ∷ ls) q =
    let ih = lookup-close_others desired ls q in
    elim (Option-cases (lookup port desired)) [
      | inl e ↦ elim (Bool-cases (port == q)) [
        | inl same ↦
            let gone : lookup q desired ≡ none =
              subst (λ x. lookup x desired ≡ none) ((int_eq.test_iff port q).0 same) e in
            rw e (ih ∙ rw gone refl)
        | inr ne ↦ rw (e, ne) ih
      ]
      | inr (r, e) ↦ elim (Bool-cases (port == q)) [
        | inl same ↦
            let found : lookup q desired ≡ some r =
              subst (λ x. lookup x desired ≡ some r) ((int_eq.test_iff port q).0 same) e in
            rw (e, same, found) refl
        | inr ne ↦ rw (e, ne) ih
      ]
    ]
