-- ===== src/Pool/Owning.antt =====
-- Who owns a connection.
use nft.Base.{
  Bool, List, [], ap, arith, eqb, eqb_iff, if◌then◌else◌, inl, length, length-append, refl, subst,
  sym, true, ℕ, ◌++◌, ◌+◌, ◌∷◌, ◌≡◌, ◌≤◌, ◌⊎◌,
}
use nft.Pool.{
  ConnPool, Reach, Step, TimedConn, cancelling, conns, count, count_dialed, dialing, draining,
  falling_back, giving_up, here, next, places, putting, receive, receiving,
}

count-append : (k : ℕ) (xs ys : List ℕ) → count k (xs ++ ys) ≡ count k xs + count k ys
unfolding count
count-append k [] ys = omega arith
count-append k (x ∷ xs) ys = ground (arith, count-append k xs ys)

conns-snoc :
    (k : ℕ) (idle : List TimedConn) (tc : TimedConn)
    → count k (conns (idle ++ tc ∷ [])) ≡ count k (conns idle) + (if eqb tc.0 k then 1 else 0)
unfolding count
conns-snoc k [] tc = ground arith
conns-snoc k (t ∷ idle) tc = ground (arith, conns-snoc k idle tc)

-- A step loses no connection, and puts none in two places.
abbrev Conserves : ConnPool → ConnPool → Type 0
Conserves p q = (k : ℕ) → (places k q ≡ places k p) ⊎ ((places k p ≡ 0) × (places k q ≡ 1))

new_place : (c k : ℕ) (p : ConnPool) → places c p ≡ 0 → eqb c k ≡ true → places k p ≡ 0
new_place c k p new same = subst (λ x. places x p ≡ 0) ((eqb_iff c k).0 same) new

receive-Conserves :
    (now : ℕ) (alive : ℕ → Bool) (tc : TimedConn) (rest : List TimedConn) (p : ConnPool)
    → p.idle ≡ tc ∷ rest
    → Conserves p (receive now alive tc rest p)
unfolding receive count
receive-Conserves now alive tc rest p e = λ k. ground (arith, ap (λ l. count k (conns l)) e)

Step-Conserves : (p q : ConnPool) → Step p q → Conserves p q
unfolding count
Step-Conserves p q (receiving now alive tc rest e f) =
    subst (Conserves p) (sym f) (receive-Conserves now alive tc rest p e)
Step-Conserves p q (falling_back c new e f) =
    subst (Conserves p) (sym f)
      (λ k. ground (arith, new_place c k p new, ap (λ l. count k (conns l)) e))
Step-Conserves p q (dialing tc new e room f) =
    subst (Conserves p) (sym f) (λ k. ground (arith, new_place tc.0 k p new, ap (count_dialed k) e))
Step-Conserves p q (putting tc e room f) =
    subst (Conserves p) (sym f) (λ k. ground (arith, conns-snoc k p.idle tc, ap (count_dialed k) e))
Step-Conserves p q (giving_up tc e c f) =
    subst (Conserves p) (sym f) (λ k. ground (arith, ap (count_dialed k) e))
Step-Conserves p q (cancelling f) = subst (Conserves p) (sym f) (λ k. inl refl)
Step-Conserves p q (draining tc rest c d e f) =
    subst (Conserves p) (sym f) (λ k. ground (arith, ap (λ l. count k (conns l)) e))

Step-size :
    (p q : ConnPool)
    → Step p q
    → length p.idle ≤ p.size
    → (length q.idle ≤ q.size) × (q.size ≡ p.size)
unfolding receive
Step-size p q (receiving now alive tc rest e f) fits = rw f (ground (arith, ap length e, fits))
Step-size p q (falling_back c new e f) fits = rw f (fits, refl)
Step-size p q (dialing tc new e room f) fits = rw f (fits, refl)
Step-size p q (putting tc e room f) fits =
    rw f (omega (arith, room, length-append p.idle (tc ∷ [])), refl)
Step-size p q (giving_up tc e c f) fits = rw f (fits, refl)
Step-size p q (cancelling f) fits = rw f (fits, refl)
Step-size p q (draining tc rest c d e f) fits = rw f (omega (arith, ap length e, fits), refl)

-- However calls of Get, the filling goroutine and Close interleave, a connection is in one place at most
-- (ready, being put in, given out, or closed), none is lost, and the pool keeps to its size; so no
-- connection is given out twice, or closed by the pool and given out; when that held at the start.
pub Reach-places :
    {p q : ConnPool}
    → Reach p q
    → ((k : ℕ) → places k p ≤ 1)
    → length p.idle ≤ p.size
    → ((k : ℕ) → (places k q ≤ 1) × (places k p ≤ places k q)) × (length q.idle ≤ q.size)
Reach-places here once fits = (λ k. (once k, omega arith), fits)
Reach-places {p} (next {q} {r} reach step) once fits =
    let (before, fits_q) = Reach-places reach once fits in
    let conserved : Conserves q r = Step-Conserves q r step in
    (λ k. ground (arith, before k, conserved k), (Step-size q r step fits_q).0)
