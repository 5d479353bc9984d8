-- ===== src/Ports/Scan.antt =====
-- What the search loop of both port pickers finds.
use nft.Base.{
  Bool-cases, List, Option, Option-cases, ap, arith, false, has, if◌then◌else◌, inl, inr, ltb,
  nat_eq, none, pair_eq, some, string_eq, subst, suc, sym, true, zero, ℕ, ◌%◌, ◌+◌, ◌-◌, ◌<◌, ◌∙◌,
  ◌≡◌, ◌≢◌,
}
use nft.Ports.{scan}
use native.Mathlib.Nat.{add-mod_left, mod-eq_of_lt}

-- Every index is reached within one round from any offset.
pub index_reached :
    (total offset idx : ℕ)
    → offset < total
    → idx < total
    → (k : ℕ) × (k < total) × ((offset + k) % total ≡ idx)
index_reached total offset idx o h = elim (Bool-cases (ltb idx offset)) [
  | inr later ↦
      let back : offset + (idx - offset) ≡ idx = ground arith in
      (idx - offset, ground arith, cc (mod-eq_of_lt h, back))
  | inl sooner ↦
      let round : offset + (total - offset + idx) ≡ total + idx = ground arith in
      (total - offset + idx, ground arith, cc (mod-eq_of_lt h, round, add-mod_left total idx))
]

module _ (candidate : ℕ → Option ℕ) (total offset : ℕ) (used : List ℕ) where
  scan-none :
      (n i : ℕ)
      → candidate ((offset + i) % total) ≡ none
      → scan candidate total offset used (suc n) i ≡ scan candidate total offset used n (i + 1)
  unfolding scan
  scan-none n i h = rw (h, scan)

  scan-some :
      (n i q : ℕ)
      → candidate ((offset + i) % total) ≡ some q
      → scan candidate total offset used (suc n) i
        ≡ (if has q used then scan candidate total offset used n (i + 1) else q)
  unfolding scan
  scan-some n i q h = rw (h, scan)

  -- A port that the loop returns is a candidate that is not used.
  pub scan_sound :
      (n i p : ℕ)
      → scan candidate total offset used n i ≡ p
      → p ≢ 0
      → (k : ℕ) × (candidate ((offset + k) % total) ≡ some p) × (has p used ≡ false)
  unfolding scan
  scan_sound zero i p e ne = ground (arith, ne (sym e))
  scan_sound (suc n) i p e ne = elim (Option-cases (candidate ((offset + i) % total))) [
    | inl missing ↦ scan_sound n (i + 1) p (sym (scan-none n i missing) ∙ e) ne
    | inr (q, here) ↦ elim (Bool-cases (has q used)) [
      | inl taken ↦ scan_sound n (i + 1) p (sym (scan-some n i q here ∙ rw taken) ∙ e) ne
      | inr free ↦
          let same : q ≡ p = sym (scan-some n i q here ∙ rw free) ∙ e in
          (i, here ∙ ap some same, rw (← same) free)
    ]
  ]

  -- When it returns 0, every candidate of the remaining indices is used.
  pub scan_complete :
      ((idx q : ℕ) → candidate idx ≡ some q → q ≢ 0)
      → (n i k p : ℕ) → scan candidate total offset used n i ≡ 0
      → k < n
      → candidate ((offset + (i + k)) % total) ≡ some p
      → has p used ≡ true
  unfolding scan
  scan_complete real zero i k p e h here = ground arith
  scan_complete real (suc n) i zero p e h here =
      let now : candidate ((offset + i) % total) ≡ some p =
        subst (λ j. candidate ((offset + j) % total) ≡ some p) (omega arith) here in
      ground (arith, scan-some n i p now, real _ p now, e)
  scan_complete real (suc n) i (suc k) p e h here =
      let next : candidate ((offset + (i + 1 + k)) % total) ≡ some p =
        subst (λ j. candidate ((offset + j) % total) ≡ some p) (omega arith) here in
      scan_complete real n (i + 1) k p
        (elim (Option-cases (candidate ((offset + i) % total))) [
          | inl missing ↦ sym (scan-none n i missing) ∙ e
          | inr (q, there) ↦ ground (arith, scan-some n i q there, real _ q there, e)
        ])
        (omega arith) next

  -- A whole round leaves no candidate out.
  pub scan_complete_round :
      ((idx q : ℕ) → candidate idx ≡ some q → q ≢ 0)
      → scan candidate total offset used total 0 ≡ 0
      → offset < total
      → (idx p : ℕ) → idx < total
      → candidate idx ≡ some p
      → has p used ≡ true
  scan_complete_round real e o idx p h here =
      let (k, early, reached) = index_reached total offset idx o h in
      scan_complete real total 0 k p e early (
        subst (λ j. candidate j ≡ some p)
          (sym (ap (λ j. (offset + j) % total) (omega arith) ∙ reached)) here)
