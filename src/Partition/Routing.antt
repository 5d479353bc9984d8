-- ===== src/Partition/Routing.antt =====
-- Where `Partition` sends the traffic.
use mathlib.Core.List.{append-nil}
use mathlib.Core.List.{perm_append_comm}
use mathlib.Core.List.Perm
use mathlib.Core.List.{append_assoc, Perm}
use nft.Base.{
  All, All-append, Bool-cases, List, Result-cases, String, [], eq_iff, false, inl, inr, nat_eq, ok,
  ok_of_bind, pair_eq, refl, string_eq, subst, ◌++◌, ◌==◌, ◌>>=◌, ◌∷◌, ◌≡◌,
}
use nft.Rule.{Rule, effective_mode, mode_kernel, mode_userspace}
use nft.Partition.{
  Key, Split, claim, empty_split, namespaces, partition, place, place_all, tcp_part, udp_part,
}

-- What a rule listens on and where it sends: a namespace, and the rule less its protocol and mode.
abbrev pub Listening : Type 0
Listening = String × Rule

abbrev pub bare : Rule → Rule
bare r = record r { proto = ""; mode = "" }

abbrev pub listen : Rule → List String → List Listening
listen r [] = []
listen r (p ∷ ps) = (p, bare r) ∷ listen r ps

abbrev pub listeners : List Rule → List Listening
listeners [] = []
listeners (r ∷ rs) = listen r (namespaces r.proto) ++ listeners rs

listeners-append : (rs qs : List Rule) → listeners (rs ++ qs) ≡ listeners rs ++ listeners qs
listeners-append [] qs = refl
listeners-append (r ∷ rs) qs =
    rw
      (
        listeners-append rs qs,
        ← append_assoc (listen r (namespaces r.proto)) (listeners rs) (listeners qs),
      )
      refl

module _ {ℓ} {A : Type ℓ} (xs ys rs : List A) where
  grow_right : (ns : List A) → Perm (xs ++ ys) rs → Perm (xs ++ (ys ++ ns)) (rs ++ ns)
  grow_right ns p = rw (← append_assoc xs ys ns) (Perm.append_right ns p)

  grow_left : (ns : List A) → Perm (xs ++ ys) rs → Perm ((xs ++ ns) ++ ys) (rs ++ ns)
  grow_left ns p =
      rw (append_assoc xs ns ys)
        (Perm.trans (Perm.append_left xs (perm_append_comm ns ys)) (grow_right ns p))

relayed : (r : Rule) → (effective_mode r == mode_kernel) ≡ false → effective_mode r ≡ mode_userspace
unfolding effective_mode
relayed r h = elim (Bool-cases (r.mode == mode_userspace)) [
  | inl e ↦ rw e refl
  | inr e ↦ cc (rw (e, effective_mode) at h)
]

-- The shape of a split: userspace rules are tcp in userspace mode, kernel rules in kernel mode.
abbrev pub UserspaceRule : Rule → Type 0
UserspaceRule r = (r.proto ≡ "tcp") × (effective_mode r ≡ mode_userspace)

abbrev pub KernelRule : Rule → Type 0
KernelRule r = effective_mode r ≡ mode_kernel

pub record Serves (kernel userspace rs : List Rule) : Type 0 where
  pub same : Perm (listeners kernel ++ listeners userspace) (listeners rs)
  pub kernel_rules : All KernelRule kernel
  pub relay_rules : All UserspaceRule userspace

module _ {kernel userspace rs : List Rule} (r : Rule) (v : Serves kernel userspace rs) where
  after_kernel : KernelRule r → Serves (kernel ++ r ∷ []) userspace (rs ++ r ∷ [])
  after_kernel k = record {
    same =
        rw (listeners-append kernel (r ∷ []), listeners-append rs (r ∷ []))
          (grow_left (listeners kernel) (listeners userspace) (listeners rs) (listeners (r ∷ []))
            v.same);
    kernel_rules = All-append KernelRule kernel (r ∷ []) v.kernel_rules (k, tt);
    relay_rules = v.relay_rules;
  }

  after_relay : UserspaceRule r → Serves kernel (userspace ++ r ∷ []) (rs ++ r ∷ [])
  after_relay k = record {
    same =
        rw (listeners-append userspace (r ∷ []), listeners-append rs (r ∷ []))
          (grow_right (listeners kernel) (listeners userspace) (listeners rs) (listeners (r ∷ []))
            v.same);
    kernel_rules = v.kernel_rules;
    relay_rules = All-append UserspaceRule userspace (r ∷ []) v.relay_rules (k, tt);
  }

  -- tcp+udp: the listeners of the two halves are those of the rule, in the other order.
  after_both :
      r.proto ≡ "tcp+udp"
      → Serves (kernel ++ udp_part r ∷ []) (userspace ++ tcp_part r ∷ []) (rs ++ r ∷ [])
  unfolding namespaces effective_mode
  after_both e = record {
    same =
        rw
          (
            listeners-append kernel (udp_part r ∷ []),
            listeners-append userspace (tcp_part r ∷ []),
            listeners-append rs (r ∷ []),
            e,
          )
          (rw (← append_assoc (listeners rs) (("tcp", bare r) ∷ []) (("udp", bare r) ∷ [])) (
            grow_left (listeners kernel) (listeners userspace ++ ("tcp", bare r) ∷ [])
              (listeners rs ++ ("tcp", bare r) ∷ []) (("udp", bare r) ∷ [])
              (grow_right (listeners kernel) (listeners userspace) (listeners rs)
                (("tcp", bare r) ∷ []) v.same)));
    kernel_rules = All-append KernelRule kernel (udp_part r ∷ []) v.kernel_rules (refl, tt);
    relay_rules =
        All-append UserspaceRule userspace (tcp_part r ∷ []) v.relay_rules ((refl, refl), tt);
  }

-- A branch of the loop that succeeds goes on with the state that it writes.
branch :
    (P : Split → Type 0) (r : Rule) (p : String) (s s' : Split) (f : List (Key × Rule) → Split)
    → (claim r r.src_port (namespaces p) s.claimed >>= λ m. ok (f m)) ≡ ok s'
    → ((m : List (Key × Rule)) → P (f m))
    → P s'
branch P r p s s' f e h =
    let (m, _, q) = ok_of_bind (λ m. ok (f m)) (claim r r.src_port (namespaces p) s.claimed) e in
    subst P (cc q) (h m)

-- One turn of the loop, when it succeeds.
place-Serves :
    (done : List Rule) (s s' : Split) (r : Rule)
    → Serves s.kernel s.userspace done
    → place s r ≡ ok s'
    → Serves s'.kernel s'.userspace (done ++ r ∷ [])
unfolding place
place-Serves done s s' r v e = elim (Bool-cases (effective_mode r == mode_kernel)) [
  | inl k ↦ branch P r r.proto s s' _ (rw k at e) (λ m. after_kernel r v ((eq_iff _ _).0 k))
  | inr k ↦ elim (Bool-cases (r.proto == "tcp")) [
    | inl t ↦
        branch P r "tcp" s s' _ (rw (k, t) at e)
          (λ m. after_relay r v ((eq_iff _ _).0 t, relayed r k))
    | inr t ↦ elim (Bool-cases (r.proto == "tcp+udp")) [
      | inl b ↦
          branch P r "tcp+udp" s s' _ (rw (k, t, b) at e) (λ m. after_both r v ((eq_iff _ _).0 b))
      | inr b ↦ cc (rw (k, t, b) at e)
    ]
  ]
]
  where
    P : Split → Type 0
    P q = Serves q.kernel q.userspace (done ++ r ∷ [])

place_all-Serves :
    (done : List Rule) (s s' : Split) (rs : List Rule)
    → Serves s.kernel s.userspace done
    → place_all s rs ≡ ok s'
    → Serves s'.kernel s'.userspace (done ++ rs)
unfolding place_all
place_all-Serves done s s' [] v e =
    let same : s ≡ s' = cc e in
    rw append-nil (subst (λ (q : Split). Serves q.kernel q.userspace done) same v)
place_all-Serves done s s' (r ∷ rs) v e = elim (Result-cases (place s r)) [
  | inl (q, p) ↦ rw (← append_assoc done (r ∷ []) rs) (
      place_all-Serves (done ++ r ∷ []) q s' rs (place-Serves done s q r v p)
        (rw (p, place_all) at e))
  | inr (c, p) ↦ cc (rw (p, place_all) at e)
]

-- When `Partition` succeeds, the two rule sets together listen exactly where the given rules do, each
-- namespace once and with the rule's own target; every kernel rule is in kernel mode, and every
-- userspace rule is tcp in userspace mode.
pub partition-Serves :
    (rs kernel userspace : List Rule)
    → partition rs ≡ ok (kernel, userspace)
    → Serves kernel userspace rs
unfolding partition
partition-Serves rs kernel userspace e =
    let (s, p, q) = ok_of_bind _ (place_all empty_split rs) e in
    subst (λ (o : List Rule × List Rule). Serves o.0 o.1 rs) (cc q)
      (place_all-Serves [] empty_split s rs
        (record { same = Perm.nil; kernel_rules = tt; relay_rules = tt }) p)
