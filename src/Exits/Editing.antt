-- ===== src/Exits/Editing.antt =====
-- internal/db/landing_exits.go: the queries and the changes of one exit, and landingExpiryEnforcer of
-- internal/server/server.go, whose statements are taken to succeed.
use nft.Base.{
  Bool, List, Option, String, [], arith, distinct, eqb, eqb_iff, false, has, if◌then◌else◌, leb,
  ltb, nat_eq, none, not, pair_eq, refl, some, string_eq, true, ℕ, ◌&&◌, ◌∙◌, ◌∷◌, ◌≡◌,
}
use nft.Base.Assoc.{delete, keys, keys-modify, lookup, lookup-modify, modify}
use nft.Billing.{UserExitKey, user_exit_key_eq}
use nft.Exits.{LandingExit, LandingExitKey, LandingExits, hidden, landing_exit_key_eq, over_quota}

-- (found, present)
abbrev pub row_present : Option LandingExit → Bool × Bool
row_present none = (false, false)
row_present (some r) = (true, r.present)

unfoldable pub exit_row_present : UserExitKey → LandingExits → Bool × Bool
exit_row_present k t = row_present (lookup k t)

-- What a change returns: updated, and whether rules are pushed again.
abbrev pub change :
    (LandingExit → LandingExit) → UserExitKey → LandingExits → Bool × Bool × LandingExits
change f k t =
    let (found, present) = exit_row_present k t in
    if not found then (false, false, t) else (true, present, modify k f t)

unfoldable pub set_user_landing_exit_quota :
    ℕ → UserExitKey → ℕ → LandingExits → Bool × Bool × LandingExits
set_user_landing_exit_quota now k quota t =
    change (λ r. record r { quota_bytes = quota; updated_at = now }) k t

unfoldable pub reset_user_landing_exit_traffic :
    ℕ → UserExitKey → LandingExits → Bool × Bool × LandingExits
reset_user_landing_exit_traffic now k t =
    change (λ r. record r { used_bytes = 0; updated_at = now }) k t

unfoldable pub set_user_landing_exit_name :
    ℕ → UserExitKey → String → LandingExits → Bool × LandingExits
set_user_landing_exit_name now k name t =
    if not (exit_row_present k t).0
    then (false, t)
    else (true, modify k (λ r. record r { name_override = name; updated_at = now }) t)

abbrev pub expiring : ℕ → ℕ → LandingExit → LandingExit
expiring now expires_at r = record r {
  expires_at = expires_at;
  present = not (ltb 0 expires_at && leb expires_at now);
  updated_at = now;
}

-- The last branch, for no affected row, is not reached: the row has been found.
unfoldable pub set_user_landing_exit_expires :
    ℕ → UserExitKey → ℕ → LandingExits → Bool × Bool × LandingExits
set_user_landing_exit_expires now k expires_at t =
    if not (exit_row_present k t).0
    then (false, false, t)
    else (true, true, modify k (expiring now expires_at) t)

pub data Deletion : Type 0 where
  notfound still_present deleted : Deletion

-- The status and wasPresent.
unfoldable pub delete_user_landing_exit :
    UserExitKey → Bool → LandingExits → Deletion × Bool × LandingExits
delete_user_landing_exit k force t =
    let (found, present) = exit_row_present k t in
    if not found
    then (notfound, false, t)
    else if present && not force
    then (still_present, true, t)
    else (deleted, present, delete k t)

unfoldable pub exits_exceeding_quota : ℕ → LandingExits → List LandingExitKey
exits_exceeding_quota user [] = []
exits_exceeding_quota user (((owner, k), r) ∷ t) =
    let rest = exits_exceeding_quota user t in
    if eqb owner user && (r.present && over_quota r) then k ∷ rest else rest

abbrev pub is_expired : ℕ → LandingExit → Bool
is_expired now r = r.present && (ltb 0 r.expires_at && leb r.expires_at now)

unfoldable pub expired_landing_exits : ℕ → LandingExits → List UserExitKey
expired_landing_exits now [] = []
expired_landing_exits now ((k, r) ∷ t) =
    let rest = expired_landing_exits now t in if is_expired now r then k ∷ rest else rest

unfoldable pub hide_all : ℕ → List UserExitKey → LandingExits → LandingExits
hide_all now [] t = t
hide_all now (k ∷ expired) t = hide_all now expired (modify k (hidden now) t)

-- One tick: the query, and the rows it found hidden. `later` is the clock of the writes.
unfoldable pub landing_expiry_enforcer : ℕ → ℕ → LandingExits → LandingExits
landing_expiry_enforcer now later t = hide_all later (expired_landing_exits now t) t

abbrev pub exceeds : Option LandingExit → Bool
exceeds none = false
exceeds (some r) = r.present && over_quota r

abbrev pub expires : ℕ → Option LandingExit → Bool
expires now none = false
expires now (some r) = is_expired now r

has-exits_exceeding_quota_fresh :
    (user : ℕ) (k : LandingExitKey) (t : LandingExits)
    → has (user, k) (keys t) ≡ false
    → has k (exits_exceeding_quota user t) ≡ false
unfolding exits_exceeding_quota has keys
has-exits_exceeding_quota_fresh user k [] h = refl
has-exits_exceeding_quota_fresh user k (((owner, j), r) ∷ t) h =
    ground (arith, has-exits_exceeding_quota_fresh user k t)

pub has-exits_exceeding_quota :
    (user : ℕ) (k : LandingExitKey) (t : LandingExits)
    → distinct (keys t) ≡ true
    → has k (exits_exceeding_quota user t) ≡ exceeds (lookup (user, k) t)
unfolding exits_exceeding_quota has lookup keys distinct
has-exits_exceeding_quota user k [] h = refl
has-exits_exceeding_quota user k (((owner, j), r) ∷ t) h = ground (
  arith,
  has-exits_exceeding_quota user k t,
  has-exits_exceeding_quota_fresh user k t,
  landing_exit_key_eq.test_iff j k,
  eqb_iff owner user,
)

has-expired_landing_exits_fresh :
    (now : ℕ) (k : UserExitKey) (t : LandingExits)
    → has k (keys t) ≡ false
    → has k (expired_landing_exits now t) ≡ false
unfolding expired_landing_exits has keys
has-expired_landing_exits_fresh now k [] h = refl
has-expired_landing_exits_fresh now k ((j, r) ∷ t) h =
    ground (arith, has-expired_landing_exits_fresh now k t)

pub has-expired_landing_exits :
    (now : ℕ) (k : UserExitKey) (t : LandingExits)
    → distinct (keys t) ≡ true
    → has k (expired_landing_exits now t) ≡ expires now (lookup k t)
unfolding expired_landing_exits has lookup keys distinct
has-expired_landing_exits now k [] h = refl
has-expired_landing_exits now k ((j, r) ∷ t) h = ground (
  arith,
  has-expired_landing_exits now k t,
  has-expired_landing_exits_fresh now k t,
  user_exit_key_eq.test_iff j k,
)

pub keys-hide_all :
    (now : ℕ) (expired : List UserExitKey) (t : LandingExits)
    → keys (hide_all now expired t) ≡ keys t
unfolding hide_all
keys-hide_all now [] t = refl
keys-hide_all now (k ∷ expired) t =
    keys-hide_all now expired (modify k (hidden now) t) ∙ keys-modify k (hidden now) t

abbrev pub hide_if : Bool → ℕ → Option LandingExit → Option LandingExit
hide_if hides now none = none
hide_if true now (some r) = some (hidden now r)
hide_if false now (some r) = some r

pub lookup-hide_all :
    (now : ℕ) (expired : List UserExitKey) (t : LandingExits) (k : UserExitKey)
    → lookup k (hide_all now expired t) ≡ hide_if (has k expired) now (lookup k t)
unfolding hide_all has
lookup-hide_all now [] t k = ground arith
lookup-hide_all now (j ∷ expired) t k =
    rw (lookup-hide_all now expired (modify j (hidden now) t) k, lookup-modify)
      (ground (arith, user_exit_key_eq.test_iff j k))
