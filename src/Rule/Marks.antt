-- ===== src/Rule/Marks.antt =====
-- The fwmarks of internal/nft/nft.go: a group's mark never meets a port's, nor another group's.
use Prim.Native.Nat.{bit_or}
use nft.Base.{
  Bool, arith, eqb, eqb_iff, inl, refl, suc, true, zero, ℕ, ◌&&◌, ◌+◌, ◌<◌, ◌≡◌, ◌≢◌, ◌≤◌, ◌⊎◌,
}
use nft.Base.Int.{negsuc, pos, ℤ}
use nft.Rule.{Rule, group_shape_mark}

-- A test of the first `n` group ids, one by one.
try_ids : (ℕ → Bool) → ℕ → Bool
try_ids test zero = true
try_ids test (suc g) = try_ids test g && test g

tried : (test : ℕ → Bool) (n g : ℕ) → g < n → try_ids test n ≡ true → test g ≡ true
unfolding try_ids
tried test zero g small h = elim small [ ]
tried test (suc n) g small h = ground (arith, tried test n g)

adds_offset : ℕ → Bool
adds_offset g = eqb (bit_or 0x10000 g) (0x10000 + g)

ids_table : try_ids adds_offset 0x10000 ≡ true
unfolding try_ids adds_offset
ids_table = refl

-- Over 16 bits the group bit is an addition.
mark_offset : (g : ℕ) → g ≤ 0xffff → bit_or 0x10000 g ≡ 0x10000 + g
unfolding adds_offset
mark_offset g h = (eqb_iff _ _).0 (tried adds_offset 0x10000 g (omega arith) ids_table)

pub group_shape_mark_cases :
    (r : Rule)
    → (group_shape_mark r ≡ 0)
      ⊎ ((g : ℕ) × (r.shape_group ≡ pos g)
          × (0 < g)
          × (g ≤ 0xffff)
          × (group_shape_mark r ≡ 0x10000 + g))
unfolding group_shape_mark
group_shape_mark_cases r = go r.shape_group refl
  where
    go :
        (z : ℤ)
        → r.shape_group ≡ z
        → (group_shape_mark r ≡ 0)
          ⊎ ((g : ℕ) × (r.shape_group ≡ pos g)
              × (0 < g)
              × (g ≤ 0xffff)
              × (group_shape_mark r ≡ 0x10000 + g))
    go (negsuc n) e = inl (ground arith)
    go (pos n) e = ground (arith, mark_offset n)

-- A group's mark lies above every 16-bit port mark, and two rules with the same non-zero group mark
-- belong to the same group.
pub group_shape_mark_disjoint :
    (r s : Rule)
    → group_shape_mark r ≢ 0
    → (0xffff < group_shape_mark r)
      × (group_shape_mark r ≡ group_shape_mark s → r.shape_group ≡ s.shape_group)
group_shape_mark_disjoint r s h = (
  ground (arith, group_shape_mark_cases r),
  λ e. ground (arith, group_shape_mark_cases r, group_shape_mark_cases s),
)
