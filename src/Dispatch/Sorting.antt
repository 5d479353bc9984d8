-- ===== src/Dispatch/Sorting.antt =====
-- Sorting the rows keeps what holds of them.

use nft.Base.{
  All, Bool-cases, List, [], false, has, if◌then◌else◌, inl, inr, leb, nat_eq, pair_eq, string_eq,
  sym, true, ◌∷◌,
}
use nft.Base.Int.{int_eq}
use nft.Chain.{HopRow}
use nft.Chain.Clashes.{Apart, NoClash}
use nft.Dispatch.Pushing.{insert_by_port, sort_by_port}
use nft.Partition.{namespaces}

-- The order of the rows does not matter.
Apart-sym : (g h : HopRow) → Apart g h → Apart h g
Apart-sym g h a = λ node port ns taken. elim (Bool-cases (has ns (namespaces g.proto))) [
  | inl also ↦ absurd (cc (a (sym node) (sym port) ns also, taken))
  | inr free ↦ free
]

All-insert_by_port :
    (P : HopRow → Type 0) (h : HopRow) (gs : List HopRow)
    → P h
    → All P gs
    → All P (insert_by_port h gs)
unfolding insert_by_port
All-insert_by_port P h [] p ps = (p, tt)
All-insert_by_port P h (g ∷ gs) p ps =
    elim (leb h.listen_port g.listen_port)
      as (λ b. All P (if b then h ∷ g ∷ gs else g ∷ insert_by_port h gs)) [
        | true ↦ (p, ps)
        | false ↦ (ps.0, All-insert_by_port P h gs p ps.1)
      ]

pub All-sort_by_port : (P : HopRow → Type 0) (gs : List HopRow) → All P gs → All P (sort_by_port gs)
unfolding sort_by_port
All-sort_by_port P [] ps = tt
All-sort_by_port P (g ∷ gs) ps =
    All-insert_by_port P g (sort_by_port gs) ps.0 (All-sort_by_port P gs ps.1)

NoClash-insert_by_port :
    (h : HopRow) (gs : List HopRow) → All (Apart h) gs → NoClash gs → NoClash (insert_by_port h gs)
unfolding insert_by_port
NoClash-insert_by_port h [] a c = (tt, tt)
NoClash-insert_by_port h (g ∷ gs) a c =
    elim (leb h.listen_port g.listen_port)
      as (λ b. NoClash (if b then h ∷ g ∷ gs else g ∷ insert_by_port h gs)) [
        | true ↦ (a, c)
        | false ↦ (
          All-insert_by_port (Apart g) h gs (Apart-sym h g a.0) c.0,
          NoClash-insert_by_port h gs a.1 c.1,
        )
      ]

pub NoClash-sort_by_port : (gs : List HopRow) → NoClash gs → NoClash (sort_by_port gs)
unfolding sort_by_port
NoClash-sort_by_port [] c = tt
NoClash-sort_by_port (g ∷ gs) c =
    NoClash-insert_by_port g (sort_by_port gs) (All-sort_by_port (Apart g) gs c.0)
      (NoClash-sort_by_port gs c.1)
