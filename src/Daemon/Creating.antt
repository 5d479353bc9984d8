-- ===== src/Daemon/Creating.antt =====
-- The port that a local creation is given.
use nft.Base.{
  All, List, String, [], ap, arith, eqb_iff, false, has, has-append, inl, inr, nat_eq, pair_eq,
  string_eq, true, ℕ, ◌<◌, ◌∷◌, ◌≡◌, ◌≢◌, ◌≤◌, ◌⊎◌,
}
use nft.Base.Int.{int_eq, pos, to_ℕ}
use nft.Rule.{Rule}
use nft.Owners.{OwnerRuleset}
use nft.Ports.{port_in_range}
use nft.Ports.Picking.{pick_free_port-IsFreePick}
use nft.Daemon.Local.{conflicts, held_ports, occupied_ports, pick_local_free_port}

-- No rule whose protocol is in conflict listens on the port.
abbrev pub IsUnheld : String → ℕ → Rule → Type 0
IsUnheld proto p r = conflicts proto r ≡ true → r.src_port ≢ pos p

held_ports-IsUnheld :
    (proto : String) (p : ℕ) (rs : List Rule)
    → has p (held_ports proto rs) ≡ false
    → All (IsUnheld proto p) rs
unfolding held_ports has
held_ports-IsUnheld proto p [] free = tt
held_ports-IsUnheld proto p (r ∷ rs) free = (
  λ hit same.
      let number : to_ℕ r.src_port ≡ p = ap to_ℕ same in
      ground (arith, free, hit, number, eqb_iff (to_ℕ r.src_port) p),
  held_ports-IsUnheld proto p rs (ground (arith, free)),
)

occupied_ports-IsUnheld :
    (proto : String) (p : ℕ) (owners : OwnerRuleset)
    → has p (occupied_ports proto owners) ≡ false
    → All (λ seg. All (IsUnheld proto p) seg.1) owners
unfolding occupied_ports has
occupied_ports-IsUnheld proto p [] free = tt
occupied_ports-IsUnheld proto p ((name, rules) ∷ owners) free =
    let split = has-append p (held_ports proto rules) (occupied_ports proto owners) in
    (
      held_ports-IsUnheld proto p rules (ground (arith, split, free)),
      occupied_ports-IsUnheld proto p owners (ground (arith, split, free)),
    )

-- A port that the node picks for a local rule lies within 10001 and 20000, and no rule of any owner
-- listens on it under a protocol in conflict; when there is none it picks 0.
pub pick_local_free_port-IsUnheld :
    (offset : ℕ) (proto : String) (owners : OwnerRuleset)
    → offset < 10000
    → (pick_local_free_port offset proto owners ≡ 0)
      ⊎ ((10001 ≤ pick_local_free_port offset proto owners)
          × (pick_local_free_port offset proto owners ≤ 20000)
          × All
              (λ seg. All (IsUnheld proto (pick_local_free_port offset proto owners)) seg.1)
              owners)
unfolding pick_local_free_port port_in_range
pick_local_free_port-IsUnheld offset proto owners small =
    elim (pick_free_port-IsFreePick offset 10001 20000 (occupied_ports proto owners)
      (omega arith, omega arith) small) [
        | inl (some_port, inside, free) ↦
            inr (ground arith, ground arith, occupied_ports-IsUnheld proto _ owners free)
        | inr (nothing, full) ↦ inl nothing
      ]
