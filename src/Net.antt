-- ===== src/Net.antt =====
-- Go's package net, which the program only calls: what it uses of `net.ParseIP` and `net.IP`.
use nft.Base.{Bool, Option, String, false, nat_eq, none, not, pair_eq, some, string_eq, true, ◌==◌}

-- `Ip` is the type `net.IP`. `to4 ip` tells whether `ip.To4()` is not nil, `text` is `ip.String()`.
pub record Net {ℓ} (Ip : Type ℓ) : Type ℓ where
  pub parse_ip : String → Option Ip
  pub to4 : Ip → Bool
  pub is_loopback : Ip → Bool
  pub text : Ip → String
  pub equal : Ip → Ip → Bool

module _ {ℓ} {Ip : Type ℓ} (net : Net Ip) where
  unfoldable pub parses : String → Bool
  parses s = elim (net.parse_ip s) [ none ↦ false | some ip ↦ true ]

  -- `IsIPv6` of internal/nft/nft.go.
  unfoldable pub is_ipv6 : String → Bool
  is_ipv6 s = elim (net.parse_ip s) [ none ↦ false | some ip ↦ not (net.to4 ip) ]

  -- `IsLoopback` of internal/nft/nft.go.
  unfoldable pub is_loopback_addr : String → Bool
  is_loopback_addr s = elim (net.parse_ip s) [ none ↦ false | some ip ↦ net.is_loopback ip ]

  -- `ipsEqual` of internal/nft/nft.go.
  unfoldable pub ips_equal : String → String → Bool
  ips_equal a b = elim (net.parse_ip a) [
    | none ↦ a == b
    | some ia ↦ elim (net.parse_ip b) [ none ↦ a == b | some ib ↦ net.equal ia ib ]
  ]
