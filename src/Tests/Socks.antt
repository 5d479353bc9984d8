-- ===== src/Tests/Socks.antt =====
-- A CONNECT to an IPv4 target through a proxy that asks for a login.
use nft.Base.{
  List, Option, String, [], arith, false, if◌then◌else◌, nat_eq, none, ok, pair_eq, refl, some,
  string_eq, true, ℕ, ◌++◌, ◌==◌, ◌∷◌, ◌≡◌,
}
use nft.Base.Int.{int_eq, pos}
use nft.Socks.{
  Ip, NetCalls, connect_request, dial_via_socks5, greeting, host_bytes, port_of, request_for, v4,
}
use nft.Socks.Server.{domain, method_answer, parse_request, reply}
use nft.Socks.Exchange.{
  IsSized, Says, auth_writes, connect_request_roundtrip, dial_via_socks5_leaves,
}

abbrev some_ip : String → Option Ip
some_ip host = if host == "10.0.0.2" then some (v4 (10 ∷ 0 ∷ 0 ∷ 2 ∷ [])) else none

abbrev go : NetCalls
go = record {
  split_host_port = λ target. some (target, "443");
  atoi = λ text. some (pos 443);
  parse_ip = some_ip;
  bytes = λ text. 97 ∷ 98 ∷ [];
}

some_ip-IsSized : (host : String) → IsSized (some_ip host)
some_ip-IsSized host =
    elim (host == "10.0.0.2")
      as (λ b. IsSized (if b then some (v4 (10 ∷ 0 ∷ 0 ∷ 2 ∷ [])) else none)) [
        | true ↦ refl
        | false ↦ tt
      ]

abbrev request : List ℕ
request = 5 ∷ 1 ∷ 0 ∷ 1 ∷ 10 ∷ 0 ∷ 0 ∷ 2 ∷ 1 ∷ 187 ∷ []

request_made : connect_request go "10.0.0.2" ≡ ok request
unfolding request_for port_of host_bytes
request_made = refl

connect_request_roundtrip_example : Says go (some ("10.0.0.2", "443")) (parse_request request)
connect_request_roundtrip_example =
    connect_request_roundtrip go "10.0.0.2" request some_ip-IsSized request_made

abbrev user : List ℕ
user = 97 ∷ 110 ∷ 110 ∷ []

abbrev banner : List ℕ
banner = 83 ∷ 83 ∷ 72 ∷ []

dial_via_socks5_leaves_example :
    dial_via_socks5 go user user "10.0.0.2"
      (method_answer true ++ reply (domain user) (4, 210) ++ banner)
    ≡ ok (greeting user ∷ auth_writes true user user ++ request ∷ [], banner)
dial_via_socks5_leaves_example =
    dial_via_socks5_leaves go user user "10.0.0.2" request true (domain user) (4, 210) banner
      request_made (refl, omega arith, omega arith) (omega arith)
