-- ===== src/Socks/Server.antt =====
-- The proxy's side of the protocol, after RFC 1928 and RFC 1929: what it sends, and how it reads.

use nft.Base.{
  Bool, List, Option, [], eqb, false, if◌then◌else◌, length, none, some, suc, true, zero, ℕ, ◌&&◌,
  ◌*◌, ◌++◌, ◌+◌, ◌<◌, ◌∷◌, ◌≡◌,
}

pub data Address : Type 0 where
  ipv4 ipv6 domain : List ℕ → Address

-- An address has the length that its kind asks for.
abbrev pub IsAddress : Address → Type 0
IsAddress (ipv4 bs) = length bs ≡ 4
IsAddress (ipv6 bs) = length bs ≡ 16
IsAddress (domain bs) = length bs < 256

abbrev pub address_bytes : Address → List ℕ
address_bytes (ipv4 bs) = 1 ∷ bs
address_bytes (ipv6 bs) = 4 ∷ bs
address_bytes (domain bs) = 3 ∷ length bs ∷ bs

-- The method that the proxy chooses: none, or a user name with a password.
abbrev pub method_answer : Bool → List ℕ
method_answer false = 5 ∷ 0 ∷ []
method_answer true = 5 ∷ 2 ∷ 1 ∷ 0 ∷ []

-- The answer to a CONNECT that succeeded.
abbrev pub reply : Address → ℕ × ℕ → List ℕ
reply bound port = 5 ∷ 0 ∷ 0 ∷ address_bytes bound ++ port.0 ∷ port.1 ∷ []

-- Reading a request.
abbrev pub cons_taken : ℕ → Option (List ℕ × List ℕ) → Option (List ℕ × List ℕ)
cons_taken b none = none
cons_taken b (some (taken, rest)) = some (b ∷ taken, rest)

unfoldable pub take_exact : ℕ → List ℕ → Option (List ℕ × List ℕ)
take_exact zero bs = some ([], bs)
take_exact (suc n) [] = none
take_exact (suc n) (b ∷ bs) = cons_taken b (take_exact n bs)

-- The address, then the two bytes of the port, and no more.
abbrev pub with_port : (List ℕ → Address) → Option (List ℕ × List ℕ) → Option (Address × ℕ)
with_port kind (some (taken, h ∷ l ∷ [])) = some (kind taken, h * 256 + l)
with_port kind _ = none

abbrev pub sized : (List ℕ → Address) → ℕ → List ℕ → Option (Address × ℕ)
sized kind n bs = with_port kind (take_exact n bs)

unfoldable pub sized_domain : List ℕ → Option (Address × ℕ)
sized_domain [] = none
sized_domain (n ∷ bs) = sized domain n bs

unfoldable pub parse_address : List ℕ → Option (Address × ℕ)
parse_address [] = none
parse_address (atyp ∷ bs) =
    if eqb atyp 1
    then sized ipv4 4 bs
    else if eqb atyp 4
    then sized ipv6 16 bs
    else if eqb atyp 3
    then sized_domain bs
    else none

-- VER CMD RSV, then the address.
unfoldable pub parse_request : List ℕ → Option (Address × ℕ)
parse_request (ver ∷ cmd ∷ rsv ∷ bs) =
    if eqb ver 5 && (eqb cmd 1 && eqb rsv 0) then parse_address bs else none
parse_request _ = none
