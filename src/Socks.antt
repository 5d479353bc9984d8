-- ===== src/Socks.antt =====
-- internal/forward/socks_dial.go: dialViaSOCKS5 after the connection to the proxy stands. What the proxy
-- sends is a list of bytes, and every write is taken; a byte is a number below 256. The URI of the proxy
-- is parsed by Go's net/url, and gives the user and the password.
pub mod Server
pub mod Exchange
use nft.Base.{
  Bool, List, Option, Result, String, [], eqb, err, false, if◌then◌else◌, length, ltb, none, not,
  ok, some, suc, true, zero, ℕ, ◌%◌, ◌++◌, ◌+◌, ◌/◌, ◌>>=◌, ◌||◌, ◌∷◌,
}
use nft.Base.Int.{negsuc, pos, ℤ}

-- The address that net.ParseIP finds, as To4 or To16 gives it.
pub data Ip : Type 0 where
  v4 v6 : List ℕ → Ip

-- What the program calls of Go's packages net and strconv, and the bytes of a text.
pub record NetCalls : Type 0 where
  pub split_host_port : String → Option (String × String)
  pub atoi : String → Option ℤ
  pub parse_ip : String → Option Ip
  pub bytes : String → List ℕ

pub data SocksError : Type 0 where
  short_read bad_version requires_auth credentials_too_long authentication_failed : SocksError
  no_acceptable_method bad_target bad_port hostname_too_long bad_reply_version : SocksError
  unsupported_method connect_failed unknown_atyp : ℕ → SocksError

-- io.ReadFull of two and of four bytes.
unfoldable pub read_two : List ℕ → Result SocksError ((ℕ × ℕ) × List ℕ)
read_two (a ∷ b ∷ rest) = ok ((a, b), rest)
read_two _ = err short_read

unfoldable pub read_four : List ℕ → Result SocksError ((ℕ × (ℕ × (ℕ × ℕ))) × List ℕ)
read_four (a ∷ b ∷ c ∷ d ∷ rest) = ok ((a, (b, (c, d))), rest)
read_four _ = err short_read

unfoldable pub skip : ℕ → List ℕ → Result SocksError (List ℕ)
skip zero rest = ok rest
skip (suc n) [] = err short_read
skip (suc n) (b ∷ rest) = skip n rest

abbrev pub is_empty : List ℕ → Bool
is_empty [] = true
is_empty (b ∷ rest) = false

abbrev pub greeting : List ℕ → List ℕ
greeting user = if is_empty user then 5 ∷ 1 ∷ 0 ∷ [] else 5 ∷ 2 ∷ 0 ∷ 2 ∷ []

abbrev pub auth_request : List ℕ → List ℕ → List ℕ
auth_request user pass = 1 ∷ (length user % 256) ∷ user ++ (length pass % 256) ∷ pass

-- The writes of a step, and what is left to read.
abbrev pub Exchanged : Type 0
Exchanged = Result SocksError (List (List ℕ) × List ℕ)

unfoldable pub authenticate : List ℕ → List ℕ → List ℕ → Exchanged
authenticate user pass stream =
    if is_empty user
    then err requires_auth
    else if ltb 255 (length user) || ltb 255 (length pass)
    then err credentials_too_long
    else (do
      answer ← read_two stream
      if eqb answer.0.1 0
          then ok (auth_request user pass ∷ [], answer.1)
          else err authentication_failed)

unfoldable pub select_method : List ℕ → List ℕ → ℕ × ℕ → List ℕ → Exchanged
select_method user pass greets stream =
    if not (eqb greets.0 5)
    then err bad_version
    else if eqb greets.1 0
    then ok ([], stream)
    else if eqb greets.1 2
    then authenticate user pass stream
    else if eqb greets.1 255
    then err no_acceptable_method
    else err (unsupported_method greets.1)

unfoldable pub host_bytes : Option Ip → List ℕ → Result SocksError (List ℕ)
host_bytes (some (v4 ip)) name = ok (1 ∷ ip)
host_bytes (some (v6 ip)) name = ok (4 ∷ ip)
host_bytes none name =
    if ltb 255 (length name) then err hostname_too_long else ok (3 ∷ (length name % 256) ∷ name)

-- A port within 1 and 65535.
unfoldable pub port_of : Option ℤ → Result SocksError ℕ
port_of none = err bad_port
port_of (some (negsuc n)) = err bad_port
port_of (some (pos n)) = if ltb n 1 || ltb 65535 n then err bad_port else ok n

abbrev pub port_bytes : ℕ → List ℕ
port_bytes port = (port / 256) ∷ (port % 256) ∷ []

unfoldable pub request_for : NetCalls → Option (String × String) → Result SocksError (List ℕ)
request_for go none = err bad_target
request_for go (some (host, port_text)) = do
  port ← port_of (go.atoi port_text)
  address ← host_bytes (go.parse_ip host) (go.bytes host)
  ok (5 ∷ 1 ∷ 0 ∷ address ++ port_bytes port)

abbrev pub connect_request : NetCalls → String → Result SocksError (List ℕ)
connect_request go target = request_for go (go.split_host_port target)

unfoldable pub skip_domain : List ℕ → Result SocksError (List ℕ)
skip_domain [] = err short_read
skip_domain (n ∷ rest) = skip (n + 2) rest

-- The address to which the proxy is bound.
unfoldable pub skip_address : ℕ → List ℕ → Result SocksError (List ℕ)
skip_address atyp stream =
    if eqb atyp 1
    then skip 6 stream
    else if eqb atyp 4
    then skip 18 stream
    else if eqb atyp 3
    then skip_domain stream
    else err (unknown_atyp atyp)

unfoldable pub read_reply : List ℕ → Result SocksError (List ℕ)
read_reply stream = do
  hdr ← read_four stream
  if not (eqb hdr.0.0 5)
      then err bad_reply_version
      else if not (eqb hdr.0.1.0 0)
      then err (connect_failed hdr.0.1.0)
      else skip_address hdr.0.1.1.1 hdr.1

-- The whole exchange: what is written, and what the relay finds to read.
unfoldable pub dial_via_socks5 : NetCalls → List ℕ → List ℕ → String → List ℕ → Exchanged
dial_via_socks5 go user pass target stream = do
  greets ← read_two stream
  auth ← select_method user pass greets.0 greets.1
  req ← connect_request go target
  rest ← read_reply auth.1
  ok (greeting user ∷ auth.0 ++ req ∷ [], rest)
