-- ===== src/Socks/Exchange.antt =====
-- The exchange with a proxy that follows the protocol.
use nft.Base.Int.{negsuc, pos, ℤ}
use nft.Base.{
  Bool, Bool-cases, List, Option, String, [], ap, arith, false, inl, inr, length, length-append,
  ltb, none, ok, ok_of_bind, refl, some, subst, suc, sym, true, zero, ℕ, ◌%◌, ◌*◌, ◌++◌, ◌+◌, ◌/◌,
  ◌<◌, ◌||◌, ◌∙◌, ◌∷◌, ◌≡◌,
}
use nft.Socks.{
  Ip, NetCalls, auth_request, authenticate, connect_request, dial_via_socks5, greeting, host_bytes,
  is_empty, port_bytes, port_of, read_four, read_reply, read_two, request_for, select_method, skip,
  skip_address, skip_domain, v4, v6,
}
use nft.Socks.Server.{
  Address, IsAddress, domain, ipv4, ipv6, method_answer, parse_address, parse_request, reply, sized,
  sized_domain, take_exact,
}

skip-append : (n : ℕ) (bs rest : List ℕ) → length bs ≡ n → skip n (bs ++ rest) ≡ ok rest
unfolding skip
skip-append zero [] rest e = refl
skip-append zero (b ∷ bs) rest e = absurd (omega (arith, e))
skip-append (suc n) [] rest e = absurd (omega (arith, e))
skip-append (suc n) (b ∷ bs) rest e = skip-append n bs rest (omega (arith, e))

take_exact-append :
    (n : ℕ) (bs rest : List ℕ) → length bs ≡ n → take_exact n (bs ++ rest) ≡ some (bs, rest)
unfolding take_exact
take_exact-append zero [] rest e = refl
take_exact-append zero (b ∷ bs) rest e = absurd (omega (arith, e))
take_exact-append (suc n) [] rest e = absurd (omega (arith, e))
take_exact-append (suc n) (b ∷ bs) rest e = rw (take_exact-append n bs rest (omega (arith, e))) refl

skip_to_payload :
    (n : ℕ) (bs payload : List ℕ) (port : ℕ × ℕ)
    → n ≡ length bs + 2
    → skip n ((bs ++ port.0 ∷ port.1 ∷ []) ++ payload) ≡ ok payload
skip_to_payload n bs payload port e =
    skip-append n (bs ++ port.0 ∷ port.1 ∷ []) payload
      (length-append bs (port.0 ∷ port.1 ∷ []) ∙ sym e)

-- The answer that a proxy gives is read to its last byte, and no further.
read_reply-reply :
    (bound : Address) (port : ℕ × ℕ) (payload : List ℕ)
    → IsAddress bound
    → read_reply (reply bound port ++ payload) ≡ ok payload
unfolding read_reply read_four skip_address skip_domain
read_reply-reply (ipv4 bs) port payload sized =
    skip_to_payload 6 bs payload port (omega (arith, sized))
read_reply-reply (ipv6 bs) port payload sized =
    skip_to_payload 18 bs payload port (omega (arith, sized))
read_reply-reply (domain bs) port payload sized =
    skip_to_payload (length bs + 2) bs payload port refl

-- The proxy may ask for a login when the dialer has one that fits.
abbrev pub MayAsk : Bool → List ℕ → List ℕ → Type 0
MayAsk false user pass = Unit
MayAsk true user pass = (is_empty user ≡ false) × (length user < 256) × (length pass < 256)

abbrev pub auth_writes : Bool → List ℕ → List ℕ → List (List ℕ)
auth_writes false user pass = []
auth_writes true user pass = auth_request user pass ∷ []

authenticate_done :
    (user pass stream : List ℕ)
    → MayAsk true user pass
    → authenticate user pass (1 ∷ 0 ∷ stream) ≡ ok (auth_request user pass ∷ [], stream)
unfolding authenticate read_two
authenticate_done user pass stream (named, short_user, short_pass) =
    let u : ltb 255 (length user) ≡ false = ground (arith, short_user) in
    let p : ltb 255 (length pass) ≡ false = ground (arith, short_pass) in rw (named, u, p) refl

-- Whatever method the proxy chooses and whatever address it reports, a CONNECT that succeeds writes the
-- greeting, the login when it was asked for and the request, and leaves every byte that follows the
-- proxy's answer for the relay; when the answer follows the protocol, and the login fits its bytes.
pub dial_via_socks5_leaves :
    (go : NetCalls) (user pass : List ℕ) (target : String) (req : List ℕ) (asks : Bool)
    (bound : Address) (port : ℕ × ℕ) (payload : List ℕ)
    → connect_request go target ≡ ok req
    → MayAsk asks user pass
    → IsAddress bound
    → dial_via_socks5 go user pass target (method_answer asks ++ reply bound port ++ payload)
      ≡ ok (greeting user ∷ auth_writes asks user pass ++ req ∷ [], payload)
unfolding dial_via_socks5 read_two select_method authenticate
dial_via_socks5_leaves go user pass target req false bound port payload valid may sized =
    rw (valid, read_reply-reply bound port payload sized) refl
dial_via_socks5_leaves go user pass target req true bound port payload valid may sized =
    rw
      (
        authenticate_done user pass (reply bound port ++ payload) may,
        valid,
        read_reply-reply bound port payload sized,
      )
      refl

-- What net.IP gives: four bytes, or sixteen.
abbrev pub IsSized : Option Ip → Type 0
IsSized none = Unit
IsSized (some (v4 bs)) = length bs ≡ 4
IsSized (some (v6 bs)) = length bs ≡ 16

abbrev pub address_of : Option Ip → List ℕ → Address
address_of (some (v4 bs)) name = ipv4 bs
address_of (some (v6 bs)) name = ipv6 bs
address_of none name = domain name

sized_back :
    (kind : List ℕ → Address) (n : ℕ) (bs : List ℕ) (port : ℕ)
    → length bs ≡ n
    → sized kind n (bs ++ port_bytes port) ≡ some (kind bs, port)
sized_back kind n bs port e =
    let back : port / 256 * 256 + port % 256 ≡ port = omega arith in
    rw (take_exact-append n bs (port_bytes port) e) (ap (λ p. some (kind bs, p)) back)

parse-host_bytes :
    (ip : Option Ip) (name address : List ℕ) (port : ℕ)
    → IsSized ip
    → host_bytes ip name ≡ ok address
    → parse_request (5 ∷ 1 ∷ 0 ∷ address ++ port_bytes port) ≡ some (address_of ip name, port)
unfolding host_bytes parse_request parse_address sized_domain
parse-host_bytes (some (v4 bs)) name address port fits e =
    let same : 1 ∷ bs ≡ address = cc e in
    subst (λ a. parse_address (a ++ port_bytes port) ≡ some (ipv4 bs, port)) same
      (sized_back ipv4 4 bs port fits)
parse-host_bytes (some (v6 bs)) name address port fits e =
    let same : 4 ∷ bs ≡ address = cc e in
    subst (λ a. parse_address (a ++ port_bytes port) ≡ some (ipv6 bs, port)) same
      (sized_back ipv6 16 bs port fits)
parse-host_bytes none name address port fits e = elim (Bool-cases (ltb 255 (length name))) [
  | inl long ↦ cc (long, e)
  | inr short ↦
      let same : 3 ∷ (length name % 256) ∷ name ≡ address = cc (short, e) in
      subst (λ a. parse_address (a ++ port_bytes port) ≡ some (domain name, port)) same
        (sized_back domain (length name % 256) name port (ground (arith, short)))
]

port_of_ok : (o : Option ℤ) (port : ℕ) → port_of o ≡ ok port → o ≡ some (pos port)
unfolding port_of
port_of_ok none port e = cc e
port_of_ok (some (negsuc n)) port e = cc e
port_of_ok (some (pos n)) port e = elim (Bool-cases (ltb n 1 || ltb 65535 n)) [
  | inl out ↦ cc (out, e)
  | inr within ↦ cc (within, e)
]

-- Of the target, what the request must say.
abbrev pub Says : NetCalls → Option (String × String) → Option (Address × ℕ) → Type 0
Says go none said = ⊥
Says go (some (host, port_text)) said =
    (port : ℕ) × (go.atoi port_text ≡ some (pos port))
    × (said ≡ some (address_of (go.parse_ip host) (go.bytes host), port))

request_for-Says :
    (go : NetCalls) (split : Option (String × String)) (req : List ℕ)
    → ((host : String) → IsSized (go.parse_ip host))
    → request_for go split ≡ ok req
    → Says go split (parse_request req)
unfolding request_for
request_for-Says go none req fits e = cc e
request_for-Says go (some (host, port_text)) req fits e =
    let (port, number, then_host) = ok_of_bind _ (port_of (go.atoi port_text)) e in
    let (address, made, last) =
      ok_of_bind _ (host_bytes (go.parse_ip host) (go.bytes host)) then_host in
    let same : 5 ∷ 1 ∷ 0 ∷ address ++ port_bytes port ≡ req = cc last in
    (
      port,
      port_of_ok (go.atoi port_text) port number,
      subst (λ r. parse_request r ≡ some (address_of (go.parse_ip host) (go.bytes host), port)) same
          (parse-host_bytes (go.parse_ip host) (go.bytes host) address port (fits host) made),
    )

-- A proxy that reads the request after the protocol finds the target's host and port in it, whatever
-- kind of address the host is; when an address of net.IP has four or sixteen bytes.
pub connect_request_roundtrip :
    (go : NetCalls) (target : String) (req : List ℕ)
    → ((host : String) → IsSized (go.parse_ip host))
    → connect_request go target ≡ ok req
    → Says go (go.split_host_port target) (parse_request req)
connect_request_roundtrip go target req fits e =
    request_for-Says go (go.split_host_port target) req fits e
