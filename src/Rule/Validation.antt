-- ===== src/Rule/Validation.antt =====
-- What `Validate` of internal/nft/nft.go accepts.
use nft.Base.{arith, eq_iff, false, none, refl, true, ℕ, ◌||◌, ◌↔◌, ◌≡◌, ◌≢◌, ◌≤◌, ◌⊎◌}
use nft.Base.Int.{ltb_ℤ, negsuc, pos, ℤ}
use nft.Net.{Net, parses}
use nft.Rule.{Rule, is_hostname, mode_kernel, mode_userspace, validate}
use nft.Rule.Hostname.{is_hostname}

-- A port in a range, read from a signed field.
pub record InRange (lo hi : ℕ) (z : ℤ) : Type 0 where
  pub port : ℕ
  pub is_port : z ≡ pos port
  pub lower : lo ≤ port
  pub upper : port ≤ hi

-- What an accepted rule looks like, field by field.
pub record IsValid {ℓ} {Ip : Type ℓ} (net : Net Ip) (r : Rule) : Type 0 where
  pub proto : (r.proto ≡ "tcp") ⊎ ((r.proto ≡ "udp") ⊎ (r.proto ≡ "tcp+udp"))
  pub src_port : InRange 0 65535 r.src_port
  pub dest_port : InRange 1 65535 r.dest_port
  pub target : (r.dest_host ≢ "") ⊎ (r.dest_ip ≢ "")
  pub ip : r.dest_ip ≢ "" → parses net r.dest_ip ≡ true
  pub host : r.dest_host ≢ "" → is_hostname net r.dest_host ≡ true
  pub mode : (r.mode ≡ "") ⊎ ((r.mode ≡ mode_kernel) ⊎ (r.mode ≡ mode_userspace))
  pub no_udp_relay : r.mode ≡ mode_userspace → r.proto ≢ "udp"

in_range :
    (lo hi : ℕ) (z : ℤ) → ltb_ℤ z (pos lo) ≡ false → ltb_ℤ (pos hi) z ≡ false → InRange lo hi z
in_range lo hi (pos n) a b = record {
  port = n;
  is_port = refl;
  lower = ground arith;
  upper = ground arith;
}
in_range lo hi (negsuc n) a b = cc

InRange-tests :
    (lo hi : ℕ) (z : ℤ) → InRange lo hi z → (ltb_ℤ z (pos lo) || ltb_ℤ (pos hi) z) ≡ false
InRange-tests lo hi (pos n) h = ground (arith, h.is_port)
InRange-tests lo hi (negsuc n) h = cc h.is_port

module _ {ℓ} {Ip : Type ℓ} (net : Net Ip) (r : Rule) where
  validate_sound : validate net r ≡ none → IsValid net r
  unfolding validate
  validate_sound h = record {
    proto = ground (arith, eq_iff r.proto "tcp", eq_iff r.proto "udp", eq_iff r.proto "tcp+udp");
    src_port = in_range 0 65535 r.src_port (ground arith) (ground arith);
    dest_port = in_range 1 65535 r.dest_port (ground arith) (ground arith);
    target = ground (arith, eq_iff r.dest_host "", eq_iff r.dest_ip "");
    ip = λ ne. ground (arith, eq_iff r.dest_ip "");
    host = λ ne. ground (arith, eq_iff r.dest_host "");
    mode =
        ground (arith, eq_iff r.mode "", eq_iff r.mode mode_kernel, eq_iff r.mode mode_userspace);
    no_udp_relay = λ e. ground (arith, eq_iff r.mode mode_userspace, eq_iff r.proto "udp");
  }

  validate_complete : IsValid net r → validate net r ≡ none
  unfolding validate
  validate_complete v = ground (
    arith,
    v.proto,
    v.target,
    v.mode,
    v.ip,
    v.host,
    InRange-tests 0 65535 r.src_port v.src_port,
    InRange-tests 1 65535 r.dest_port v.dest_port,
    eq_iff r.proto "tcp",
    eq_iff r.proto "udp",
    eq_iff r.proto "tcp+udp",
    eq_iff r.dest_host "",
    eq_iff r.dest_ip "",
    eq_iff r.mode "",
    eq_iff r.mode mode_kernel,
    eq_iff r.mode mode_userspace,
  )

  -- `Validate` accepts a rule exactly when every field meets its documented constraint: a known
  -- protocol, ports in range, a target that parses, a known mode, and no userspace relay for plain udp.
  pub validate_iff : (validate net r ≡ none) ↔ IsValid net r
  validate_iff = (validate_sound, validate_complete)
