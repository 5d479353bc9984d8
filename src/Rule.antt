-- ===== src/Rule.antt =====
-- internal/nft/nft.go and internal/resolver/resolver.go: a forwarding rule, its mode, its shaping mark
-- and its validation. Go's `int` fields are read from JSON, so they are signed here.
mod Hostname
pub mod Validation
pub mod Marks
unfoldable pub use Hostname.{is_hostname, plausible_hostname, codes}
use Prim.Native.Nat.{bit_or}
use nft.Base.{
  Bool, Option, String, if◌then◌else◌, nat_eq, none, not, pair_eq, some, string_eq, ℕ, ◌&&◌, ◌==◌,
  ◌||◌,
}
use nft.Base.Int.{int_eq, ltb_ℤ, pos, to_ℕ, ℤ}
use nft.Net.{Net, parses}

abbrev pub mode_kernel : String
mode_kernel = "kernel"

abbrev pub mode_userspace : String
mode_userspace = "userspace"

pub record Rule : Type 0 where
  pub id : String
  pub proto : String
  pub src_port : ℤ
  pub dest_ip : String
  pub dest_host : String
  pub dest_port : ℤ
  pub comment : String
  pub bandwidth_mbps : ℤ
  pub mode : String
  pub rule_id : ℤ
  pub rule_name : String
  pub owner_name : String
  pub hop_count : ℤ
  pub shape_group : ℤ
  pub rate_mbytes : ℤ
  pub exit_proxy : String

unfoldable pub effective_mode : Rule → String
effective_mode r = if r.mode == mode_userspace then mode_userspace else mode_kernel

-- 0 stands for "not group-shaped".
unfoldable pub group_shape_mark : Rule → ℕ
group_shape_mark r =
    if ltb_ℤ (pos 0) r.shape_group
      && (ltb_ℤ (pos 0) r.rate_mbytes && not (ltb_ℤ (pos 0xffff) r.shape_group))
    then bit_or 0x10000 (to_ℕ r.shape_group)
    else 0

-- One constructor for each of the error texts, in the order of the source.
pub data Invalid : Type 0 where
  bad_proto bad_src_port bad_dest_port no_target bad_ip bad_host bad_mode udp_userspace : Invalid

abbrev pub known_proto : String → Bool
known_proto p = p == "tcp" || (p == "udp" || p == "tcp+udp")

abbrev pub known_mode : String → Bool
known_mode m = m == "" || (m == mode_kernel || m == mode_userspace)

-- `none` is a nil error.
unfoldable pub validate {ℓ} : {Ip : Type ℓ} → Net Ip → Rule → Option Invalid
validate net r =
    if not (known_proto r.proto)
    then some bad_proto
    else if ltb_ℤ r.src_port (pos 0) || ltb_ℤ (pos 65535) r.src_port
    then some bad_src_port
    else if ltb_ℤ r.dest_port (pos 1) || ltb_ℤ (pos 65535) r.dest_port
    then some bad_dest_port
    else if r.dest_host == "" && r.dest_ip == ""
    then some no_target
    else if not (r.dest_ip == "") && not (parses net r.dest_ip)
    then some bad_ip
    else if not (r.dest_host == "") && not (is_hostname net r.dest_host)
    then some bad_host
    else if not (known_mode r.mode)
    then some bad_mode
    else if r.mode == mode_userspace && r.proto == "udp"
    then some udp_userspace
    else none
