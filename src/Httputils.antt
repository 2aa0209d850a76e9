-- ===== src/Httputils.antt =====
-- `GetDownstreamPublicIPFromXFFHeader` of cluster/common/httputils: the caller's public address in
-- an `X-Forwarded-For` header. `net/netip` is the parameter `parse_addr`.
pub mod Rightmost
pub mod Tests
use mathlib.Core.List.{reverse}
use Prim.Native.Char.{code}
use octelium.Base.{
  ℕ, String, Bool, true, false, ◌&&◌, ◌||◌, Option, none, some, List, [], ◌∷◌, map, nat_beq, leb,
  ◌==◌, if◌then◌else◌,
}
use octelium.Base.Text.{split}

-- An address: its text, and the answers of the tests of `netip.Addr`.
pub record Addr : Type 0 where
  pub text : String
  pub is_private : Bool
  pub is_loopback : Bool
  pub is_unspecified : Bool
  pub is_link_local_unicast : Bool
  pub is_link_local_multicast : Bool

-- `unicode.IsSpace`
abbrev pub is_space : ℕ → Bool
is_space c =
    (leb 0x09 c && leb c 0x0d)
    || nat_beq c 0x20
    || nat_beq c 0x85
    || nat_beq c 0xa0
    || nat_beq c 0x1680
    || (leb 0x2000 c && leb c 0x200a)
    || nat_beq c 0x2028
    || nat_beq c 0x2029
    || nat_beq c 0x202f
    || nat_beq c 0x205f
    || nat_beq c 0x3000

unfoldable pub trim_left : String → String
trim_left String.[] = String.[]
trim_left (String.◌∷◌ c s) = if is_space (code c) then trim_left s else String.◌∷◌ c s

unfoldable pub trim_right : String → String
trim_right String.[] = String.[]
trim_right (String.◌∷◌ c s) =
    let rest = trim_right s in
    if is_space (code c) && rest == "" then String.[] else String.◌∷◌ c rest

-- `strings.TrimSpace`
abbrev pub trim_space : String → String
trim_space s = trim_right (trim_left s)

module _ (parse_addr : String → Option Addr) where
  -- The loop over the addresses, the last first.
  unfoldable pub first_public : List String → String
  first_public [] = ""
  first_public (ip ∷ ips) =
      let rest = first_public ips in
      elim (parse_addr ip) [
        | none ↦ rest
        | some addr ↦
            if addr.is_private || addr.is_loopback || addr.is_unspecified
              || addr.is_link_local_unicast || addr.is_link_local_multicast
            then rest
            else addr.text
      ]

  unfoldable pub get_downstream_public_ip_from_xff_header : String → String
  unfolding first_public trim_left trim_right split
  get_downstream_public_ip_from_xff_header hdr =
      if hdr == "" then "" else first_public (reverse (map trim_space (split b',' hdr)))
