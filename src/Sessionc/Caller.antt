-- ===== src/Sessionc/Caller.antt =====
-- cluster/common/sessionc/sessionc.go: what a Session records of the caller.
use Prim.Native.String.{len}
use octelium.Base.{
  ℕ, String, not, ◌&&◌, Option, none, some, List, [], ◌∷◌, Result, ltb, ◌==◌, if◌then◌else◌,
}
use octelium.Base.Text.{split, strip_prefix}
use octelium.Corev1.Session.{Downstream, AuthenticationInfo}
use octelium.Corev1.Resources.{ClusterConfig}
use octelium.Httputils.{Addr, get_downstream_public_ip_from_xff_header}

-- What one call finds around it: the clock, the texts that `utilrand` and `vutils.UUIDv4` give, the
-- UID that the resource server gives, its ClusterConfig, and net/netip.
pub record Around : Type 0 where
  pub now : ℕ
  pub random_suffix : String
  pub uuid : String
  pub uid : String
  pub get_cluster_config : Result ClusterConfig
  pub parse_addr : String → Option Addr

-- The public address of the header, where the Cluster trusts the header.
unfoldable pub forwarded_address : (String → Option Addr) → ClusterConfig → String → String
forwarded_address parse cc xff =
    if not (xff == "") && cc.use_forwarded_for_header
    then get_downstream_public_ip_from_xff_header parse xff
    else ""

abbrev pub recorded_agent : String → String
recorded_agent ua = if not (ua == "") && ltb (len ua) 220 then ua else ""

abbrev pub first_part : List String → String
first_part [] = ""
first_part (p ∷ ps) = p

abbrev pub second_of_two : List String → String
second_of_two (a ∷ b ∷ []) = b
second_of_two _ = ""

-- The version in a user agent that starts with `octelium-cli/`.
unfoldable pub client_version_of : String → String
client_version_of ua =
    let first = first_part (split b' ' ua) in
    elim (strip_prefix "octelium-cli/" first) [
      | none ↦ ""
      | some rest ↦ second_of_two (split b'/' first)
    ]

abbrev pub with_downstream : Downstream → AuthenticationInfo → AuthenticationInfo
with_downstream d i = record i { downstream = some d }

abbrev pub map_info : Downstream → Option AuthenticationInfo → Option AuthenticationInfo
map_info d none = none
map_info d (some i) = some (with_downstream d i)
