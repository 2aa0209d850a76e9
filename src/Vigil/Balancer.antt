-- ===== src/Vigil/Balancer.antt =====
-- cluster/vigil/vigil/loadbalancer/loadbalancer.go: `getUpstreamFromSvc`.
use octelium.Base.{
  ℕ, zero, suc, ◌+◌, ◌-◌, String, Bool, true, false, Option, none, some, List, [], ◌∷◌, ◌==◌,
  if◌then◌else◌, Result, ok, err, failed, leb, length,
}
use octelium.Corev1.Session.{DualStackNetwork, Session, Upstream}
use octelium.Corev1.Resources.{Endpoint, Service, ServiceConfig}
use octelium.Apiutils.{get_session_upstream, has_v4, has_v6}
use octelium.Apiutils.Endpoints.{
  Urls, get_all_upstream_endpoints_by_config, ep_real_port, is_essh_service,
}
use octelium.Vigil.Sessions.{SessionMap, get_by_user_name}

-- Whether net/url parses a URL, the address of a CIDR, govalidator's test of an address, and the number
-- that crypto/rand draws.
pub record Draw : Type 0 where
  pub parses : String → Bool
  pub ip_of : String → String
  pub is_ip : String → Bool
  pub number : ℕ

-- `Upstream` of this package. The key and the joined host and port are left out.
pub record LbUpstream : Type 0 where
  pub host : String
  pub port : ℕ
  pub is_user : Bool
  pub sni_host : String
  pub is_essh : Bool
  pub session_uid : Option String

abbrev pub get_random_range_math : ℕ → ℕ → ℕ → ℕ
get_random_range_math min max drawn = if leb max min then 0 else drawn + min

abbrev pub nth : ℕ → List Endpoint → Option Endpoint
nth n [] = none
nth zero (e ∷ es) = some e
nth (suc n) (e ∷ es) = nth n es

abbrev pub get_sni_host : Draw → String → String
get_sni_host d arg = if d.is_ip arg then "" else arg

-- `ToIP`, of one family
abbrev to_ip : Draw → String → String
to_ip d s = if s == "" then "" else d.ip_of s

abbrev pub host_of : Draw → Session → DualStackNetwork → String
host_of d sess a = if has_v6 sess then to_ip d a.v6 else if has_v4 sess then to_ip d a.v4 else ""

abbrev pub own_upstream : Urls → Draw → Endpoint → LbUpstream
own_upstream urls d e = record {
  host = (urls.parse e.url).host;
  port = ep_real_port urls e;
  is_user = false;
  sni_host = get_sni_host d (urls.parse e.url).host;
  is_essh = false;
  session_uid = none;
}

abbrev pub user_upstream :
    Urls → Draw → Service → Endpoint → Session → Upstream → DualStackNetwork → LbUpstream
user_upstream urls d svc e sess u a = record {
  host = host_of d sess a;
  port = u.port;
  is_user = true;
  sni_host = get_sni_host d (urls.parse e.url).host;
  is_essh = is_essh_service svc;
  session_uid = some sess.metadata.uid;
}

abbrev pub no_upstream : Result LbUpstream
no_upstream = err (failed "No upstreams found")

abbrev pub addresses_of : Session → List DualStackNetwork
addresses_of s = elim s.connection [ none ↦ [] | some c ↦ c.addresses ]

-- The upstream at a User's connection.
unfoldable pub upstream_at : Urls → Draw → Service → Endpoint → Session → Result LbUpstream
upstream_at urls d svc e sess = elim (get_session_upstream svc.metadata.uid sess) [
  | none ↦ no_upstream
  | some u ↦ elim (addresses_of sess) [
    | [] ↦ no_upstream
    | a ∷ as' ↦ ok (user_upstream urls d svc e sess u a)
  ]
]

unfoldable pub upstream_of : Urls → Draw → SessionMap → Service → Endpoint → Result LbUpstream
upstream_of urls d c svc e =
    if e.user == "" then ok (own_upstream urls d e) else elim (get_by_user_name e.user svc c) [
      | none ↦ no_upstream
      | some sess ↦ upstream_at urls d svc e sess
    ]

-- `getUpstreamFromSvc`. crypto/rand draws from the range that it is given, so that there is an endpoint
-- of the number.
unfoldable pub get_upstream_from_svc :
    Urls → Draw → SessionMap → Service → Option ServiceConfig → Result LbUpstream
get_upstream_from_svc urls d c svc cfg =
    let upstrs = get_all_upstream_endpoints_by_config urls svc cfg in
    elim (nth (get_random_range_math 0 (length upstrs - 1) d.number) upstrs) [
      | none ↦ no_upstream
      | some e ↦
          if d.parses e.url
          then upstream_of urls d c svc e
          else err (failed "The URL does not parse")
    ]
