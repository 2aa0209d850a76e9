-- ===== src/Apiutils/Endpoints.antt =====
-- What pkg/apiutils/ucorev1/ucorev1.go says of the upstreams of a Service.
use Prim.Native.Char.{code}
use Prim.Native.String.{◌++◌ as append}
use octelium.Base.{
  ℕ, String, Bool, true, false, ◌&&◌, ◌||◌, Option, none, some, List, [], ◌∷◌, ◌++◌, nat_beq, ◌==◌,
  if◌then◌else◌,
}
use octelium.Corev1.Resources.{
  ServiceMode, Endpoint, UpstreamType, ServiceUpstream, ServiceConfig, Service,
}

-- A URL as net/url reads it; `port` is empty where the URL has none.
pub record Url : Type 0 where
  pub scheme : String
  pub host : String
  pub port : String

-- net/url, `fmt.Sprint` of a number and `strconv.Atoi`. The URLs of Services parse: the API server
-- checks them.
pub record Urls : Type 0 where
  pub parse : String → Url
  pub reprint : String → String
  pub decimal : ℕ → String
  pub atoi : String → Option ℕ

-- The scheme of the URLs that are made up for a mode.
abbrev pub scheme_of : ServiceMode → String
scheme_of ServiceMode.http = "http"
scheme_of ServiceMode.grpc = "http"
scheme_of ServiceMode.web = "http"
scheme_of ServiceMode.kubernetes = "http"
scheme_of ServiceMode.ssh = "ssh"
scheme_of ServiceMode.udp = "udp"
scheme_of ServiceMode.dns = "udp"
scheme_of _ = "tcp"

abbrev pub get_real_name : ServiceConfig → String
get_real_name c = if c.name == "" then "default" else c.name

-- The value of a label.
unfoldable pub find_label : List (String × String) → String → Option String
find_label [] key = none
find_label ((k, v) ∷ ls) key = let rest = find_label ls key in if k == key then some v else rest

-- The value of a label, empty where there is none.
abbrev pub spec_label : List (String × String) → String → String
spec_label ls key = elim (find_label ls key) [ none ↦ "" | some v ↦ v ]

-- `strings.ReplaceAll(s, ".", "-")`
unfoldable pub dots_to_hyphens : String → String
dots_to_hyphens String.[] = String.[]
dots_to_hyphens (String.◌∷◌ c s) =
    let rest = dots_to_hyphens s in
    if nat_beq (code c) b'.' then String.◌∷◌ "-" rest else String.◌∷◌ c rest

abbrev pub get_svc_k8s_upstream_hostname : Service → String → String
get_svc_k8s_upstream_hostname s name =
    append "upstream-svc-" (
      append (dots_to_hyphens s.metadata.name)
        (append "-" (if name == "" then "default" else name)))

abbrev pub made_url : Urls → String → String → ℕ → String
made_url urls scheme host port =
    append scheme (append "://" (append host (append ":" (urls.decimal port))))

abbrev pub without_user : String → Endpoint
without_user url = record { url = url; user = "" }

-- The endpoints of the upstream of a config; `labelled` are those that stand for none of its types.
abbrev pub upstream_endpoints :
    Urls → Service → ServiceConfig → List Endpoint → ServiceUpstream → List Endpoint
upstream_endpoints urls s c labelled u = elim u.type [
  | UpstreamType.unset ↦ labelled
  | UpstreamType.url url ↦ record { url = url; user = u.user } ∷ []
  | UpstreamType.loadbalance eps ↦ eps
  | UpstreamType.container port ↦
      let made = made_url urls (scheme_of s.mode) (get_svc_k8s_upstream_hostname s c.name) port in
      labelled ++ (without_user (urls.reprint made) ∷ [])
]

-- The endpoint of the label that a kubeconfig leaves, where there is one.
abbrev pub labelled_endpoints : Service → ServiceConfig → List Endpoint
labelled_endpoints s c =
    let url = spec_label s.spec_labels (append "k8s-kubeconfig-url-" (get_real_name c)) in
    if url == "" then [] else without_user url ∷ []

unfoldable pub get_all_upstream_endpoints_by_config :
    Urls → Service → Option ServiceConfig → List Endpoint
get_all_upstream_endpoints_by_config urls s cfg = elim s.managed_service [
  | some managed ↦
      without_user (
        made_url urls (scheme_of s.mode) "localhost"
          (if nat_beq s.managed_service_port 0 then 49999 else s.managed_service_port))
      ∷ []
  | none ↦ elim cfg [
    | none ↦ []
    | some c ↦ if c.essh_mode then without_user "ssh://localhost:22022" ∷ [] else elim c.upstream [
      | none ↦ []
      | some u ↦ upstream_endpoints urls s c (labelled_endpoints s c) u
    ]
  ]
]

abbrev pub get_all_upstream_endpoints : Urls → Service → List Endpoint
get_all_upstream_endpoints urls s = get_all_upstream_endpoints_by_config urls s s.config

unfoldable pub get_port_from_scheme : String → Option ℕ
get_port_from_scheme arg =
    if arg == "http" || arg == "ws" || arg == "h2c"
    then some 80
    else if arg == "https" || arg == "wss"
    then some 443
    else if arg == "ssh"
    then some 22
    else if arg == "dns"
    then some 53
    else if arg == "postgres" || arg == "postgresql"
    then some 5432
    else if arg == "redis"
    then some 6379
    else if arg == "mysql"
    then some 3306
    else if arg == "mongodb"
    then some 27017
    else if arg == "rdp"
    then some 3389
    else if arg == "amqp"
    then some 5672
    else if arg == "ftp"
    then some 21
    else if arg == "dot"
    then some 853
    else none

-- A port that cannot be told is 0.
abbrev pub or_zero : Option ℕ → ℕ
or_zero none = 0
or_zero (some n) = n

unfoldable pub ep_real_port : Urls → Endpoint → ℕ
ep_real_port urls e =
    let u = urls.parse e.url in
    if u.port == "" then or_zero (get_port_from_scheme u.scheme) else or_zero (urls.atoi u.port)

unfoldable pub upstream_real_port : Urls → Service → ℕ
upstream_real_port urls s = elim (get_all_upstream_endpoints urls s) [
  | [] ↦ 0
  | e ∷ es ↦ ep_real_port urls e
]

-- `GetHostUserRef`: the UID of the User of a name, from the label that the API server leaves.
unfoldable pub get_host_user_uid : Service → String → Option String
get_host_user_uid s name =
    if name == "" then none else find_label s.spec_labels (append "host-user-" name)

abbrev pub is_l4_udp : Service → Bool
is_l4_udp s = elim s.mode [ ServiceMode.udp ↦ true | ServiceMode.dns ↦ true | _ ↦ false ]

abbrev pub is_ssh_mode : ServiceMode → Bool
is_ssh_mode ServiceMode.ssh = true
is_ssh_mode _ = false

abbrev pub is_essh_service : Service → Bool
is_essh_service s = is_ssh_mode s.mode && (elim s.config [ none ↦ false | some c ↦ c.essh_mode ])
