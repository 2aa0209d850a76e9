-- ===== src/Upstream/Listener.antt =====
-- cluster/common/upstream/upstream.go: the listener that a connected Session serves a Service with.
use octelium.Base.{
  ℕ, String, ◌%◌, ◌^◌, Bool, false, Option, none, some, List, [], ◌∷◌, ◌++◌, Result, ok, err,
  failed, ◌==◌, if◌then◌else◌,
}
use octelium.Corev1.Session.{UpstreamBackend, Upstream, Connection, Session}
use octelium.Corev1.Resources.{Endpoint, Service}
use octelium.Apiutils.Endpoints.{
  Urls, get_all_upstream_endpoints, upstream_real_port, get_host_user_uid, is_l4_udp,
  is_essh_service,
}
use octelium.Upstream.Ports.{get_listener_port}

abbrev pub is_hosted_by : Service → Session → Endpoint → Bool
is_hosted_by svc sess e = elim (get_host_user_uid svc e.user) [
  | none ↦ false
  | some uid ↦ uid == sess.user_ref.uid
]

-- The first endpoint that the User of the Session hosts.
unfoldable pub find_hosted : Service → Session → List Endpoint → Option Endpoint
find_hosted svc sess [] = none
find_hosted svc sess (e ∷ es) =
    let rest = find_hosted svc sess es in if is_hosted_by svc sess e then some e else rest

-- The backend: the host of that endpoint, and the port that the Service has as an int32.
abbrev pub backend_of : Urls → Service → Endpoint → UpstreamBackend
backend_of urls svc e = record {
  host = (urls.parse e.url).host;
  port = upstream_real_port urls svc % 2 ^ 32;
}

-- The upstream of the Service gets the backend, if there is one.
unfoldable pub set_backend : String → UpstreamBackend → List Upstream → Option (List Upstream)
set_backend uid b [] = none
set_backend uid b (u ∷ us) =
    let rest = set_backend uid b us in
    if u.service_uid == uid
    then some (record u { backend = b } ∷ us)
    else elim rest [ none ↦ none | some vs ↦ some (u ∷ vs) ]

abbrev pub new_upstream : Service → UpstreamBackend → ℕ → Upstream
new_upstream svc b port = record {
  service_uid = svc.metadata.uid;
  port = port;
  backend = b;
  is_udp = is_l4_udp svc;
  is_essh = is_essh_service svc;
}

-- The list of upstreams once the backend is known.
unfoldable pub listen : Session → Connection → Service → UpstreamBackend → Result (List Upstream)
listen sess conn svc b = elim (set_backend svc.metadata.uid b conn.upstreams) [
  | some us ↦ ok us
  | none ↦ elim (get_listener_port sess) [
    | err e ↦ err e
    | ok port ↦ ok (conn.upstreams ++ (new_upstream svc b port ∷ []))
  ]
]

unfoldable pub set_connection_upstreams_listener : Urls → Session → Service → Result Session
set_connection_upstreams_listener urls sess svc = elim sess.connection [
  | none ↦ err (failed "Connection is not set in the Session")
  | some conn ↦ elim (find_hosted svc sess (get_all_upstream_endpoints urls svc)) [
    | none ↦ err (failed "Cannot find listener backend for the User")
    | some e ↦ elim (listen sess conn svc (backend_of urls svc e)) [
      | err x ↦ err x
      | ok us ↦ ok (record sess { connection = some (record conn { upstreams = us }) })
    ]
  ]
]
