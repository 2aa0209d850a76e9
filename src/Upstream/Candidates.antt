-- ===== src/Upstream/Candidates.antt =====
-- cluster/common/upstream/svc.go: the Sessions that serve a Service.
use octelium.Base.{
  String, Bool, true, false, not, ◌&&◌, ◌||◌, Option, none, some, List, [], ◌∷◌, ◌++◌, Result, ok,
  err, failed, any, is_in_list, ◌==◌, if◌then◌else◌,
}
use octelium.Corev1.Session.{Session}
use octelium.Corev1.Resources.{Endpoint, Service}
use octelium.Apiutils.{is_client_type, contains_upstream}
use octelium.Apiutils.Endpoints.{Urls, get_all_upstream_endpoints, get_host_user_uid}
use octelium.Rscserver.Filters.{Filter, filter_field_eq_val_str, filter_status_user_uid}
use octelium.Upstream.Listener.{set_connection_upstreams_listener}

-- `ListSession` of the resource server.
abbrev pub SessionLister : Type 0
SessionLister = List Filter → Result (List Session)

abbrev pub has_session_uid : String → Session → Bool
has_session_uid uid s = s.metadata.uid == uid

abbrev pub serve_service : Service → Session → Bool
serve_service svc sess = elim sess.connection [
  | none ↦ false
  | some conn ↦ elim conn.service_options [
    | none ↦ false
    | some opts ↦ opts.serve_all || is_in_list opts.requested_services svc.metadata.uid
  ]
]

abbrev pub candidates_of : Service → List Session → List Session
candidates_of svc [] = []
candidates_of svc (s ∷ ss) =
    let rest = candidates_of svc ss in
    if is_client_type s.type && serve_service svc s then s ∷ rest else rest

abbrev pub candidate_filters : Endpoint → List Filter
candidate_filters ep =
    filter_field_eq_val_str "status.userRef.name" ep.user
    ∷ filter_field_eq_val_str "status.type" "CLIENT"
    ∷ []

unfoldable pub get_candidate_connections :
    SessionLister → Endpoint → Service → Result (List Session)
get_candidate_connections list ep svc = elim (list (candidate_filters ep)) [
  | err e ↦ err e
  | ok conns ↦ ok (candidates_of svc conns)
]

-- The list with the Session in the place of the one with its UID, or at the end.
abbrev pub put_session : Session → List Session → List Session
put_session c [] = c ∷ []
put_session c (s ∷ ss) =
    let rest = put_session c ss in if has_session_uid c.metadata.uid s then c ∷ ss else s ∷ rest

abbrev pub conns_loop : Urls → Service → List Session → List Session → Result (List Session)
conns_loop urls svc [] done = ok done
conns_loop urls svc (c ∷ cs) done = elim (set_connection_upstreams_listener urls c svc) [
  | err e ↦ err e
  | ok c' ↦ conns_loop urls svc cs (put_session c' done)
]

abbrev pub endpoints_loop :
    SessionLister → Urls → Service → List Endpoint → List Session → Result (List Session)
endpoints_loop list urls svc [] done = ok done
endpoints_loop list urls svc (ep ∷ eps) done = elim (ep.user == "") [
  | true ↦ endpoints_loop list urls svc eps done
  | false ↦ elim (get_candidate_connections list ep svc) [
    | err e ↦ err e
    | ok conns ↦ elim (conns_loop urls svc conns done) [
      | err e ↦ err e
      | ok done' ↦ endpoints_loop list urls svc eps done'
    ]
  ]
]

-- A User hosts one of the endpoints.
abbrev pub is_user_listener : List Endpoint → Bool
is_user_listener eps = any (λ ep. not (ep.user == "")) eps

unfoldable pub set_service_upstreams : SessionLister → Urls → Service → Result (List Session)
set_service_upstreams list urls svc =
    if not (is_user_listener (get_all_upstream_endpoints urls svc))
    then ok []
    else endpoints_loop list urls svc (get_all_upstream_endpoints urls svc) []

-- A connected client whose connection has an upstream of the Service.
abbrev pub is_host_conn : Service → Session → Bool
is_host_conn svc s = elim s.connection [
  | none ↦ false
  | some conn ↦ is_client_type s.type && contains_upstream svc.metadata.uid conn.upstreams
]

-- The Sessions that host the Service, each UID once.
abbrev pub hosts_loop : Service → List Session → List Session → List Session
hosts_loop svc [] done = done
hosts_loop svc (s ∷ ss) done =
    elim (is_host_conn svc s && not (any (has_session_uid s.metadata.uid) done)) [
      | true ↦ hosts_loop svc ss (done ++ (s ∷ []))
      | false ↦ hosts_loop svc ss done
    ]

abbrev pub user_hosts : SessionLister → Service → String → List Session → Result (List Session)
user_hosts list svc user_uid done = elim (list (filter_status_user_uid user_uid ∷ [])) [
  | err e ↦ err e
  | ok ss ↦ ok (hosts_loop svc ss done)
]

-- No User hosts an endpoint that names none.
abbrev pub service_hosts_loop :
    SessionLister → Service → List Endpoint → List Session → Result (List Session)
service_hosts_loop list svc [] done = ok done
service_hosts_loop list svc (ep ∷ eps) done = elim (get_host_user_uid svc ep.user) [
  | none ↦ service_hosts_loop list svc eps done
  | some uid ↦ elim (user_hosts list svc uid done) [
    | err e ↦ err e
    | ok done' ↦ service_hosts_loop list svc eps done'
  ]
]

unfoldable pub get_service_host_conns : SessionLister → Urls → Service → Result (List Session)
get_service_host_conns list urls svc =
    service_hosts_loop list svc (get_all_upstream_endpoints urls svc) []

unfoldable pub get_service_host_conns_by_user :
    SessionLister → Service → Option String → Result (List Session)
get_service_host_conns_by_user list svc none = err (failed "UserRef cannot be nil")
get_service_host_conns_by_user list svc (some uid) = user_hosts list svc uid []
