-- ===== src/Upstream/HostTests.antt =====
-- Sessions that are found to host a Service.
use octelium.Base.{◌≡◌, refl, some, [], ◌∷◌, ok}
use octelium.Corev1.Session.{Session}
use octelium.Apiutils.{contains_upstream}
use octelium.Apiutils.Endpoints.{
  find_label, get_all_upstream_endpoints_by_config, ep_real_port, upstream_real_port,
  get_host_user_uid, get_port_from_scheme,
}
use octelium.Upstream.Ports.{port_loop, get_listener_port}
use octelium.Upstream.Listener.{find_hosted, set_backend, listen, set_connection_upstreams_listener}
use octelium.Upstream.Candidates.{
  SessionLister, get_candidate_connections, set_service_upstreams, get_service_host_conns,
  get_service_host_conns_by_user,
}
use octelium.Upstream.Hosts.{
  AddsHosts, AreHosts, get_service_host_conns_by_user-AddsHosts, get_service_host_conns-AreHosts,
}
use octelium.Upstream.Found.{AreServing, set_service_upstreams-AreServing}
use octelium.Upstream.ServingTests.{urls, hosted_service, serving_session, then_serving}

-- The one Session, whatever is asked for.
abbrev lister : Session → SessionLister
lister s filters = ok (s ∷ [])

hosts_are_set :
    set_service_upstreams (lister serving_session) urls hosted_service ≡ ok (then_serving ∷ [])
unfolding set_service_upstreams get_candidate_connections set_connection_upstreams_listener
    find_hosted get_host_user_uid find_label get_all_upstream_endpoints_by_config listen set_backend
    get_listener_port port_loop upstream_real_port ep_real_port get_port_from_scheme
hosts_are_set = refl

set_service_upstreams-AreServing_example : AreServing hosted_service (then_serving ∷ [])
set_service_upstreams-AreServing_example =
    set_service_upstreams-AreServing (lister serving_session) urls hosted_service
      (then_serving ∷ []) hosts_are_set

hosts_are_found :
    get_service_host_conns (lister then_serving) urls hosted_service ≡ ok (then_serving ∷ [])
unfolding get_service_host_conns get_all_upstream_endpoints_by_config get_host_user_uid find_label
    contains_upstream
hosts_are_found = refl

found-AreHosts : AreHosts hosted_service (then_serving ∷ [])
found-AreHosts =
    get_service_host_conns-AreHosts (lister then_serving) urls hosted_service (then_serving ∷ [])
      hosts_are_found

user_host_found :
    get_service_host_conns_by_user (lister then_serving) hosted_service (some "u-uid")
    ≡ ok (then_serving ∷ [])
unfolding get_service_host_conns_by_user contains_upstream
user_host_found = refl

get_service_host_conns_by_user-AddsHosts_example :
    AddsHosts hosted_service (then_serving ∷ []) [] (then_serving ∷ [])
get_service_host_conns_by_user-AddsHosts_example =
    get_service_host_conns_by_user-AddsHosts (lister then_serving) hosted_service "u-uid"
      (then_serving ∷ []) (then_serving ∷ []) refl user_host_found
