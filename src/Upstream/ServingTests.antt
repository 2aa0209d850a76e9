-- ===== src/Upstream/ServingTests.antt =====
-- A Session that comes to serve a Service with two hosts.
use octelium.Base.{◌≡◌, refl, true, false, none, some, [], ◌∷◌, ok, ◌==◌, if◌then◌else◌}
use octelium.Corev1.Session.{L3Mode, ConnectionType, Connection, Session}
use octelium.Corev1.Resources.{Endpoint, UpstreamType, Service}
use octelium.Apiutils.{upstreams_of}
use octelium.Apiutils.Endpoints.{
  Urls, Url, find_label, get_all_upstream_endpoints, get_all_upstream_endpoints_by_config,
  ep_real_port, upstream_real_port, get_host_user_uid, get_port_from_scheme,
}
use octelium.Upstream.Ports.{port_loop, get_listener_port}
use octelium.Upstream.Listener.{find_hosted, set_backend, listen, set_connection_upstreams_listener}
use octelium.Upstream.Served.{IsServing}
use octelium.Upstream.Serving.{idle, serving, Serves-IsServing}
use octelium.Samples.{a_session, a_service, an_upstream}

abbrev first_url : Url
first_url = record { scheme = "tcp"; host = "a"; port = "" }

abbrev second_url : Url
second_url = record { scheme = "ssh"; host = "b"; port = "" }

abbrev pub urls : Urls
urls = record {
  parse = λ s. if s == "tcp://a" then first_url else second_url;
  reprint = λ s. s;
  decimal = λ n. "1";
  atoi = λ s. none;
}

abbrev first_host : Endpoint
first_host = record { url = "ssh://b"; user = "alice" }

abbrev second_host : Endpoint
second_host = record { url = "tcp://a"; user = "root" }

-- The User root hosts the second endpoint.
abbrev pub hosted_service : Service
hosted_service = record a_service {
  config = some (record {
    name = "";
    upstream =
        some
          (record { user = ""; type = UpstreamType.loadbalance (first_host ∷ second_host ∷ []) });
    essh_mode = false;
    is_upstream_http2 = false;
    listen_http2 = false;
  });
  spec_labels = ("host-user-alice", "x-uid") ∷ ("host-user-root", "u-uid") ∷ [];
}

abbrev pub a_connection : Connection
a_connection = record {
  type = ConnectionType.wireguard;
  service_options = some (record { serve_all = true; requested_services = []; port_start = 23000 });
  addresses = [];
  l3_mode = L3Mode.v4;
  upstreams = an_upstream "v-1" 23000 ∷ [];
  essh_enable = false;
}

abbrev pub serving_session : Session
serving_session = record a_session { connection = some a_connection }

-- The port of an SSH endpoint with the host of the other.
abbrev pub then_serving : Session
then_serving = record a_session {
  connection = some (record a_connection {
    upstreams =
        an_upstream "v-1" 23000
        ∷ record {
          service_uid = "v-uid";
          port = 23001;
          backend = record { host = "a"; port = 22 };
          is_udp = false;
          is_essh = false;
        }
        ∷ [];
  });
}

is_set : set_connection_upstreams_listener urls serving_session hosted_service ≡ ok then_serving
unfolding set_connection_upstreams_listener find_hosted get_host_user_uid find_label
    get_all_upstream_endpoints_by_config listen set_backend get_listener_port port_loop
    upstream_real_port ep_real_port get_port_from_scheme
is_set = refl

has_two_hosts : get_all_upstream_endpoints urls hosted_service ≡ first_host ∷ second_host ∷ []
unfolding get_all_upstream_endpoints_by_config
has_two_hosts = refl

starts_apart : IsServing (upstreams_of serving_session.connection)
starts_apart = record { ports = refl; services = refl }

Serves-IsServing_example : IsServing (upstreams_of then_serving.connection)
Serves-IsServing_example =
    Serves-IsServing urls serving_session then_serving starts_apart
      (serving serving_session then_serving hosted_service idle is_set)
