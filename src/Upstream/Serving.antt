-- ===== src/Upstream/Serving.antt =====
-- The Sessions that `setConnectionUpstreamsListener` of cluster/common/upstream/upstream.go leaves.
use mathlib.Core.Path.{subst}
use octelium.Base.{
  String, ◌%◌, ◌^◌, ◌≡◌, refl, sym, ap, ◌∙◌, none, some, List, [], ◌∷◌, ◌++◌, ok, eq_iff, arith,
  inl, inr, Option-cases, Result-cases,
}
use octelium.Corev1.Session.{UpstreamBackend, Upstream, Connection, Session}
use octelium.Corev1.Resources.{Endpoint, Service}
use octelium.Apiutils.{find_upstream, upstreams_of}
use octelium.Apiutils.Endpoints.{Urls, get_all_upstream_endpoints, ep_real_port, upstream_real_port}
use octelium.Upstream.Ports.{ports_of, get_listener_port}
use octelium.Upstream.Listener.{
  find_hosted, backend_of, new_upstream, listen, set_connection_upstreams_listener,
}
use octelium.Upstream.Served.{
  services_of, IsServing, set_backend-cases, get_listener_port-unused, are_distinct-append,
  is_distinct-append, ports_of-append, services_of-append,
}

find_upstream-append :
    (uid : String) (us : List Upstream) (u : Upstream)
    → find_upstream uid us ≡ none
    → u.service_uid ≡ uid
    → find_upstream uid (us ++ (u ∷ [])) ≡ some u
unfolding find_upstream
find_upstream-append uid [] u h e = ground (arith, (eq_iff u.service_uid uid).1 e)
find_upstream-append uid (v ∷ us) u h e = ground (arith, h, find_upstream-append uid us u, e)

-- The upstreams once a Service is served: still apart, and the Service's has the backend.
record Listens (svc : Service) (b : UpstreamBackend) (before after : List Upstream) : Type 0 where
  keeps : IsServing before → IsServing after
  upstream : Upstream
  found : find_upstream svc.metadata.uid after ≡ some upstream
  serves : upstream.backend ≡ b

same-IsServing :
    (before after : List Upstream)
    → ports_of after ≡ ports_of before
    → services_of after ≡ services_of before
    → IsServing before
    → IsServing after
same-IsServing before after p s h = record { ports = rw p h.ports; services = rw s h.services }

listen-Listens :
    (sess : Session) (conn : Connection) (svc : Service) (b : UpstreamBackend) (us : List Upstream)
    → sess.connection ≡ some conn
    → listen sess conn svc b ≡ ok us
    → Listens svc b conn.upstreams us
unfolding listen
listen-Listens sess conn svc b us c h = elim (set_backend-cases svc.metadata.uid b conn.upstreams) [
  | inr (vs, u, e, p, s, f, g) ↦
      let same : vs ≡ us = ground (arith, h, e) in
      record {
        keeps = λ k. subst IsServing same (same-IsServing conn.upstreams vs p s k);
        upstream = u;
        found = ground (arith, f, same);
        serves = g;
      }
  | inl (e, absent, f) ↦ elim (Result-cases (get_listener_port sess)) [
    | inr (x, g) ↦ ground (arith, h, e, g)
    | inl (port, g) ↦
        let new = new_upstream svc b port in
        let us' = conn.upstreams ++ (new ∷ []) in
        let same : us' ≡ us = ground (arith, h, e, g) in
        record {
          keeps = λ k. subst IsServing same (record {
            ports = rw (ports_of-append conn.upstreams new) (
                are_distinct-append (ports_of conn.upstreams) port
                  (get_listener_port-unused sess conn port c g) k.ports);
            services = rw (services_of-append conn.upstreams new) (
                is_distinct-append (services_of conn.upstreams) svc.metadata.uid absent k.services);
          });
          upstream = new;
          found =
              subst (λ (x : List Upstream). find_upstream svc.metadata.uid x ≡ some new) same
                (find_upstream-append svc.metadata.uid conn.upstreams new f refl);
          serves = refl;
        }
  ]
]

-- A Session that serves a Service more.
record NowServes (urls : Urls) (svc : Service) (sess sess' : Session) : Type 0 where
  endpoint : Endpoint
  hosted : find_hosted svc sess (get_all_upstream_endpoints urls svc) ≡ some endpoint
  listens :
      Listens svc
        (backend_of urls svc endpoint)
        (upstreams_of sess.connection)
        (upstreams_of sess'.connection)

set-NowServes :
    (urls : Urls) (svc : Service) (sess sess' : Session)
    → set_connection_upstreams_listener urls sess svc ≡ ok sess'
    → NowServes urls svc sess sess'
unfolding set_connection_upstreams_listener
set-NowServes urls svc sess sess' h = elim (Option-cases sess.connection) [
  | inl e ↦ ground (arith, h, e)
  | inr (conn, e) ↦
      let eps = get_all_upstream_endpoints urls svc in
      elim (Option-cases (find_hosted svc sess eps)) [
        | inl f ↦ ground (arith, h, e, f)
        | inr (ep, f) ↦ elim (Result-cases (listen sess conn svc (backend_of urls svc ep))) [
          | inr (x, g) ↦ ground (arith, h, e, f, g)
          | inl (us, g) ↦
              let after : upstreams_of sess'.connection ≡ us = ground (arith, h, e, f, g) in
              let l = listen-Listens sess conn svc (backend_of urls svc ep) us e g in
              record { endpoint = ep; hosted = f; listens = rw e (rw after l) }
        ]
      ]
]

-- A Session that comes to serve Services, one after the other.
pub data Serves (urls : Urls) (init : Session) : Session → Type 0 where
  idle : Serves urls init init
  serving :
      (s t : Session) (svc : Service)
      → Serves urls init s
      → set_connection_upstreams_listener urls s svc ≡ ok t
      → Serves urls init t

-- A Session whose upstreams have different ports and Services keeps them apart, whatever Services it
-- comes to serve.
pub Serves-IsServing :
    (urls : Urls) (init s : Session)
    → IsServing (upstreams_of init.connection)
    → Serves urls init s
    → IsServing (upstreams_of s.connection)
Serves-IsServing urls init s h idle = h
Serves-IsServing urls init s h (serving r _ svc v e) =
    (set-NowServes urls svc r s e).listens.keeps (Serves-IsServing urls init r h v)

-- A Session that serves a Service has an upstream for it whose host is that of the first endpoint
-- that its User hosts, and whose port is that of the first endpoint of all, as an int32.
pub set_listener-first_port :
    (urls : Urls) (svc : Service) (sess sess' : Session) (first : Endpoint) (rest : List Endpoint)
    → get_all_upstream_endpoints urls svc ≡ first ∷ rest
    → set_connection_upstreams_listener urls sess svc ≡ ok sess'
    → (u : Upstream) × (e : Endpoint) × (find_upstream svc.metadata.uid
          (upstreams_of sess'.connection)
        ≡ some u)
      × (find_hosted svc sess (first ∷ rest) ≡ some e)
      × (u.backend.host ≡ (urls.parse e.url).host)
      × (u.backend.port ≡ ep_real_port urls first % 2 ^ 32)
unfolding upstream_real_port
set_listener-first_port urls svc sess sess' first rest eps h =
    let s = set-NowServes urls svc sess sess' h in
    let u = s.listens.upstream in
    (
      u,
      s.endpoint,
      s.listens.found,
      ap (find_hosted svc sess) (sym eps) ∙ s.hosted,
      ap (λ (b : UpstreamBackend). b.host) s.listens.serves,
      ap (λ (b : UpstreamBackend). b.port) s.listens.serves ∙ ground (arith, eps),
    )
