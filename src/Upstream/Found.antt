-- ===== src/Upstream/Found.antt =====
-- cluster/common/upstream/svc.go: the Sessions that come to serve a Service.
use mathlib.Core.Path.{subst}
use octelium.Base.{
  String, ◌≡◌, refl, ap, Bool, true, ◌&&◌, ◌||◌, some, List, [], ◌∷◌, ◌++◌, ok, any, all, arith,
  ◌==◌, eq_iff, inl, inr, Bool-cases, Option-cases, Result-cases,
}
use octelium.Corev1.Session.{Upstream, Connection, Session, UpstreamBackend}
use octelium.Corev1.Resources.{Endpoint, Service}
use octelium.Apiutils.{is_client_type, contains_upstream, upstreams_of}
use octelium.Apiutils.Endpoints.{Urls, get_all_upstream_endpoints}
use octelium.Upstream.Ports.{get_listener_port}
use octelium.Upstream.Listener.{
  find_hosted, set_backend, new_upstream, listen, backend_of, set_connection_upstreams_listener,
}
use octelium.Upstream.Candidates.{
  SessionLister, has_session_uid, serve_service, candidates_of, get_candidate_connections,
  candidate_filters, put_session, conns_loop, endpoints_loop, is_user_listener,
  set_service_upstreams,
}
use octelium.Upstream.Hosts.{are_once}

set_backend-contains :
    (uid : String) (b : UpstreamBackend) (us vs : List Upstream)
    → set_backend uid b us ≡ some vs
    → contains_upstream uid vs ≡ true
unfolding set_backend contains_upstream
set_backend-contains uid b [] vs e = cc
set_backend-contains uid b (u ∷ us) vs e = elim (Bool-cases (u.service_uid == uid)) [
  | inl hit ↦ ground (arith, e, hit)
  | inr miss ↦ elim (Option-cases (set_backend uid b us)) [
    | inl nothing ↦ ground (arith, e, miss, nothing)
    | inr (ws, found) ↦ ground (arith, e, miss, found, set_backend-contains uid b us ws found)
  ]
]

contains_upstream-append :
    (uid : String) (us : List Upstream) (u : Upstream)
    → u.service_uid ≡ uid
    → contains_upstream uid (us ++ (u ∷ [])) ≡ true
unfolding contains_upstream
contains_upstream-append uid [] u e = ground (arith, (eq_iff u.service_uid uid).1 e)
contains_upstream-append uid (x ∷ xs) u e = ground (arith, contains_upstream-append uid xs u e)

listen-contains :
    (sess : Session) (conn : Connection) (svc : Service) (b : UpstreamBackend) (us : List Upstream)
    → listen sess conn svc b ≡ ok us
    → contains_upstream svc.metadata.uid us ≡ true
unfolding listen
listen-contains sess conn svc b us e =
    elim (Option-cases (set_backend svc.metadata.uid b conn.upstreams)) [
      | inr (vs, found) ↦
          ground (arith, e, found, set_backend-contains svc.metadata.uid b conn.upstreams vs found)
      | inl nothing ↦ elim (Result-cases (get_listener_port sess)) [
        | inr (w, fails) ↦ ground (arith, e, nothing, fails)
        | inl (port, free) ↦ ground (
          arith,
          e,
          nothing,
          free,
          contains_upstream-append svc.metadata.uid conn.upstreams (new_upstream svc b port) refl,
        )
      ]
    ]

-- A client that serves the Service, with an upstream of it.
abbrev pub is_serving : Service → Session → Bool
is_serving svc s =
    is_client_type s.type
    && serve_service svc s
    && contains_upstream svc.metadata.uid (upstreams_of s.connection)

set_connection_upstreams_listener-serves :
    (urls : Urls) (c got : Session) (svc : Service)
    → (is_client_type c.type && serve_service svc c) ≡ true
    → set_connection_upstreams_listener urls c svc ≡ ok got
    → is_serving svc got ≡ true
unfolding set_connection_upstreams_listener
set_connection_upstreams_listener-serves urls c got svc h e = elim (Option-cases c.connection) [
  | inl nothing ↦ ground (arith, e, nothing)
  | inr (conn, there) ↦
      elim (Option-cases (find_hosted svc c (get_all_upstream_endpoints urls svc))) [
        | inl nobody ↦ ground (arith, e, there, nobody)
        | inr (ep, hosted) ↦ elim (Result-cases (listen c conn svc (backend_of urls svc ep))) [
          | inr (w, fails) ↦ ground (arith, e, there, hosted, fails)
          | inl (us, went) ↦ ground (
            arith,
            e,
            h,
            there,
            hosted,
            went,
            listen-contains c conn svc (backend_of urls svc ep) us went,
          )
        ]
      ]
]

any-put_session :
    (u : String) (c : Session) (ss : List Session)
    → any (has_session_uid u) (put_session c ss)
      ≡ (any (has_session_uid u) ss || has_session_uid u c)
any-put_session u c [] = ground arith
any-put_session u c (s ∷ ss) = elim (Bool-cases (has_session_uid c.metadata.uid s)) [
  | inr miss ↦ ground (arith, miss, any-put_session u c ss)
  | inl hit ↦
      let same : has_session_uid u s ≡ has_session_uid u c =
        ap (λ t. t == u) ((eq_iff s.metadata.uid c.metadata.uid).0 hit) in
      ground (arith, hit, same)
]

are_once-put_session :
    (c : Session) (ss : List Session) → are_once ss ≡ true → are_once (put_session c ss) ≡ true
are_once-put_session c [] o = refl
are_once-put_session c (s ∷ ss) o = elim (Bool-cases (has_session_uid c.metadata.uid s)) [
  | inr miss ↦ ground (
    arith,
    miss,
    o,
    are_once-put_session c ss (ground (arith, o)),
    any-put_session s.metadata.uid c ss,
    eq_iff s.metadata.uid c.metadata.uid,
    eq_iff c.metadata.uid s.metadata.uid,
  )
  | inl hit ↦
      let same : any (has_session_uid s.metadata.uid) ss ≡ any (has_session_uid c.metadata.uid) ss =
        ap (λ t. any (has_session_uid t) ss) ((eq_iff s.metadata.uid c.metadata.uid).0 hit) in
      ground (arith, hit, o, same)
]

all-put_session :
    (p : Session → Bool) (c : Session) (ss : List Session)
    → p c ≡ true
    → all p ss ≡ true
    → all p (put_session c ss) ≡ true
all-put_session p c [] h a = ground (arith, h)
all-put_session p c (s ∷ ss) h a = ground (arith, h, a, all-put_session p c ss)

-- Sessions with distinct UIDs that serve the Service.
pub record AreServing (svc : Service) (ss : List Session) : Type 0 where
  pub once : are_once ss ≡ true
  pub serving : all (is_serving svc) ss ≡ true

abbrev is_candidate : Service → Session → Bool
is_candidate svc s = is_client_type s.type && serve_service svc s

all-candidates_of :
    (svc : Service) (ss : List Session) → all (is_candidate svc) (candidates_of svc ss) ≡ true
all-candidates_of svc [] = refl
all-candidates_of svc (s ∷ ss) = ground (arith, all-candidates_of svc ss)

conns_loop-AreServing :
    (urls : Urls) (svc : Service) (cs done got : List Session)
    → all (is_candidate svc) cs ≡ true
    → AreServing svc done
    → conns_loop urls svc cs done ≡ ok got
    → AreServing svc got
conns_loop-AreServing urls svc [] done got a h e =
    let same : done ≡ got = ground (arith, e) in subst (AreServing svc) same h
conns_loop-AreServing urls svc (c ∷ cs) done got a h e =
    elim (Result-cases (set_connection_upstreams_listener urls c svc)) [
      | inr (w, fails) ↦ ground (arith, e, fails)
      | inl (c', went) ↦
          let serves =
            set_connection_upstreams_listener-serves urls c c' svc (ground (arith, a)) went in
          conns_loop-AreServing urls svc cs (put_session c' done) got (ground (arith, a))
            (record {
              once = are_once-put_session c' done h.once;
              serving = all-put_session (is_serving svc) c' done serves h.serving;
            })
            (ground (arith, e, went))
    ]

endpoints_loop-AreServing :
    (list : SessionLister) (urls : Urls) (svc : Service) (eps : List Endpoint)
    (done got : List Session)
    → AreServing svc done
    → endpoints_loop list urls svc eps done ≡ ok got
    → AreServing svc got
unfolding get_candidate_connections
endpoints_loop-AreServing list urls svc [] done got h e =
    let same : done ≡ got = ground (arith, e) in subst (AreServing svc) same h
endpoints_loop-AreServing list urls svc (ep ∷ eps) done got h e =
    elim (Bool-cases (ep.user == "")) [
      | inl nobody ↦
          endpoints_loop-AreServing list urls svc eps done got h (ground (arith, e, nobody))
      | inr user ↦ elim (Result-cases (list (candidate_filters ep))) [
        | inr (w, fails) ↦ ground (arith, e, user, fails)
        | inl (ss, there) ↦ elim (Result-cases (conns_loop urls svc (candidates_of svc ss) done)) [
          | inr (w, fails) ↦ ground (arith, e, user, there, fails)
          | inl (done', went) ↦
              endpoints_loop-AreServing list urls svc eps done' got
                (conns_loop-AreServing urls svc (candidates_of svc ss) done done'
                  (all-candidates_of svc ss) h went)
                (ground (arith, e, user, there, went))
        ]
      ]
    ]

-- Where SetServiceUpstreams goes through, it answers connected clients that serve the Service and
-- have an upstream of it now, and no UID stands twice.
pub set_service_upstreams-AreServing :
    (list : SessionLister) (urls : Urls) (svc : Service) (got : List Session)
    → set_service_upstreams list urls svc ≡ ok got
    → AreServing svc got
unfolding set_service_upstreams
set_service_upstreams-AreServing list urls svc got e =
    let start : AreServing svc [] = record { once = refl; serving = refl } in
    elim (Bool-cases (is_user_listener (get_all_upstream_endpoints urls svc))) [
      | inr nobody ↦
          let same : [] ≡ got = ground (arith, e, nobody) in subst (AreServing svc) same start
      | inl hosted ↦
          endpoints_loop-AreServing list urls svc (get_all_upstream_endpoints urls svc) [] got start
            (ground (arith, e, hosted))
    ]
