-- ===== src/Upstream/Hosts.antt =====
-- cluster/common/upstream/svc.go: which Sessions are found to serve a Service.
use mathlib.Core.Path.{subst}
use octelium.Base.{
  String, ◌≡◌, refl, sym, ap, ◌∙◌, Bool, true, false, not, ◌&&◌, ◌||◌, none, some, ◌==◌, List, [],
  ◌∷◌, ◌++◌, ok, any, all, arith, eq_iff, inl, inr, Bool-cases, Option-cases, Result-cases,
  all-append, any-append,
}
use octelium.Corev1.Session.{Upstream, SessionType, Session}
use octelium.Corev1.Resources.{Endpoint, Service}
use octelium.Apiutils.{contains_upstream}
use octelium.Apiutils.Endpoints.{Urls, get_all_upstream_endpoints, get_host_user_uid}
use octelium.Rscserver.Filters.{filter_status_user_uid}
use octelium.Upstream.Candidates.{
  SessionLister, has_session_uid, is_host_conn, hosts_loop, service_hosts_loop,
  get_service_host_conns, get_service_host_conns_by_user,
}

-- No UID stands twice.
abbrev pub are_once : List Session → Bool
are_once [] = true
are_once (s ∷ ss) = not (any (has_session_uid s.metadata.uid) ss) && are_once ss

any-last :
    (u : String) (ss : List Session) (s : Session)
    → any (has_session_uid u) (ss ++ (s ∷ [])) ≡ (any (has_session_uid u) ss || has_session_uid u s)
any-last u ss s = any-append (has_session_uid u) ss (s ∷ []) ∙ ground arith

are_once-append :
    (ss : List Session) (s : Session)
    → any (has_session_uid s.metadata.uid) ss ≡ false
    → are_once ss ≡ true
    → are_once (ss ++ (s ∷ [])) ≡ true
are_once-append [] s n o = refl
are_once-append (x ∷ xs) s n o = ground (
  arith,
  n,
  o,
  are_once-append xs s,
  any-last x.metadata.uid xs s,
  eq_iff x.metadata.uid s.metadata.uid,
  eq_iff s.metadata.uid x.metadata.uid,
)

-- A client that is connected and has an upstream of the Service.
abbrev pub is_hosting : Service → Session → Bool
is_hosting svc s = (elim s.type [ SessionType.client ↦ true | _ ↦ false ]) && (elim s.connection [
  | none ↦ false
  | some conn ↦ any (λ (u : Upstream). u.service_uid == svc.metadata.uid) conn.upstreams
])

pub contains_upstream-any :
    (uid : String) (us : List Upstream)
    → contains_upstream uid us ≡ any (λ (u : Upstream). u.service_uid == uid) us
unfolding contains_upstream
contains_upstream-any uid [] = refl
contains_upstream-any uid (u ∷ us) = ground (arith, contains_upstream-any uid us)

is_host_conn-is_hosting : (svc : Service) (s : Session) → is_host_conn svc s ≡ is_hosting svc s
is_host_conn-is_hosting svc s = elim (Option-cases s.connection) [
  | inl e ↦ ground (arith, e)
  | inr (conn, e) ↦ ground (arith, e, contains_upstream-any svc.metadata.uid conn.upstreams)
]

-- The Sessions of `found` that host the Service, added to `done`, with each UID once.
pub record AddsHosts (svc : Service) (found done got : List Session) : Type 0 where
  pub once : are_once got ≡ true
  pub hosts : all (is_hosting svc) got ≡ true
  pub exact :
      (u : String)
      → any (has_session_uid u) got
        ≡ (any (has_session_uid u) done || any (λ s. has_session_uid u s && is_hosting svc s) found)

hosts_loop-AddsHosts :
    (svc : Service) (found done : List Session)
    → are_once done ≡ true
    → all (is_hosting svc) done ≡ true
    → AddsHosts svc found done (hosts_loop svc found done)
hosts_loop-AddsHosts svc [] done o a = record { once = o; hosts = a; exact = λ u. ground arith }
hosts_loop-AddsHosts svc (s ∷ ss) done o a =
    elim (Bool-cases (is_host_conn svc s && not (any (has_session_uid s.metadata.uid) done))) [
      | inl new ↦
          let ih =
            hosts_loop-AddsHosts svc ss (done ++ (s ∷ []))
              (are_once-append done s (ground (arith, new)) o)
              (all-append (is_hosting svc) done (s ∷ [])
                ∙ ground (arith, a, new, is_host_conn-is_hosting svc s)) in
          record {
            once = ground (arith, new, ih.once);
            hosts = ground (arith, new, ih.hosts);
            exact = λ u.
                ground (arith, new, is_host_conn-is_hosting svc s, ih.exact u, any-last u done s);
          }
      | inr old ↦
          let ih = hosts_loop-AddsHosts svc ss done o a in
          record {
            once = ground (arith, old, ih.once);
            hosts = ground (arith, old, ih.hosts);
            exact = λ u. elim (Bool-cases (has_session_uid u s)) [
              | inr miss ↦ ground (arith, old, is_host_conn-is_hosting svc s, ih.exact u, miss)
              | inl hit ↦
                  let same : any (has_session_uid u) done
                      ≡ any (has_session_uid s.metadata.uid) done =
                    ap (λ t. any (has_session_uid t) done)
                      (sym ((eq_iff s.metadata.uid u).0 hit)) in
                  ground (arith, old, is_host_conn-is_hosting svc s, ih.exact u, hit, same)
            ];
          }
    ]

-- Where the list of a User's Sessions is answered, the Sessions that are found to host a Service
-- are, with each UID once, exactly the listed ones that are connected clients with an upstream of
-- the Service.
pub get_service_host_conns_by_user-AddsHosts :
    (list : SessionLister) (svc : Service) (uid : String) (found got : List Session)
    → list (filter_status_user_uid uid ∷ []) ≡ ok found
    → get_service_host_conns_by_user list svc (some uid) ≡ ok got
    → AddsHosts svc found [] got
unfolding get_service_host_conns_by_user
get_service_host_conns_by_user-AddsHosts list svc uid found got there e =
    let same : hosts_loop svc found [] ≡ got = ground (arith, there, e) in
    subst (AddsHosts svc found []) same (hosts_loop-AddsHosts svc found [] refl refl)

-- Sessions with distinct UIDs that host the Service.
pub record AreHosts (svc : Service) (ss : List Session) : Type 0 where
  pub once : are_once ss ≡ true
  pub hosts : all (is_hosting svc) ss ≡ true

service_hosts_loop-AreHosts :
    (list : SessionLister) (svc : Service) (eps : List Endpoint) (done got : List Session)
    → AreHosts svc done
    → service_hosts_loop list svc eps done ≡ ok got
    → AreHosts svc got
service_hosts_loop-AreHosts list svc [] done got h e =
    let same : done ≡ got = ground (arith, e) in subst (AreHosts svc) same h
service_hosts_loop-AreHosts list svc (ep ∷ eps) done got h e =
    elim (Option-cases (get_host_user_uid svc ep.user)) [
      | inl nobody ↦ service_hosts_loop-AreHosts list svc eps done got h (ground (arith, e, nobody))
      | inr (uid, user) ↦ elim (Result-cases (list (filter_status_user_uid uid ∷ []))) [
        | inr (w, fails) ↦ ground (arith, e, user, fails)
        | inl (ss, there) ↦
            let i = hosts_loop-AddsHosts svc ss done h.once h.hosts in
            service_hosts_loop-AreHosts list svc eps (hosts_loop svc ss done) got
              (record { once = i.once; hosts = i.hosts }) (ground (arith, e, user, there))
      ]
    ]

-- The Sessions that are found to host a Service are connected clients with an upstream of it, and
-- no UID stands twice.
pub get_service_host_conns-AreHosts :
    (list : SessionLister) (urls : Urls) (svc : Service) (got : List Session)
    → get_service_host_conns list urls svc ≡ ok got
    → AreHosts svc got
unfolding get_service_host_conns
get_service_host_conns-AreHosts list urls svc got e =
    service_hosts_loop-AreHosts list svc (get_all_upstream_endpoints urls svc) [] got
      (record { once = refl; hosts = refl }) e
