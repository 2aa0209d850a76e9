-- ===== src/Vigil/Chosen.antt =====
-- cluster/vigil/vigil/loadbalancer/loadbalancer.go: the Session behind the upstream that is chosen.
use mathlib.Core.Path.{subst}
use mathlib.Core.List.{Mem, mem-cons_self, mem-cons_of_mem}
use octelium.Base.{
  ℕ, zero, suc, String, ◌≡◌, refl, sym, ap, ◌∙◌, Bool, true, false, ◌-◌, Option, some, List, [],
  ◌∷◌, ◌==◌, eq_iff, arith, length, inl, inr, Bool-cases, Option-cases, ok, if◌then◌else◌,
}
use octelium.Corev1.Session.{L3Mode, DualStackNetwork, Connection, Session, Upstream}
use octelium.Corev1.Resources.{Endpoint, Service, ServiceConfig}
use octelium.Apiutils.{get_session_upstream, find_upstream, has_v4, has_v6}
use octelium.Apiutils.Endpoints.{Urls, get_all_upstream_endpoints_by_config}
use octelium.Upstream.Hosts.{is_hosting}
use octelium.Vigil.Sessions.{get_by_user_name}
use octelium.Vigil.Balancer.{
  Draw, LbUpstream, get_random_range_math, nth, host_of, user_upstream, upstream_at, upstream_of,
  get_upstream_from_svc,
}
use octelium.Vigil.Watch.{Change, IsWatch, last_seen}
use octelium.Vigil.Cached.{connection_of, served_connection, watched, watched-last_seen}
use octelium.Vigil.Unique.{get_by_user_name-find_uid}

-- The address that an L3 mode uses: IPv6 where the connection carries both.
abbrev pub address_in : Draw → L3Mode → DualStackNetwork → String
address_in d L3Mode.mode_unset a = ""
address_in d L3Mode.both a = if a.v6 == "" then "" else d.ip_of a.v6
address_in d L3Mode.v6 a = if a.v6 == "" then "" else d.ip_of a.v6
address_in d L3Mode.v4 a = if a.v4 == "" then "" else d.ip_of a.v4

-- The upstream is that of an endpoint of the Service which a User hosts, at the connection of a Session
-- of that User: `seen` is the Session as the watcher reported it last.
pub record IsAtWatched (urls : Urls) (d : Draw) (svc : Service) (cfg : Option ServiceConfig)
    (xs : List Change) (r : LbUpstream) : Type 0 where
  pub endpoint : Endpoint
  pub listed : Mem endpoint (get_all_upstream_endpoints_by_config urls svc cfg)
  pub hosted : (endpoint.user == "") ≡ false
  pub uid : String
  pub session : r.session_uid ≡ some uid
  pub seen : Session
  pub last : last_seen endpoint.user uid xs ≡ some seen
  pub hosting : is_hosting svc seen ≡ true
  pub conn : Connection
  pub connected : seen.connection ≡ some conn
  pub upstream : Upstream
  pub offered : Mem upstream conn.upstreams
  pub serves : upstream.service_uid ≡ svc.metadata.uid
  pub port : r.port ≡ upstream.port
  pub address : DualStackNetwork
  pub others : List DualStackNetwork
  pub addresses : conn.addresses ≡ address ∷ others
  pub host : r.host ≡ address_in d conn.l3_mode address

nth-Mem : (n : ℕ) (es : List Endpoint) (e : Endpoint) → nth n es ≡ some e → Mem e es
nth-Mem n [] e h = cc
nth-Mem zero (x ∷ xs) e h =
    let same : x ≡ e = ground (arith, h) in
    subst (λ (y : Endpoint). Mem y (x ∷ xs)) same mem-cons_self
nth-Mem (suc n) (x ∷ xs) e h = mem-cons_of_mem x (nth-Mem n xs e h)

-- `GetSessionUpstream` answers an upstream of the connection, of the Service's UID.
find_upstream-Mem :
    (uid : String) (us : List Upstream) (u : Upstream)
    → find_upstream uid us ≡ some u
    → Mem u us × (u.service_uid ≡ uid)
unfolding find_upstream
find_upstream-Mem uid [] u h = cc
find_upstream-Mem uid (x ∷ xs) u h = elim (Bool-cases (x.service_uid == uid)) [
  | inl hit ↦
      let same : x ≡ u = ground (arith, h, hit) in
      (
        subst (λ (y : Upstream). Mem y (x ∷ xs)) same mem-cons_self,
        ap (λ (y : Upstream). y.service_uid) (sym same) ∙ (eq_iff x.service_uid uid).0 hit,
      )
  | inr miss ↦
      let ih = find_upstream-Mem uid xs u (ground (arith, h, miss)) in
      (mem-cons_of_mem x ih.0, ih.1)
]

host_of-address_in :
    (d : Draw) (s : Session) (conn : Connection) (a : DualStackNetwork)
    → s.connection ≡ some conn
    → host_of d s a ≡ address_in d conn.l3_mode a
unfolding has_v4 has_v6
host_of-address_in d s conn a e = ground (arith, e)

module _ (urls : Urls) (d : Draw) (is_equal : Option Connection → Option Connection → Bool)
    (svc : Service) (cfg : Option ServiceConfig) (xs : List Change) (r : LbUpstream) where
  -- The Session that is found is, but for what an update left as it was, the one that was seen last.
  found_seen :
      ((a b : Option Connection) → is_equal a b ≡ true → a ≡ b)
      → IsWatch xs
      → (user : String) (sess : Session)
      → get_by_user_name user svc (watched is_equal svc xs) ≡ some sess
      → (seen : Session) × (last_seen user sess.metadata.uid xs ≡ some seen)
        × (is_hosting svc seen ≡ true)
        × (seen.connection ≡ sess.connection)
  found_seen eq w user sess e =
      let found = get_by_user_name-find_uid is_equal svc xs user sess e in
      let same : some sess.connection
          ≡ served_connection svc (last_seen user sess.metadata.uid xs) =
        ap connection_of (sym found)
        ∙ watched-last_seen is_equal svc eq xs user sess.metadata.uid w in
      elim (Option-cases (last_seen user sess.metadata.uid xs)) [
        | inl never ↦ ground (arith, same, never)
        | inr (seen, at) ↦ elim (Bool-cases (is_hosting svc seen)) [
          | inl h ↦ (seen, at, h, ground (arith, same, at, h))
          | inr h ↦ ground (arith, same, at, h)
        ]
      ]

  at_address :
      ((a b : Option Connection) → is_equal a b ≡ true → a ≡ b)
      → IsWatch xs
      → (e : Endpoint) (sess : Session) (conn : Connection) (u : Upstream)
        (as' : List DualStackNetwork)
      → Mem e (get_all_upstream_endpoints_by_config urls svc cfg)
      → (e.user == "") ≡ false
      → get_by_user_name e.user svc (watched is_equal svc xs) ≡ some sess
      → sess.connection ≡ some conn
      → conn.addresses ≡ as'
      → get_session_upstream svc.metadata.uid sess ≡ some u
      → upstream_at urls d svc e sess ≡ ok r
      → IsAtWatched urls d svc cfg xs r
  unfolding upstream_at get_session_upstream
  at_address eq w e sess conn u [] m named found there at serves got =
      ground (arith, got, there, at, serves)
  at_address eq w e sess conn u (a ∷ rest) m named found there at serves got =
      let same : user_upstream urls d svc e sess u a ≡ r = ground (arith, got, there, at, serves) in
      let (seen, last, hosting, kept) = found_seen eq w e.user sess found in
      let (mem, of) =
        find_upstream-Mem svc.metadata.uid conn.upstreams u (ground (arith, serves, there)) in
      record {
        endpoint = e;
        listed = m;
        hosted = named;
        uid = sess.metadata.uid;
        session = ap (λ (x : LbUpstream). x.session_uid) (sym same);
        seen = seen;
        last = last;
        hosting = hosting;
        conn = conn;
        connected = kept ∙ there;
        upstream = u;
        offered = mem;
        serves = of;
        port = ap (λ (x : LbUpstream). x.port) (sym same);
        address = a;
        others = rest;
        addresses = at;
        host = ap (λ (x : LbUpstream). x.host) (sym same) ∙ host_of-address_in d sess conn a there;
      }

  at_session :
      ((a b : Option Connection) → is_equal a b ≡ true → a ≡ b)
      → IsWatch xs
      → (e : Endpoint) → Mem e (get_all_upstream_endpoints_by_config urls svc cfg)
      → (e.user == "") ≡ false
      → (sess : Session) → get_by_user_name e.user svc (watched is_equal svc xs) ≡ some sess
      → upstream_at urls d svc e sess ≡ ok r
      → IsAtWatched urls d svc cfg xs r
  at_session eq w e m named sess found got =
      elim (Option-cases (get_session_upstream svc.metadata.uid sess)) [
        | inl nothing ↦ unfold upstream_at in ground (arith, got, nothing)
        | inr (u, serves) ↦ elim (Option-cases sess.connection) [
          | inl gone ↦ unfold upstream_at in ground (arith, got, serves, gone)
          | inr (conn, there) ↦
              at_address eq w e sess conn u conn.addresses m named found there refl serves got
        ]
      ]

  upstream_of-IsAtWatched :
      ((a b : Option Connection) → is_equal a b ≡ true → a ≡ b)
      → IsWatch xs
      → (e : Endpoint) → Mem e (get_all_upstream_endpoints_by_config urls svc cfg)
      → upstream_of urls d (watched is_equal svc xs) svc e ≡ ok r
      → r.is_user ≡ true
      → IsAtWatched urls d svc cfg xs r
  unfolding upstream_of
  upstream_of-IsAtWatched eq w e m got user = elim (Bool-cases (e.user == "")) [
    | inl own ↦ ground (arith, got, own, user)
    | inr named ↦ elim (Option-cases (get_by_user_name e.user svc (watched is_equal svc xs))) [
      | inl nobody ↦ ground (arith, got, named, nobody)
      | inr (sess, found) ↦
          let at : upstream_at urls d svc e sess ≡ ok r = ground (arith, got, named, found) in
          at_session eq w e m named sess found at
    ]
  ]

  -- An upstream that is chosen for a Service and is a User's, after any changes that the watcher
  -- reports, is that of an endpoint which the Service's config lists with a User. It is at the
  -- connection of a Session of that User which, as it was reported last, is a connected client
  -- with an upstream of the Service: the port is such an upstream's, and the host is the first
  -- address of the connection in the family of its L3 mode, IPv6 if it carries both. The
  -- conditions: an update is of a Session as it was reported last and keeps its User, UID and
  -- type, what is added was not there, and `IsEqual` holds only of equal connections.
  pub get_upstream_from_svc-IsAtWatched :
      ((a b : Option Connection) → is_equal a b ≡ true → a ≡ b)
      → IsWatch xs
      → get_upstream_from_svc urls d (watched is_equal svc xs) svc cfg ≡ ok r
      → r.is_user ≡ true
      → IsAtWatched urls d svc cfg xs r
  unfolding get_upstream_from_svc
  get_upstream_from_svc-IsAtWatched eq w got user =
      let upstrs = get_all_upstream_endpoints_by_config urls svc cfg in
      let n = get_random_range_math 0 (length upstrs - 1) d.number in
      elim (Option-cases (nth n upstrs)) [
        | inl nothing ↦ ground (arith, got, nothing)
        | inr (e, picked) ↦
            upstream_of-IsAtWatched eq w e (nth-Mem n upstrs e picked) (ground (arith, got, picked))
              user
      ]
