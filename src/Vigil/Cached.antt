-- ===== src/Vigil/Cached.antt =====
-- cluster/vigil/vigil/loadbalancer: what the cache holds after the changes that the watcher reports.
use octelium.Base.{
  String, ◌≡◌, refl, ap, sym, ◌∙◌, Bool, true, Option, none, some, List, [], ◌∷◌, ◌==◌, eq_iff,
  if◌then◌else◌, arith, inl, inr, Bool-cases, Option-cases,
}
use octelium.Corev1.Session.{Connection, Session}
use octelium.Corev1.Resources.{Service}
use octelium.Apiutils.{is_served_by_session, is_client_connected}
use octelium.Upstream.Candidates.{has_session_uid, put_session}
use octelium.Upstream.Hosts.{is_hosting, contains_upstream-any}
use octelium.Vigil.Sessions.{
  SessionMap, new_session_map, cache_session, uncache_session, without_uid,
}
use octelium.Vigil.Watch.{Change, added, updated, removed, is_of, last_seen, IsWatch}
use octelium.Vigil.Handlers.{on_session_add, on_session_update, on_session_delete}

abbrev pub find_uid : String → List Session → Option Session
find_uid uid [] = none
find_uid uid (s ∷ ss) = let rest = find_uid uid ss in if has_session_uid uid s then some s else rest

find_uid-put_session :
    (uid : String) (c : Session) (ss : List Session)
    → find_uid uid (put_session c ss) ≡ (if has_session_uid uid c then some c else find_uid uid ss)
find_uid-put_session uid c [] = ground arith
find_uid-put_session uid c (s ∷ ss) = elim (Bool-cases (has_session_uid c.metadata.uid s)) [
  | inl hit ↦
      let same : has_session_uid uid s ≡ has_session_uid uid c =
        ap (λ t. t == uid) ((eq_iff s.metadata.uid c.metadata.uid).0 hit) in
      ground (arith, hit, same)
  | inr miss ↦ ground (
    arith,
    miss,
    find_uid-put_session uid c ss,
    eq_iff s.metadata.uid uid,
    eq_iff c.metadata.uid uid,
    eq_iff s.metadata.uid c.metadata.uid,
  )
]

find_uid-without_uid :
    (uid gone : String) (ss : List Session)
    → find_uid uid (without_uid gone ss) ≡ (if gone == uid then none else find_uid uid ss)
find_uid-without_uid uid gone [] = ground arith
find_uid-without_uid uid gone (s ∷ ss) = ground (
  arith,
  find_uid-without_uid uid gone ss,
  eq_iff s.metadata.uid gone,
  eq_iff s.metadata.uid uid,
  eq_iff gone uid,
)

find_uid-cache_session :
    (name uid : String) (s : Session) (c : SessionMap)
    → find_uid uid (cache_session s c name)
      ≡ (if is_of name uid s then some s else find_uid uid (c name))
unfolding cache_session
find_uid-cache_session name uid s c = elim (Bool-cases (s.user_ref.name == name)) [
  | inr miss ↦ ground (arith, miss)
  | inl hit ↦
      let at : c s.user_ref.name ≡ c name = ap c ((eq_iff s.user_ref.name name).0 hit) in
      ground (arith, hit, at, find_uid-put_session uid s (c s.user_ref.name))
]

find_uid-uncache_session :
    (name uid : String) (s : Session) (c : SessionMap)
    → find_uid uid (uncache_session s c name)
      ≡ (if is_of name uid s then none else find_uid uid (c name))
unfolding uncache_session
find_uid-uncache_session name uid s c = elim (Bool-cases (s.user_ref.name == name)) [
  | inr miss ↦ ground (arith, miss)
  | inl hit ↦
      let at : c s.user_ref.name ≡ c name = ap c ((eq_iff s.user_ref.name name).0 hit) in
      ground (arith, hit, at, find_uid-without_uid uid s.metadata.uid (c s.user_ref.name))
]

pub is_served-is_hosting :
    (svc : Service) (s : Session) → is_served_by_session svc.metadata.uid s ≡ is_hosting svc s
unfolding is_served_by_session is_client_connected
is_served-is_hosting svc s = elim (Option-cases s.connection) [
  | inl e ↦ ground (arith, e)
  | inr (conn, e) ↦ ground (arith, e, contains_upstream-any svc.metadata.uid conn.upstreams)
]

is_hosting-same :
    (svc : Service) (s t : Session)
    → s.connection ≡ t.connection
    → s.type ≡ t.type
    → is_hosting svc s ≡ is_hosting svc t
is_hosting-same svc s t e f = ground (arith, e, f)

abbrev pub connection_of : Option Session → Option (Option Connection)
connection_of none = none
connection_of (some s) = some s.connection

-- The connection of a Session that hosts the Service, and nothing for any other.
abbrev pub served_connection : Service → Option Session → Option (Option Connection)
served_connection svc none = none
served_connection svc (some s) = if is_hosting svc s then some s.connection else none

module _ (is_equal : Option Connection → Option Connection → Bool) (svc : Service) where
  -- The cache after the changes, the last first.
  unfoldable pub watched : List Change → SessionMap
  watched [] = new_session_map
  watched (added s ∷ xs) = on_session_add is_equal svc s (watched xs)
  watched (updated s old ∷ xs) = on_session_update is_equal svc s old (watched xs)
  watched (removed s ∷ xs) = on_session_delete is_equal svc s (watched xs)

  last_seen-of :
      (name uid : String) (s old : Session) (xs : List Change)
      → last_seen old.user_ref.name old.metadata.uid xs ≡ some old
      → s.user_ref.name ≡ old.user_ref.name
      → s.metadata.uid ≡ old.metadata.uid
      → is_of name uid s ≡ true
      → last_seen name uid xs ≡ some old
  last_seen-of name uid s old xs e u i hit =
      let at : old.user_ref.name ≡ name =
        sym u ∙ (eq_iff s.user_ref.name name).0 (ground (arith, hit)) in
      let on : old.metadata.uid ≡ uid =
        sym i ∙ (eq_iff s.metadata.uid uid).0 (ground (arith, hit)) in
      ap (λ n. last_seen n uid xs) (sym at)
      ∙ ap (λ n. last_seen old.user_ref.name n xs) (sym on)
      ∙ e

  -- After any changes that the watcher reports, where an update is of a Session as it was
  -- reported last and keeps its User, UID and type, and what is added was not there: the cache
  -- holds a connection under the name of a User and a UID exactly where the Session was reported
  -- last as a connected client with an upstream of the Service, and that connection, if `IsEqual`
  -- holds only of equal connections.
  pub watched-last_seen :
      ((a b : Option Connection) → is_equal a b ≡ true → a ≡ b)
      → (xs : List Change) (name uid : String) → IsWatch xs
      → connection_of (find_uid uid (watched xs name))
        ≡ served_connection svc (last_seen name uid xs)
  unfolding watched last_seen IsWatch on_session_add on_session_update on_session_delete
  watched-last_seen eq [] name uid w = refl
  watched-last_seen eq (added s ∷ xs) name uid w = elim (Bool-cases (is_of name uid s)) [
    | inr miss ↦ ground (
      arith,
      miss,
      find_uid-cache_session name uid s (watched xs),
      watched-last_seen eq xs name uid w.1,
    )
    | inl hit ↦
        let at : s.user_ref.name ≡ name = (eq_iff s.user_ref.name name).0 (ground (arith, hit)) in
        let on : s.metadata.uid ≡ uid = (eq_iff s.metadata.uid uid).0 (ground (arith, hit)) in
        let fresh : last_seen name uid xs ≡ none =
          ap (λ n. last_seen n uid xs) (sym at)
          ∙ ap (λ n. last_seen s.user_ref.name n xs) (sym on)
          ∙ w.0 in
        ground (
          arith,
          hit,
          fresh,
          is_served-is_hosting svc s,
          find_uid-cache_session name uid s (watched xs),
          watched-last_seen eq xs name uid w.1,
        )
  ]
  watched-last_seen eq (removed s ∷ xs) name uid w =
      ground (
        arith,
        find_uid-uncache_session name uid s (watched xs),
        watched-last_seen eq xs name uid w,
      )
  watched-last_seen eq (updated s old ∷ xs) name uid (e, u, i, t, w) =
      elim (Bool-cases (is_of name uid s)) [
        | inr miss ↦ ground (
          arith,
          miss,
          find_uid-cache_session name uid s (watched xs),
          find_uid-uncache_session name uid s (watched xs),
          watched-last_seen eq xs name uid w,
        )
        | inl hit ↦
            let before = last_seen-of name uid s old xs e u i hit in
            elim (Bool-cases (is_equal s.connection old.connection)) [
              | inl same ↦
                  let c : s.connection ≡ old.connection = eq s.connection old.connection same in
                  ground (
                    arith,
                    hit,
                    same,
                    before,
                    c,
                    is_hosting-same svc s old c t,
                    watched-last_seen eq xs name uid w,
                  )
              | inr differ ↦ ground (
                arith,
                hit,
                differ,
                before,
                is_served-is_hosting svc s,
                is_served-is_hosting svc old,
                find_uid-cache_session name uid s (watched xs),
                find_uid-uncache_session name uid s (watched xs),
                watched-last_seen eq xs name uid w,
              )
            ]
      ]
