-- ===== src/Vigil/Sessions.antt =====
-- cluster/vigil/vigil/loadbalancer/cache.go: the Sessions of each User, by its name.
use octelium.Base.{String, Option, none, some, List, [], ◌∷◌, ◌==◌, if◌then◌else◌}
use octelium.Corev1.Session.{Session}
use octelium.Corev1.Resources.{Service}
use octelium.Apiutils.{is_served_by_session}
use octelium.Upstream.Candidates.{has_session_uid, put_session}

-- A missing key holds no Session, as does an empty list.
abbrev pub SessionMap : Type 0
SessionMap = String → List Session

abbrev pub new_session_map : SessionMap
new_session_map name = []

abbrev pub find_served : Service → List Session → Option Session
find_served svc [] = none
find_served svc (s ∷ ss) =
    let rest = find_served svc ss in
    if is_served_by_session svc.metadata.uid s then some s else rest

unfoldable pub get_by_user_name : String → Service → SessionMap → Option Session
get_by_user_name name svc c = find_served svc (c name)

abbrev at_name : String → List Session → SessionMap → SessionMap
at_name name ss c = λ n. if name == n then ss else c n

-- `setSession`
unfoldable pub cache_session : Session → SessionMap → SessionMap
cache_session s c = at_name s.user_ref.name (put_session s (c s.user_ref.name)) c

abbrev pub without_uid : String → List Session → List Session
without_uid uid [] = []
without_uid uid (s ∷ ss) =
    let rest = without_uid uid ss in if has_session_uid uid s then rest else s ∷ rest

-- `deleteSession`
unfoldable pub uncache_session : Session → SessionMap → SessionMap
uncache_session s c = at_name s.user_ref.name (without_uid s.metadata.uid (c s.user_ref.name)) c
