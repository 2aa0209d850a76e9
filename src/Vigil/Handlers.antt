-- ===== src/Vigil/Handlers.antt =====
-- cluster/vigil/vigil/loadbalancer/loadbalancer.go: the handlers of the watcher of Sessions.
use octelium.Base.{Bool, not, ◌&&◌, Option, if◌then◌else◌}
use octelium.Corev1.Session.{Connection, Session}
use octelium.Corev1.Resources.{Service}
use octelium.Apiutils.{is_served_by_session}
use octelium.Vigil.Sessions.{SessionMap, cache_session, uncache_session}

-- The Service is that of the proxy, which keeps its UID; `is_equal` is `IsEqual` of pbutils.
module _ (is_equal : Option Connection → Option Connection → Bool) (svc : Service) where
  unfoldable pub on_session_add : Session → SessionMap → SessionMap
  on_session_add sess c =
      if is_served_by_session svc.metadata.uid sess then cache_session sess c else c

  -- Of the new Session and the old one.
  unfoldable pub on_session_update : Session → Session → SessionMap → SessionMap
  on_session_update new old c =
      if is_equal new.connection old.connection
      then c
      else if is_served_by_session svc.metadata.uid new
      then cache_session new c
      else if not (is_served_by_session svc.metadata.uid new)
          && is_served_by_session svc.metadata.uid old
      then uncache_session new c
      else c

  unfoldable pub on_session_delete : Session → SessionMap → SessionMap
  on_session_delete sess c = uncache_session sess c
