-- ===== src/Octovigil/Acache/Tests.antt =====
-- The theorems on the cache at concrete resources.
use octelium.Base.{none, String, ◌≡◌, false, some, [], ◌∷◌, ok, err, not_found, ◌==◌, if◌then◌else◌}
use octelium.Corev1.Session.{L3Mode, ConnectionType, Session}
use octelium.Octovigil.Acache.{new_cache, get_session, set_session, delete_session}
use octelium.Octovigil.Acache.Sessions.{is_key, get_session-set_session, get_session-delete_session}
use octelium.Samples.{a_session}

-- The part of a CIDR before its slash, for one CIDR.
abbrev ip_of : String → String
ip_of s = if s == "100.64.0.2/32" then "100.64.0.2" else s

abbrev connected : Session
connected = record a_session {
  connection = some (record {
    addresses = record { v4 = "100.64.0.2/32"; v6 = "" } ∷ [];
    type = ConnectionType.wireguard;
    service_options = none;
    l3_mode = L3Mode.v4;
    upstreams = [];
    essh_enable = false;
  });
}

get_session-set_session_example :
    get_session (set_session ip_of new_cache connected) "100.64.0.2" ≡ (
      if is_key ip_of new_cache connected "100.64.0.2"
      then ok connected
      else get_session new_cache "100.64.0.2")
get_session-set_session_example =
    get_session-set_session ip_of new_cache connected "100.64.0.2" (λ e. cc) (λ e. cc)

get_session-delete_session_example :
    get_session
      (delete_session ip_of (set_session ip_of new_cache connected) connected)
      "100.64.0.2"
    ≡ (if is_key ip_of new_cache connected "100.64.0.2"
        then err not_found
        else get_session (set_session ip_of new_cache connected) "100.64.0.2")
get_session-delete_session_example =
    get_session-delete_session ip_of (set_session ip_of new_cache connected) connected "100.64.0.2"
