-- ===== src/Sessionc/Authenticate.antt =====
-- cluster/common/sessionc/sessionc.go: `SetCurrAuthentication`.
use octelium.Base.{String, ◌+◌, ◌%◌, ◌^◌, Option, List, ◌∷◌, leb, length, take, if◌then◌else◌}
use octelium.Corev1.Session.{AuthenticationInfo, Authentication, Session}
use octelium.Corev1.Resources.{ClusterConfig}
use octelium.Sessionc.Caller.{Around, forwarded_address, recorded_agent, map_info}

-- `SetCurrAuthenticationOpts`, less the Session, with the ClusterConfig.
pub record SetCurrAuthenticationOpts : Type 0 where
  pub auth_info : Option AuthenticationInfo
  pub user_agent : String
  pub cluster_config : ClusterConfig
  pub xff : String

-- `prependAuthenticationToLastArray`
unfoldable pub prepend_authentication : Authentication → List Authentication → List Authentication
prepend_authentication au last = au ∷ (if leb 100 (length last) then take 98 last else last)

unfoldable pub set_curr_authentication : Around → SetCurrAuthenticationOpts → Session → Session
set_curr_authentication a o s = record s {
  last_authentications = prepend_authentication s.authentication s.last_authentications;
  total_authentications = (s.total_authentications + 1) % 2 ^ 32;
  authentication = record {
    token_id = a.uuid;
    set_at = a.now;
    access_token_duration = s.initial_authentication.access_token_duration;
    refresh_token_duration = s.initial_authentication.refresh_token_duration;
    info =
        map_info
          (record {
            ip_address = forwarded_address a.parse_addr o.cluster_config o.xff;
            user_agent = recorded_agent o.user_agent;
            client_version = "";
          })
          o.auth_info;
  };
}
