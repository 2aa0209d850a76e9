-- ===== src/Sessionc/Tests.antt =====
-- Sessions of cluster/common/sessionc/sessionc.go at concrete Users.
use octelium.Base.{
  ◌^◌, ◌≤◌, ◌<◌, ◌≡◌, refl, true, false, ◌&&◌, none, some, List, [], ◌∷◌, ok, ◌==◌, arith,
}
use octelium.Base.Text.{split, strip_prefix}
use octelium.Corev1.Session.{Duration, SessionType, SessionState, AuthenticatorAction, Session}
use octelium.Corev1.Resources.{User, ClusterConfig}
use octelium.Apiutils.{to_go, has_valid_refresh_token, has_valid_refresh_token_by_token_id}
use octelium.Sessionc.Lifetime.{
  session_duration, access_token_duration_of, refresh_token_duration_of, long_enough,
}
use octelium.Sessionc.Caller.{Around, client_version_of}
use octelium.Sessionc.Create.{
  CreateSessionOpts, session_of, count_sessions, max_sessions, create_session, new_session,
}
use octelium.Sessionc.Authenticate.{SetCurrAuthenticationOpts, set_curr_authentication}
use octelium.Sessionc.History.{
  Follows, begun, again, IsKept, new_session-IsKept, new_session-refresh_token,
}
use octelium.Sessionc.Limit.{Changes, unchanged, changed, created, Changes-bound}
use octelium.Samples.{a_user}
use octelium.Octovigil.Samples.{parse}

abbrev config : ClusterConfig
config = record {
  wg_conn_subnet = record { v4 = "100.64.0.0/16"; v6 = "" };
  quic_conn_subnet = record { v4 = "100.65.0.0/16"; v6 = "" };
  session = none;
  use_forwarded_for_header = false;
}

-- A User of whom at most one Session is wanted, with a refresh token of an hour.
abbrev limited : User
limited = record a_user {
  session = some (record {
    client_duration = none;
    clientless_duration = some (Duration.hours 3);
    access_token_duration = some (Duration.minutes 20);
    refresh_token_duration = some (Duration.hours 1);
    max_per_user = 1;
    default_state = SessionState.state_unknown;
  });
}

abbrev around : Around
around = record {
  now = 7;
  random_suffix = "abcdef";
  uuid = "t-1";
  uid = "s-1";
  get_cluster_config = ok config;
  parse_addr = parse;
}

abbrev opts : CreateSessionOpts
opts = record {
  usr = limited;
  device = none;
  cluster_config = some config;
  sess_type = SessionType.clientless;
  is_browser = true;
  scopes = [];
  authentication_info = none;
  authorization = none;
  credential_ref = none;
  expires_at = none;
  user_agent = "";
  xff = "";
  ext = [];
  check_per_user_limit = true;
  authenticator_action = AuthenticatorAction.action_unset;
  required_authenticator_ref = none;
}

version_read : client_version_of "octelium-cli/1.2.3 linux" ≡ "1.2.3"
unfolding client_version_of split strip_prefix
version_read = refl

own_duration : session_duration config limited SessionType.clientless ≡ 10800000000000
unfolding session_duration to_go
own_duration = refl

-- 20 minutes are too short, so that the access token lasts 4 hours, and the refresh token, which
-- would last an hour, as long.
lifted : refresh_token_duration_of config limited ≡ some (Duration.hours 4)
unfolding refresh_token_duration_of access_token_duration_of long_enough to_go
lifted = refl

abbrev first_session : Session
first_session = session_of around config opts

makes_it : new_session around opts ≡ ok first_session
unfolding new_session
makes_it = refl

abbrev again_opts : SetCurrAuthenticationOpts
again_opts = record { auth_info = none; user_agent = ""; cluster_config = config; xff = "" }

abbrev second_session : Session
second_session = set_curr_authentication around again_opts first_session

follows : Follows first_session (first_session.authentication ∷ []) second_session
follows = again [] first_session around again_opts begun

new_session-IsKept_example : IsKept (first_session.authentication ∷ []) second_session
new_session-IsKept_example =
    new_session-IsKept around opts first_session second_session (first_session.authentication ∷ [])
      makes_it follows

new_session-refresh_token_example :
    has_valid_refresh_token_by_token_id 9 second_session "t-1"
    ≡ (second_session.authentication.token_id == "t-1" && has_valid_refresh_token 9 second_session)
new_session-refresh_token_example =
    new_session-refresh_token around opts first_session second_session
      (first_session.authentication ∷ []) 9 "t-1" makes_it follows

abbrev one_stored : List Session
one_stored = (create_session around opts []).1

abbrev still_one : List Session
still_one = (create_session around opts one_stored).1

limit_kept : max_sessions config limited ≡ 1
unfolding max_sessions
limit_kept = refl

changes : Changes "u-uid" 1 [] still_one
unfolding max_sessions
changes =
    changed one_stored still_one (changed [] one_stored unchanged (created around opts refl))
      (created around opts refl)

none_yet : count_sessions "u-uid" [] ≤ 1
unfolding count_sessions
none_yet = omega arith

Changes-bound_example : count_sessions "u-uid" still_one ≤ 1
Changes-bound_example = Changes-bound "u-uid" 1 [] still_one (omega arith) none_yet changes

not_many : count_sessions "u-uid" [] < 2 ^ 32
unfolding count_sessions
not_many = omega arith
