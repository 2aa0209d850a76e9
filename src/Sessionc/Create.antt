-- ===== src/Sessionc/Create.antt =====
-- cluster/common/sessionc/sessionc.go: `NewSession`, `CreateSession` and the limit of Sessions per
-- User.
use Prim.Native.String.{◌++◌ as append}
use octelium.Base.{
  ℕ, suc, String, ◌%◌, ◌^◌, Bool, false, Option, none, some, List, [], ◌∷◌, Result, ok, err, failed,
  ◌>>=◌, ltb, leb, ◌==◌, if◌then◌else◌,
}
use octelium.Corev1.Policy.{ObjectReference, Authorization, Struct}
use octelium.Corev1.Scope.{Scope}
use octelium.Corev1.Session.{
  SessionType, AuthenticatorAction, AuthenticationInfo, Authentication, SessionLimits, Session,
}
use octelium.Corev1.Resources.{UserType, User, Device, ClusterConfig}
use octelium.Apiutils.{get_object_reference}
use octelium.Sessionc.Lifetime.{
  cluster_limits, first_set, session_duration, initial_state, expiry, access_token_duration_of,
  refresh_token_duration_of,
}
use octelium.Sessionc.Caller.{
  Around, forwarded_address, recorded_agent, client_version_of, map_info,
}

-- `CreateSessionOpts`, less its clients; a zero `ExpiresAt` is none.
pub record CreateSessionOpts : Type 0 where
  pub usr : User
  pub device : Option Device
  pub cluster_config : Option ClusterConfig
  pub sess_type : SessionType
  pub is_browser : Bool
  pub scopes : List Scope
  pub authentication_info : Option AuthenticationInfo
  pub authorization : Option Authorization
  pub credential_ref : Option ObjectReference
  pub expires_at : Option ℕ
  pub user_agent : String
  pub xff : String
  pub ext : List (String × Struct)
  pub check_per_user_limit : Bool
  pub authenticator_action : AuthenticatorAction
  pub required_authenticator_ref : Option ObjectReference

-- The `Authentication` that `NewSession` makes.
unfoldable pub new_authentication : Around → ClusterConfig → CreateSessionOpts → Authentication
new_authentication a cc o = record {
  token_id = a.uuid;
  set_at = a.now;
  access_token_duration = access_token_duration_of cc o.usr;
  refresh_token_duration = refresh_token_duration_of cc o.usr;
  info =
      map_info
        (record {
          ip_address = forwarded_address a.parse_addr cc o.xff;
          user_agent = recorded_agent o.user_agent;
          client_version = client_version_of (recorded_agent o.user_agent);
        })
        o.authentication_info;
}

abbrev pub picture : Option AuthenticationInfo → String
picture none = ""
picture (some i) = elim i.pic_url [ none ↦ "" | some url ↦ url ]

abbrev pub device_reference : Option Device → Option ObjectReference
device_reference none = none
device_reference (some d) = some (get_object_reference "Device" d.metadata)

-- The Session that `NewSession` fills in, under the UID that the resource server gives it.
unfoldable pub session_of : Around → ClusterConfig → CreateSessionOpts → Session
session_of a cc o =
    let authentication = new_authentication a cc o in
    record {
      metadata = record {
        name = append o.usr.metadata.name (append "-" a.random_suffix);
        uid = a.uid;
        resource_version = "";
        pic_url = picture o.authentication_info;
      };
      state = initial_state cc o.usr;
      expires_at = some (expiry a.now (session_duration cc o.usr o.sess_type) o.expires_at);
      authorization = o.authorization;
      type = o.sess_type;
      user_ref = get_object_reference "User" o.usr.metadata;
      device_ref = device_reference o.device;
      connection = none;
      is_locked = false;
      authenticator_action = o.authenticator_action;
      scopes = o.scopes;
      authentication = authentication;
      initial_authentication = authentication;
      last_authentications = [];
      total_authentications = 1;
      is_browser = o.is_browser;
      credential_ref = o.credential_ref;
      ext = o.ext;
      required_authenticator_ref = o.required_authenticator_ref;
    }

abbrev pub cluster_config_of : Around → CreateSessionOpts → Result ClusterConfig
cluster_config_of a o = elim o.cluster_config [ none ↦ a.get_cluster_config | some cc ↦ ok cc ]

unfoldable pub new_session : Around → CreateSessionOpts → Result Session
new_session a o = do cc ← cluster_config_of a o; ok (session_of a cc o)

-- `ListSession` with `FilterByUser`: the Sessions of the User with a UID.
abbrev pub is_session_of : String → Session → Bool
is_session_of uid s = s.user_ref.uid == uid

unfoldable pub count_sessions : String → List Session → ℕ
count_sessions uid [] = 0
count_sessions uid (s ∷ ss) =
    let rest = count_sessions uid ss in if is_session_of uid s then suc rest else rest

abbrev pub limits_max : Option SessionLimits → ℕ
limits_max none = 0
limits_max (some l) = l.max_per_user

abbrev pub cluster_max : ClusterConfig → UserType → ℕ
cluster_max cc UserType.human = first_set (limits_max (cluster_limits cc UserType.human)) 16
cluster_max cc _ = first_set (limits_max (cluster_limits cc UserType.workload)) 128

unfoldable pub max_sessions : ClusterConfig → User → ℕ
max_sessions cc usr =
    let m = first_set (limits_max usr.session) (cluster_max cc usr.type) in
    if ltb 10000 m then 10000 else m

-- The number of Sessions is cut to a uint32.
unfoldable pub check_max_sessions_per_user : User → ClusterConfig → List Session → Result (Unit {0})
check_max_sessions_per_user usr cc store =
    if leb (max_sessions cc usr) (count_sessions usr.metadata.uid store % 2 ^ 32)
    then err (failed "Session per User limit exceeded")
    else ok tt

-- The Sessions of the resource server, the newest first.
unfoldable pub create_session :
    Around → CreateSessionOpts → List Session → Result Session × List Session
create_session a o store = elim (cluster_config_of a o) [
  | err e ↦ (err e, store)
  | ok cc ↦
      elim (if o.check_per_user_limit then check_max_sessions_per_user o.usr cc store else ok tt) [
        | err e ↦ (err e, store)
        | ok n ↦ elim (new_session a (record o { cluster_config = some cc })) [
          | err e ↦ (err e, store)
          | ok s ↦ (ok s, s ∷ store)
        ]
      ]
]
