-- ===== src/Corev1/Session.antt =====
-- Sessions: apis/main/corev1/corev1.pb.go. The fields of `Spec` and `Status` stand side by side.
-- A time is a number of nanoseconds since the Unix epoch.
use octelium.Base.{ℕ, String, Bool, Option, List}
use octelium.Corev1.Policy.{ObjectReference, Metadata, Authorization, Struct}
use octelium.Corev1.Scope.{Scope}

-- `metav1.Duration`; the amounts are uint32, and `unset` is a nil `Type`.
pub data Duration : Type 0 where
  milliseconds seconds minutes hours days weeks months : ℕ → Duration
  unset : Duration

pub data SessionType : Type 0 where
  type_unknown client clientless : SessionType

pub data SessionState : Type 0 where
  state_unknown active pending rejected : SessionState

-- `other` is a number that names no value of the enum.
pub data AuthenticatorAction : Type 0 where
  action_unset authentication_required registration_required : AuthenticatorAction
  authentication_recommended registration_recommended : AuthenticatorAction
  other : ℕ → AuthenticatorAction

pub record Downstream : Type 0 where
  pub ip_address : String
  pub user_agent : String
  pub client_version : String

-- `Authentication.Info`, of which `Downstream` may be nil; `pic_url` is that of the identity
-- provider, where it is the detail.
pub record AuthenticationInfo : Type 0 where
  pub pic_url : Option String
  pub downstream : Option Downstream

pub record Authentication : Type 0 where
  pub token_id : String
  pub set_at : ℕ
  pub access_token_duration : Option Duration
  pub refresh_token_duration : Option Duration
  pub info : Option AuthenticationInfo

pub data L3Mode : Type 0 where
  mode_unset both v4 v6 : L3Mode

pub record DualStackNetwork : Type 0 where
  pub v4 : String
  pub v6 : String

-- `port` is an int32, kept as its bit pattern.
pub record UpstreamBackend : Type 0 where
  pub host : String
  pub port : ℕ

pub record Upstream : Type 0 where
  pub service_uid : String
  pub port : ℕ
  pub backend : UpstreamBackend
  pub is_udp : Bool
  pub is_essh : Bool

pub data ConnectionType : Type 0 where
  type_unknown wireguard quicv0 : ConnectionType

-- `port_start` is an int32, kept as its bit pattern.
-- `requested_services` are the UIDs of their references.
pub record ServiceOptions : Type 0 where
  pub serve_all : Bool
  pub requested_services : List String
  pub port_start : ℕ

pub record Connection : Type 0 where
  pub type : ConnectionType
  pub service_options : Option ServiceOptions
  pub addresses : List DualStackNetwork
  pub l3_mode : L3Mode
  pub upstreams : List Upstream
  pub essh_enable : Bool

-- What a User or the ClusterConfig says of Sessions: `User.Spec.Session`, and `Human` and `Workload`
-- of `ClusterConfig.Spec.Session`. A maximum of 0 is none.
pub record SessionLimits : Type 0 where
  pub client_duration : Option Duration
  pub clientless_duration : Option Duration
  pub access_token_duration : Option Duration
  pub refresh_token_duration : Option Duration
  pub max_per_user : ℕ
  pub default_state : SessionState

-- `authentication` and `initial_authentication` are not nil: the code reads their fields with no
-- check.
pub record Session : Type 0 where
  pub metadata : Metadata
  pub state : SessionState
  pub expires_at : Option ℕ
  pub authorization : Option Authorization
  pub type : SessionType
  pub user_ref : ObjectReference
  pub device_ref : Option ObjectReference
  pub connection : Option Connection
  pub is_locked : Bool
  pub authenticator_action : AuthenticatorAction
  pub scopes : List Scope
  pub authentication : Authentication
  pub initial_authentication : Authentication
  pub last_authentications : List Authentication
  pub total_authentications : ℕ
  pub is_browser : Bool
  pub credential_ref : Option ObjectReference
  pub ext : List (String × Struct)
  pub required_authenticator_ref : Option ObjectReference
