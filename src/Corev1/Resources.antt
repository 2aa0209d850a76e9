-- ===== src/Corev1/Resources.antt =====
-- Users, Devices, Groups, Namespaces, Services and the request context:
-- apis/main/corev1/corev1.pb.go. The fields of `Spec` and `Status` stand side by side.
use octelium.Base.{ℕ, String, Bool, Option, List}
use octelium.Corev1.Policy.{ObjectReference, Metadata, Authorization, Condition}
use octelium.Corev1.Scope.{Request}
use octelium.Corev1.Session.{SessionLimits, DualStackNetwork, Session}

pub data UserType : Type 0 where
  type_unknown human workload : UserType

pub record User : Type 0 where
  pub metadata : Metadata
  pub type : UserType
  pub session : Option SessionLimits
  pub is_disabled : Bool
  pub groups : List String
  pub authorization : Option Authorization
  pub is_locked : Bool

pub data DeviceState : Type 0 where
  state_unknown active pending rejected : DeviceState

pub record Device : Type 0 where
  pub metadata : Metadata
  pub state : DeviceState
  pub authorization : Option Authorization
  pub is_locked : Bool

pub record Group : Type 0 where
  pub metadata : Metadata
  pub authorization : Option Authorization

pub record Namespace : Type 0 where
  pub metadata : Metadata
  pub authorization : Option Authorization

pub record DynamicRule : Type 0 where
  pub condition : Condition
  pub config_name : String

pub data ServiceMode : Type 0 where
  mode_unset tcp udp http ssh kubernetes postgres mysql grpc web dns : ServiceMode

pub record Endpoint : Type 0 where
  pub url : String
  pub user : String

-- `container` holds the port of a container.
pub data UpstreamType : Type 0 where
  unset : UpstreamType
  url : String → UpstreamType
  loadbalance : List Endpoint → UpstreamType
  container : ℕ → UpstreamType

pub record ServiceUpstream : Type 0 where
  pub user : String
  pub type : UpstreamType

-- The flags are those of the SSH and of the HTTP config, and false where the config is another.
pub record ServiceConfig : Type 0 where
  pub name : String
  pub upstream : Option ServiceUpstream
  pub essh_mode : Bool
  pub is_upstream_http2 : Bool
  pub listen_http2 : Bool

-- `spec_labels` is the map `SpecLabels` of the Metadata, with each key once.
-- `managed_service_port` is the port of the ManagedService, and 0 where there is none.
-- `managed_service` is the type of the ManagedService.
pub record Service : Type 0 where
  pub metadata : Metadata
  pub is_public : Bool
  pub authorization : Option Authorization
  pub dynamic_rules : Option (List DynamicRule)
  pub namespace_ref : ObjectReference
  pub managed_service : Option String
  pub managed_service_port : ℕ
  pub mode : ServiceMode
  pub is_tls : Bool
  pub region : String
  pub config : Option ServiceConfig
  pub spec_labels : List (String × String)

pub record RequestContext : Type 0 where
  pub user : Option User
  pub session : Option Session
  pub service : Option Service
  pub device : Option Device
  pub groups : List Group
  pub namespace : Option Namespace
  pub request : Option Request

-- `ClusterConfig.Spec.Session`
pub record ClusterSession : Type 0 where
  pub human : Option SessionLimits
  pub workload : Option SessionLimits

-- The subnets are those of `Status.Network`. `use_forwarded_for_header` is that of `Ingress`, and
-- false where it is nil.
pub record ClusterConfig : Type 0 where
  pub wg_conn_subnet : DualStackNetwork
  pub quic_conn_subnet : DualStackNetwork
  pub session : Option ClusterSession
  pub use_forwarded_for_header : Bool
