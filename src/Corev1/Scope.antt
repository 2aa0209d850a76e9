-- ===== src/Corev1/Scope.antt =====
-- Scopes of a Session, and the request of a RequestContext: apis/main/corev1/corev1.pb.go.
use octelium.Base.{String, Option, List}

pub data ScopeApi : Type 0 where
  all unset : ScopeApi
  filter : List String → List String → List String → ScopeApi

pub data ScopeService : Type 0 where
  all unset : ScopeService
  filter : List String → List String → ScopeService

pub data Scope : Type 0 where
  service : ScopeService → Scope
  api : ScopeApi → Scope
  unset : Scope

-- A Go `map[string]string`: the first entry of a key counts.
abbrev pub Headers : Type 0
Headers = List (String × String)

pub record HttpRequest : Type 0 where
  pub headers : Headers

-- The gRPC package, service and method, and the HTTP request that carried them.
pub record GrpcRequest : Type 0 where
  pub package_name : String
  pub service : String
  pub method : String
  pub http : Option HttpRequest

-- `RequestContext_Request`: `other` is any other or no `Type`.
pub data Request : Type 0 where
  http : HttpRequest → Request
  grpc : GrpcRequest → Request
  kubernetes : Option HttpRequest → Request
  other : Request
