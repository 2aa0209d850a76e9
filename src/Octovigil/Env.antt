-- ===== src/Octovigil/Env.antt =====
-- What the Server of cluster/octovigil/octovigil rests on: the resource server behind `octeliumC`,
-- the conversions of pkg/common/pbutils into maps (protojson and encoding/json), CEL and OPA,
-- `slices.SortFunc`, and the clock, which one call reads once.
use octelium.Base.{ℕ, String, Result}
use octelium.Base.Sort.{SortFunc}
use octelium.Corev1.Policy.{Struct, AnyMap, Policy}
use octelium.Corev1.Resources.{User, Device, Group, Namespace, Service, RequestContext}
use octelium.Celengine.{Engine}
use octelium.Octovigil.Decision.{PolicyRule}

-- The answers of the resource server, which do not change during one call. Users, Devices and
-- Services are asked for by UID, the others by name.
pub record Backend : Type 0 where
  pub fetch_policy : String → Result Policy
  pub fetch_namespace : String → Result Namespace
  pub fetch_user : String → Result User
  pub fetch_device : String → Result Device
  pub fetch_group : String → Result Group
  pub fetch_service : String → Result Service

pub record Env : Type 0 where
  pub engine : Engine
  pub backend : Backend
  pub convert_attrs : Struct → Result AnyMap
  pub convert_ctx : RequestContext → Result AnyMap
  pub sort_func : SortFunc PolicyRule
  pub now : ℕ
