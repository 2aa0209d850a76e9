-- ===== src/Corev1/Policy.antt =====
-- Conditions, rules and policies: apis/main/corev1/corev1.pb.go.
use octelium.Base.{ℕ, String, Bool, Option, List}

-- Texts that hold JSON.
abbrev pub Struct : Type 0
Struct = String

abbrev pub AnyMap : Type 0
AnyMap = String

pub record ObjectReference : Type 0 where
  pub api_version : String
  pub kind : String
  pub uid : String
  pub name : String
  pub resource_version : String

pub record Metadata : Type 0 where
  pub name : String
  pub uid : String
  pub resource_version : String
  pub pic_url : String

-- `null` is the nil pointer, and `unset` a condition whose oneof `Type` is nil. `all_of`, `any_of`
-- and `none_of` hold the list `Of`, empty where the code finds a nil message.
mutual
  pub data Condition : Type 0 where
    null unset opa_unset : Condition
    match_any : Bool → Condition
    match not_match opa_inline : String → Condition
    all_of any_of none_of : Conditions → Condition

  pub data Conditions : Type 0 where
    nil : Conditions
    cons : Condition → Conditions → Conditions

-- The enums of proto3 are open: `undefined` is a number that the enum does not name.
pub data Effect : Type 0 where
  unknown allow deny : Effect
  undefined : ℕ → Effect

pub data EnforcementEffect : Type 0 where
  effect_unknown enforce ignore : EnforcementEffect
  effect_undefined : ℕ → EnforcementEffect

-- `priority` is an int32, kept as its bit pattern: below 2 ^ 32, in two's complement.
pub record Rule : Type 0 where
  pub name : String
  pub priority : ℕ
  pub effect : Effect
  pub condition : Condition

pub record EnforcementRule : Type 0 where
  pub effect : EnforcementEffect
  pub condition : Condition

pub record PolicySpec : Type 0 where
  pub is_disabled : Bool
  pub attrs : Struct
  pub rules : List Rule
  pub enforcement_rules : List EnforcementRule

pub record Policy : Type 0 where
  pub metadata : Metadata
  pub spec : PolicySpec

pub record InlinePolicy : Type 0 where
  pub name : String
  pub spec : PolicySpec

-- The `Authorization` message of a User, Group, Service, Namespace, Session or Device.
pub record Authorization : Type 0 where
  pub policies : List String
  pub inline_policies : List InlinePolicy

-- `PreCondition` of a PolicyTrigger: times are nanoseconds since the Unix epoch, and `none` where
-- the timestamp is nil or not valid.
mutual
  pub data PreCondition : Type 0 where
    null unset : PreCondition
    condition : Condition → PreCondition
    match_any : Bool → PreCondition
    not_after not_before : Option ℕ → PreCondition
    session_ref user_ref : Option ObjectReference → PreCondition
    all_of any_of : PreConditions → PreCondition

  pub data PreConditions : Type 0 where
    nil : PreConditions
    cons : PreCondition → PreConditions → PreConditions

pub record PolicyTrigger : Type 0 where
  pub metadata : Metadata
  pub is_disabled : Bool
  pub pre_condition : PreCondition
  pub policies : List String
  pub inline_policies : List InlinePolicy
  pub owner_ref : Option ObjectReference
