-- ===== src/Octovigil/AllRules.antt =====
-- `getAllRules` and `getDecision` of cluster/octovigil/octovigil/policy.go.
pub mod Namespaces
pub mod Collected
use octelium.Base.{
  String, Bool, true, false, Option, none, some, List, [], ◌∷◌, ◌++◌, not_found, Error, Result, ok,
  err,
}
use octelium.Apiutils.{get_object_reference}
use octelium.Corev1.Policy.{ObjectReference, AnyMap, Metadata, Authorization, PolicyTrigger}
use octelium.Corev1.Session.{Session}
use octelium.Corev1.Resources.{User, Device, Group, Namespace, Service, RequestContext}
use octelium.Octovigil.Decision.{PolicyRule, DecisionResult, do_get_decision}
use octelium.Octovigil.Acache.{Cache, get_namespace, set_namespace}
use octelium.Octovigil.Env.{Env}
use octelium.Base.Exec.{Exec, pure, ◌>>=◌}
use octelium.Octovigil.Walk.{Walk}
use octelium.Octovigil.Rules.{get_resource_policy_rules}
use octelium.Octovigil.Trigger.{Caller, get_rules_from_policy_triggers}

-- The parts of a RequestContext that `isAuthorized` has found not nil, and the rest.
pub record Asked : Type 0 where
  pub user : User
  pub session : Session
  pub service : Service
  pub device : Option Device
  pub groups : List Group

-- Collections one after the other, whose rules are appended; the first that fails ends them.
unfoldable pub collect : List (Exec Walk (List PolicyRule)) → Exec Walk (List PolicyRule)
collect [] = pure []
collect (m ∷ ms) = do rs ← m; rest ← collect ms; pure (rs ++ rest)

module _ (env : Env) where
  abbrev pub fetch_missing_namespace : String → Error → Exec Walk Namespace
  fetch_missing_namespace name not_found w = elim (env.backend.fetch_namespace name) [
    | err e ↦ (err e, w)
    | ok n ↦ (ok n, record w { cache = (set_namespace w.cache n).1 })
  ]
  fetch_missing_namespace name e w = (err e, w)

  unfoldable pub get_namespace_from_name : String → Exec Walk Namespace
  get_namespace_from_name name w = elim (get_namespace w.cache name) [
    | ok n ↦ (ok n, w)
    | err e ↦ fetch_missing_namespace name e w
  ]

  module _ (req_ctx_map : AnyMap) where
    -- The rules of one resource, if it has an `Authorization`.
    unfoldable pub owner_rules :
        Option Authorization → ObjectReference → Exec Walk (List PolicyRule)
    owner_rules none ref = pure []
    owner_rules (some a) ref =
        get_resource_policy_rules env req_ctx_map a.policies a.inline_policies (some ref)

    unfoldable pub groups_rules : List Group → Exec Walk (List PolicyRule)
    groups_rules [] = pure []
    groups_rules (g ∷ gs) = do
      rs ← owner_rules g.authorization (get_object_reference "Group" g.metadata)
      rest ← groups_rules gs
      pure (rs ++ rest)

    abbrev pub namespace_found : Result Namespace → Exec Walk (List PolicyRule)
    namespace_found (ok n) =
        owner_rules n.authorization (get_object_reference "Namespace" n.metadata)
    namespace_found (err e) = pure []

    -- A Namespace that is not found adds no rules.
    unfoldable pub namespace_rules : String → Exec Walk (List PolicyRule)
    namespace_rules name w = let (r, w1) = get_namespace_from_name name w in namespace_found r w1

    unfoldable pub device_rules : Option Device → Exec Walk (List PolicyRule)
    device_rules none = pure []
    device_rules (some d) = owner_rules d.authorization (get_object_reference "Device" d.metadata)

    unfoldable pub trigger_rules : List PolicyTrigger → Asked → Exec Walk (List PolicyRule)
    trigger_rules pts i w =
        let caller : Caller = record { user = some i.user; session = some i.session } in
        let (rs, w1) = get_rules_from_policy_triggers env caller req_ctx_map pts w in (ok rs, w1)

    unfoldable pub get_all_rules : List PolicyTrigger → Asked → Exec Walk (List PolicyRule)
    get_all_rules pts i = collect (
        owner_rules i.user.authorization (get_object_reference "User" i.user.metadata)
        ∷ groups_rules i.groups
        ∷ owner_rules i.service.authorization (get_object_reference "Service" i.service.metadata)
        ∷ namespace_rules i.service.namespace_ref.name
        ∷ owner_rules i.session.authorization (get_object_reference "Session" i.session.metadata)
        ∷ device_rules i.device
        ∷ trigger_rules pts i
        ∷ [])

  -- `getDecision` from what `getAllRules` returned.
  abbrev pub decide_collected :
      AnyMap → Result (List PolicyRule) × Walk → Result DecisionResult × Cache
  decide_collected req_ctx_map (err e, w) = (err e, w.cache)
  decide_collected req_ctx_map (ok rules, w) =
      (do_get_decision env.engine req_ctx_map env.sort_func rules, w.cache)

  -- `getDecision` on a context that converts to the map `req_ctx_map`; the walk starts with no used
  -- Policy, and leaves the cache.
  unfoldable pub get_decision :
      List PolicyTrigger → Result AnyMap → Asked → Cache → Result DecisionResult × Cache
  get_decision pts (err e) i c = (err e, c)
  get_decision pts (ok req_ctx_map) i c =
      decide_collected req_ctx_map
        (get_all_rules req_ctx_map pts i (record { cache = c; used = [] }))
