-- ===== src/Apiserver/Policies.antt =====
-- cluster/apiserver/apiserver/admin/policy.go: the checks of Policies and of the resources that own
-- inline Policies, and the handlers that create, update and delete Policies.
pub mod Vetted
pub mod Stored
pub mod Removed
pub mod Reachable
pub mod Tests
use octelium.Base.{
  ℕ, suc, String, len, ◌-◌, ◌+◌, ◌^◌, Bool, true, false, not, ◌||◌, Option, none, some, List, [],
  ◌∷◌, ◌++◌, map, any, Error, not_found, Result, ok, err, failed, ◌>>=◌, ltb, length, is_empty,
  ◌==◌, if◌then◌else◌,
}
use octelium.Corev1.Policy.{
  Metadata, Struct, Condition, Conditions, Effect, EnforcementEffect, Rule, EnforcementRule,
  PolicySpec, Policy, InlinePolicy, Authorization,
}
use octelium.Apivalidation.{validate_name, get_name_and_parents}
use octelium.Octovigil.Decision.Priority.{signed, priority_max_val}

-- What the checks rest on: `compile` stands for cel-go behind `AddPolicy`, `check_metadata` for the
-- checks of a Metadata's other fields in `ValidateMetadata`, `check_attrs` for `ValidateAttrs`, and
-- `size_of` for the length of a marshalled spec.
pub record Checks : Type 0 where
  pub compile : String → Result (Unit {0})
  pub check_metadata : Metadata → Result (Unit {0})
  pub check_attrs : Struct → Result (Unit {0})
  pub size_of : PolicySpec → Result ℕ

-- `vutils.MaxPolicyParents`
abbrev pub max_policy_parents : ℕ
max_policy_parents = 5

abbrev pub length_of_conditions : Conditions → ℕ
length_of_conditions Conditions.nil = 0
length_of_conditions (Conditions.cons c cs) = suc (length_of_conditions cs)

module _ (k : Checks) where
  -- `checkCELExpression`, with the length check of `getOrSetProg`.
  unfoldable pub check_cel_expression : String → Result (Unit {0})
  check_cel_expression arg =
      if ltb 10000 (len arg) then err (failed "Expression is too long") else k.compile arg

  -- The checks of the array of an `all`, `any` or `none`.
  abbrev pub check_length : Conditions → Result (Unit {0})
  check_length cs =
      if ltb 0 (length_of_conditions cs)
      then if ltb 100 (length_of_conditions cs) then err (failed "array is too long") else ok tt
      else err (failed "Empty array")

  unfoldable mutual
    pub validate_condition : Condition → Result (Unit {0})
    validate_condition Condition.null = err (failed "Condition is not set")
    validate_condition Condition.unset = err (failed "Invalid Condition type")
    validate_condition Condition.opa_unset = ok tt
    validate_condition (Condition.match_any b) = ok tt
    validate_condition (Condition.match exp) = check_cel_expression exp
    validate_condition (Condition.not_match exp) = check_cel_expression exp
    validate_condition (Condition.opa_inline script) = ok tt
    validate_condition (Condition.all_of cs) = do n ← check_length cs; validate_conditions cs
    validate_condition (Condition.any_of cs) = do n ← check_length cs; validate_conditions cs
    validate_condition (Condition.none_of cs) = do n ← check_length cs; validate_conditions cs

    pub validate_conditions : Conditions → Result (Unit {0})
    validate_conditions Conditions.nil = ok tt
    validate_conditions (Conditions.cons c cs) =
        let rest = validate_conditions cs in do n ← validate_condition c; rest

  abbrev is_unknown : Effect → Bool
  is_unknown Effect.unknown = true
  is_unknown _ = false

  abbrev is_unknown_enforcement : EnforcementEffect → Bool
  is_unknown_enforcement EnforcementEffect.effect_unknown = true
  is_unknown_enforcement _ = false

  -- One round of the loop over the rules. The name of a rule may be empty.
  unfoldable pub validate_rule : Rule → Result (Unit {0})
  validate_rule r = do
    n ← if r.name == "" then ok tt else validate_name r.name 0 0
    if is_unknown r.effect
        then err (failed "Rule's effect must be set")
        else if ltb (2 ^ 31 + priority_max_val) (signed r.priority)
        then err (failed "Rule's priority is too high")
        else if ltb (signed r.priority) (2 ^ 31 - priority_max_val)
        then err (failed "Rule's priority is too low")
        else validate_condition r.condition

  unfoldable pub validate_rules : List Rule → Result (Unit {0})
  validate_rules [] = ok tt
  validate_rules (r ∷ rs) = let rest = validate_rules rs in do n ← validate_rule r; rest

  unfoldable pub validate_enforcement_rules : List EnforcementRule → Result (Unit {0})
  validate_enforcement_rules [] = ok tt
  validate_enforcement_rules (r ∷ rs) =
      let rest = validate_enforcement_rules rs in
      if is_unknown_enforcement r.effect
      then err (failed "Unknown effect")
      else do n ← validate_condition r.condition; rest

  -- `validatePolicySpec`, of a spec that is not nil.
  unfoldable pub validate_policy_spec : PolicySpec → Result (Unit {0})
  validate_policy_spec p = do
    n ← k.check_attrs p.attrs
    size ← k.size_of p
    if ltb 100000 size
        then err (failed "Policy is too large")
        else if ltb 100 (length p.rules)
        then err (failed "Too many rules")
        else if ltb 100 (length p.enforcement_rules)
        then err (failed "Too many enforcement rules")
        else do n1 ← validate_rules p.rules; validate_enforcement_rules p.enforcement_rules

  -- `validatePolicy`, with the name's checks of `ValidateCommon`.
  unfoldable pub validate_policy : Policy → Result (Unit {0})
  validate_policy p =
      if p.metadata.name == "" then err (failed "You must provide a name for the Resource") else do
        n ← validate_name p.metadata.name 0 max_policy_parents
        n1 ← k.check_metadata p.metadata
        validate_policy_spec p.spec

  unfoldable pub validate_inline_policies : List InlinePolicy → Result (Unit {0})
  validate_inline_policies [] = ok tt
  validate_inline_policies (p ∷ ps) =
      let rest = validate_inline_policies ps in
      do
        n ← if p.name == "" then ok tt else validate_name p.name 0 0
        n1 ← validate_policy_spec p.spec
        rest

-- A Policy as the resource server stores it: `parent_uid` is the UID of its `ParentPolicyRef`.
pub record StoredPolicy : Type 0 where
  pub policy : Policy
  pub parent_uid : Option String
  pub is_system : Bool

abbrev pub PolicyStore : Type 0
PolicyStore = List StoredPolicy

abbrev pub uid_of : StoredPolicy → String
uid_of x = x.policy.metadata.uid

abbrev pub name_of : StoredPolicy → String
name_of x = x.policy.metadata.name

-- The resource server's lookups: by name, and by UID where one is given.
unfoldable pub find_by_name : String → PolicyStore → Result StoredPolicy
find_by_name name [] = err not_found
find_by_name name (x ∷ xs) =
    let rest = find_by_name name xs in if name_of x == name then ok x else rest

unfoldable pub find_by_uid : String → PolicyStore → Result StoredPolicy
find_by_uid uid [] = err not_found
find_by_uid uid (x ∷ xs) = let rest = find_by_uid uid xs in if uid_of x == uid then ok x else rest

-- Every Policy but those of the UID.
unfoldable pub remove_uid : String → PolicyStore → PolicyStore
remove_uid uid [] = []
remove_uid uid (x ∷ xs) = let rest = remove_uid uid xs in if uid_of x == uid then rest else x ∷ rest

-- `MetadataFrom`: a created resource takes its name from the request, not its picture. The UID and
-- the resource version are the resource server's.
abbrev pub metadata_from : String → String → Metadata → Metadata
metadata_from uid version req = record req { uid = uid; resource_version = version; pic_url = "" }

-- `MetadataUpdate` with a new spec: the picture is the request's, the name and the UID stay, and the
-- resource server gives the version.
abbrev pub with_update : String → Policy → StoredPolicy → StoredPolicy
with_update version req x =
    let m = record x.policy.metadata {
      resource_version = version;
      pic_url = req.metadata.pic_url;
    } in
    record x { policy = record { metadata = m; spec = req.spec } }

-- The Policy of the UID is updated.
unfoldable pub replace_policy : String → String → Policy → PolicyStore → PolicyStore
replace_policy uid version req [] = []
replace_policy uid version req (x ∷ xs) =
    (if uid_of x == uid then with_update version req x else x) ∷ replace_policy uid version req xs

abbrev pub is_child_of : String → StoredPolicy → Bool
is_child_of uid x = elim x.parent_uid [ none ↦ false | some u ↦ u == uid ]

module _ (k : Checks) where
  -- The parent of a Policy: the second of its name and parents, which must be stored.
  unfoldable pub get_parent_uid : List String → PolicyStore → Result (Option String)
  get_parent_uid (name ∷ parent ∷ others) s = elim (find_by_name parent s) [
    | ok p ↦ ok (some (uid_of p))
    | err e ↦ err (failed "The parent Policy does not exist")
  ]
  get_parent_uid _ s = ok none

  -- `CreatePolicy`, where the resource server gives the UID and the version. A lookup of the name
  -- that finds nothing is the way on.
  unfoldable pub create_policy :
      String → String → Policy → PolicyStore → Result Policy × PolicyStore
  create_policy uid version req s = elim (validate_policy k req) [
    | err e ↦ (err e, s)
    | ok n ↦ elim (find_by_name req.metadata.name s) [
      | ok p ↦ (err (failed "The Policy already exists"), s)
      | err e ↦ elim (do names ← get_name_and_parents req.metadata.name; get_parent_uid names s) [
        | err e ↦ (err e, s)
        | ok parent ↦ elim (validate_policy_spec k req.spec) [
          | err e ↦ (err e, s)
          | ok n ↦
              let item : Policy = record req {
                metadata = metadata_from uid version req.metadata;
              } in
              (ok item, record { policy = item; parent_uid = parent; is_system = false } ∷ s)
        ]
      ]
    ]
  ]

  -- `UpdatePolicy`: the stored Policy of that name keeps its UID and its parent.
  unfoldable pub update_policy : String → Policy → PolicyStore → Result Policy × PolicyStore
  update_policy version req s = elim (validate_policy k req) [
    | err e ↦ (err e, s)
    | ok n ↦ elim (find_by_name req.metadata.name s) [
      | err e ↦ (err e, s)
      | ok x ↦
          if x.is_system
          then (err (failed "This is a System Resource"), s)
          else elim (validate_policy_spec k req.spec) [
            | err e ↦ (err e, s)
            | ok n ↦
                (ok (with_update version req x).policy, replace_policy (uid_of x) version req s)
          ]
    ]
  ]

-- `DeletePolicy`, of the Policy that `x` was found to be.
abbrev pub delete_found : StoredPolicy → PolicyStore → Result (Unit {0}) × PolicyStore
delete_found x s =
    if x.is_system
    then (err (failed "This is a System Resource"), s)
    else if any (is_child_of (uid_of x)) s
    then (err (failed "The Policy has one or more child Policies"), s)
    else (ok tt, remove_uid (uid_of x) s)

-- `DeletePolicy` by name, or by UID where one is given; `CheckDeleteOptions` only refuses more.
unfoldable pub delete_policy_request :
    String → String → PolicyStore → Result (Unit {0}) × PolicyStore
delete_policy_request uid name s =
    elim (if uid == "" then find_by_name name s else find_by_uid uid s) [
      | err e ↦ (err e, s)
      | ok x ↦ delete_found x s
    ]

module _ (k : Checks) where
  -- The loop of `validatePolicyOwner` over the names of Policies.
  unfoldable pub validate_policy_names : PolicyStore → List String → Result (Unit {0})
  validate_policy_names s [] = ok tt
  validate_policy_names s (p ∷ ps) =
      let rest = validate_policy_names s ps in
      do n ← validate_name p 0 max_policy_parents; found ← find_by_name p s; rest

  unfoldable pub validate_policy_owner : PolicyStore → Option Authorization → Result (Unit {0})
  validate_policy_owner s none = ok tt
  validate_policy_owner s (some a) =
      if ltb 100 (length a.policies)
      then err (failed "Too many Policies")
      else if ltb 100 (length a.inline_policies)
      then err (failed "Too many inlinePolicies")
      else do n ← validate_policy_names s a.policies; validate_inline_policies k a.inline_policies
