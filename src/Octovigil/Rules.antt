-- ===== src/Octovigil/Rules.antt =====
-- The rules that a request meets: `getResourcePolicyRules`, `getEvaluatePolicyRules` and
-- `getPolicyFromName` of cluster/octovigil/octovigil/policy.go.
pub mod Collects
pub mod Vetted
use octelium.Base.{
  String, Bool, true, false, not, Option, none, some, List, [], ◌∷◌, ◌++◌, map, Error, not_found,
  Result, ok, err, is_in_list, if◌then◌else◌,
}
use octelium.Apiutils.{get_object_reference}
use octelium.Corev1.Policy.{
  ObjectReference, Metadata, AnyMap, Struct, Policy, PolicySpec, InlinePolicy, Rule,
}
use octelium.Apivalidation.{get_name_and_parents}
use octelium.Octovigil.Decision.{PolicyRule, should_enforce_policy}
use octelium.Octovigil.Acache.{get_policy, set_policy}
use octelium.Octovigil.Env.{Env}
use octelium.Base.Exec.{Exec, pure, lift, ◌>>=◌}
use octelium.Octovigil.Walk.{Walk}

-- An inline Policy with the resource that it stands in.
pub record OwnedPolicy : Type 0 where
  pub policy : InlinePolicy
  pub resource_ref : Option ObjectReference

abbrev pub owned_by : Option ObjectReference → InlinePolicy → OwnedPolicy
owned_by ref p = record { policy = p; resource_ref = ref }

abbrev pub policy_rules : Policy → AnyMap → List PolicyRule
policy_rules p attrs =
    map
      (λ r. record {
        rule = r;
        policy_ref = some (get_object_reference "Policy" p.metadata);
        inline = none;
        attrs = attrs;
      })
      p.spec.rules

abbrev pub inline_rules : OwnedPolicy → AnyMap → List PolicyRule
inline_rules o attrs =
    map
      (λ r. record {
        rule = r;
        policy_ref = none;
        inline = some (record { name = o.policy.name; resource_ref = o.resource_ref });
        attrs = attrs;
      })
      o.policy.spec.rules

-- What a collection adds where its error is only logged.
abbrev pub rules_or_none : Result (List PolicyRule) → List PolicyRule
rules_or_none (ok rs) = rs
rules_or_none (err e) = []

module _ (env : Env) where
  abbrev pub fetch_missing_policy : String → Error → Exec Walk Policy
  fetch_missing_policy name not_found w = elim (env.backend.fetch_policy name) [
    | err e ↦ (err e, w)
    | ok p ↦ (ok p, record w { cache = (set_policy w.cache p).1 })
  ]
  fetch_missing_policy name e w = (err e, w)

  unfoldable pub get_policy_from_name : String → Exec Walk Policy
  get_policy_from_name name w = elim (get_policy w.cache name) [
    | ok p ↦ (ok p, w)
    | err e ↦ fetch_missing_policy name e w
  ]

  module _ (req_ctx_map : AnyMap) where
    -- The attributes of a Policy that is enabled and enforced.
    unfoldable pub enforced_attrs : PolicySpec → Option AnyMap
    enforced_attrs spec = if spec.is_disabled then none else elim (env.convert_attrs spec.attrs) [
      | err e ↦ none
      | ok attrs ↦
          if not (should_enforce_policy env.engine req_ctx_map attrs spec) then none else some attrs
    ]

    -- A Policy that was found: its rules, unless it is used already.
    unfoldable pub use_policy : Policy → Exec Walk (List PolicyRule)
    use_policy p w = elim (enforced_attrs p.spec) [
      | none ↦ (ok [], w)
      | some attrs ↦
          if is_in_list w.used p.metadata.name
          then (ok [], w)
          else (ok (policy_rules p attrs), record w { used = w.used ++ p.metadata.name ∷ [] })
    ]

    abbrev pub use_found : Result Policy → Exec Walk (List PolicyRule)
    use_found (ok p) w = use_policy p w
    use_found (err e) w = (ok [], w)

    -- The inner loop: a Policy that is not found is skipped.
    unfoldable pub named_rules : List String → Exec Walk (List PolicyRule)
    named_rules [] w = (ok [], w)
    named_rules (p ∷ ps) w =
        let (found, w1) = get_policy_from_name p w in
        (do rs ← use_found found; rest ← named_rules ps; pure (rs ++ rest)) w1

    -- The loop over the names: one that is not valid ends the collection.
    unfoldable pub policies_rules : List String → Exec Walk (List PolicyRule)
    policies_rules [] = pure []
    policies_rules (name ∷ names) = do
      all_policies ← lift (get_name_and_parents name)
      rs ← named_rules all_policies
      rest ← policies_rules names
      pure (rs ++ rest)

    unfoldable pub inline_policies_rules : List OwnedPolicy → List PolicyRule
    inline_policies_rules [] = []
    inline_policies_rules (o ∷ os) =
        let rest = inline_policies_rules os in
        elim (enforced_attrs o.policy.spec) [
          | none ↦ rest
          | some attrs ↦ inline_rules o attrs ++ rest
        ]

    -- `getEvaluatePolicyRules`; `getResourcePolicyRules` is the same with one owner.
    unfoldable pub get_policy_rules : List String → List OwnedPolicy → Exec Walk (List PolicyRule)
    get_policy_rules policies inline_policies = do
      rs ← policies_rules policies
      pure (rs ++ inline_policies_rules inline_policies)

    unfoldable pub get_resource_policy_rules :
        List String → List InlinePolicy → Option ObjectReference → Exec Walk (List PolicyRule)
    unfolding get_policy_rules
    get_resource_policy_rules policies inline_policies resource_ref =
        get_policy_rules policies (map (owned_by resource_ref) inline_policies)
