-- ===== src/Apiserver/Policies/Tests.antt =====
-- The handlers of Policies at concrete requests.
use octelium.Base.{◌≡◌, ◌≤◌, refl, true, false, none, some, [], ◌∷◌, all, length, ok}
use octelium.Base.Text.{
  is_name, all_in, first_in, last_in, split, single_hyphens, after_nth, length_of,
}
use octelium.Corev1.Policy.{Condition, Effect, Policy, PolicySpec, InlinePolicy, Authorization}
use octelium.Octovigil.Rules.Collects.{is_vetted_owner}
use octelium.Apiserver.Policies.{
  Checks, StoredPolicy, PolicyStore, check_cel_expression, find_by_name, find_by_uid, create_policy,
  delete_policy_request, validate_policy, validate_policy_spec, validate_rules, validate_rule,
  validate_enforcement_rules, validate_condition, get_parent_uid, validate_policy_owner,
  validate_policy_names, validate_inline_policies, remove_uid,
}
use octelium.Apivalidation.{has_valid_parts, suffix_loop, validate_name, get_name_and_parents}
use octelium.Apiserver.Policies.Vetted.{has_known_effects, is_sound_spec, validate_policy_owner-ok}
use octelium.Apiserver.Policies.Stored.{IsSoundStore}
use octelium.Apiserver.Policies.Reachable.{
  created, deleted, Reach, start, later, Reach-IsSoundStore,
}
use octelium.Samples.{a_metadata}

abbrev checks : Checks
checks = record {
  compile = λ s. ok tt;
  check_metadata = λ m. ok tt;
  check_attrs = λ a. ok tt;
  size_of = λ p. ok 10;
}

abbrev a_spec : PolicySpec
a_spec = record {
  is_disabled = false;
  attrs = "{}";
  rules =
      record {
        name = "";
        priority = 0xfffffffc;
        effect = Effect.allow;
        condition = Condition.match "ctx.user.metadata.name == 'a'";
      }
      ∷ [];
  enforcement_rules = [];
}

abbrev base : Policy
base = record { metadata = a_metadata "base" ""; spec = a_spec }

abbrev child : Policy
child = record { metadata = a_metadata "sub.base" ""; spec = a_spec }

abbrev one : PolicyStore
one = (create_policy checks "u1" "1" base []).1

abbrev two : PolicyStore
two = (create_policy checks "u2" "2" child one).1

abbrev kept : PolicyStore
kept = (delete_policy_request "u1" "" two).1

empty-IsSoundStore : IsSoundStore checks []
empty-IsSoundStore = record { sound = refl; parented = refl; uids = refl; names = refl }

reaches : Reach checks [] kept
unfolding create_policy validate_policy validate_name get_name_and_parents is_name split
    single_hyphens after_nth length_of validate_policy_spec validate_rules validate_rule
    validate_condition check_cel_expression validate_enforcement_rules find_by_name find_by_uid
    get_parent_uid delete_policy_request remove_uid has_valid_parts suffix_loop all_in first_in
    last_in
reaches =
    later two kept
      (later one two (later [] one start (created "u1" "1" base refl refl))
        (created "u2" "2" child refl refl))
      (deleted "u1" "")

Reach-IsSoundStore_example : IsSoundStore checks kept
Reach-IsSoundStore_example = Reach-IsSoundStore checks [] kept empty-IsSoundStore reaches

abbrev stored_base : StoredPolicy
stored_base = record {
  policy = record {
    metadata = record (a_metadata "base" "u1") { resource_version = "1" };
    spec = a_spec;
  };
  parent_uid = none;
  is_system = false;
}

abbrev owner : Authorization
owner = record {
  policies = "base" ∷ [];
  inline_policies = record { name = "inline"; spec = a_spec } ∷ [];
}

passes_the_checks : validate_policy_owner checks one (some owner) ≡ ok tt
unfolding create_policy validate_policy validate_name get_name_and_parents is_name split
    single_hyphens after_nth length_of validate_policy_spec validate_rules validate_rule
    validate_condition check_cel_expression validate_enforcement_rules find_by_name find_by_uid
    get_parent_uid delete_policy_request remove_uid has_valid_parts suffix_loop all_in first_in
    last_in validate_policy_owner validate_policy_names validate_inline_policies
passes_the_checks = refl

validate_policy_owner-ok_example :
    (length owner.policies ≤ 100)
    × (length owner.inline_policies ≤ 100)
    × (all (λ (p : InlinePolicy). is_sound_spec checks p.spec) owner.inline_policies ≡ true)
    × (is_vetted_owner (some owner)
        ≡ all (λ (p : InlinePolicy). has_known_effects p.spec) owner.inline_policies)
validate_policy_owner-ok_example = validate_policy_owner-ok checks one owner refl passes_the_checks
