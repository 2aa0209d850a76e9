-- ===== src/Octovigil/Decision/Tests.antt =====
-- Runs of the decision, and the theorems at concrete rules.
use octelium.Base.{String, ◌≡◌, refl, true, false, none, some, List, [], ◌∷◌, ok, ◌==◌}
use mathlib.Core.List.Perm
use mathlib.Core.List.{Mem}
use octelium.Base.Sort.{insertion_sort_func, insertion_sort}
use octelium.Corev1.Policy.{Condition, Effect, EnforcementEffect, PolicySpec}
use octelium.Celengine.{Engine, eval_condition}
use octelium.Octovigil.Decision.{
  PolicyRule, DecisionResult, match_yes, get_matched_decision_reason, do_get_decision,
  should_enforce_policy,
}
use octelium.Octovigil.Decision.Spec.{matches}
use octelium.Octovigil.Decision.Enforce.{applies, should_enforce_policy_lem}
use octelium.Octovigil.Decision.Verdict.{
  granted, refused, verdict, deserved, do_get_decision-verdict, do_get_decision-perm,
  do_get_decision-reason,
}

abbrev demo : Engine
demo = record { cel = λ s i. ok (s == "yes"); rego = λ s i. ok [] }

abbrev a_rule : String → String → Effect → PolicyRule
a_rule name exp f = record {
  rule = record { name = name; priority = 1; effect = f; condition = Condition.match exp };
  policy_ref = none;
  inline = none;
  attrs = "{}";
}

-- Priority -1, as the bit pattern of the int32.
abbrev urgent : PolicyRule → PolicyRule
urgent r = record r { rule = record r.rule { priority = 0xffffffff } }

abbrev grant_rule : PolicyRule
grant_rule = a_rule "grant" "yes" Effect.allow

abbrev deny_rule : PolicyRule
deny_rule = a_rule "deny" "yes" Effect.deny

abbrev rules : List PolicyRule
rules = grant_rule ∷ deny_rule ∷ []

abbrev urgent_rules : List PolicyRule
urgent_rules = deny_rule ∷ urgent grant_rule ∷ []

do_get_decision-verdict_example :
    verdict (do_get_decision demo "{}" insertion_sort_func rules) ≡ refused
unfolding deserved matches eval_condition
do_get_decision-verdict_example = do_get_decision-verdict demo "{}" insertion_sort_func rules refl

urgent_is_granted : verdict (do_get_decision demo "{}" insertion_sort_func urgent_rules) ≡ granted
unfolding deserved matches eval_condition
urgent_is_granted = do_get_decision-verdict demo "{}" insertion_sort_func urgent_rules refl

-- A rule whose effect the enum does not name, which the API server stores.
abbrev undefined_rule : PolicyRule
undefined_rule = a_rule "undefined" "yes" (Effect.undefined 7)

-- It compares as equal with either of the others, so that ALLOW stays before DENY, which decides
-- without it.
allow_wins_over_deny :
    verdict
      (do_get_decision demo "{}" insertion_sort_func (grant_rule ∷ undefined_rule ∷ deny_rule ∷ []))
    ≡ granted
unfolding do_get_decision eval_condition insertion_sort
allow_wins_over_deny = refl

do_get_decision-perm_example :
    verdict (do_get_decision demo "{}" insertion_sort_func rules)
    ≡ verdict (do_get_decision demo "{}" insertion_sort_func (deny_rule ∷ grant_rule ∷ []))
do_get_decision-perm_example =
    do_get_decision-perm demo "{}" insertion_sort_func insertion_sort_func rules
      (deny_rule ∷ grant_rule ∷ []) (Perm.swap deny_rule grant_rule []) refl

abbrev denial : DecisionResult
denial = record {
  decision = match_yes;
  effect = Effect.deny;
  reason = some (get_matched_decision_reason deny_rule);
}

denied_run : do_get_decision demo "{}" insertion_sort_func rules ≡ ok denial
unfolding do_get_decision eval_condition insertion_sort
denied_run = refl

do_get_decision-reason_example :
    (r : PolicyRule) × Mem r rules
    × (matches demo "{}" r ≡ true)
    × (Effect.deny ≡ r.rule.effect)
    × (denial.reason ≡ some (get_matched_decision_reason r))
do_get_decision-reason_example =
    do_get_decision-reason demo "{}" insertion_sort_func rules denial denied_run refl

abbrev spec : PolicySpec
spec = record {
  is_disabled = false;
  attrs = "{}";
  rules = [];
  enforcement_rules =
      record { effect = EnforcementEffect.ignore; condition = Condition.match "yes" }
      ∷ record { effect = EnforcementEffect.enforce; condition = Condition.match "no" }
      ∷ [];
}

should_enforce_policy_example : should_enforce_policy demo "{}" "{}" spec ≡ false
unfolding applies eval_condition
should_enforce_policy_example = should_enforce_policy_lem demo "{}" "{}" spec
