-- ===== src/Celengine/Tests.antt =====
-- Runs of the evaluator, and the theorems at concrete inputs.
use octelium.Base.{
  ◌≡◌, refl, true, false, String, none, some, List, [], ◌∷◌, map, ok, ◌==◌, if◌then◌else◌,
}
use octelium.Corev1.Policy.{Condition, Conditions}
use octelium.Celengine.{Engine, Input, eval_condition, eval_policy, match_value, opa_eval_policy}
use octelium.Celengine.Programs.{
  Use, asked, expired, sources, get_key, fresh_prog, answers, get_or_set_prog_lem,
}
use octelium.Celengine.Semantics.{holds, Evaluates, eval_condition-eq-holds}

abbrev demo : Engine
demo = record {
  cel = λ s i. ok (s == "a");
  rego = λ s i. ok (
      (record { text = "x"; value = some true }
        ∷ record { text = "data.octelium.condition.match"; value = some (s == "r") }
        ∷ [])
      ∷ []);
}

abbrev input : Input
input = record { ctx = "{}"; attrs = none }

abbrev listed : Conditions
listed =
    Conditions.cons (Condition.match "a") (Conditions.cons (Condition.match "b") Conditions.nil)

nested_runs :
    eval_condition demo
      (Condition.all_of (Conditions.cons (Condition.any_of listed) Conditions.nil))
      input
    ≡ ok true
unfolding eval_condition eval_policy opa_eval_policy
nested_runs = refl

-- The expression of that text is found behind another one.
opa_runs : eval_condition demo (Condition.opa_inline "r") input ≡ ok true
unfolding eval_condition eval_policy opa_eval_policy match_value
opa_runs = refl

eval_condition-eq-holds_example : eval_condition demo (Condition.none_of listed) input ≡ ok false
unfolding Evaluates holds eval_policy
eval_condition-eq-holds_example =
    eval_condition-eq-holds demo input (λ s. s == "a") (λ s. s == "r") (Condition.none_of listed)
      (refl, (refl, tt))

-- The SHA-256 sums of two sources.
abbrev sum : String → String
sum s =
    if s == "a"
    then "ca978112ca1bbdcafac231b39a23dc4da786eff8147c4e72b9807785afee48bb"
    else "3e23e8160039594a33894f6564e1b1348bbd7a0088d42c4acb73eeaed59c009d"

-- Calls for both, between which the key of the first one expires. Programs are their own source.
abbrev uses : List Use
uses =
    asked "a"
    ∷ asked "b"
    ∷ expired "ca978112ca1bbdcafac231b39a23dc4da786eff8147c4e72"
    ∷ asked "a"
    ∷ []

get_or_set_prog_lem_example : answers sum ok [] uses ≡ map (fresh_prog sum ok) (sources uses)
unfolding get_key
get_or_set_prog_lem_example = get_or_set_prog_lem sum ok uses refl
