-- ===== src/Octovigil/Decision.antt =====
-- cluster/octovigil/octovigil/policy.go: how a list of policy rules decides a request, and which
-- policies are enforced.
pub mod Priority
pub mod Spec
pub mod Verdict
pub mod Enforce
pub mod Tests
use octelium.Base.{
  ℕ, String, ◌+◌, ◌-◌, ◌%◌, ◌^◌, Bool, true, false, Option, none, some, List, [], ◌∷◌, ◌++◌, Result,
  ok, err, ◌>>=◌, ltb, nat_beq, is_empty, if◌then◌else◌,
}
use octelium.Base.Sort.{Sign, less, same, greater, SortFunc}
use octelium.Corev1.Policy.{
  ObjectReference, AnyMap, Condition, Effect, EnforcementEffect, Rule, EnforcementRule, PolicySpec,
}
use octelium.Celengine.{Engine, Input, eval_condition}

pub data MatchDecision : Type 0 where
  match_no match_yes : MatchDecision

pub record PolicyRuleInline : Type 0 where
  pub name : String
  pub resource_ref : Option ObjectReference

pub record PolicyRule : Type 0 where
  pub rule : Rule
  pub policy_ref : Option ObjectReference
  pub inline : Option PolicyRuleInline
  pub attrs : AnyMap

-- `AccessLog_Entry_Common_Reason_Type`.
pub data ReasonType : Type 0 where
  type_unknown_reason session_invalid device_not_active user_deactivated : ReasonType
  scope_unauthorized policy_match no_policy_match session_client_type_invalid : ReasonType
  session_locked user_locked device_locked authenticator_authentication_required : ReasonType
  authenticator_registration_required : ReasonType

-- The oneof `Type` of a PolicyMatch.
pub data MatchedPolicy : Type 0 where
  unset : MatchedPolicy
  policy : ObjectReference → MatchedPolicy
  inline_policy : Option ObjectReference → String → MatchedPolicy

pub record PolicyMatch : Type 0 where
  pub rule_name : String
  pub priority : ℕ
  pub matched : MatchedPolicy

pub record Reason : Type 0 where
  pub type : ReasonType
  pub details : Option PolicyMatch

-- `policyDecisionResult`, and `getDecisionResp` with the same fields.
pub record DecisionResult : Type 0 where
  pub decision : MatchDecision
  pub effect : Effect
  pub reason : Option Reason

-- a - b on int32, as a bit pattern.
abbrev pub sub_int32 : ℕ → ℕ → ℕ
sub_int32 a b = (a + 2 ^ 32 - b) % 2 ^ 32

-- The sign of an int32 that is not 0 is its top bit.
abbrev pub sign_int32 : ℕ → Sign
sign_int32 d = if nat_beq d 0 then same else if ltb d (2 ^ 31) then greater else less

-- The second `switch` of the comparison: at one priority DENY stands before ALLOW.
unfoldable pub compare_effects : Effect → Effect → Sign
compare_effects Effect.deny Effect.allow = less
compare_effects Effect.allow Effect.deny = greater
compare_effects _ _ = same

-- The comparison that `doGetDecision` hands to `slices.SortFunc`.
unfoldable pub compare_rules : PolicyRule → PolicyRule → Sign
unfolding compare_effects
compare_rules a b = elim (sign_int32 (sub_int32 a.rule.priority b.rule.priority)) [
  | less ↦ less
  | greater ↦ greater
  | same ↦ compare_effects a.rule.effect b.rule.effect
]

abbrev pub matched_policy : Option ObjectReference → Option PolicyRuleInline → MatchedPolicy
matched_policy (some ref) inline = MatchedPolicy.policy ref
matched_policy none (some i) = MatchedPolicy.inline_policy i.resource_ref i.name
matched_policy none none = MatchedPolicy.unset

unfoldable pub get_matched_decision_reason : PolicyRule → Reason
get_matched_decision_reason r = record {
  type = policy_match;
  details = some (record {
    rule_name = r.rule.name;
    priority = r.rule.priority;
    matched = matched_policy r.policy_ref r.inline;
  });
}

abbrev pub is_null : Condition → Bool
is_null Condition.null = true
is_null _ = false

-- The loop that fills `enforceRules` and `ignoreRules`.
unfoldable pub split_rules :
    List EnforcementRule
    → List EnforcementRule
    → List EnforcementRule
    → List EnforcementRule × List EnforcementRule
split_rules enforce_rules ignore_rules [] = (enforce_rules, ignore_rules)
split_rules enforce_rules ignore_rules (r ∷ rs) =
    split_rules
      (elim r.effect [ EnforcementEffect.enforce ↦ enforce_rules ++ r ∷ [] | _ ↦ enforce_rules ])
      (elim r.effect [ EnforcementEffect.ignore ↦ ignore_rules ++ r ∷ [] | _ ↦ ignore_rules ]) rs

module _ (e : Engine) (req_ctx_map : AnyMap) where
  unfoldable pub get_decision_rule : PolicyRule → Result DecisionResult
  unfolding get_matched_decision_reason
  get_decision_rule r =
      let resp : DecisionResult = record {
        decision = match_no;
        effect = Effect.unknown;
        reason = none;
      } in
      let input : Input = record { ctx = req_ctx_map; attrs = some r.attrs } in
      if is_null r.rule.condition then ok resp else do
        is_matched ← eval_condition e r.rule.condition input
        if is_matched
            then ok (record {
              decision = match_yes;
              effect = r.rule.effect;
              reason = some (get_matched_decision_reason r);
            })
            else ok resp

  -- The loop over the sorted rules: a rule that fails to evaluate is skipped.
  unfoldable pub decide : List PolicyRule → DecisionResult
  unfolding get_decision_rule
  decide [] = record { decision = match_no; effect = Effect.deny; reason = none }
  decide (r ∷ rs) =
      let rest = decide rs in
      elim (get_decision_rule r) [
        | err x ↦ rest
        | ok res ↦ elim res.decision [ match_yes ↦ res | match_no ↦ rest ]
      ]

  unfoldable pub do_get_decision : SortFunc PolicyRule → List PolicyRule → Result DecisionResult
  unfolding decide compare_rules
  do_get_decision s all_rules = ok (decide (s.sort compare_rules all_rules))

  -- `getDecisionEnforcementRule`; the effect that it returns too is read by nobody.
  unfoldable pub get_decision_enforcement_rule : AnyMap → EnforcementRule → Result MatchDecision
  get_decision_enforcement_rule attrs r =
      let input : Input = record { ctx = req_ctx_map; attrs = some attrs } in
      if is_null r.condition then ok match_no else do
        is_matched ← eval_condition e r.condition input
        if is_matched then ok match_yes else ok match_no

  -- One of the two loops: does some rule match? A rule that fails to evaluate is skipped.
  unfoldable pub some_rule_matches : AnyMap → List EnforcementRule → Bool
  unfolding get_decision_enforcement_rule
  some_rule_matches attrs [] = false
  some_rule_matches attrs (r ∷ rs) =
      let rest = some_rule_matches attrs rs in
      elim (get_decision_enforcement_rule attrs r) [
        | err x ↦ rest
        | ok match_yes ↦ true
        | ok match_no ↦ rest
      ]

  unfoldable pub should_enforce_policy : AnyMap → PolicySpec → Bool
  unfolding some_rule_matches split_rules
  should_enforce_policy attrs spec =
      if is_empty spec.enforcement_rules
      then true
      else let (enforce_rules, ignore_rules) = split_rules [] [] spec.enforcement_rules in
        if some_rule_matches attrs enforce_rules
        then true
        else if some_rule_matches attrs ignore_rules
        then false
        else true
