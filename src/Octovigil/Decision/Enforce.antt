-- ===== src/Octovigil/Decision/Enforce.antt =====
-- `shouldEnforcePolicy` of cluster/octovigil/octovigil/policy.go.
use octelium.Base.{
  ◌≡◌, refl, Bool, true, false, not, ◌&&◌, ◌||◌, some, List, [], ◌∷◌, ◌++◌, arith, any, any-append,
  Result-cases,
}
use octelium.Corev1.Policy.{AnyMap, EnforcementEffect, EnforcementRule, PolicySpec}
use octelium.Celengine.{Engine, Input, eval_condition}
use octelium.Octovigil.Decision.{some_rule_matches, split_rules, should_enforce_policy}
use octelium.Octovigil.Decision.Spec.{answers_true, eval_condition-null}

abbrev pub is_enforce : EnforcementEffect → Bool
is_enforce EnforcementEffect.enforce = true
is_enforce _ = false

abbrev pub is_ignore : EnforcementEffect → Bool
is_ignore EnforcementEffect.ignore = true
is_ignore _ = false

module _ (e : Engine) (ctx attrs : AnyMap) where
  -- The condition of the enforcement rule evaluates to true.
  unfoldable pub applies : EnforcementRule → Bool
  applies r = answers_true (eval_condition e r.condition (record { ctx = ctx; attrs = some attrs }))

  some_rule_matches-any :
      (rs : List EnforcementRule) → some_rule_matches e ctx attrs rs ≡ any applies rs
  unfolding some_rule_matches applies
  some_rule_matches-any [] = refl
  some_rule_matches-any (r ∷ rs) =
      let i : Input = record { ctx = ctx; attrs = some attrs } in
      ground (
        arith,
        eval_condition-null e r.condition i,
        Result-cases (eval_condition e r.condition i),
        some_rule_matches-any rs,
      )

  -- What the two lists hold once the rules are split: what they held, and the rules of the effect.
  split_rules-any :
      (xs ys rs : List EnforcementRule)
      → (any applies (split_rules xs ys rs).0
          ≡ (any applies xs || any (λ r. is_enforce r.effect && applies r) rs))
        × (any applies (split_rules xs ys rs).1
            ≡ (any applies ys || any (λ r. is_ignore r.effect && applies r) rs))
  unfolding split_rules
  split_rules-any xs ys [] = ground arith
  split_rules-any xs ys (r ∷ rs) = ground (
    arith,
    any-append applies xs (r ∷ []),
    any-append applies ys (r ∷ []),
    split_rules-any (xs ++ r ∷ []) ys rs,
    split_rules-any xs (ys ++ r ∷ []) rs,
    split_rules-any xs ys rs,
  )

  -- A policy is enforced unless some IGNORE rule applies and no ENFORCE rule does, in whatever order
  -- the rules stand; a rule whose condition is false or fails to evaluate does not apply.
  pub should_enforce_policy_lem :
      (spec : PolicySpec)
      → should_enforce_policy e ctx attrs spec ≡ (
          any (λ r. is_enforce r.effect && applies r) spec.enforcement_rules
          || not (any (λ r. is_ignore r.effect && applies r) spec.enforcement_rules))
  unfolding should_enforce_policy
  should_enforce_policy_lem spec =
      let (enforced, ignored) = split_rules [] [] spec.enforcement_rules in
      ground (
        arith,
        split_rules-any [] [] spec.enforcement_rules,
        some_rule_matches-any enforced,
        some_rule_matches-any ignored,
      )
