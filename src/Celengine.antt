-- ===== src/Celengine.antt =====
-- cluster/common/celengine/celengine.go and opaenigne.go: conditions and their evaluation.
-- cel-go and OPA are parameters: `compile` and `run` of an engine.
pub mod Semantics
pub mod Programs
pub mod Tests
use octelium.Base.{
  String, len, Bool, true, false, not, Option, none, some, List, [], ◌∷◌, ◌==◌, Result, ok, err,
  failed, ◌>>=◌, ltb, nat_beq, if◌then◌else◌,
}
use octelium.Corev1.Policy.{Condition, Conditions, AnyMap}

-- The `inputMap` of an evaluation: its entry `ctx`, and `attrs` where the caller sets it.
pub record Input : Type 0 where
  pub ctx : AnyMap
  pub attrs : Option AnyMap

-- An expression of a result of OPA: its text, and its value where that is a boolean.
pub record Expression : Type 0 where
  pub text : String
  pub value : Option Bool

-- What cel-go and OPA do with a script that passed the length check: compile it and evaluate it.
-- `rego` answers the expressions of each result of OPA. `cel` answers a boolean: on a script of any
-- other type `out.Value().(bool)` panics, which is left out.
pub record Engine : Type 0 where
  pub cel : String → Input → Result Bool
  pub rego : String → Input → Result (List (List Expression))

abbrev pub no_conditions : Conditions → Bool
no_conditions Conditions.nil = true
no_conditions (Conditions.cons c cs) = false

-- The cases of the `switch` that end in `didMatch = true` unless the test fails.
abbrev pub did_match : Result Bool → Result Bool
did_match r = do res ← r; if res then ok true else ok false

-- The loop of `opaEngine.EvalPolicy` over the expressions of a result: the first of that text
-- decides, and a value that is no boolean is false.
unfoldable pub match_value : List Expression → Bool
match_value [] = false
match_value (x ∷ xs) =
    let rest = match_value xs in
    if x.text == "data.octelium.condition.match"
    then (elim x.value [ none ↦ false | some b ↦ b ])
    else rest

abbrev pub first_match : List (List Expression) → Bool
first_match [] = false
first_match (r ∷ rs) = match_value r

module _ (e : Engine) where
  -- `CELEngine.EvalPolicy`, with the length check of `getOrSetProg`.
  unfoldable pub eval_policy : String → Input → Result Bool
  eval_policy exp input =
      if ltb 10000 (len exp) then err (failed "Expression is too long") else e.cel exp input

  -- `opaEngine.EvalPolicy`, with the length check of `getOrSetPQ`.
  unfoldable pub opa_eval_policy : String → Input → Result Bool
  opa_eval_policy script input =
      if nat_beq (len script) 0
      then ok false
      else if ltb 20000 (len script)
      then err (failed "OPA script is too long")
      else do rs ← e.rego script input; ok (first_match rs)

  unfoldable pub is_condition_matched : Input → String → Result Bool
  unfolding eval_policy
  is_condition_matched input exp = if nat_beq (len exp) 0 then ok false else eval_policy exp input

  unfoldable pub is_condition_not_matched : Input → String → Result Bool
  unfolding eval_policy
  is_condition_not_matched input exp =
      if nat_beq (len exp) 0 then ok false else do match ← eval_policy exp input; ok (not match)

  -- `all_loop`, `any_loop` and `none_loop` are the loops of `isConditionMatchedAll`, `…Any` and
  -- `…None`, after the check for an empty list.
  unfoldable mutual
    unfolding is_condition_matched is_condition_not_matched opa_eval_policy

    pub do_eval_condition : Condition → Input → Result Bool
    do_eval_condition Condition.null input = ok false
    do_eval_condition Condition.unset input = ok false
    do_eval_condition Condition.opa_unset input = ok false
    do_eval_condition (Condition.match_any b) input = if b then ok true else ok false
    do_eval_condition (Condition.match exp) input = did_match (is_condition_matched input exp)
    do_eval_condition (Condition.not_match exp) input =
        did_match (is_condition_not_matched input exp)
    do_eval_condition (Condition.opa_inline script) input = did_match (opa_eval_policy script input)
    do_eval_condition (Condition.all_of cs) input =
        did_match (if no_conditions cs then ok false else all_loop cs input)
    do_eval_condition (Condition.any_of cs) input =
        did_match (if no_conditions cs then ok false else any_loop cs input)
    do_eval_condition (Condition.none_of cs) input =
        did_match (if no_conditions cs then ok false else none_loop cs input)

    pub all_loop : Conditions → Input → Result Bool
    all_loop Conditions.nil input = ok true
    all_loop (Conditions.cons c cs) input =
        let rest = all_loop cs input in
        do is_matched ← do_eval_condition c input; if is_matched then rest else ok false

    pub any_loop : Conditions → Input → Result Bool
    any_loop Conditions.nil input = ok false
    any_loop (Conditions.cons c cs) input =
        let rest = any_loop cs input in
        do is_matched ← do_eval_condition c input; if is_matched then ok true else rest

    pub none_loop : Conditions → Input → Result Bool
    none_loop Conditions.nil input = ok true
    none_loop (Conditions.cons c cs) input =
        let rest = none_loop cs input in
        do is_matched ← do_eval_condition c input; if is_matched then ok false else rest

  -- `CELEngine.EvalCondition`.
  unfoldable pub eval_condition : Condition → Input → Result Bool
  unfolding do_eval_condition
  eval_condition c input = do_eval_condition c input
