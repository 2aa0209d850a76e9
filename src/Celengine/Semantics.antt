-- ===== src/Celengine/Semantics.antt =====
-- What a condition means: the evaluator of cluster/common/celengine/celengine.go against plain
-- Boolean logic.
use octelium.Base.{
  String, len, ◌≡◌, refl, Bool, true, false, not, ◌&&◌, ◌||◌, Result, ok, ◌>>=◌, nat_beq, arith,
}
use octelium.Corev1.Policy.{Condition, Conditions}
use octelium.Celengine.{
  Engine, Input, eval_policy, opa_eval_policy, is_condition_matched, is_condition_not_matched,
  no_conditions, do_eval_condition, all_loop, any_loop, none_loop, eval_condition,
}

abbrev pub is_written : String → Bool
is_written s = not (nat_beq (len s) 0)

-- The meaning of a condition where `p` and `q` are the values of its CEL and OPA scripts. An empty
-- script and an empty list are false in every position, under `not` and `none` too.
module _ (p q : String → Bool) where
  unfoldable mutual
    pub holds : Condition → Bool
    holds Condition.null = false
    holds Condition.unset = false
    holds Condition.opa_unset = false
    holds (Condition.match_any b) = b
    holds (Condition.match exp) = is_written exp && p exp
    holds (Condition.not_match exp) = is_written exp && not (p exp)
    holds (Condition.opa_inline script) = is_written script && q script
    holds (Condition.all_of cs) = not (no_conditions cs) && all_hold cs
    holds (Condition.any_of cs) = any_holds cs
    holds (Condition.none_of cs) = not (no_conditions cs) && not (any_holds cs)

    pub all_hold : Conditions → Bool
    all_hold Conditions.nil = true
    all_hold (Conditions.cons c cs) = holds c && all_hold cs

    pub any_holds : Conditions → Bool
    any_holds Conditions.nil = false
    any_holds (Conditions.cons c cs) = holds c || any_holds cs

-- Every script of the condition evaluates without an error, to the value that `p` or `q` gives.
module _ (e : Engine) (i : Input) (p q : String → Bool) where
  unfoldable mutual
    pub Evaluates : Condition → Type 0
    Evaluates Condition.null = Unit
    Evaluates Condition.unset = Unit
    Evaluates Condition.opa_unset = Unit
    Evaluates (Condition.match_any b) = Unit
    Evaluates (Condition.match exp) = eval_policy e exp i ≡ ok (p exp)
    Evaluates (Condition.not_match exp) = eval_policy e exp i ≡ ok (p exp)
    Evaluates (Condition.opa_inline script) =
        is_written script ≡ true → opa_eval_policy e script i ≡ ok (q script)
    Evaluates (Condition.all_of cs) = EvaluateAll cs
    Evaluates (Condition.any_of cs) = EvaluateAll cs
    Evaluates (Condition.none_of cs) = EvaluateAll cs

    pub EvaluateAll : Conditions → Type 0
    EvaluateAll Conditions.nil = Unit
    EvaluateAll (Conditions.cons c cs) = Evaluates c × EvaluateAll cs

  mutual
    unfolding do_eval_condition is_condition_matched is_condition_not_matched opa_eval_policy holds
        Evaluates

    do_eval_condition_lem :
        (c : Condition) → Evaluates c → do_eval_condition e c i ≡ ok (holds p q c)
    do_eval_condition_lem Condition.null h = refl
    do_eval_condition_lem Condition.unset h = refl
    do_eval_condition_lem Condition.opa_unset h = refl
    do_eval_condition_lem (Condition.match_any b) h = ground arith
    do_eval_condition_lem (Condition.match exp) h = ground (arith, h)
    do_eval_condition_lem (Condition.not_match exp) h = ground (arith, h)
    do_eval_condition_lem (Condition.opa_inline script) h = ground (arith, h)
    do_eval_condition_lem (Condition.all_of cs) h = ground (arith, all_loop_lem cs h)
    do_eval_condition_lem (Condition.any_of cs) h = ground (arith, any_loop_lem cs h)
    do_eval_condition_lem (Condition.none_of cs) h = ground (arith, none_loop_lem cs h)

    all_loop_lem : (cs : Conditions) → EvaluateAll cs → all_loop e cs i ≡ ok (all_hold p q cs)
    all_loop_lem Conditions.nil h = refl
    all_loop_lem (Conditions.cons c cs) h =
        ground (arith, do_eval_condition_lem c h.0, all_loop_lem cs h.1)

    any_loop_lem : (cs : Conditions) → EvaluateAll cs → any_loop e cs i ≡ ok (any_holds p q cs)
    any_loop_lem Conditions.nil h = refl
    any_loop_lem (Conditions.cons c cs) h =
        ground (arith, do_eval_condition_lem c h.0, any_loop_lem cs h.1)

    none_loop_lem :
        (cs : Conditions) → EvaluateAll cs → none_loop e cs i ≡ ok (not (any_holds p q cs))
    none_loop_lem Conditions.nil h = refl
    none_loop_lem (Conditions.cons c cs) h =
        ground (arith, do_eval_condition_lem c h.0, none_loop_lem cs h.1)

-- Where every script of a condition evaluates without an error, evaluating the condition succeeds
-- with its meaning in Boolean logic.
pub eval_condition-eq-holds :
    (e : Engine) (i : Input) (p q : String → Bool) (c : Condition)
    → Evaluates e i p q c
    → eval_condition e c i ≡ ok (holds p q c)
unfolding eval_condition
eval_condition-eq-holds e i p q c h = do_eval_condition_lem e i p q c h

-- Exchanges the two answers, and keeps an error.
abbrev pub negated : Result Bool → Result Bool
negated r = do b ← r; ok (not b)

none_loop-eq-negated :
    (e : Engine) (i : Input) (cs : Conditions) → none_loop e cs i ≡ negated (any_loop e cs i)
unfolding none_loop
none_loop-eq-negated e i Conditions.nil = refl
none_loop-eq-negated e i (Conditions.cons c cs) = ground (arith, none_loop-eq-negated e i cs)

-- On a list that is not empty, `none` answers the opposite of `any`, and fails exactly where `any`
-- fails, with the same error.
pub eval_condition-none_of :
    (e : Engine) (i : Input) (c : Condition) (cs : Conditions)
    → let of = Conditions.cons c cs in
      eval_condition e (Condition.none_of of) i ≡ negated (eval_condition e (Condition.any_of of) i)
unfolding eval_condition do_eval_condition
eval_condition-none_of e i c cs = ground (arith, none_loop-eq-negated e i cs)
