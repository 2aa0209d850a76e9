-- ===== src/Octovigil/Trigger/Semantics.antt =====
-- What a pre-condition means: the evaluator of cluster/octovigil/octovigil/policytrigger.go against
-- plain Boolean logic, intervals of time and UIDs.
use octelium.Base.{
  ℕ, String, ◌≡◌, refl, ap, ◌∙◌, Bool, true, false, not, ◌&&◌, ◌||◌, Option, none, some, Result, ok,
  ◌>>=◌, leb, ◌==◌, arith, if◌then◌else◌,
}
use octelium.Corev1.Policy.{Condition, PreCondition, PreConditions, ObjectReference}
use octelium.Celengine.{Input, eval_condition, did_match}
use octelium.Octovigil.Env.{Env}
use octelium.Octovigil.Trigger.{
  Caller, no_pre_conditions, same_uid, uid_of_session, uid_of_user, do_eval_pre_condition,
  pre_all_loop, pre_any_loop,
}

abbrev refers_to : Option ObjectReference → Option String → Bool
refers_to (some ref) (some uid) = ref.uid == uid
refers_to _ _ = false

abbrev from_until : (ℕ → Bool) → Option ℕ → Bool
from_until p none = false
from_until p (some t) = p t

-- The meaning of a pre-condition where `v` is the value of its conditions. An empty list is false.
did_match-ok : (b : Bool) → did_match (ok b) ≡ ok b
did_match-ok b = ground arith

module _ {r rest : Result Bool} {a b : Bool} where
  pre_all_step :
      r ≡ ok a
      → rest ≡ ok b
      → (do is_matched ← r; if not is_matched then ok false else rest) ≡ ok (a && b)
  pre_all_step h k = ground arith

  pre_any_step :
      r ≡ ok a
      → rest ≡ ok b
      → (do is_matched ← r; if is_matched then ok true else rest) ≡ ok (a || b)
  pre_any_step h k = ground arith

module _ (now : ℕ) (i : Caller) (v : Condition → Bool) where
  unfoldable mutual
    pub pre_holds : PreCondition → Bool
    pre_holds PreCondition.null = false
    pre_holds PreCondition.unset = false
    pre_holds (PreCondition.condition c) = v c
    pre_holds (PreCondition.match_any b) = b
    pre_holds (PreCondition.not_after t) = from_until (λ x. leb now x) t
    pre_holds (PreCondition.not_before t) = from_until (λ x. leb x now) t
    pre_holds (PreCondition.session_ref ref) = refers_to ref (uid_of_session i.session)
    pre_holds (PreCondition.user_ref ref) = refers_to ref (uid_of_user i.user)
    pre_holds (PreCondition.all_of cs) = not (no_pre_conditions cs) && all_pre_hold cs
    pre_holds (PreCondition.any_of cs) = any_pre_holds cs

    all_pre_hold : PreConditions → Bool
    all_pre_hold PreConditions.nil = true
    all_pre_hold (PreConditions.cons c cs) = pre_holds c && all_pre_hold cs

    any_pre_holds : PreConditions → Bool
    any_pre_holds PreConditions.nil = false
    any_pre_holds (PreConditions.cons c cs) = pre_holds c || any_pre_holds cs

module _ (env : Env) (input : Input) (v : Condition → Bool) where
  -- Every condition in the pre-condition evaluates without an error, to the value that `v` gives.
  unfoldable mutual
    pub Answers : PreCondition → Type 0
    Answers (PreCondition.condition c) = eval_condition env.engine c input ≡ ok (v c)
    Answers (PreCondition.all_of cs) = AnswerAll cs
    Answers (PreCondition.any_of cs) = AnswerAll cs
    Answers _ = Unit

    AnswerAll : PreConditions → Type 0
    AnswerAll PreConditions.nil = Unit
    AnswerAll (PreConditions.cons c cs) = Answers c × AnswerAll cs

  module _ (i : Caller) where
    same_uid-eq-refers_to :
        (ref : Option ObjectReference) (uid : Option String) → same_uid ref uid ≡ refers_to ref uid
    same_uid-eq-refers_to ref uid = ground arith

    until_lem :
        (t : Option ℕ)
        → do_eval_pre_condition env i input (PreCondition.not_after t)
          ≡ ok (from_until (λ x. leb env.now x) t)
    unfolding do_eval_pre_condition
    until_lem none = refl
    until_lem (some t) = ground arith

    from_lem :
        (t : Option ℕ)
        → do_eval_pre_condition env i input (PreCondition.not_before t)
          ≡ ok (from_until (λ x. leb x env.now) t)
    unfolding do_eval_pre_condition
    from_lem none = refl
    from_lem (some t) = ground arith

    mutual
      unfolding do_eval_pre_condition pre_holds Answers

      pre_condition_lem :
          (c : PreCondition)
          → Answers c
          → do_eval_pre_condition env i input c ≡ ok (pre_holds env.now i v c)
      pre_condition_lem PreCondition.null h = refl
      pre_condition_lem PreCondition.unset h = refl
      pre_condition_lem (PreCondition.condition c) h = ground (arith, h)
      pre_condition_lem (PreCondition.match_any b) h = ground arith
      pre_condition_lem (PreCondition.not_after t) h = until_lem t
      pre_condition_lem (PreCondition.not_before t) h = from_lem t
      pre_condition_lem (PreCondition.session_ref ref) h =
          ap ok (same_uid-eq-refers_to ref (uid_of_session i.session))
      pre_condition_lem (PreCondition.user_ref ref) h =
          ap ok (same_uid-eq-refers_to ref (uid_of_user i.user))
      pre_condition_lem (PreCondition.all_of PreConditions.nil) h = refl
      pre_condition_lem (PreCondition.all_of (PreConditions.cons c cs)) h =
          ap did_match (pre_all_loop_lem (PreConditions.cons c cs) h) ∙ did_match-ok _
      pre_condition_lem (PreCondition.any_of PreConditions.nil) h = refl
      pre_condition_lem (PreCondition.any_of (PreConditions.cons c cs)) h =
          ap did_match (pre_any_loop_lem (PreConditions.cons c cs) h) ∙ did_match-ok _

      pre_all_loop_lem :
          (cs : PreConditions)
          → AnswerAll cs
          → pre_all_loop env i input cs ≡ ok (all_pre_hold env.now i v cs)
      pre_all_loop_lem PreConditions.nil h = refl
      pre_all_loop_lem (PreConditions.cons c cs) h =
          pre_all_step (pre_condition_lem c h.0) (pre_all_loop_lem cs h.1)

      pre_any_loop_lem :
          (cs : PreConditions)
          → AnswerAll cs
          → pre_any_loop env i input cs ≡ ok (any_pre_holds env.now i v cs)
      pre_any_loop_lem PreConditions.nil h = refl
      pre_any_loop_lem (PreConditions.cons c cs) h =
          pre_any_step (pre_condition_lem c h.0) (pre_any_loop_lem cs h.1)

    -- Where every condition in it evaluates without an error, evaluating a pre-condition succeeds
    -- with its meaning.
    pub do_eval_pre_condition_lem :
        (c : PreCondition)
        → Answers c
        → do_eval_pre_condition env i input c ≡ ok (pre_holds env.now i v c)
    do_eval_pre_condition_lem c h = pre_condition_lem c h
