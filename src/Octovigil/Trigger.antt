-- ===== src/Octovigil/Trigger.antt =====
-- cluster/octovigil/octovigil/policytrigger.go: PolicyTriggers, their pre-conditions and their
-- rules; and `policyTriggerCtl` of octovigil.go with the controller that feeds it.
pub mod Semantics
pub mod Store
use octelium.Base.{
  ℕ, String, Bool, true, false, not, Option, none, some, List, [], ◌∷◌, ◌++◌, Result, ok, err,
  ◌>>=◌, ltb, is_empty, ◌==◌, if◌then◌else◌,
}
use octelium.Corev1.Policy.{ObjectReference, AnyMap, PreCondition, PreConditions, PolicyTrigger}
use octelium.Corev1.Session.{Session}
use octelium.Corev1.Resources.{User}
use octelium.Celengine.{Input, eval_condition, did_match}
use octelium.Octovigil.Decision.{PolicyRule}
use octelium.Octovigil.Env.{Env}
use octelium.Base.Exec.{Exec}
use octelium.Octovigil.Walk.{Walk}
use octelium.Octovigil.Rules.{rules_or_none, get_resource_policy_rules}

-- The User and the Session of the RequestContext.
pub record Caller : Type 0 where
  pub user : Option User
  pub session : Option Session

abbrev pub no_pre_conditions : PreConditions → Bool
no_pre_conditions PreConditions.nil = true
no_pre_conditions (PreConditions.cons c cs) = false

-- The UIDs of a reference and of a resource that may be missing.
abbrev pub same_uid : Option ObjectReference → Option String → Bool
same_uid none uid = false
same_uid (some ref) none = false
same_uid (some ref) (some uid) = if not (ref.uid == uid) then false else true

abbrev pub uid_of_session : Option Session → Option String
uid_of_session none = none
uid_of_session (some s) = some s.metadata.uid

abbrev pub uid_of_user : Option User → Option String
uid_of_user none = none
uid_of_user (some u) = some u.metadata.uid

-- `pre_all_loop` and `pre_any_loop` are the loops of `isPreConditionMatchedAll` and `…Any`, after
-- the check for an empty list.
module _ (env : Env) (i : Caller) (input : Input) where
  unfoldable mutual
    pub do_eval_pre_condition : PreCondition → Result Bool
    do_eval_pre_condition PreCondition.null = ok false
    do_eval_pre_condition PreCondition.unset = ok false
    do_eval_pre_condition (PreCondition.condition c) = did_match (eval_condition env.engine c input)
    do_eval_pre_condition (PreCondition.match_any b) = if not b then ok false else ok true
    do_eval_pre_condition (PreCondition.not_after t) = elim t [
      | none ↦ ok false
      | some t ↦ if ltb t env.now then ok false else ok true
    ]
    do_eval_pre_condition (PreCondition.not_before t) = elim t [
      | none ↦ ok false
      | some t ↦ if ltb env.now t then ok false else ok true
    ]
    do_eval_pre_condition (PreCondition.session_ref ref) =
        ok (same_uid ref (uid_of_session i.session))
    do_eval_pre_condition (PreCondition.user_ref ref) = ok (same_uid ref (uid_of_user i.user))
    do_eval_pre_condition (PreCondition.all_of cs) =
        did_match (if no_pre_conditions cs then ok false else pre_all_loop cs)
    do_eval_pre_condition (PreCondition.any_of cs) =
        did_match (if no_pre_conditions cs then ok false else pre_any_loop cs)

    pub pre_all_loop : PreConditions → Result Bool
    pre_all_loop PreConditions.nil = ok true
    pre_all_loop (PreConditions.cons c cs) =
        let rest = pre_all_loop cs in
        do is_matched ← do_eval_pre_condition c; if not is_matched then ok false else rest

    pub pre_any_loop : PreConditions → Result Bool
    pre_any_loop PreConditions.nil = ok false
    pre_any_loop (PreConditions.cons c cs) =
        let rest = pre_any_loop cs in
        do is_matched ← do_eval_pre_condition c; if is_matched then ok true else rest

module _ (env : Env) (i : Caller) (req_ctx_map : AnyMap) where
  -- The rules of a trigger, from what its pre-condition evaluated to.
  abbrev pub rules_on_match : PolicyTrigger → Result Bool → Exec Walk (List PolicyRule)
  rules_on_match pt (err e) w = (err e, w)
  rules_on_match pt (ok false) w = (ok [], w)
  rules_on_match pt (ok true) w =
      get_resource_policy_rules env req_ctx_map pt.policies pt.inline_policies pt.owner_ref w

  unfoldable pub get_rules_from_policy_trigger : PolicyTrigger → Exec Walk (List PolicyRule)
  get_rules_from_policy_trigger pt =
      let input : Input = record { ctx = req_ctx_map; attrs = none } in
      rules_on_match pt (do_eval_pre_condition env i input pt.pre_condition)

  -- The loop over `ptMap`, in the order of the list. A trigger that fails adds no rules, but the
  -- Policies that it used before it failed stay used.
  unfoldable pub get_rules_from_policy_triggers : List PolicyTrigger → Walk → List PolicyRule × Walk
  get_rules_from_policy_triggers [] w = ([], w)
  get_rules_from_policy_triggers (pt ∷ pts) w =
      if pt.is_disabled
      then get_rules_from_policy_triggers pts w
      else let (r, w1) = get_rules_from_policy_trigger pt w in
        let (rest, w2) = get_rules_from_policy_triggers pts w1 in (rules_or_none r ++ rest, w2)

-- `policyTriggerCtl.SetPolicyTrigger` and `DeletePolicyTrigger`, on the map as a list with one entry
-- for each UID.
unfoldable pub delete_policy_trigger : List PolicyTrigger → PolicyTrigger → List PolicyTrigger
delete_policy_trigger [] i = []
delete_policy_trigger (pt ∷ pts) i =
    let rest = delete_policy_trigger pts i in
    if pt.metadata.uid == i.metadata.uid then rest else pt ∷ rest

unfoldable pub set_policy_trigger : List PolicyTrigger → PolicyTrigger → List PolicyTrigger
unfolding delete_policy_trigger
set_policy_trigger pts i = i ∷ delete_policy_trigger pts i

-- `OnAdd`, `OnUpdate` and `OnDelete` of controllers/policytemplates.
abbrev pub on_add : List PolicyTrigger → PolicyTrigger → List PolicyTrigger
on_add pts p = set_policy_trigger pts p

abbrev pub on_update : List PolicyTrigger → PolicyTrigger → PolicyTrigger → List PolicyTrigger
on_update pts new old = set_policy_trigger pts new

abbrev pub on_delete : List PolicyTrigger → PolicyTrigger → List PolicyTrigger
on_delete pts p = set_policy_trigger pts p
