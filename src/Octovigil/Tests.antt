-- ===== src/Octovigil/Tests.antt =====
-- The theorems on requests, triggers and collected rules at concrete ones.
use octelium.Base.{◌≡◌, refl, true, false, ◌&&◌, none, some, [], ok}
use octelium.Corev1.Policy.{Condition, PreCondition, PreConditions, PolicyTrigger}
use octelium.Corev1.Resources.{RequestContext}
use octelium.Celengine.{eval_condition}
use octelium.Octovigil.Decision.Spec.{grants}
use octelium.Octovigil.Acache.{new_cache}
use octelium.Octovigil.Walk.{Walk}
use octelium.Octovigil.Trigger.{Caller, do_eval_pre_condition}
use octelium.Octovigil.Trigger.Semantics.{pre_holds, Answers, do_eval_pre_condition_lem}
use octelium.Octovigil.AllRules.{Asked, get_decision}
use octelium.Octovigil.Authz.{asked_of, is_authorized}
use octelium.Octovigil.Authz.Complete.{may_pass, allowed, is_authorized_lem}
use octelium.Samples.{a_metadata, a_session, a_service}
use octelium.Octovigil.Samples.{env, admin, parse}

abbrev asked : Asked
asked = record {
  user = admin;
  session = a_session;
  service = a_service;
  device = none;
  groups = [];
}

abbrev context : RequestContext
context = record {
  user = some admin;
  session = some a_session;
  service = some a_service;
  device = none;
  groups = [];
  namespace = none;
  request = none;
}

is_authorized_lem_example :
    allowed (is_authorized parse true env [] context new_cache).0
    ≡ (may_pass parse true 5 asked none && grants (get_decision env [] (ok "{}") asked new_cache).0)
unfolding asked_of
is_authorized_lem_example = is_authorized_lem parse true env [] context new_cache

abbrev trigger : PolicyTrigger
trigger = record {
  metadata = a_metadata "trigger" "pt-uid";
  is_disabled = false;
  pre_condition = PreCondition.all_of (
      PreConditions.cons (PreCondition.not_after (some 9))
        (PreConditions.cons (PreCondition.condition (Condition.match "yes")) PreConditions.nil));
  policies = [];
  inline_policies = [];
  owner_ref = none;
}

abbrev nobody : Caller
nobody = record { user = none; session = none }

do_eval_pre_condition_lem_example :
    do_eval_pre_condition env nobody (record { ctx = "{}"; attrs = none }) trigger.pre_condition
    ≡ ok (pre_holds 5 nobody (λ c. true) trigger.pre_condition)
unfolding Answers eval_condition
do_eval_pre_condition_lem_example =
    do_eval_pre_condition_lem env (record { ctx = "{}"; attrs = none }) (λ c. true) nobody
      trigger.pre_condition (tt, (refl, tt))

abbrev start : Walk
start = record { cache = new_cache; used = [] }
