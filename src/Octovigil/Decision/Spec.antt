-- ===== src/Octovigil/Decision/Spec.antt =====
-- What the rules of cluster/octovigil/octovigil/policy.go deserve, with no order among them, and the
-- loop of `doGetDecision` over sorted rules.
use octelium.Base.{
  ◌≡◌, refl, ◌∙◌, Bool, true, false, not, ◌&&◌, ◌||◌, some, List, [], ◌∷◌, Perm, Result, ok, err,
  arith, inl, inr, Bool-cases, ltb, all, any, any-cong, Result-cases, if◌then◌else◌,
}
use octelium.Base.Sort.{follows, is_sorted, all-perm, any-perm}
use octelium.Corev1.Policy.{AnyMap, Effect, Condition}
use octelium.Celengine.{Engine, Input, eval_condition, do_eval_condition}
use octelium.Octovigil.Decision.{
  PolicyRule, MatchDecision, match_yes, match_no, DecisionResult, compare_rules, is_null,
  get_matched_decision_reason, decide,
}
use octelium.Octovigil.Decision.Priority.{signed, admitted, compare_rules-rank}

abbrev pub is_allow : Effect → Bool
is_allow Effect.allow = true
is_allow _ = false

abbrev pub is_deny : Effect → Bool
is_deny Effect.deny = true
is_deny _ = false

abbrev pub is_yes : MatchDecision → Bool
is_yes match_yes = true
is_yes match_no = false

-- The test by which `isAuthorized` grants a request.
abbrev pub grants : Result DecisionResult → Bool
grants (ok d) = is_yes d.decision && is_allow d.effect
grants (err x) = false

abbrev pub answers_true : Result Bool → Bool
answers_true (ok b) = b
answers_true (err x) = false

pub eval_condition-null :
    (e : Engine) (c : Condition) (i : Input) → is_null c ≡ true → eval_condition e c i ≡ ok false
unfolding eval_condition do_eval_condition
eval_condition-null e Condition.null i h = refl
eval_condition-null e _ i h = cc

module _ (e : Engine) (ctx : AnyMap) where
  -- The condition of the rule evaluates to true.
  unfoldable pub matches : PolicyRule → Bool
  matches r =
      answers_true (eval_condition e r.rule.condition (record { ctx = ctx; attrs = some r.attrs }))

  -- No matching DENY rule of the list has the priority of `r` or an earlier one.
  abbrev pub outranks_denials : List PolicyRule → PolicyRule → Bool
  outranks_denials rs r =
      all
        (λ s.
          not (matches s && is_deny s.rule.effect)
          || ltb (signed r.rule.priority) (signed s.rule.priority))
        rs

  -- Some matching ALLOW rule comes before every matching DENY rule.
  abbrev pub permits : List PolicyRule → Bool
  permits rs = any (λ r. matches r && is_allow r.rule.effect && outranks_denials rs r) rs

  abbrev pub matched_result : PolicyRule → DecisionResult
  matched_result r = record {
    decision = match_yes;
    effect = r.rule.effect;
    reason = some (get_matched_decision_reason r);
  }

  -- A rule decides if it matches; one that does not, or fails to evaluate, leaves it to the rest.
  pub decide_cons :
      (r : PolicyRule) (rs : List PolicyRule)
      → decide e ctx (r ∷ rs) ≡ (if matches r then matched_result r else decide e ctx rs)
  unfolding decide matches
  decide_cons r rs =
      let i : Input = record { ctx = ctx; attrs = some r.attrs } in
      ground (
        arith,
        eval_condition-null e r.rule.condition i,
        Result-cases (eval_condition e r.rule.condition i),
      )

  pub decide-yes : (rs : List PolicyRule) → is_yes (decide e ctx rs).decision ≡ any matches rs
  decide-yes [] = unfold decide in refl
  decide-yes (r ∷ rs) = rw (decide_cons r rs) (ground (arith, decide-yes rs))

  -- Of a matching ALLOW rule at the head, no later rule has a rank before it.
  head_outranks :
      (r : PolicyRule) (rs : List PolicyRule)
      → admitted r ≡ true
      → is_allow r.rule.effect ≡ true
      → all admitted rs ≡ true
      → all (follows compare_rules r) rs ≡ true
      → outranks_denials rs r ≡ true
  head_outranks r [] v a vs f = refl
  head_outranks r (s ∷ rs) v a vs f = ground (arith, head_outranks r rs, compare_rules-rank s r)

  -- A matching DENY rule at the head is outranked by no later rule.
  head_denies :
      (d : PolicyRule) (f : PolicyRule → Bool) (rs : List PolicyRule)
      → admitted d ≡ true
      → is_deny d.rule.effect ≡ true
      → all admitted rs ≡ true
      → all (follows compare_rules d) rs ≡ true
      → any
          (λ r.
            matches r
            && is_allow r.rule.effect
            && (ltb (signed r.rule.priority) (signed d.rule.priority) && f r))
          rs
        ≡ false
  head_denies d f [] v a vs h = refl
  head_denies d f (r ∷ rs) v a vs h = ground (arith, head_denies d f rs, compare_rules-rank r d)

  -- The rules of which `permits` asks whether there is one.
  abbrev candidate : List PolicyRule → PolicyRule → Bool
  candidate rs r = matches r && is_allow r.rule.effect && outranks_denials rs r

  candidate-skip :
      (r : PolicyRule) (rs xs : List PolicyRule)
      → (matches r && is_deny r.rule.effect) ≡ false
      → any (candidate (r ∷ rs)) xs ≡ any (candidate rs) xs
  candidate-skip r rs xs h = any-cong _ _ xs (λ x. ground (arith, h))

  candidate-denied :
      (r : PolicyRule) (rs xs : List PolicyRule)
      → (matches r && is_deny r.rule.effect) ≡ true
      → any (candidate (r ∷ rs)) xs
        ≡ any
            (λ x.
              matches x
              && is_allow x.rule.effect
              && (ltb (signed x.rule.priority) (signed r.rule.priority) && outranks_denials rs x))
            xs
  candidate-denied r rs xs h = any-cong _ _ xs (λ x. ground (arith, h))

  pub decide-permits :
      (rs : List PolicyRule)
      → all admitted rs ≡ true
      → is_sorted compare_rules rs ≡ true
      → grants (ok (decide e ctx rs)) ≡ permits rs
  decide-permits [] v s = unfold decide in refl
  decide-permits (r ∷ rs) v s = rw (decide_cons r rs) (elim (Bool-cases (matches r)) [
    | inr miss ↦ ground (arith, miss, candidate-skip r rs rs, decide-permits rs)
    | inl hit ↦ elim (Bool-cases (is_allow r.rule.effect)) [
      | inl allow ↦ ground (arith, hit, allow, head_outranks r rs)
      | inr other ↦
          ground
            (arith, hit, other, candidate-denied r rs rs, head_denies r (outranks_denials rs) rs)
    ]
  ])

  pub decide-known :
      (rs : List PolicyRule)
      → all admitted rs ≡ true
      → is_yes (decide e ctx rs).decision ≡ true
      → (is_allow (decide e ctx rs).effect || is_deny (decide e ctx rs).effect) ≡ true
  decide-known [] v = unfold decide in λ h. cc
  decide-known (r ∷ rs) v = rw (decide_cons r rs) (λ h. ground (arith, decide-known rs))

  pub permits-perm : {rs ss : List PolicyRule} → Perm rs ss → permits rs ≡ permits ss
  permits-perm {rs} {ss} h =
      any-perm (candidate rs) h
      ∙ any-cong (candidate rs) (candidate ss) ss (λ r. ground (
        arith,
        all-perm
            (λ s.
              not (matches s && is_deny s.rule.effect)
              || ltb (signed r.rule.priority) (signed s.rule.priority))
            h,
      ))
