-- ===== src/Octovigil/Decision/Verdict.antt =====
-- The verdict of `doGetDecision` (cluster/octovigil/octovigil/policy.go).
use mathlib.Core.List.{Mem, mem-cons_self, mem-cons_of_mem}
use mathlib.Core.List.Perm
use octelium.Base.{
  ◌≡◌, sym, ap, ◌∙◌, true, some, List, [], ◌∷◌, Perm, Result, ok, err, arith, inl, inr, Bool-cases,
  all, any, if◌then◌else◌,
}
use octelium.Base.Sort.{SortFunc, is_sorted, all-perm, any-perm}
use octelium.Corev1.Policy.{AnyMap, Effect}
use octelium.Celengine.{Engine}
use octelium.Octovigil.Decision.{
  PolicyRule, MatchDecision, match_yes, match_no, DecisionResult, compare_rules,
  get_matched_decision_reason, decide, do_get_decision,
}
use octelium.Octovigil.Decision.Priority.{admitted, compare_rules-IsStrictWeak}
use octelium.Octovigil.Decision.Spec.{
  matches, permits, matched_result, decide_cons, decide-yes, decide-permits, decide-known,
  permits-perm,
}

pub data Verdict : Type 0 where
  not_matched granted refused other : Verdict

-- The decision and the effect, without the reason.
abbrev pub verdict_of : MatchDecision → Effect → Verdict
verdict_of match_no f = not_matched
verdict_of match_yes Effect.allow = granted
verdict_of match_yes Effect.deny = refused
verdict_of match_yes _ = other

abbrev pub verdict : Result DecisionResult → Verdict
verdict (ok d) = verdict_of d.decision d.effect
verdict (err x) = other

-- The verdict that the rules deserve, in whatever order they stand.
unfoldable pub deserved : Engine → AnyMap → List PolicyRule → Verdict
deserved e ctx rs =
    if any (matches e ctx) rs then if permits e ctx rs then granted else refused else not_matched

module _ (e : Engine) (ctx : AnyMap) where
  verdict-decide :
      (rs : List PolicyRule)
      → all admitted rs ≡ true
      → is_sorted compare_rules rs ≡ true
      → verdict (ok (decide e ctx rs)) ≡ deserved e ctx rs
  unfolding deserved
  verdict-decide rs v s =
      ground (arith, decide-permits e ctx rs v s, decide-yes e ctx rs, decide-known e ctx rs v)

  deserved-perm : {rs ss : List PolicyRule} → Perm rs ss → deserved e ctx rs ≡ deserved e ctx ss
  unfolding deserved
  deserved-perm h = ground (arith, permits-perm e ctx h, any-perm (matches e ctx) h)

  -- On rules whose priorities the API server admits and whose effects are ALLOW or DENY, whatever
  -- routine sorts them: the decision grants the request exactly when some ALLOW rule whose
  -- condition is true comes, by priority, strictly before every DENY rule whose condition is
  -- true; it refuses the request where the condition of some rule is true and there is no such
  -- ALLOW rule; and it is no match otherwise.
  pub do_get_decision-verdict :
      (s : SortFunc PolicyRule) (rs : List PolicyRule)
      → all admitted rs ≡ true
      → verdict (do_get_decision e ctx s rs) ≡ deserved e ctx rs
  unfolding do_get_decision
  do_get_decision-verdict s rs v =
      verdict-decide (s.sort compare_rules rs)
        (sym (all-perm admitted (s.permutes compare_rules rs)) ∙ v)
        (s.sorts admitted compare_rules rs compare_rules-IsStrictWeak v)
      ∙ sym (deserved-perm (s.permutes compare_rules rs))

  -- On rules whose priorities the API server admits and whose effects are ALLOW or DENY, the
  -- verdict depends neither on the order in which the rules were collected nor on the routine
  -- that sorts them.
  pub do_get_decision-perm :
      (s t : SortFunc PolicyRule) (rs ss : List PolicyRule)
      → Perm rs ss
      → all admitted rs ≡ true
      → verdict (do_get_decision e ctx s rs) ≡ verdict (do_get_decision e ctx t ss)
  do_get_decision-perm s t rs ss h v =
      do_get_decision-verdict s rs v
      ∙ deserved-perm h
      ∙ sym (do_get_decision-verdict t ss (sym (all-perm admitted h) ∙ v))

  decide-matched :
      (rs : List PolicyRule)
      → (decide e ctx rs).decision ≡ match_yes
      → (r : PolicyRule) × Mem r rs
        × (matches e ctx r ≡ true)
        × (decide e ctx rs ≡ matched_result e ctx r)
  decide-matched [] = unfold decide in λ h. cc
  decide-matched (r ∷ rs) = rw (decide_cons e ctx r rs) (elim (Bool-cases (matches e ctx r)) [
    | inl hit ↦ λ h. (r, mem-cons_self, hit, rw hit)
    | inr miss ↦
        rw miss
          (λ h. let (t, m, hit, eq) = decide-matched rs h in (t, mem-cons_of_mem r m, hit, eq))
  ])

  -- A match is that of one of the rules: its condition is true, and the effect and the reported
  -- reason are its own.
  pub do_get_decision-reason :
      (s : SortFunc PolicyRule) (rs : List PolicyRule) (d : DecisionResult)
      → do_get_decision e ctx s rs ≡ ok d
      → d.decision ≡ match_yes
      → (r : PolicyRule) × Mem r rs
        × (matches e ctx r ≡ true)
        × (d.effect ≡ r.rule.effect)
        × (d.reason ≡ some (get_matched_decision_reason r))
  unfolding do_get_decision
  do_get_decision-reason s rs d h y =
      let e' : decide e ctx (s.sort compare_rules rs) ≡ d = cc in
      let (r, m, hit, same) =
        decide-matched (s.sort compare_rules rs) (ap (λ (x : DecisionResult). x.decision) e' ∙ y) in
      (r, (Perm.mem_iff (s.permutes compare_rules rs)).1 m, hit, cc, cc)
