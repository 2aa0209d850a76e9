-- ===== src/Apiserver/Policies/Vetted.antt =====
-- What the checks of cluster/apiserver/apiserver/admin/policy.go let through.
use octelium.Base.{
  ℕ, ◌||◌, String, len, ◌^◌, ◌≡◌, refl, Bool, true, false, ◌&&◌, some, List, [], ◌∷◌, all, ◌≤◌,
  Result, ok, err, ◌>>=◌, ltb, leb, length, ◌==◌, if◌then◌else◌, arith,
}
use octelium.Corev1.Policy.{
  Effect, EnforcementEffect, Condition, Conditions, Rule, EnforcementRule, PolicySpec, InlinePolicy,
  Authorization,
}
use octelium.Apivalidation.{validate_name}
use octelium.Octovigil.Decision.Priority.{is_admitted, is_known, is_in_range}
use octelium.Octovigil.Rules.Collects.{is_vetted, is_vetted_owner}
use octelium.Apiserver.Policies.{
  Checks, PolicyStore, length_of_conditions, check_length, check_cel_expression, validate_condition,
  validate_conditions, validate_rule, validate_rules, validate_enforcement_rules,
  validate_policy_spec, validate_inline_policies, validate_policy_owner,
}

abbrev fits : Conditions → Bool
fits cs = ltb 0 (length_of_conditions cs) && leb (length_of_conditions cs) 100

abbrev pub is_ok : Result (Unit {0}) → Bool
is_ok (ok tt) = true
is_ok (err e) = false

-- A CEL script is no longer than the engine takes, and compiles.
abbrev pub is_script : Checks → String → Bool
is_script k exp = leb (len exp) 10000 && is_ok (k.compile exp)

-- Every level of a condition is set, an array holds 1 to 100 conditions, and a CEL script is one.
unfoldable mutual
  pub is_well_formed : Checks → Condition → Bool
  is_well_formed k Condition.null = false
  is_well_formed k Condition.unset = false
  is_well_formed k Condition.opa_unset = true
  is_well_formed k (Condition.match_any b) = true
  is_well_formed k (Condition.match exp) = is_script k exp
  is_well_formed k (Condition.not_match exp) = is_script k exp
  is_well_formed k (Condition.opa_inline script) = true
  is_well_formed k (Condition.all_of cs) = fits cs && are_well_formed k cs
  is_well_formed k (Condition.any_of cs) = fits cs && are_well_formed k cs
  is_well_formed k (Condition.none_of cs) = fits cs && are_well_formed k cs

  pub are_well_formed : Checks → Conditions → Bool
  are_well_formed k Conditions.nil = true
  are_well_formed k (Conditions.cons c cs) = is_well_formed k c && are_well_formed k cs

-- Both calls of a sequence that succeeds have succeeded.
pub both_ok : (m r : Result (Unit {0})) → (do n ← m; r) ≡ ok tt → (m ≡ ok tt) × (r ≡ ok tt)
both_ok (ok tt) r h = (refl, h)
both_ok (err e) r h = cc

-- The priority is the bit pattern of an int32.
abbrev pub is_int32 : Rule → Bool
is_int32 r = ltb r.priority (2 ^ 32)

-- The effect is set. It need not be one that the enum names.
abbrev pub is_set : Effect → Bool
is_set Effect.unknown = false
is_set _ = true

abbrev pub is_set_enforcement : EnforcementEffect → Bool
is_set_enforcement EnforcementEffect.effect_unknown = false
is_set_enforcement _ = true

-- The name is empty or valid, the effect is set, the priority is in range, and the condition is
-- well formed.
abbrev pub is_sound_rule : Checks → Rule → Bool
is_sound_rule k r =
    (r.name == "" || is_ok (validate_name r.name 0 0))
    && is_set r.effect
    && is_in_range r
    && is_well_formed k r.condition

abbrev pub is_sound_enforcement : Checks → EnforcementRule → Bool
is_sound_enforcement k r = is_set_enforcement r.effect && is_well_formed k r.condition

abbrev pub has_size : Result ℕ → Bool
has_size (ok n) = leb n 100000
has_size (err e) = false

-- The attributes are valid, the spec is no longer than 100000 bytes, and it has at most 100 rules and
-- 100 enforcement rules, all of them sound.
abbrev pub is_sound_spec : Checks → PolicySpec → Bool
is_sound_spec k p =
    is_ok (k.check_attrs p.attrs)
    && has_size (k.size_of p)
    && leb (length p.rules) 100
    && leb (length p.enforcement_rules) 100
    && all (is_sound_rule k) p.rules
    && all (is_sound_enforcement k) p.enforcement_rules

-- The effects are ALLOW or DENY.
abbrev pub has_known_effects : PolicySpec → Bool
has_known_effects p = all (λ (r : Rule). is_known r.effect) p.rules

both_true : (a b : Bool) → a ≡ true → b ≡ true → (a && b) ≡ true
both_true a b h j = ground arith

known-vetted :
    (k : Checks) (rs : List Rule)
    → all (is_sound_rule k) rs ≡ true
    → all is_admitted rs ≡ all (λ (r : Rule). is_known r.effect) rs
known-vetted k [] h = refl
known-vetted k (r ∷ rs) h = ground (arith, h, known-vetted k rs)

-- The decision can rely on a sound spec whose effects are ALLOW or DENY.
pub sound-vetted :
    (k : Checks) (p : PolicySpec) → is_sound_spec k p ≡ true → is_vetted p ≡ has_known_effects p
sound-vetted k p h = known-vetted k p.rules (ground (arith, h))

sound-vetted_owner :
    (k : Checks) (ps : List InlinePolicy)
    → all (λ (p : InlinePolicy). is_sound_spec k p.spec) ps ≡ true
    → all (λ (p : InlinePolicy). is_vetted p.spec) ps
      ≡ all (λ (p : InlinePolicy). has_known_effects p.spec) ps
sound-vetted_owner k [] h = refl
sound-vetted_owner k (p ∷ ps) h =
    let i : is_sound_spec k p.spec ≡ true = ground (arith, h) in
    let j : all (λ (p : InlinePolicy). is_sound_spec k p.spec) ps ≡ true = ground (arith, h) in
    rw (sound-vetted k p.spec i, sound-vetted_owner k ps j) refl

module _ (k : Checks) where
  array_ok :
      (cs : Conditions) (r : Result (Unit {0}))
      → (do n ← check_length k cs; r) ≡ ok tt
      → (fits cs ≡ true) × (r ≡ ok tt)
  array_ok cs r h = ground arith

  check_cel_expression-ok :
      (exp : String) → check_cel_expression k exp ≡ ok tt → is_script k exp ≡ true
  unfolding check_cel_expression
  check_cel_expression-ok exp h = ground arith

  mutual
    unfolding validate_condition is_well_formed

    validate_condition-ok :
        (c : Condition) → validate_condition k c ≡ ok tt → is_well_formed k c ≡ true
    validate_condition-ok Condition.null h = cc
    validate_condition-ok Condition.unset h = cc
    validate_condition-ok Condition.opa_unset h = refl
    validate_condition-ok (Condition.match_any b) h = refl
    validate_condition-ok (Condition.match exp) h = check_cel_expression-ok exp h
    validate_condition-ok (Condition.not_match exp) h = check_cel_expression-ok exp h
    validate_condition-ok (Condition.opa_inline script) h = refl
    validate_condition-ok (Condition.all_of cs) h =
        let q = array_ok cs (validate_conditions k cs) h in
        both_true _ _ q.0 (validate_conditions-ok cs q.1)
    validate_condition-ok (Condition.any_of cs) h =
        let q = array_ok cs (validate_conditions k cs) h in
        both_true _ _ q.0 (validate_conditions-ok cs q.1)
    validate_condition-ok (Condition.none_of cs) h =
        let q = array_ok cs (validate_conditions k cs) h in
        both_true _ _ q.0 (validate_conditions-ok cs q.1)

    validate_conditions-ok :
        (cs : Conditions) → validate_conditions k cs ≡ ok tt → are_well_formed k cs ≡ true
    validate_conditions-ok Conditions.nil h = refl
    validate_conditions-ok (Conditions.cons c cs) h =
        let q = both_ok (validate_condition k c) (validate_conditions k cs) h in
        both_true _ _ (validate_condition-ok c q.0) (validate_conditions-ok cs q.1)

  validate_rule-ok :
      (r : Rule) → is_int32 r ≡ true → validate_rule k r ≡ ok tt → is_sound_rule k r ≡ true
  unfolding validate_rule
  validate_rule-ok r i h = ground (arith, validate_condition-ok r.condition)

  validate_rules-ok :
      (rs : List Rule)
      → all is_int32 rs ≡ true
      → validate_rules k rs ≡ ok tt
      → all (is_sound_rule k) rs ≡ true
  unfolding validate_rules
  validate_rules-ok [] i h = refl
  validate_rules-ok (r ∷ rs) i h =
      let q = both_ok (validate_rule k r) (validate_rules k rs) h in
      ground (
        arith,
        i,
        validate_rule-ok r (ground (arith, i)) q.0,
        validate_rules-ok rs (ground (arith, i)) q.1,
      )

  validate_enforcement_rules-ok :
      (rs : List EnforcementRule)
      → validate_enforcement_rules k rs ≡ ok tt
      → all (is_sound_enforcement k) rs ≡ true
  unfolding validate_enforcement_rules
  validate_enforcement_rules-ok [] h = refl
  validate_enforcement_rules-ok (r ∷ rs) h =
      ground (arith, validate_condition-ok r.condition, validate_enforcement_rules-ok rs)

  pub validate_policy_spec-ok :
      (p : PolicySpec)
      → all is_int32 p.rules ≡ true
      → validate_policy_spec k p ≡ ok tt
      → is_sound_spec k p ≡ true
  unfolding validate_policy_spec
  validate_policy_spec-ok p i h =
      ground (arith, validate_rules-ok p.rules i, validate_enforcement_rules-ok p.enforcement_rules)

  validate_inline_policies-ok :
      (ps : List InlinePolicy)
      → all (λ (p : InlinePolicy). all is_int32 p.spec.rules) ps ≡ true
      → validate_inline_policies k ps ≡ ok tt
      → all (λ (p : InlinePolicy). is_sound_spec k p.spec) ps ≡ true
  unfolding validate_inline_policies
  validate_inline_policies-ok [] i h = refl
  validate_inline_policies-ok (p ∷ ps) i h =
      let name = if p.name == "" then ok tt else validate_name p.name 0 0 in
      let q =
        both_ok name (do n ← validate_policy_spec k p.spec; validate_inline_policies k ps) h in
      let r = both_ok (validate_policy_spec k p.spec) (validate_inline_policies k ps) q.1 in
      both_true _ _ (validate_policy_spec-ok p.spec (ground (arith, i)) r.0)
        (validate_inline_policies-ok ps (ground (arith, i)) r.1)

  -- An owner whose Policies pass the checks names at most 100 Policies and holds at most 100 inline
  -- ones, each of which has valid attributes, at most 100000 bytes, and at most 100 rules and 100
  -- enforcement rules that are sound; and the decision can rely on all of them exactly when every
  -- effect is ALLOW or DENY.
  pub validate_policy_owner-ok :
      (s : PolicyStore) (a : Authorization)
      → all (λ (p : InlinePolicy). all is_int32 p.spec.rules) a.inline_policies ≡ true
      → validate_policy_owner k s (some a) ≡ ok tt
      → (length a.policies ≤ 100)
        × (length a.inline_policies ≤ 100)
        × (all (λ (p : InlinePolicy). is_sound_spec k p.spec) a.inline_policies ≡ true)
        × (is_vetted_owner (some a)
            ≡ all (λ (p : InlinePolicy). has_known_effects p.spec) a.inline_policies)
  unfolding validate_policy_owner
  validate_policy_owner-ok s a i h =
      let ps = a.inline_policies in
      let q : validate_inline_policies k ps ≡ ok tt = ground (arith, h) in
      let sound = validate_inline_policies-ok ps i q in
      (ground (arith, h), ground (arith, h), sound, sound-vetted_owner k ps sound)
