-- ===== src/Octovigil/Rules/Vetted.antt =====
-- The rules that cluster/octovigil/octovigil/policy.go collects, where the Policies of the cache,
-- of the resource server and of the resources have rules whose priorities are in range and whose
-- effects are ALLOW or DENY.
use octelium.Base.{
  String, ◌≡◌, refl, ap, ◌∙◌, ◌⊎◌, ◌⊎◌, true, Option, List, [], ◌∷◌, ◌++◌, map, Result, ok, err,
  Error, all, all-append, all-map, is_in_list, arith, Bool-cases, Option-cases, Result-cases, inl,
  inr,
}
use octelium.Base.Exec.{Exec}
use octelium.Corev1.Policy.{AnyMap, Policy, InlinePolicy, ObjectReference}
use octelium.Corev1.Resources.{Namespace}
use octelium.Apivalidation.{get_name_and_parents}
use octelium.Octovigil.Decision.Priority.{is_admitted, admitted}
use octelium.Octovigil.Acache.{Bucket, Cache, get_policy, set_policy}
use octelium.Octovigil.Env.{Env}
use octelium.Octovigil.Walk.{Walk}
use octelium.Octovigil.Rules.{
  owned_by, policy_rules, inline_rules, fetch_missing_policy, get_policy_from_name, enforced_attrs,
  use_policy, use_found, named_rules, policies_rules, inline_policies_rules, get_policy_rules,
  get_resource_policy_rules,
}
use octelium.Octovigil.Rules.Collects.{
  is_vetted, IsSound, Collects, Collects-pure, Collects-bind, Collects-append, lift-Collects,
  is_distinct-snoc,
}

module _ (env : Env) where
  -- The Policies that the resource server answers with have rules whose priorities are in range
  -- and whose effects are ALLOW or DENY.
  abbrev pub IsVettedBackend : Type 0
  IsVettedBackend =
      (name : String) (p : Policy) → env.backend.fetch_policy name ≡ ok p → is_vetted p.spec ≡ true

  -- A cached Policy after a write is the one written, or was there before.
  get_policy-after-set_policy :
      (c : Cache) (p q : Policy) (k : String)
      → get_policy (set_policy c p).1 k ≡ ok q
      → (q ≡ p) ⊎ (get_policy c k ≡ ok q)
  unfolding get_policy set_policy
  get_policy-after-set_policy c p q k h = ground arith

  namespaces-set_policy : (c : Cache) (p : Policy) → (set_policy c p).1.namespaces ≡ c.namespaces
  unfolding set_policy
  namespaces-set_policy c p = refl

  abbrev Vets : Exec Walk Policy → Walk → Type 0
  Vets m w = IsSound (m w).1 × ((p : Policy) → (m w).0 ≡ ok p → is_vetted p.spec ≡ true)

  fetch_missing_policy-Vets :
      IsVettedBackend
      → (name : String) (e : Error) (w : Walk) → IsSound w
      → Vets (fetch_missing_policy env name e) w
  fetch_missing_policy-Vets vb name Error.not_found w s =
      elim (Result-cases (env.backend.fetch_policy name)) [
        | inr (x, e) ↦ (
          (
            (λ k q g. ground (arith, e, g, s.0 k q)),
            ground (arith, e, s.1),
            λ k n g. ground (arith, e, g, s.2 k n),
          ),
          λ q g. ground (arith, e, g),
        )
        | inl (p, e) ↦ (
          (
            (λ k q g.
                let old = get_policy-after-set_policy w.cache p q k in
                ground (arith, e, g, s.0 k q, old, vb name p e)),
            ground (arith, e, s.1),
            (λ k n g. ground (
              arith,
              e,
              g,
              s.2 k n,
              ap (λ (f : Bucket Namespace). f k) (namespaces-set_policy w.cache p),
            )),
          ),
          λ q g. ground (arith, e, g, vb name p e),
        )
      ]
  fetch_missing_policy-Vets vb name e w s = (s, λ q g. cc)

  get_policy_from_name-Vets :
      IsVettedBackend
      → (name : String) (w : Walk) → IsSound w
      → Vets (get_policy_from_name env name) w
  unfolding get_policy_from_name
  get_policy_from_name-Vets vb name w s = elim (Result-cases (get_policy w.cache name)) [
    | inl (p, e) ↦ (
      (
        (λ k q g. ground (arith, e, g, s.0 k q)),
        ground (arith, e, s.1),
        λ k n g. ground (arith, e, g, s.2 k n),
      ),
      λ q g. ground (arith, e, g, s.0 name p e),
    )
    | inr (x, e) ↦
        let f = fetch_missing_policy-Vets vb name x w s in
        (
          (
            (λ k q g. ground (arith, e, g, f.0.0 k q)),
            ground (arith, e, f.0.1),
            λ k n g. ground (arith, e, g, f.0.2 k n),
          ),
          λ q g. ground (arith, e, g, f.1 q),
        )
  ]

  module _ (req_ctx_map : AnyMap) where
    use_policy-Collects :
        (p : Policy) → is_vetted p.spec ≡ true → Collects (use_policy env req_ctx_map p)
    unfolding use_policy
    use_policy-Collects p h w s = elim (Option-cases (enforced_attrs env req_ctx_map p.spec)) [
      | inl e ↦ (
        (
          (λ k q g. ground (arith, e, g, s.0 k q)),
          ground (arith, e, s.1),
          λ k n g. ground (arith, e, g, s.2 k n),
        ),
        ground (arith, e),
      )
      | inr (attrs, e) ↦ elim (Bool-cases (is_in_list w.used p.metadata.name)) [
        | inl u ↦ (
          (
            (λ k q g. ground (arith, e, u, g, s.0 k q)),
            ground (arith, e, u, s.1),
            λ k n g. ground (arith, e, u, g, s.2 k n),
          ),
          ground (arith, e, u),
        )
        | inr u ↦
            let d = is_distinct-snoc w.used p.metadata.name u s.1 in
            let a : all admitted (policy_rules p attrs) ≡ true =
              all-map admitted _ p.spec.rules ∙ h in
            (
              (
                (λ k q g. ground (arith, e, u, g, s.0 k q)),
                ground (arith, e, u, d),
                λ k n g. ground (arith, e, u, g, s.2 k n),
              ),
              ground (arith, e, u, a),
            )
      ]
    ]

    found_lem :
        (r : Result Policy)
        → ((p : Policy) → r ≡ ok p → is_vetted p.spec ≡ true)
        → Collects (use_found env req_ctx_map r)
    found_lem (ok p) h = use_policy-Collects p (h p refl)
    found_lem (err e) h = Collects-pure [] refl

    named_rules-Collects :
        IsVettedBackend → (ps : List String) → Collects (named_rules env req_ctx_map ps)
    unfolding named_rules
    named_rules-Collects vb [] w s = (s, refl)
    named_rules-Collects vb (p ∷ ps) w s =
        let g = get_policy_from_name-Vets vb p w s in
        Collects-append (use_found env req_ctx_map (get_policy_from_name env p w).0)
          (named_rules env req_ctx_map ps) (found_lem (get_policy_from_name env p w).0 g.1)
          (named_rules-Collects vb ps) (get_policy_from_name env p w).1 g.0

    policies_rules-Collects :
        IsVettedBackend → (names : List String) → Collects (policies_rules env req_ctx_map names)
    unfolding policies_rules
    policies_rules-Collects vb [] = Collects-pure [] refl
    policies_rules-Collects vb (name ∷ names) = lift-Collects _ (get_name_and_parents name) (λ ps.
        Collects-append (named_rules env req_ctx_map ps) (policies_rules env req_ctx_map names)
          (named_rules-Collects vb ps) (policies_rules-Collects vb names))

    inline_policies_rules-admitted :
        (ref : Option ObjectReference) (ps : List InlinePolicy)
        → all (λ p. is_vetted p.spec) ps ≡ true
        → all admitted (inline_policies_rules env req_ctx_map (map (owned_by ref) ps)) ≡ true
    unfolding inline_policies_rules
    inline_policies_rules-admitted ref [] h = refl
    inline_policies_rules-admitted ref (p ∷ ps) h =
        elim (Option-cases (enforced_attrs env req_ctx_map p.spec)) [
          | inl e ↦ ground (arith, e, h, inline_policies_rules-admitted ref ps)
          | inr (attrs, e) ↦
              let rest = inline_policies_rules env req_ctx_map (map (owned_by ref) ps) in
              let a : all admitted (inline_rules (owned_by ref p) attrs)
                  ≡ all is_admitted p.spec.rules =
                all-map admitted _ p.spec.rules in
              ground (
                arith,
                e,
                h,
                a,
                all-append admitted (inline_rules (owned_by ref p) attrs) rest,
                inline_policies_rules-admitted ref ps,
              )
        ]

    -- A resource whose inline Policies have rules whose priorities are in range and whose effects
    -- are ALLOW or DENY.
    pub get_resource_policy_rules-Collects :
        IsVettedBackend
        → (names : List String) (ps : List InlinePolicy) (ref : Option ObjectReference)
        → all (λ p. is_vetted p.spec) ps ≡ true
        → Collects (get_resource_policy_rules env req_ctx_map names ps ref)
    unfolding get_resource_policy_rules get_policy_rules
    get_resource_policy_rules-Collects vb names ps ref h =
        Collects-bind (policies_rules env req_ctx_map names) _ (policies_rules-Collects vb names)
          (λ rs a.
            let others = inline_policies_rules env req_ctx_map (map (owned_by ref) ps) in
            Collects-pure (rs ++ others) (
              all-append admitted rs others
              ∙ ground (arith, a, inline_policies_rules-admitted ref ps h)))
