-- ===== src/Octovigil/AllRules/Namespaces.antt =====
-- The Namespaces that `getNamespaceFromName` of cluster/octovigil/octovigil/policy.go finds.
use octelium.Base.{◌⊎◌, String, ◌≡◌, refl, true, some, ok, Error, arith, Result-cases, inl, inr}
use octelium.Base.Exec.{Exec}
use octelium.Corev1.Resources.{Namespace}
use octelium.Octovigil.Acache.{Cache, get_policy, get_namespace, set_namespace}
use octelium.Octovigil.Env.{Env}
use octelium.Octovigil.Walk.{Walk}
use octelium.Octovigil.Rules.Collects.{is_vetted_owner, IsSound}
use octelium.Octovigil.AllRules.{fetch_missing_namespace, get_namespace_from_name}

module _ (env : Env) where
  -- The inline Policies of the Namespaces that the resource server answers with have rules whose
  -- priorities are in range and whose effects are ALLOW or DENY.
  abbrev pub IsVettedNamespaces : Type 0
  IsVettedNamespaces =
      (name : String) (n : Namespace)
      → env.backend.fetch_namespace name ≡ ok n
      → is_vetted_owner n.authorization ≡ true

  abbrev pub VetsNamespace : Exec Walk Namespace → Walk → Type 0
  VetsNamespace f w =
      IsSound (f w).1 × ((n : Namespace) → (f w).0 ≡ ok n → is_vetted_owner n.authorization ≡ true)

  get_policy-set_namespace :
      (c : Cache) (n : Namespace) (k : String) → get_policy (set_namespace c n).1 k ≡ get_policy c k
  unfolding get_policy set_namespace
  get_policy-set_namespace c n k = refl

  namespace-after-set_namespace :
      (c : Cache) (n q : Namespace) (k : String)
      → (set_namespace c n).1.namespaces k ≡ some q
      → (q ≡ n) ⊎ (c.namespaces k ≡ some q)
  unfolding set_namespace
  namespace-after-set_namespace c n q k h = ground arith

  module _ (vn : IsVettedNamespaces) where
    fetch_missing_namespace-Vets :
        (name : String) (e : Error) (w : Walk)
        → IsSound w
        → VetsNamespace (fetch_missing_namespace env name e) w
    fetch_missing_namespace-Vets name Error.not_found w s =
        elim (Result-cases (env.backend.fetch_namespace name)) [
          | inr (x, e) ↦ (
            (
              (λ k q g. ground (arith, e, g, s.0 k q)),
              ground (arith, e, s.1),
              λ k n g. ground (arith, e, g, s.2 k n),
            ),
            λ q g. ground (arith, e, g),
          )
          | inl (p, e) ↦ (
            (
              (λ k q g. ground (arith, e, g, s.0 k q, get_policy-set_namespace w.cache p k)),
              ground (arith, e, s.1),
              (λ k n g.
                  let old = namespace-after-set_namespace w.cache p n k in
                  ground (arith, e, g, s.2 k n, old, vn name p e)),
            ),
            λ q g. ground (arith, e, g, vn name p e),
          )
        ]
    fetch_missing_namespace-Vets name e w s = (s, λ q g. cc)

    cached :
        (c : Cache) (name : String) (n : Namespace)
        → get_namespace c name ≡ ok n
        → c.namespaces name ≡ some n
    unfolding get_namespace
    cached c name n h = ground arith

    pub get_namespace_from_name-Vets :
        (name : String) (w : Walk) → IsSound w → VetsNamespace (get_namespace_from_name env name) w
    unfolding get_namespace_from_name
    get_namespace_from_name-Vets name w s = elim (Result-cases (get_namespace w.cache name)) [
      | inl (p, e) ↦ (
        (
          (λ k q g. ground (arith, e, g, s.0 k q)),
          ground (arith, e, s.1),
          λ k n g. ground (arith, e, g, s.2 k n),
        ),
        λ q g. ground (arith, e, g, s.2 name p (cached w.cache name p e)),
      )
      | inr (x, e) ↦
          let f = fetch_missing_namespace-Vets name x w s in
          (
            (
              (λ k q g. ground (arith, e, g, f.0.0 k q)),
              ground (arith, e, f.0.1),
              λ k n g. ground (arith, e, g, f.0.2 k n),
            ),
            λ q g. ground (arith, e, g, f.1 q),
          )
    ]
