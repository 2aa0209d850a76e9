-- ===== src/Octovigil/Rules/Collects.antt =====
-- An invariant of the collection of rules in cluster/octovigil/octovigil/policy.go, and the calls
-- that keep it.
use octelium.Base.{
  String, ◌≡◌, refl, ◌∙◌, Bool, true, false, not, ◌&&◌, Option, none, some, List, [], ◌∷◌, ◌++◌,
  Result, ok, err, all, all-append, is_in_list-append, is_in_list, arith, eq_iff,
}
use octelium.Base.Exec.{Exec, pure, lift, continue, ◌>>=◌}
use octelium.Corev1.Policy.{Policy, PolicySpec, Authorization}
use octelium.Corev1.Resources.{Namespace}
use octelium.Octovigil.Decision.{PolicyRule}
use octelium.Octovigil.Decision.Priority.{is_admitted, admitted}
use octelium.Octovigil.Acache.{get_policy}
use octelium.Octovigil.Walk.{Walk}
use octelium.Octovigil.Rules.{rules_or_none}

-- No text stands twice in the list.
abbrev pub is_distinct : List String → Bool
is_distinct [] = true
is_distinct (x ∷ xs) = not (is_in_list xs x) && is_distinct xs

abbrev pub is_vetted : PolicySpec → Bool
is_vetted spec = all is_admitted spec.rules

-- The inline Policies of a resource have rules whose priorities are in range and whose effects
-- are ALLOW or DENY.
abbrev pub is_vetted_owner : Option Authorization → Bool
is_vetted_owner none = true
is_vetted_owner (some a) = all (λ p. is_vetted p.spec) a.inline_policies

-- Every cached Policy has rules whose priorities are in range and whose effects are ALLOW or
-- DENY, no Policy is used twice, and the inline Policies of every cached Namespace have rules
-- whose priorities are in range and whose effects are ALLOW or DENY.
abbrev pub IsSound : Walk → Type 0
IsSound w =
    ((k : String) (p : Policy) → get_policy w.cache k ≡ ok p → is_vetted p.spec ≡ true)
    × (is_distinct w.used ≡ true)
    × ((k : String) (n : Namespace)
        → w.cache.namespaces k ≡ some n
        → is_vetted_owner n.authorization ≡ true)

-- The call keeps `IsSound` and collects rules whose priorities are in range and whose effects are
-- ALLOW or DENY.
abbrev pub Collects : Exec Walk (List PolicyRule) → Type 0
Collects m =
    (w : Walk) → IsSound w → IsSound (m w).1 × (all admitted (rules_or_none (m w).0) ≡ true)

pub Collects-pure : (rs : List PolicyRule) → all admitted rs ≡ true → Collects (pure rs)
Collects-pure rs h w s = (s, h)

Collects-continue :
    (k : List PolicyRule → Exec Walk (List PolicyRule))
    → ((rs : List PolicyRule) → all admitted rs ≡ true → Collects (k rs))
    → (r : Result (List PolicyRule)) → all admitted (rules_or_none r) ≡ true
    → Collects (continue r k)
Collects-continue k h (ok rs) a w s = h rs a w s
Collects-continue k h (err e) a w s = (s, refl)

pub Collects-bind :
    (m : Exec Walk (List PolicyRule)) (k : List PolicyRule → Exec Walk (List PolicyRule))
    → Collects m
    → ((rs : List PolicyRule) → all admitted rs ≡ true → Collects (k rs))
    → Collects (m >>= k)
Collects-bind m k h hk w s = Collects-continue k hk (m w).0 (h w s).1 (m w).1 (h w s).0

-- Two collections, one after the other.
pub Collects-append :
    (m n : Exec Walk (List PolicyRule))
    → Collects m
    → Collects n
    → Collects (do rs ← m; rest ← n; pure (rs ++ rest))
Collects-append m n h k = Collects-bind m _ h (λ rs a.
    Collects-bind n _ k
      (λ rest b. Collects-pure (rs ++ rest) (all-append admitted rs rest ∙ ground (arith, a, b))))

pub lift-Collects :
    (k : List String → Exec Walk (List PolicyRule)) (r : Result (List String))
    → ((ps : List String) → Collects (k ps))
    → Collects (lift r >>= k)
lift-Collects k (ok ps) h w s = h ps w s
lift-Collects k (err e) h w s = (s, refl)

pub is_distinct-snoc :
    (xs : List String) (x : String)
    → is_in_list xs x ≡ false
    → is_distinct xs ≡ true
    → is_distinct (xs ++ x ∷ []) ≡ true
is_distinct-snoc [] x n d = refl
is_distinct-snoc (y ∷ ys) x n d =
    ground (arith, is_in_list-append ys (x ∷ []) y, is_distinct-snoc ys x, eq_iff x y, eq_iff y x)
