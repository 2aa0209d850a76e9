-- ===== src/Oscope/Names.antt =====
-- The names in Service scopes against the names of Services (cluster/common/oscope/oscope.go).
use octelium.Base.{
  ℕ, String, ◌≡◌, ◌≢◌, refl, ap, inl, inr, true, false, Option, List, [], ◌∷◌, ok, Bool-cases,
  arith, ◌==◌, eq_iff,
}
use octelium.Base.Text.{is_name, is_name_char, all_in, has_char, all_in-has_char}
use octelium.Corev1.Scope.{ScopeService, Scope, Request}
use octelium.Corev1.Resources.{Service}
use octelium.Oscope.{get_scope_service, scope_authorizes}

is_name-chars : (n : ℕ) (s : String) → is_name n s ≡ true → all_in is_name_char s ≡ true
unfolding is_name
is_name-chars n s h = ground arith

-- A scope that names one Service holds a name with no dot in it.
named_scope :
    (arg n : String) (nss : List String)
    → get_scope_service arg ≡ ok (Scope.service (ScopeService.filter (n ∷ []) nss))
    → n ≢ "*"
    → all_in is_name_char n ≡ true
unfolding get_scope_service
named_scope arg n nss h star = ground (arith, is_name-chars 40 n, is_name-chars 30 n)

-- The API server stores a Service under its full name, `name.namespace`. Of such a Service no scope
-- that names one Service lets a request through, whether the scope gives a namespace or not.
pub named_scope_covers_nothing :
    (arg n : String) (nss : List String) (svc : Service) (req : Option Request)
    → get_scope_service arg ≡ ok (Scope.service (ScopeService.filter (n ∷ []) nss))
    → n ≢ "*"
    → has_char b'.' svc.metadata.name ≡ true
    → scope_authorizes (Scope.service (ScopeService.filter (n ∷ []) nss)) svc req ≡ false
unfolding scope_authorizes
named_scope_covers_nothing arg n nss svc req h star dotted =
    elim (Bool-cases (n == svc.metadata.name)) [
      | inl same ↦ ground (
        arith,
        ap (has_char b'.') ((eq_iff n svc.metadata.name).0 same),
        all_in-has_char is_name_char b'.' n refl (named_scope arg n nss h star),
      )
      | inr other ↦ ground (arith, other, eq_iff n "*")
    ]
