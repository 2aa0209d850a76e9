-- ===== src/Oscope/Covers.antt =====
-- Which requests the scopes of a Session let through (cluster/common/oscope/oscope.go).
use octelium.Base.{
  String, ◌≡◌, refl, Bool, true, false, ◌&&◌, ◌||◌, Option, none, some, List, [], ◌∷◌, any,
  is_empty, arith, ◌==◌,
}
use octelium.Corev1.Scope.{ScopeApi, ScopeService, Scope, Request, GrpcRequest}
use octelium.Corev1.Resources.{Service}
use octelium.Corev1.Session.{Session}
use octelium.Oscope.{
  is_in_list_or_any, passes, scope_authorizes, scopes_loop, is_authorized_by_scopes,
}

-- The list is empty, or names the argument or `*`.
abbrev pub admits : List String → String → Bool
admits filter arg = is_empty filter || any (λ itm. itm == arg || itm == "*") filter

-- A Service scope looks at the Service alone; an API scope at gRPC requests alone, to whatever
-- Service they go.
unfoldable pub covers : Scope → Service → Option Request → Bool
covers (Scope.service ScopeService.all) svc req = true
covers (Scope.service (ScopeService.filter names namespaces)) svc req =
    admits names svc.metadata.name && admits namespaces svc.namespace_ref.name
covers (Scope.api ScopeApi.all) svc (some (Request.grpc g)) = true
covers (Scope.api (ScopeApi.filter packages services methods)) svc (some (Request.grpc g)) =
    admits packages g.package_name && admits services g.service && admits methods g.method
covers _ _ _ = false

is_in_list_or_any_lem :
    (xs : List String) (arg : String)
    → is_in_list_or_any xs arg ≡ any (λ itm. itm == arg || itm == "*") xs
unfolding is_in_list_or_any
is_in_list_or_any_lem [] arg = refl
is_in_list_or_any_lem (x ∷ xs) arg = ground (arith, is_in_list_or_any_lem xs arg)

passes_lem : (xs : List String) (arg : String) → passes xs arg ≡ admits xs arg
unfolding passes
passes_lem [] arg = refl
passes_lem (x ∷ xs) arg = ground (arith, is_in_list_or_any_lem (x ∷ xs) arg)

scope_authorizes_lem :
    (sc : Scope) (svc : Service) (req : Option Request)
    → scope_authorizes sc svc req ≡ covers sc svc req
unfolding scope_authorizes covers
scope_authorizes_lem (Scope.service ScopeService.all) svc req = refl
scope_authorizes_lem (Scope.service ScopeService.unset) svc req = refl
scope_authorizes_lem (Scope.service (ScopeService.filter names namespaces)) svc req =
    ground (arith, passes_lem names svc.metadata.name, passes_lem namespaces svc.namespace_ref.name)
scope_authorizes_lem (Scope.api sc) svc none = ground arith
scope_authorizes_lem (Scope.api ScopeApi.all) svc (some (Request.grpc g)) = ground arith
scope_authorizes_lem (Scope.api ScopeApi.unset) svc (some (Request.grpc g)) = ground arith
scope_authorizes_lem (Scope.api (ScopeApi.filter packages services methods)) svc
      (some (Request.grpc g)) =
    ground (
      arith,
      passes_lem packages g.package_name,
      passes_lem services g.service,
      passes_lem methods g.method,
    )
scope_authorizes_lem (Scope.api ScopeApi.all) svc (some (Request.http r)) = ground arith
scope_authorizes_lem (Scope.api ScopeApi.all) svc (some (Request.kubernetes r)) = ground arith
scope_authorizes_lem (Scope.api ScopeApi.all) svc (some Request.other) = ground arith
scope_authorizes_lem (Scope.api ScopeApi.unset) svc (some r) = ground arith
scope_authorizes_lem (Scope.api (ScopeApi.filter packages services methods)) svc (some r) =
    ground arith
scope_authorizes_lem Scope.unset svc req = refl

scopes_loop_lem :
    (scs : List Scope) (svc : Service) (req : Option Request)
    → scopes_loop scs svc req ≡ any (λ sc. covers sc svc req) scs
unfolding scopes_loop
scopes_loop_lem [] svc req = refl
scopes_loop_lem (sc ∷ scs) svc req =
    ground (arith, scope_authorizes_lem sc svc req, scopes_loop_lem scs svc req)

-- A Session with no scopes may send any request; one with scopes may send what at least one of
-- them covers, in whatever order they stand.
pub is_authorized_by_scopes_lem :
    (sess : Session) (svc : Service) (req : Option Request)
    → is_authorized_by_scopes (some sess) svc req
      ≡ (is_empty sess.scopes || any (λ sc. covers sc svc req) sess.scopes)
unfolding is_authorized_by_scopes
is_authorized_by_scopes_lem sess svc req = ground (arith, scopes_loop_lem sess.scopes svc req)

-- The scope `api:*` lets a gRPC request through to every Service, managed by the Cluster or not.
pub api_scope_reaches_all :
    (sess : Session) (svc : Service) (g : GrpcRequest)
    → sess.scopes ≡ Scope.api ScopeApi.all ∷ []
    → is_authorized_by_scopes (some sess) svc (some (Request.grpc g)) ≡ true
unfolding covers
api_scope_reaches_all sess svc g e =
    ground (arith, e, is_authorized_by_scopes_lem sess svc (some (Request.grpc g)))
