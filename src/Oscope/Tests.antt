-- ===== src/Oscope/Tests.antt =====
-- Scopes that are read from texts, and the theorems on scopes at concrete requests.
use octelium.Base.{◌≡◌, refl, true, ◌||◌, none, some, [], ◌∷◌, ok, any, is_empty}
use octelium.Corev1.Scope.{ScopeApi, ScopeService, Scope, Request, GrpcRequest}
use octelium.Corev1.Session.{Session}
use octelium.Base.Text.{is_name, cut}
use octelium.Oscope.{is_authorized_by_scopes, get_scope_service}
use octelium.Oscope.Covers.{covers, is_authorized_by_scopes_lem, api_scope_reaches_all}
use octelium.Samples.{a_session, a_service}

abbrev call : GrpcRequest
call = record {
  package_name = "octelium.api.main.core.v1";
  service = "MainService";
  method = "GetUser";
  http = none;
}

abbrev of_default : Scope
of_default = Scope.service (ScopeService.filter ("*" ∷ []) ("default" ∷ []))

abbrev scoped : Session
scoped = record a_session { scopes = of_default ∷ [] }

is_authorized_by_scopes_lem_example :
    is_authorized_by_scopes (some scoped) a_service (some (Request.grpc call)) ≡ (
      is_empty scoped.scopes
      || any (λ sc. covers sc a_service (some (Request.grpc call))) scoped.scopes)
is_authorized_by_scopes_lem_example =
    is_authorized_by_scopes_lem scoped a_service (some (Request.grpc call))

covers_the_namespace : covers of_default a_service (some (Request.grpc call)) ≡ true
unfolding covers
covers_the_namespace = refl

abbrev of_apis : Session
of_apis = record a_session { scopes = Scope.api ScopeApi.all ∷ [] }

api_scope_reaches_all_example :
    is_authorized_by_scopes (some of_apis) a_service (some (Request.grpc call)) ≡ true
api_scope_reaches_all_example = api_scope_reaches_all of_apis a_service call refl

reads_names :
    get_scope_service "svc.default"
    ≡ ok (Scope.service (ScopeService.filter ("svc" ∷ []) ("default" ∷ [])))
unfolding get_scope_service is_name cut
reads_names = refl
