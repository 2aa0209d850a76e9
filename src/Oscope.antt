-- ===== src/Oscope.antt =====
-- cluster/common/oscope/oscope.go: the scopes of a Session, read from texts and checked.
pub mod Covers
pub mod Names
pub mod Tests
use Prim.Native.String.{◌++◌}
use octelium.Base.{
  ℕ, String, len, Bool, true, false, not, ◌&&◌, Option, none, some, List, [], ◌∷◌, Result, ok, err,
  failed, ◌>>=◌, ltb, leb, nat_beq, length, is_empty, ◌==◌, if◌then◌else◌,
}
use octelium.Base.Text.{is_name, is_name_char, is_word_char, all_in, length_of, cut}
use octelium.Corev1.Scope.{ScopeApi, ScopeService, Scope, Request, GrpcRequest}
use octelium.Corev1.Resources.{Service, RequestContext}
use octelium.Corev1.Session.{Session}

-- `isInListOrAny`
unfoldable pub is_in_list_or_any : List String → String → Bool
is_in_list_or_any [] arg = false
is_in_list_or_any (itm ∷ lst) arg =
    if itm == arg then true else if itm == "*" then true else is_in_list_or_any lst arg

abbrev pub get_grpc : Request → Option GrpcRequest
get_grpc (Request.grpc g) = some g
get_grpc _ = none

-- A filter with no entries lets all through.
unfoldable pub passes : List String → String → Bool
unfolding is_in_list_or_any
passes filter arg = if ltb 0 (length filter) then is_in_list_or_any filter arg else true

unfoldable pub is_authorized_by_scope_api_server : ScopeApi → GrpcRequest → Bool
unfolding passes
is_authorized_by_scope_api_server ScopeApi.all req = true
is_authorized_by_scope_api_server (ScopeApi.filter packages services methods) req =
    if not (passes packages req.package_name)
    then false
    else if not (passes services req.service)
    then false
    else if not (passes methods req.method)
    then false
    else true
is_authorized_by_scope_api_server ScopeApi.unset req = false

unfoldable pub is_authorized_by_scope_service : ScopeService → Service → Bool
unfolding passes
is_authorized_by_scope_service ScopeService.all svc = true
is_authorized_by_scope_service (ScopeService.filter names namespaces) svc =
    if not (passes names svc.metadata.name)
    then false
    else if not (passes namespaces svc.namespace_ref.name)
    then false
    else true
is_authorized_by_scope_service ScopeService.unset svc = false

abbrev pub is_managed_service : Service → Bool
is_managed_service svc = elim svc.managed_service [ none ↦ false | some t ↦ true ]

abbrev pub is_managed_type : Service → String → Bool
is_managed_type svc type = elim svc.managed_service [ none ↦ false | some t ↦ t == type ]

-- One round of the loop: does the scope let the request through?
unfoldable pub scope_authorizes : Scope → Service → Option Request → Bool
unfolding is_authorized_by_scope_service is_authorized_by_scope_api_server
scope_authorizes (Scope.service sc) svc req = is_authorized_by_scope_service sc svc
scope_authorizes (Scope.api sc) svc req =
    if not (is_managed_service svc) && is_managed_service svc && is_managed_type svc "apiserver"
    then false
    else elim req [
      | none ↦ false
      | some r ↦ elim (get_grpc r) [
        | none ↦ false
        | some g ↦ is_authorized_by_scope_api_server sc g
      ]
    ]
scope_authorizes Scope.unset svc req = false

unfoldable pub scopes_loop : List Scope → Service → Option Request → Bool
unfolding scope_authorizes
scopes_loop [] svc req = false
scopes_loop (sc ∷ scs) svc req =
    if scope_authorizes sc svc req then true else scopes_loop scs svc req

unfoldable pub do_is_authorized_by_scopes : List Scope → Service → Option Request → Bool
unfolding scopes_loop
do_is_authorized_by_scopes scopes svc req =
    if is_empty scopes then true else scopes_loop scopes svc req

-- `IsAuthorizedByScopes`, of a request for a Service.
unfoldable pub is_authorized_by_scopes : Option Session → Service → Option Request → Bool
unfolding do_is_authorized_by_scopes
is_authorized_by_scopes none svc req = false
is_authorized_by_scopes (some sess) svc req =
    if is_empty sess.scopes then true else do_is_authorized_by_scopes sess.scopes svc req

-- `{1,64}` of `[a-z0-9-]`: `apiRgx1`, and the first part of `apiRgx2` and `apiRgx3`.
unfoldable pub is_api_name : String → Bool
unfolding all_in length_of
is_api_name s = all_in is_name_char s && leb 1 (length_of s) && leb (length_of s) 64

-- `[a-zA-Z0-9-]+`
unfoldable pub is_word : String → Bool
unfolding all_in length_of
is_word s = all_in is_word_char s && leb 1 (length_of s)

abbrev pub package_from_api : String → String
package_from_api api = "octelium.api.main." ++ api ++ ".v1"

-- What follows the first `.`: `service` of `apiRgx2`, or `service/method` of `apiRgx3`.
unfoldable pub get_scope_api_rest : String → String → String → Result Scope
unfolding is_api_name is_word cut
get_scope_api_rest arg api rest =
    let error = err (failed "Could not parse scope") in
    if not (is_api_name api)
    then error
    else if is_word rest
    then ok (Scope.api (ScopeApi.filter (package_from_api api ∷ []) (rest ∷ []) ("*" ∷ [])))
    else elim (cut b'/' rest) [
      | none ↦ error
      | some (service, method) ↦
          if is_word service && is_word method
          then ok
              (Scope.api (ScopeApi.filter (package_from_api api ∷ []) (service ∷ []) (method ∷ [])))
          else error
    ]

unfoldable pub get_scope_api : String → Result Scope
unfolding get_scope_api_rest
get_scope_api arg =
    if arg == ""
    then err (failed "API scope content is empty")
    else if arg == "*"
    then ok (Scope.api ScopeApi.all)
    else if is_api_name arg
    then ok (Scope.api (ScopeApi.filter (package_from_api arg ∷ []) ("*" ∷ []) ("*" ∷ [])))
    else elim (cut b'.' arg) [
      | none ↦ err (failed "Could not parse scope")
      | some (api, rest) ↦ get_scope_api_rest arg api rest
    ]

-- `svcRgx1` is a name of at most 30 characters, a `.` and another; `svcRgx2` is one and `/*`.
unfoldable pub get_scope_service : String → Result Scope
get_scope_service arg =
    let in_namespace : Result Scope = elim (cut b'/' arg) [
      | none ↦ err (failed "Invalid scope")
      | some (ns, rest) ↦
          if is_name 30 ns && rest == "*"
          then ok (Scope.service (ScopeService.filter ("*" ∷ []) (ns ∷ [])))
          else err (failed "Invalid scope")
    ] in
    if arg == ""
    then err (failed "API scope content is empty")
    else if arg == "*"
    then ok (Scope.service ScopeService.all)
    else if is_name 40 arg
    then ok (Scope.service (ScopeService.filter (arg ∷ []) ("default" ∷ [])))
    else elim (cut b'.' arg) [
      | none ↦ in_namespace
      | some (svc, ns) ↦
          if is_name 30 svc && is_name 30 ns
          then ok (Scope.service (ScopeService.filter (svc ∷ []) (ns ∷ [])))
          else in_namespace
    ]

-- `is_ascii` is govalidator's `IsASCII`.
module _ (is_ascii : String → Bool) where
  unfoldable pub get_scope : String → Result Scope
  unfolding get_scope_api get_scope_service cut
  get_scope scope =
      if nat_beq (len scope) 0
      then err (failed "Found empty scope")
      else if ltb 256 (len scope)
      then err (failed "Scope is too large")
      else if not (is_ascii scope)
      then err (failed "Invalid scope format")
      else elim (cut b':' scope) [
        | none ↦ err (failed "Invalid scope")
        | some (kind, arg) ↦
            if kind == "api"
            then get_scope_api arg
            else if kind == "service"
            then get_scope_service arg
            else err (failed "Invalid scope type")
      ]

  unfoldable pub get_all : List String → Result (List Scope)
  unfolding get_scope
  get_all [] = ok []
  get_all (s ∷ ss) = let rest = get_all ss in do sc ← get_scope s; scs ← rest; ok (sc ∷ scs)

  -- `none` is the nil slice.
  unfoldable pub get_scopes : Option (List String) → Result (List Scope)
  unfolding get_all
  get_scopes none = ok []
  get_scopes (some scopes) =
      if is_empty scopes
      then err (failed "Scopes must not be an empty array")
      else if ltb 128 (length scopes)
      then err (failed "Too many scopes")
      else get_all scopes
