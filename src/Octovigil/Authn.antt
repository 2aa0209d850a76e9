-- ===== src/Octovigil/Authn.antt =====
-- `authenticate` and `AuthenticateAndAuthorize` of cluster/octovigil/octovigil/octovigil.go.
pub mod Checked
pub mod Tests
use octelium.Base.{
  String, Bool, true, false, not, ◌&&◌, ◌||◌, Option, none, some, List, [], ◌∷◌, Error,
  session_not_found, unauthenticated, failed, Result, ok, err, ok?, ◌==◌, is_empty, if◌then◌else◌,
}
use octelium.Base.Exec.{Exec, pure, lift, ◌>>=◌}
use octelium.Base.Text.{strip_prefix}
use octelium.Corev1.Policy.{AnyMap, PolicyTrigger}
use octelium.Corev1.Scope.{Headers, Request}
use octelium.Corev1.Session.{Session}
use octelium.Corev1.Resources.{User, Device, Group, DynamicRule, Service, RequestContext}
use octelium.Celengine.{Engine, Input, eval_condition}
use octelium.Apiutils.{is_expired}
use octelium.Httputils.{Addr}
use octelium.Octovigil.Decision.{Reason}
use octelium.Octovigil.Acache.{
  Cache, DownstreamInfo, get_downstream_info_by_session_identifier, set_user, set_device, set_group,
  get_namespace,
}
use octelium.Octovigil.Env.{Env}
use octelium.Octovigil.Identifier.{
  DownstreamRequest, AuthRequest, AccessTokenClaims, Verifier, Network, get_http_headers_from_req,
  contains, is_address_from_client, get_access_token_from_http_header, get_connection_identifier,
}
use octelium.Octovigil.Authz.{header, is_authorized}

-- The errors that `errors.Is` finds to be `UnauthenticatedErr` are `unauthenticated`.
abbrev pub downstream_error : Error → Error
downstream_error session_not_found = unauthenticated
downstream_error e = failed "Could not get downstream info from identifier"

-- A write to the cache whose error is not read.
abbrev pub or_else {ℓ} : {A : Type ℓ} → A → Result A → A
or_else a (ok b) = b
or_else a (err e) = a

abbrev pub claims_agree : Option AccessTokenClaims → Session → Bool
claims_agree none s = true
claims_agree (some claims) s =
    if not (claims.session_uid == s.metadata.uid)
    then false
    else if not (claims.token_id == s.authentication.token_id)
    then false
    else true

-- What a response carries.
pub record Response : Type 0 where
  pub is_authenticated : Bool
  pub authorized : Bool
  pub request_context : Option RequestContext
  pub reason : Option Reason
  pub service_config_name : String

abbrev pub no_response : Response
no_response = record {
  is_authenticated = false;
  authorized = false;
  request_context = none;
  reason = none;
  service_config_name = "";
}

abbrev pub get_req_ctx : Cache → DownstreamInfo → Option Request → Service → RequestContext
get_req_ctx c di req svc = record {
  user = di.user;
  session = some di.session;
  service = some svc;
  device = di.device;
  groups = di.groups;
  namespace = ok? (get_namespace c svc.namespace_ref.uid);
  request = req;
}

abbrev pub downstream_request : AuthRequest → Option Request
downstream_request r = elim r.request [ none ↦ none | some d ↦ d.request ]

module _ (env : Env) where
  unfoldable pub ensure_user : DownstreamInfo → Exec Cache User
  unfolding set_user
  ensure_user di c = elim di.user [
    | some u ↦ (ok u, c)
    | none ↦ elim (env.backend.fetch_user di.session.user_ref.uid) [
      | err e ↦ (err e, c)
      | ok u ↦ (ok u, or_else c (set_user c u))
    ]
  ]

  unfoldable pub ensure_device : DownstreamInfo → Exec Cache (Option Device)
  unfolding set_device
  ensure_device di c = elim di.device [
    | some d ↦ (ok (some d), c)
    | none ↦ elim di.session.device_ref [
      | none ↦ (ok none, c)
      | some ref ↦ elim (env.backend.fetch_device ref.uid) [
        | err e ↦ (err e, c)
        | ok d ↦ (ok (some d), or_else c (set_device c d))
      ]
    ]
  ]

  unfoldable pub fetch_groups : List String → Exec Cache (List Group)
  unfolding set_group
  fetch_groups [] c = (ok [], c)
  fetch_groups (g ∷ gs) c = elim (env.backend.fetch_group g) [
    | err e ↦ (err e, c)
    | ok grp ↦ (do rest ← fetch_groups gs; pure (grp ∷ rest)) (set_group c grp).1
  ]

  -- The Session of an identifier with its User, Device and Groups, which are asked for where the
  -- cache has none.
  unfoldable pub complete_info : DownstreamInfo → Exec Cache DownstreamInfo
  complete_info di = do
    user ← ensure_user di
    device ← ensure_device di
    groups ← if is_empty di.groups then fetch_groups user.groups else pure di.groups
    pure (record { user = some user; device = device; session = di.session; groups = groups })

  unfoldable pub check_claims : Option AccessTokenClaims → DownstreamInfo → Result DownstreamInfo
  check_claims claims di =
      if not (claims_agree claims di.session) then err unauthenticated else ok di

  -- `authenticate`, of the identifier that was found.
  unfoldable pub authenticate_identifier :
      String → Option AccessTokenClaims → Exec Cache DownstreamInfo
  unfolding check_claims
  authenticate_identifier id claims c = elim (get_downstream_info_by_session_identifier c id) [
    | err e ↦ (err (downstream_error e), c)
    | ok di ↦
        if is_expired env.now di.session
        then (err unauthenticated, c)
        else (do full ← complete_info di; lift (check_claims claims full)) c
  ]

  module _ (v : Verifier) (n : Network) where
    unfoldable pub authenticate : AuthRequest → Exec Cache DownstreamInfo
    authenticate r c = elim (get_connection_identifier v n r) [
      | err e ↦ (err unauthenticated, c)
      | ok (id, claims) ↦ authenticate_identifier id claims c
    ]

  -- The loop over the dynamic rules: a rule that fails to evaluate is passed over.
  unfoldable pub first_config_name : List DynamicRule → AnyMap → String
  unfolding eval_condition
  first_config_name [] m = ""
  first_config_name (r ∷ rs) m =
      let rest = first_config_name rs m in
      elim (eval_condition env.engine r.condition (record { ctx = m; attrs = none })) [
        | ok true ↦ r.config_name
        | ok false ↦ rest
        | err e ↦ rest
      ]

  -- `getServiceConfigName`; its caller leaves the name "" on an error.
  unfoldable pub get_service_config_name : Service → RequestContext → Result String
  unfolding first_config_name
  get_service_config_name svc ctx = elim svc.dynamic_rules [
    | none ↦ ok ""
    | some [] ↦ ok ""
    | some (r ∷ rs) ↦ elim (env.convert_ctx ctx) [
      | err e ↦ err e
      | ok m ↦ ok (first_config_name (r ∷ rs) m)
    ]
  ]

  -- The end of `AuthenticateAndAuthorize`, from what `authenticate` returned. `authenticate` fails
  -- where the Service is nil.
  module _ (v : Verifier) (n : Network) (use_forwarded_for : Bool) (pts : List PolicyTrigger) where
    unfoldable pub respond : Service → RequestContext → Cache → Result Response × Cache
    respond svc ctx c =
        let (answered, c') = is_authorized v.parse_addr use_forwarded_for env pts ctx c in
        elim answered [
          | err e ↦ (err e, c')
          | ok (b, reason) ↦ (
            ok (record {
              is_authenticated = true;
              authorized = b;
              request_context = some ctx;
              reason = reason;
              service_config_name = or_else "" (get_service_config_name svc ctx);
            }),
            c',
          )
        ]

    abbrev pub after_authenticate :
        AuthRequest → Result DownstreamInfo → Cache → Result Response × Cache
    after_authenticate r (err unauthenticated) c = (ok no_response, c)
    after_authenticate r (err e) c = (err e, c)
    after_authenticate r (ok di) c = elim r.service [
      | none ↦ (err (failed "Nil Service"), c)
      | some svc ↦ respond svc (get_req_ctx c di (downstream_request r) svc) c
    ]

    unfoldable pub authenticate_and_authorize : AuthRequest → Cache → Result Response × Cache
    authenticate_and_authorize r c =
        let (found, c1) = authenticate v n r c in after_authenticate r found c1
