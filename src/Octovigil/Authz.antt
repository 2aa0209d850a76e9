-- ===== src/Octovigil/Authz.antt =====
-- `isAuthorized` of cluster/octovigil/octovigil/octovigil.go: the checks before the policies, and
-- the policies.
pub mod Complete
use octelium.Base.{
  ℕ, String, Bool, true, false, not, ◌&&◌, ◌||◌, Option, none, some, List, [], ◌∷◌, Result, ok, err,
  failed, ◌==◌, if◌then◌else◌,
}
use octelium.Corev1.Policy.{AnyMap, PolicyTrigger}
use octelium.Corev1.Scope.{Headers, HttpRequest, Request}
use octelium.Corev1.Session.{AuthenticatorAction, Session}
use octelium.Corev1.Resources.{User, Device, DeviceState, Group, Service, RequestContext}
use octelium.Apiutils.{is_valid, is_client, is_clientless_type}
use octelium.Httputils.{Addr, get_downstream_public_ip_from_xff_header}
use octelium.Oscope.{is_authorized_by_scopes}
use octelium.Octovigil.Decision.{
  ReasonType, type_unknown_reason, session_invalid, session_locked, user_locked, device_locked,
  device_not_active, user_deactivated, session_client_type_invalid, scope_unauthorized,
  no_policy_match, authenticator_authentication_required, authenticator_registration_required,
  Reason, DecisionResult, match_yes, match_no,
}
use octelium.Octovigil.Decision.Spec.{is_allow}
use octelium.Octovigil.Acache.{Cache}
use octelium.Octovigil.Env.{Env}
use octelium.Octovigil.AllRules.{Asked, get_decision}

-- What `isAuthorized` answers: the answer and the reason.
abbrev pub Answer : Type 0
Answer = Bool × Option Reason

abbrev pub denied : ReasonType → Result Answer
denied t = ok (false, some (record { type = t; details = none }))

-- A lookup in a Go map, "" where the key is missing.
unfoldable pub header : String → Headers → String
header k [] = ""
header k ((j, v) ∷ hs) = if j == k then v else header k hs

abbrev pub get_http : Request → Option HttpRequest
get_http (Request.http h) = some h
get_http _ = none

-- The `switch` on the AuthenticatorAction: `none` where it lets the request go on.
abbrev pub authenticator_gate : AuthenticatorAction → Option (Result Answer)
authenticator_gate AuthenticatorAction.action_unset = none
authenticator_gate AuthenticatorAction.authentication_required =
    some (denied authenticator_authentication_required)
authenticator_gate AuthenticatorAction.registration_required =
    some (denied authenticator_registration_required)
authenticator_gate AuthenticatorAction.authentication_recommended = none
authenticator_gate AuthenticatorAction.registration_recommended = none
authenticator_gate (AuthenticatorAction.other n) =
    some (err (failed "Unhandled authenticatorAction"))

abbrev pub is_active_state : DeviceState → Bool
is_active_state DeviceState.active = true
is_active_state _ = false

abbrev pub is_inactive : Option Device → Bool
is_inactive none = false
is_inactive (some d) = not (is_active_state d.state)

abbrev pub is_locked_device : Option Device → Bool
is_locked_device none = false
is_locked_device (some d) = d.is_locked

-- The address that the Session authenticated from, "" where none is recorded.
unfoldable pub recorded_address : Session → String
recorded_address s = elim s.authentication.info [
  | none ↦ ""
  | some info ↦ elim info.downstream [ none ↦ "" | some d ↦ d.ip_address ]
]

-- The first checks of `isAuthorized`: the parts of a context that has a User, a Session and a Service.
unfoldable pub asked_of : RequestContext → Result Asked
asked_of req = elim req.user [
  | none ↦ err (failed "Nil User")
  | some user ↦ elim req.session [
    | none ↦ err (failed "Nil Session")
    | some session ↦ elim req.service [
      | none ↦ err (failed "Nil Service")
      | some service ↦ ok (record {
        user = user;
        session = session;
        service = service;
        device = req.device;
        groups = req.groups;
      })
    ]
  ]
]

-- The end of `isAuthorized`, from what `getDecision` returned.
unfoldable pub answer : Result DecisionResult → Result Answer
answer (err e) = err e
answer (ok d) = elim d.decision [
  | match_yes ↦ ok (is_allow d.effect, d.reason)
  | match_no ↦ denied no_policy_match
]

-- `use_forwarded_for` is the flag of the ClusterConfig's Ingress, false where either is missing.
module _ (parse_addr : String → Option Addr) (use_forwarded_for : Bool) where
  -- The request of a clientless Session comes from another address than the Session.
  unfoldable pub address_differs : Asked → Option Request → Bool
  unfolding get_downstream_public_ip_from_xff_header header recorded_address
  address_differs i none = false
  address_differs i (some r) = elim (get_http r) [
    | none ↦ false
    | some h ↦
        let ip =
          get_downstream_public_ip_from_xff_header parse_addr
            (header "x-forwarded-for" h.headers) in
        use_forwarded_for
        && not (ip == "")
        && not (recorded_address i.session == "")
        && not (ip == recorded_address i.session)
  ]

  -- The checks, in the order of the code: `none` where the request comes to the policies.
  unfoldable pub check_request : ℕ → Asked → Option Request → Option (Result Answer)
  check_request now i request =
      let later : Option (Result Answer) =
        if is_inactive i.device
        then some (denied device_not_active)
        else if is_locked_device i.device
        then some (denied device_locked)
        else if i.user.is_disabled
        then some (denied user_deactivated)
        else if not i.service.is_public && not (is_client i.session)
        then some (denied session_client_type_invalid)
        else if i.service.is_public
            && is_clientless_type i.session.type
            && address_differs i request
        then some (denied type_unknown_reason)
        else if not (is_authorized_by_scopes (some i.session) i.service request)
        then some (denied scope_unauthorized)
        else none in
      if not (is_valid now i.session)
      then some (denied session_invalid)
      else if i.session.is_locked
      then some (denied session_locked)
      else if i.user.is_locked
      then some (denied user_locked)
      else elim (authenticator_gate i.session.authenticator_action) [
        | some answer ↦ some answer
        | none ↦ later
      ]

  unfoldable pub is_authorized_asked :
      Env
      → List PolicyTrigger
      → Result AnyMap
      → Asked
      → Option Request
      → Cache
      → Result Answer × Cache
  is_authorized_asked env pts req_ctx_map i request c = elim (check_request env.now i request) [
    | some early ↦ (early, c)
    | none ↦ let (d, c') = get_decision env pts req_ctx_map i c in (answer d, c')
  ]

  -- `isAuthorized`, of a request context that is not nil.
  unfoldable pub is_authorized :
      Env → List PolicyTrigger → RequestContext → Cache → Result Answer × Cache
  is_authorized env pts req c = elim (asked_of req) [
    | err e ↦ (err e, c)
    | ok i ↦ is_authorized_asked env pts (env.convert_ctx req) i req.request c
  ]
