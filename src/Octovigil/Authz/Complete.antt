-- ===== src/Octovigil/Authz/Complete.antt =====
-- When `isAuthorized` of cluster/octovigil/octovigil/octovigil.go says yes.
use octelium.Base.{
  ℕ, String, ◌≡◌, refl, Bool, true, false, not, ◌&&◌, ◌||◌, Option, none, some, List, Result, ◌⊎◌,
  inl, inr, ok, err, arith, Option-cases, Result-cases,
}
use octelium.Corev1.Policy.{AnyMap, PolicyTrigger}
use octelium.Corev1.Scope.{Request}
use octelium.Corev1.Session.{AuthenticatorAction}
use octelium.Corev1.Resources.{RequestContext}
use octelium.Apiutils.{is_valid, is_client, is_clientless_type}
use octelium.Httputils.{Addr}
use octelium.Oscope.{is_authorized_by_scopes}
use octelium.Octovigil.Decision.Spec.{grants}
use octelium.Octovigil.Acache.{Cache}
use octelium.Octovigil.Env.{Env}
use octelium.Octovigil.AllRules.{Asked, get_decision}
use octelium.Octovigil.Authz.{
  Answer, authenticator_gate, is_inactive, is_locked_device, address_differs, asked_of,
  check_request, answer, is_authorized_asked, is_authorized,
}

abbrev pub is_demanded : AuthenticatorAction → Bool
is_demanded AuthenticatorAction.authentication_required = true
is_demanded AuthenticatorAction.registration_required = true
is_demanded (AuthenticatorAction.other n) = true
is_demanded _ = false

abbrev pub allowed : Result Answer → Bool
allowed (ok (b, reason)) = b
allowed (err e) = false

module _ (parse_addr : String → Option Addr) (use_forwarded_for : Bool) where
  -- Everything but the policies that a request needs.
  abbrev pub may_pass : ℕ → Asked → Option Request → Bool
  may_pass now i request =
      is_valid now i.session
      && not i.session.is_locked
      && not i.user.is_locked
      && not i.user.is_disabled
      && not (is_demanded i.session.authenticator_action)
      && not (is_inactive i.device)
      && not (is_locked_device i.device)
      && (i.service.is_public || is_client i.session)
      && not (
          i.service.is_public
          && is_clientless_type i.session.type
          && address_differs parse_addr use_forwarded_for i request)
      && is_authorized_by_scopes (some i.session) i.service request

  abbrev go_on : Option (Result Answer) → Bool
  go_on none = true
  go_on (some r) = false

  abbrev denies : Option (Result Answer) → Bool
  denies none = true
  denies (some r) = not (allowed r)

  gate_lem :
      (a : AuthenticatorAction)
      → ((is_demanded a ≡ false) × (authenticator_gate a ≡ none))
        ⊎ ((is_demanded a ≡ true)
            × ((r : Result Answer) × (authenticator_gate a ≡ some r) × (allowed r ≡ false)))
  gate_lem AuthenticatorAction.action_unset = inl (refl, refl)
  gate_lem AuthenticatorAction.authentication_required = inr (refl, (_, refl, refl))
  gate_lem AuthenticatorAction.registration_required = inr (refl, (_, refl, refl))
  gate_lem AuthenticatorAction.authentication_recommended = inl (refl, refl)
  gate_lem AuthenticatorAction.registration_recommended = inl (refl, refl)
  gate_lem (AuthenticatorAction.other n) = inr (refl, (_, refl, refl))

  check_request_lem :
      (now : ℕ) (i : Asked) (request : Option Request)
      → (go_on (check_request parse_addr use_forwarded_for now i request) ≡ may_pass now i request)
        × (denies (check_request parse_addr use_forwarded_for now i request) ≡ true)
  unfolding check_request
  check_request_lem now i request =
      let act = gate_lem i.session.authenticator_action in
      (ground (arith, act), ground (arith, act))

  is_authorized_asked_lem :
      (env : Env) (pts : List PolicyTrigger) (m : Result AnyMap) (i : Asked)
      (request : Option Request) (c : Cache)
      → allowed (is_authorized_asked parse_addr use_forwarded_for env pts m i request c).0
        ≡ (may_pass env.now i request && grants (get_decision env pts m i c).0)
  unfolding is_authorized_asked answer
  is_authorized_asked_lem env pts m i request c =
      let q = check_request_lem env.now i request in
      elim (Option-cases (check_request parse_addr use_forwarded_for env.now i request)) [
        | inl e ↦ ground (arith, e, q, Result-cases (get_decision env pts m i c).0)
        | inr (r, e) ↦ ground (arith, e, q)
      ]

  -- A request is authorized exactly when the context has a User, a Session and a Service, the Session
  -- is valid and not locked, the User is neither locked nor disabled, no authenticator is demanded,
  -- a Device is active and not locked, the Session is a client's unless the Service is public, a
  -- clientless request to a public Service comes from no other address than its Session, the scopes
  -- allow it, and the policies grant it.
  pub is_authorized_lem :
      (env : Env) (pts : List PolicyTrigger) (req : RequestContext) (c : Cache)
      → allowed (is_authorized parse_addr use_forwarded_for env pts req c).0 ≡ elim (asked_of req) [
        | err e ↦ false
        | ok i ↦
            may_pass env.now i req.request
            && grants (get_decision env pts (env.convert_ctx req) i c).0
      ]
  unfolding is_authorized
  is_authorized_lem env pts req c = elim (Result-cases (asked_of req)) [
    | inl (i, e) ↦
        let h = is_authorized_asked_lem env pts (env.convert_ctx req) i req.request c in
        ground (arith, e, h)
    | inr (x, e) ↦ ground (arith, e)
  ]
