-- ===== src/Octovigil/Authn/Checked.antt =====
-- What `authenticate` and `AuthenticateAndAuthorize` of
-- cluster/octovigil/octovigil/octovigil.go have checked when they say yes.
use octelium.Base.{
  String, ◌≡◌, Bool, true, false, ◌&&◌, Option, none, some, List, Result-cases, Option-cases, ok,
  inl, inr, arith,
}
use octelium.Corev1.Policy.{PolicyTrigger}
use octelium.Corev1.Session.{Session}
use octelium.Corev1.Resources.{Service, RequestContext}
use octelium.Apiutils.{is_expired}
use octelium.Octovigil.Acache.{Cache, DownstreamInfo, get_session}
use octelium.Octovigil.Env.{Env}
use octelium.Octovigil.Decision.Spec.{grants}
use octelium.Octovigil.AllRules.{Asked, get_decision}
use octelium.Octovigil.Authz.{asked_of, is_authorized}
use octelium.Octovigil.Authz.Complete.{may_pass, allowed, is_authorized_lem}
use octelium.Octovigil.Identifier.{AuthRequest, AccessTokenClaims, Verifier, Network}
use octelium.Octovigil.Authn.{
  respond, Response, authenticate, downstream_request, get_req_ctx, authenticate_and_authorize,
}

-- The claims, if there are any, are those of the Session's current token.
abbrev pub NamesSession : Option AccessTokenClaims → Session → Type 0
NamesSession none s = Unit
NamesSession (some claims) s =
    (claims.session_uid ≡ s.metadata.uid) × (claims.token_id ≡ s.authentication.token_id)

abbrev pub has_user : DownstreamInfo → Bool
has_user di = elim di.user [ none ↦ false | some u ↦ true ]

module _ (env : Env) where
  abbrev pub IsChecked : Cache → String → Option AccessTokenClaims → DownstreamInfo → Type 0
  IsChecked c id claims di =
      (get_session c id ≡ ok di.session)
      × (is_expired env.now di.session ≡ false)
      × NamesSession claims di.session
      × (has_user di ≡ true)

  module _ (v : Verifier) (n : Network) where
    module _ (f : Bool) (pts : List PolicyTrigger) where
      respond_lem :
          (svc : Service) (ctx : RequestContext) (c : Cache) (ret : Response)
          → (respond env v n f pts svc ctx c).0 ≡ ok ret
          → ret.authorized ≡ true
          → (allowed (is_authorized v.parse_addr f env pts ctx c).0 ≡ true)
            × (ret.is_authenticated ≡ true)
      unfolding respond
      respond_lem svc ctx c ret h y = ground arith

      session_of_ctx :
          (ctx : RequestContext) (i : Asked) → asked_of ctx ≡ ok i → ctx.session ≡ some i.session
      unfolding asked_of
      session_of_ctx ctx i h = ground arith

      -- What the request was granted on.
      abbrev pub IsGranted : RequestContext → Cache → Asked → Type 0
      IsGranted ctx c i =
          (asked_of ctx ≡ ok i)
          × ((may_pass v.parse_addr f env.now i ctx.request
                && grants (get_decision env pts (env.convert_ctx ctx) i c).0)
              ≡ true)

      allowed_lem :
          (ctx : RequestContext) (c : Cache)
          → allowed (is_authorized v.parse_addr f env pts ctx c).0 ≡ true
          → (i : Asked) × IsGranted ctx c i
      allowed_lem ctx c h = elim (Result-cases (asked_of ctx)) [
        | inl (i, e) ↦
            let q = is_authorized_lem v.parse_addr f env pts ctx c in (i, (e, ground (arith, e, q)))
        | inr (x, e) ↦
            let q = is_authorized_lem v.parse_addr f env pts ctx c in ground (arith, e, q)
      ]

      -- A response says that the request is authorized only if the request authenticates, to a Session
      -- `di.session`, and the checks and the policies grant the request to that Session.
      pub authenticate_and_authorize_lem :
          (r : AuthRequest) (c : Cache) (ret : Response)
          → (authenticate_and_authorize env v n f pts r c).0 ≡ ok ret
          → ret.authorized ≡ true
          → (ret.is_authenticated ≡ true)
            × (di : DownstreamInfo) × (svc : Service) × (i : Asked) × ((authenticate env v n r c).0
                ≡ ok di)
            × (r.service ≡ some svc)
            × (i.session ≡ di.session)
            × IsGranted
                (get_req_ctx (authenticate env v n r c).1 di (downstream_request r) svc)
                (authenticate env v n r c).1
                i
      unfolding authenticate_and_authorize
      authenticate_and_authorize_lem r c ret h y =
          elim (Result-cases (authenticate env v n r c).0) [
            | inr (x, e) ↦ ground (arith, e)
            | inl (di, e) ↦ elim (Option-cases r.service) [
              | inl miss ↦ ground (arith, e, miss)
              | inr (svc, found) ↦
                  let c1 = (authenticate env v n r c).1 in
                  let ctx = get_req_ctx c1 di (downstream_request r) svc in
                  let q = respond_lem svc ctx c1 ret (ground (arith, e, found)) y in
                  let g = allowed_lem ctx c1 q.0 in
                  let same = session_of_ctx ctx g.0 g.1.0 in
                  (q.1, di, svc, g.0, e, found, ground (arith, same), g.1)
            ]
          ]
