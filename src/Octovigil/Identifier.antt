-- ===== src/Octovigil/Identifier.antt =====
-- Whose Session a request claims: `getConnectionIdentifier` and what it calls in
-- cluster/octovigil/octovigil/octovigil.go.
use octelium.Base.{
  String, Bool, true, false, not, ◌&&◌, Option, none, some, [], failed, Result, ok, err, ◌==◌,
  if◌then◌else◌,
}
use octelium.Base.Text.{strip_prefix}
use octelium.Corev1.Scope.{Headers, Request}
use octelium.Corev1.Resources.{Service}
use octelium.Httputils.{Addr}
use octelium.Octovigil.Authz.{header}

-- `DownstreamRequest`, with the address of its `Source`.
pub record DownstreamRequest : Type 0 where
  pub source : Option String
  pub request : Option Request

pub record AuthRequest : Type 0 where
  pub service : Option Service
  pub request : Option DownstreamRequest

-- `jwkctl.AccessTokenClaims`
pub record AccessTokenClaims : Type 0 where
  pub session_uid : String
  pub token_id : String

-- What the authentication rests on: `VerifyAccessToken` of cluster/common/jwkctl, the cookie
-- "octelium_auth" of a `Cookie` header, and net/netip.
pub record Verifier : Type 0 where
  pub verify_access_token : String → Result AccessTokenClaims
  pub auth_cookie : String → Result String
  pub parse_addr : String → Option Addr

-- The prefixes of the Cluster's network, by the test for an address of theirs.
pub record Network : Type 0 where
  pub v4_prefix : Option (Addr → Bool)
  pub v6_prefix : Option (Addr → Bool)

abbrev pub get_http_headers_from_req : Option Request → Headers
get_http_headers_from_req none = []
get_http_headers_from_req (some (Request.http h)) = h.headers
get_http_headers_from_req (some (Request.grpc g)) = elim g.http [ none ↦ [] | some h ↦ h.headers ]
get_http_headers_from_req (some (Request.kubernetes h)) = elim h [ none ↦ [] | some h ↦ h.headers ]
get_http_headers_from_req (some Request.other) = []

abbrev pub contains : Option (Addr → Bool) → Addr → Bool
contains none a = false
contains (some p) a = p a

module _ (v : Verifier) where
  unfoldable pub is_address_from_client : Network → String → Bool
  is_address_from_client n addr_str = elim (v.parse_addr addr_str) [
    | none ↦ false
    | some a ↦
        if contains n.v6_prefix a then true else if contains n.v4_prefix a then true else false
  ]

  unfoldable pub get_access_token_from_http_header : Headers → Result String
  unfolding header strip_prefix
  get_access_token_from_http_header hdr =
      if not (header "x-octelium-auth" hdr == "")
      then ok (header "x-octelium-auth" hdr)
      else elim (strip_prefix "Bearer " (header "authorization" hdr)) [
        | some token ↦ ok token
        | none ↦
            if header "cookie" hdr == ""
            then err (failed "Could not find jwt neither in header or cookie")
            else v.auth_cookie (header "cookie" hdr)
      ]

  -- The identifier of a Session, and the claims where it comes from an access token.
  unfoldable pub get_connection_identifier :
      Network → AuthRequest → Result (String × Option AccessTokenClaims)
  unfolding is_address_from_client get_access_token_from_http_header
  get_connection_identifier n r = elim r.service [
    | none ↦ err (failed "Nil Service")
    | some svc ↦ elim r.request [
      | none ↦ err (failed "Nil DownstreamRequest")
      | some req ↦
          let no_identifier = err (failed "Could not find Connection identifier") in
          let by_token : Result (String × Option AccessTokenClaims) =
            if svc.is_public
            then elim (get_access_token_from_http_header (get_http_headers_from_req req.request)) [
              | err e ↦ no_identifier
              | ok tkn ↦ elim (v.verify_access_token tkn) [
                | err e ↦ err e
                | ok claims ↦ ok (claims.session_uid, some claims)
              ]
            ]
            else no_identifier in
          elim req.source [
            | none ↦ by_token
            | some address ↦
                if not (address == "") && is_address_from_client n address
                then ok (address, none)
                else by_token
          ]
    ]
  ]
