-- ===== src/Octovigil/Authn/Tests.antt =====
-- The theorems on requests that authenticate, at a Session in the cache.
use octelium.Base.{◌≡◌, refl, true, false, none, some, [], ◌∷◌, Result, ok, err, failed}
use octelium.Base.Sort.{insertion_sort}
use octelium.Corev1.Session.{L3Mode, ConnectionType, Session}
use octelium.Corev1.Resources.{Service}
use octelium.Celengine.{eval_condition}
use octelium.Apiutils.{is_valid, is_client, is_expired}
use octelium.Oscope.{is_authorized_by_scopes}
use octelium.Octovigil.Decision.{do_get_decision, should_enforce_policy}
use octelium.Octovigil.Acache.{
  Cache, DownstreamInfo, new_cache, set_session, set_user, get_namespace, get_session, get_user,
  cached_groups, get_downstream_info_by_session_identifier,
}
use octelium.Octovigil.Rules.{
  enforced_attrs, policies_rules, inline_policies_rules, get_policy_rules,
  get_resource_policy_rules,
}
use octelium.Octovigil.Trigger.{get_rules_from_policy_triggers}
use octelium.Octovigil.AllRules.{
  Asked, collect, get_namespace_from_name, owner_rules, groups_rules, namespace_rules, device_rules,
  trigger_rules, get_all_rules, get_decision,
}
use octelium.Octovigil.Authz.{asked_of, check_request, answer, is_authorized_asked, is_authorized}
use octelium.Octovigil.Identifier.{
  AuthRequest, Verifier, Network, get_connection_identifier, is_address_from_client,
}
use octelium.Octovigil.Authn.{
  Response, no_response, ensure_user, ensure_device, fetch_groups, complete_info,
  authenticate_identifier, authenticate, get_req_ctx, respond, get_service_config_name,
  check_claims, authenticate_and_authorize,
}
use octelium.Octovigil.Authn.Checked.{IsGranted, authenticate_and_authorize_lem}
use octelium.Samples.{a_session, a_service}
use octelium.Octovigil.Samples.{env, admin, parse}

-- A Session that is connected from 100.64.0.2, an address of the Cluster's network, and its User.
abbrev connected : Session
connected = record a_session {
  connection = some (record {
    addresses = record { v4 = "100.64.0.2"; v6 = "" } ∷ [];
    type = ConnectionType.wireguard;
    service_options = none;
    l3_mode = L3Mode.v4;
    upstreams = [];
    essh_enable = false;
  });
}

abbrev or_new : Result Cache → Cache
or_new (ok c) = c
or_new (err e) = new_cache

abbrev cache : Cache
cache = set_session (λ a. a) (or_new (set_user new_cache admin)) connected

abbrev verifier : Verifier
verifier = record {
  verify_access_token = λ t. err (failed "");
  auth_cookie = λ c. err (failed "");
  parse_addr = parse;
}

abbrev network : Network
network = record { v4_prefix = some (λ a. true); v6_prefix = none }

abbrev request : AuthRequest
request = record {
  service = some a_service;
  request = some (record { source = some "100.64.0.2"; request = none });
}

abbrev info : DownstreamInfo
info = record { user = some admin; device = none; session = connected; groups = [] }

abbrev response_of : Result Response → Response
response_of (ok r) = r
response_of (err e) = no_response

abbrev run : Result Response
run = (authenticate_and_authorize env verifier network false [] request cache).0

responds : run ≡ ok (response_of run)
unfolding authenticate_and_authorize authenticate get_connection_identifier is_address_from_client
    authenticate_identifier get_downstream_info_by_session_identifier get_session get_user
    cached_groups set_session set_user complete_info ensure_user ensure_device fetch_groups
    check_claims is_expired respond is_authorized asked_of is_authorized_asked check_request
    is_valid is_client is_authorized_by_scopes answer get_decision get_all_rules collect owner_rules
    groups_rules namespace_rules get_namespace_from_name get_namespace device_rules trigger_rules
    get_rules_from_policy_triggers get_resource_policy_rules get_policy_rules policies_rules
    inline_policies_rules enforced_attrs should_enforce_policy do_get_decision insertion_sort
    eval_condition get_service_config_name
responds = refl

grants_the_request : (response_of run).authorized ≡ true
unfolding authenticate_and_authorize authenticate get_connection_identifier is_address_from_client
    authenticate_identifier get_downstream_info_by_session_identifier get_session get_user
    cached_groups set_session set_user complete_info ensure_user ensure_device fetch_groups
    check_claims is_expired respond is_authorized asked_of is_authorized_asked check_request
    is_valid is_client is_authorized_by_scopes answer get_decision get_all_rules collect owner_rules
    groups_rules namespace_rules get_namespace_from_name get_namespace device_rules trigger_rules
    get_rules_from_policy_triggers get_resource_policy_rules get_policy_rules policies_rules
    inline_policies_rules enforced_attrs should_enforce_policy do_get_decision insertion_sort
    eval_condition get_service_config_name
grants_the_request = refl

authenticate_and_authorize_lem_example :
    ((response_of run).is_authenticated ≡ true)
    × (di : DownstreamInfo) × (svc : Service) × (i : Asked) × ((authenticate env verifier network
          request cache).0
        ≡ ok di)
    × (request.service ≡ some svc)
    × (i.session ≡ di.session)
    × IsGranted env verifier network false []
        (get_req_ctx (authenticate env verifier network request cache).1 di none svc)
        (authenticate env verifier network request cache).1
        i
authenticate_and_authorize_lem_example =
    authenticate_and_authorize_lem env verifier network false [] request cache (response_of run)
      responds grants_the_request
