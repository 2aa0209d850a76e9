-- ===== src/Samples.antt =====
-- Resources that the tests of the other modules share.
use octelium.Base.{ℕ, String, true, false, none, some, []}
use octelium.Corev1.Policy.{ObjectReference, Metadata, Policy}
use octelium.Corev1.Session.{
  Upstream, SessionType, SessionState, AuthenticatorAction, Authentication, Upstream, Session,
}
use octelium.Corev1.Resources.{ServiceMode, UserType, User, Group, Namespace, Service}

abbrev pub a_metadata : String → String → Metadata
a_metadata name uid = record { name = name; uid = uid; resource_version = "1"; pic_url = "" }

abbrev pub a_reference : String → String → ObjectReference
a_reference name uid = record {
  api_version = "core/v1";
  kind = "";
  uid = uid;
  name = name;
  resource_version = "1";
}

abbrev pub an_authentication : Authentication
an_authentication = record {
  token_id = "t-id";
  set_at = 0;
  access_token_duration = none;
  refresh_token_duration = none;
  info = none;
}

abbrev pub a_session : Session
a_session = record {
  metadata = a_metadata "sess" "s-uid";
  state = SessionState.active;
  expires_at = some 1000;
  authorization = none;
  type = SessionType.client;
  user_ref = a_reference "root" "u-uid";
  device_ref = none;
  connection = none;
  is_locked = false;
  authenticator_action = AuthenticatorAction.action_unset;
  scopes = [];
  authentication = an_authentication;
  initial_authentication = an_authentication;
  last_authentications = [];
  total_authentications = 1;
  is_browser = false;
  credential_ref = none;
  ext = [];
  required_authenticator_ref = none;
}

abbrev pub an_upstream : String → ℕ → Upstream
an_upstream uid port = record {
  service_uid = uid;
  port = port;
  backend = record { host = "localhost"; port = port };
  is_udp = false;
  is_essh = false;
}

abbrev pub a_service : Service
a_service = record {
  metadata = a_metadata "svc.default" "v-uid";
  is_public = true;
  authorization = none;
  dynamic_rules = none;
  namespace_ref = a_reference "default" "n-uid";
  managed_service = none;
  managed_service_port = 0;
  mode = ServiceMode.tcp;
  is_tls = false;
  region = "";
  config = none;
  spec_labels = [];
}

abbrev pub a_user : User
a_user = record {
  metadata = a_metadata "root" "u-uid";
  type = UserType.human;
  session = none;
  is_disabled = false;
  groups = [];
  authorization = none;
  is_locked = false;
}

abbrev pub a_group : Group
a_group = record { metadata = a_metadata "staff" "g-uid"; authorization = none }

abbrev pub a_namespace : Namespace
a_namespace = record { metadata = a_metadata "default" "n-uid"; authorization = none }

abbrev pub a_policy : Policy
a_policy = record {
  metadata = a_metadata "allow-all" "p-uid";
  spec = record { is_disabled = false; attrs = "{}"; rules = []; enforcement_rules = [] };
}
