-- ===== src/Vigil/Tests.antt =====
-- The upstream of a Service that a User hosts.
use octelium.Base.{
  ◌≡◌, refl, Bool, true, false, Option, none, some, List, [], ◌∷◌, ok, ◌==◌, if◌then◌else◌,
}
use octelium.Corev1.Session.{Connection, Session}
use octelium.Apiutils.{
  is_served_by_session, is_client_connected, contains_upstream, get_session_upstream, find_upstream,
  has_v4, has_v6,
}
use octelium.Apiutils.Endpoints.{get_all_upstream_endpoints_by_config}
use octelium.Vigil.Sessions.{cache_session, uncache_session, get_by_user_name}
use octelium.Vigil.Balancer.{Draw, LbUpstream, upstream_at, upstream_of, get_upstream_from_svc}
use octelium.Vigil.Handlers.{on_session_add, on_session_update, on_session_delete}
use octelium.Vigil.Watch.{Change, added, updated, removed, IsWatch, last_seen}
use octelium.Vigil.Cached.{find_uid, connection_of, served_connection, watched, watched-last_seen}
use octelium.Vigil.Chosen.{IsAtWatched, get_upstream_from_svc-IsAtWatched}
use octelium.Upstream.ServingTests.{urls, hosted_service, a_connection}
use octelium.Samples.{a_session, an_upstream}

abbrev hosting : Session
hosting = record a_session {
  connection = some (record a_connection {
    addresses = record { v4 = "100.64.0.2/32"; v6 = "" } ∷ [];
    upstreams = an_upstream "v-uid" 23001 ∷ [];
  });
}

-- The second endpoint is drawn, which the User root hosts.
abbrev draw : Draw
draw = record {
  parses = λ s. true;
  ip_of = λ s. if s == "100.64.0.2/32" then "100.64.0.2" else s;
  is_ip = λ s. false;
  number = 1;
}

-- The Session without its connection, then with it; before that it was there and was removed. The
-- last change is the first.
abbrev changes : List Change
changes = updated hosting a_session ∷ added a_session ∷ removed hosting ∷ added hosting ∷ []

-- Two missing connections are equal, and no others.
abbrev both_missing : Option Connection → Option Connection → Bool
both_missing none none = true
both_missing _ _ = false

both_missing-equal : (a b : Option Connection) → both_missing a b ≡ true → a ≡ b
both_missing-equal none none h = refl
both_missing-equal none (some b) h = cc
both_missing-equal (some a) b h = cc

changes-IsWatch : IsWatch changes
unfolding IsWatch last_seen
changes-IsWatch = (refl, refl, refl, refl, (refl, (refl, tt)))

abbrev chosen : LbUpstream
chosen = record {
  host = "100.64.0.2";
  port = 23001;
  is_user = true;
  sni_host = "a";
  is_essh = false;
  session_uid = some "s-uid";
}

host_is_chosen :
    get_upstream_from_svc urls draw
      (watched both_missing hosted_service changes)
      hosted_service
      hosted_service.config
    ≡ ok chosen
unfolding get_upstream_from_svc upstream_of upstream_at watched on_session_add on_session_update
    on_session_delete cache_session uncache_session get_by_user_name is_served_by_session
    is_client_connected contains_upstream get_session_upstream find_upstream has_v4 has_v6
    get_all_upstream_endpoints_by_config
host_is_chosen = refl

get_upstream_from_svc-IsAtWatched_example :
    IsAtWatched urls draw hosted_service hosted_service.config changes chosen
get_upstream_from_svc-IsAtWatched_example =
    get_upstream_from_svc-IsAtWatched urls draw both_missing hosted_service hosted_service.config
      changes chosen both_missing-equal changes-IsWatch host_is_chosen refl

watched-last_seen_example :
    connection_of (find_uid "s-uid" (watched both_missing hosted_service changes "root"))
    ≡ served_connection hosted_service (last_seen "root" "s-uid" changes)
watched-last_seen_example =
    watched-last_seen both_missing hosted_service both_missing-equal changes "root" "s-uid"
      changes-IsWatch
