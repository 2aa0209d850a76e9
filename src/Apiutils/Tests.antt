-- ===== src/Apiutils/Tests.antt =====
-- The theorems on Sessions at concrete Sessions.
use octelium.Base.{◌≡◌, refl, false, none, some, [], ◌∷◌}
use octelium.Corev1.Session.{Duration, L3Mode, ConnectionType, Session}
use octelium.Apiutils.{get_session_upstream}
use octelium.Samples.{a_session, an_upstream}

abbrev limited : Session
limited = record a_session {
  authentication = record a_session.authentication {
    access_token_duration = some (Duration.seconds 1);
    refresh_token_duration = some (Duration.hours 1);
  };
}

abbrev long : Session
long = record a_session {
  authentication = record a_session.authentication {
    access_token_duration = some (Duration.months 4000);
  };
}

abbrev unlimited : Session
unlimited = record a_session {
  authentication = record a_session.authentication {
    refresh_token_duration = some (Duration.seconds 1);
  };
}

abbrev connected : Session
connected = record a_session {
  connection = some (record {
    addresses = [];
    type = ConnectionType.wireguard;
    service_options = none;
    l3_mode = L3Mode.both;
    upstreams = an_upstream "v-uid" 80 ∷ [];
    essh_enable = false;
  });
}

finds_its_upstream : get_session_upstream "v-uid" connected ≡ some (an_upstream "v-uid" 80)
unfolding get_session_upstream
finds_its_upstream = refl
