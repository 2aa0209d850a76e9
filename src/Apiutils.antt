-- ===== src/Apiutils.antt =====
-- pkg/apiutils: what the code asks of a Session, and how it reads a Duration.
pub mod Lifetime
pub mod Endpoints
pub mod Tests
use octelium.Base.{
  ℕ, String, ◌+◌, ◌-◌, ◌*◌, ◌%◌, ◌^◌, Bool, true, false, not, ◌&&◌, Option, none, some, List, [],
  ◌∷◌, ltb, ◌==◌, if◌then◌else◌,
}
use octelium.Corev1.Policy.{Metadata, ObjectReference}
use octelium.Corev1.Session.{
  Duration, SessionType, SessionState, Authentication, L3Mode, Upstream, Connection, Session,
}

-- `GetObjectReference` of pkg/apiutils/umetav1, of a resource that is not nil.
abbrev pub get_object_reference : String → Metadata → ObjectReference
get_object_reference kind m = record {
  api_version = "core/v1";
  kind = kind;
  name = m.name;
  uid = m.uid;
  resource_version = m.resource_version;
}

-- `ToGo` of pkg/apiutils/umetav1: the nanoseconds of an int64, as its bit pattern. The product
-- wraps around, as int64 does.
unfoldable pub to_go : Duration → ℕ
to_go (Duration.milliseconds n) = (n * 1000000) % 2 ^ 64
to_go (Duration.seconds n) = (n * 1000000000) % 2 ^ 64
to_go (Duration.minutes n) = (n * (1000000000 * 60)) % 2 ^ 64
to_go (Duration.hours n) = (n * (1000000000 * 60 * 60)) % 2 ^ 64
to_go (Duration.days n) = (n * (1000000000 * 60 * 60 * 24)) % 2 ^ 64
to_go (Duration.weeks n) = (n * (1000000000 * 60 * 60 * 24 * 7)) % 2 ^ 64
to_go (Duration.months n) = (n * (1000000000 * 60 * 60 * 24 * 30)) % 2 ^ 64
to_go Duration.unset = 0

-- `ToGo` of a Duration that may be nil.
abbrev pub to_go? : Option Duration → ℕ
to_go? none = 0
to_go? (some d) = to_go d

-- `Time.Add` of a duration that is an int64 as a bit pattern; a time before 1970 is read as 1970.
unfoldable pub add_duration : ℕ → ℕ → ℕ
add_duration t d = if ltb d (2 ^ 63) then t + d else t - (2 ^ 64 - d)

abbrev pub is_active : SessionState → Bool
is_active SessionState.active = true
is_active _ = false

module _ (now : ℕ) where
  unfoldable pub is_expired : Session → Bool
  is_expired s = elim s.expires_at [ none ↦ false | some t ↦ ltb t now ]

  unfoldable pub has_valid_access_token : Session → Bool
  unfolding to_go add_duration
  has_valid_access_token s = elim s.authentication.access_token_duration [
    | none ↦ true
    | some d ↦ ltb now (add_duration s.authentication.set_at (to_go d))
  ]

  unfoldable pub has_valid_access_token_by_token_id : Session → String → Bool
  unfolding to_go add_duration
  has_valid_access_token_by_token_id s tid =
      if not (s.authentication.token_id == tid)
      then false
      else elim s.authentication.access_token_duration [
        | none ↦ true
        | some d ↦ ltb now (add_duration s.authentication.set_at (to_go d))
      ]

  unfoldable pub has_valid_refresh_token_by_token_id : Session → String → Bool
  unfolding to_go add_duration
  has_valid_refresh_token_by_token_id s tid =
      if not (s.authentication.token_id == tid)
      then false
      else elim s.authentication.access_token_duration [
        | none ↦ true
        | some d ↦
            ltb now (
              add_duration s.authentication.set_at (to_go? s.authentication.refresh_token_duration))
      ]

  unfoldable pub has_valid_refresh_token : Session → Bool
  unfolding to_go add_duration
  has_valid_refresh_token s = elim s.authentication.refresh_token_duration [
    | none ↦ true
    | some d ↦ ltb now (add_duration s.authentication.set_at (to_go d))
  ]

  unfoldable pub is_valid : Session → Bool
  unfolding is_expired has_valid_access_token
  is_valid s =
      if not (is_active s.state)
      then false
      else if is_expired s
      then false
      else if not (has_valid_access_token s)
      then false
      else true

abbrev pub is_client_type : SessionType → Bool
is_client_type SessionType.client = true
is_client_type _ = false

abbrev pub is_clientless_type : SessionType → Bool
is_clientless_type SessionType.clientless = true
is_clientless_type _ = false

unfoldable pub is_client : Session → Bool
is_client s = is_client_type s.type

unfoldable pub is_client_connected : Session → Bool
is_client_connected s =
    is_client_type s.type && (elim s.connection [ none ↦ false | some c ↦ true ])

unfoldable pub is_client_connected_essh : Session → Bool
unfolding is_client_connected
is_client_connected_essh s =
    if not (is_client_connected s)
    then false
    else elim s.connection [ none ↦ false | some c ↦ c.essh_enable ]

abbrev pub carries_v4 : L3Mode → Bool
carries_v4 L3Mode.both = true
carries_v4 L3Mode.v4 = true
carries_v4 _ = false

abbrev pub carries_v6 : L3Mode → Bool
carries_v6 L3Mode.both = true
carries_v6 L3Mode.v6 = true
carries_v6 _ = false

unfoldable pub has_v4 : Session → Bool
has_v4 s = elim s.connection [ none ↦ false | some c ↦ carries_v4 c.l3_mode ]

unfoldable pub has_v6 : Session → Bool
has_v6 s = elim s.connection [ none ↦ false | some c ↦ carries_v6 c.l3_mode ]

-- The loop of `GetSessionUpstream`, and the test of `slices.ContainsFunc` in `IsServedBySession`.
unfoldable pub find_upstream : String → List Upstream → Option Upstream
find_upstream uid [] = none
find_upstream uid (u ∷ us) = if u.service_uid == uid then some u else find_upstream uid us

unfoldable pub contains_upstream : String → List Upstream → Bool
contains_upstream uid [] = false
contains_upstream uid (u ∷ us) = if u.service_uid == uid then true else contains_upstream uid us

abbrev pub upstreams_of : Option Connection → List Upstream
upstreams_of none = []
upstreams_of (some c) = c.upstreams

-- `IsServedBySession` of the Service whose UID is given.
unfoldable pub is_served_by_session : String → Session → Bool
unfolding is_client_connected contains_upstream
is_served_by_session uid s =
    if not (is_client_connected s) then false else contains_upstream uid (upstreams_of s.connection)

unfoldable pub get_session_upstream : String → Session → Option Upstream
unfolding is_served_by_session find_upstream
get_session_upstream uid s =
    if not (is_served_by_session uid s) then none else find_upstream uid (upstreams_of s.connection)
