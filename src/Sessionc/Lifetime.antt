-- ===== src/Sessionc/Lifetime.antt =====
-- cluster/common/sessionc/sessionc.go: how long a new Session and its tokens last, and its
-- state.
use octelium.Base.{ℕ, zero, suc, ◌+◌, ◌*◌, ◌%◌, ◌^◌, Option, none, some, ltb, leb, if◌then◌else◌}
use octelium.Corev1.Session.{Duration, SessionType, SessionState, SessionLimits}
use octelium.Corev1.Resources.{UserType, User, ClusterConfig}
use octelium.Apiutils.{to_go, to_go?, add_duration}

-- The limits that the ClusterConfig has for a type of User.
abbrev pub cluster_limits : ClusterConfig → UserType → Option SessionLimits
cluster_limits cc UserType.human = elim cc.session [ none ↦ none | some s ↦ s.human ]
cluster_limits cc UserType.workload = elim cc.session [ none ↦ none | some s ↦ s.workload ]
cluster_limits cc UserType.type_unknown = none

-- The duration of a Session of a type, 0 where there is none.
abbrev pub limits_duration : Option SessionLimits → SessionType → ℕ
limits_duration none t = 0
limits_duration (some l) SessionType.clientless = to_go? l.clientless_duration
limits_duration (some l) SessionType.client = to_go? l.client_duration
limits_duration (some l) SessionType.type_unknown = 0

abbrev pub hour : ℕ
hour = 3600 * 1000000000

abbrev pub default_duration : UserType → SessionType → ℕ
default_duration UserType.human SessionType.clientless = hour * 16
default_duration UserType.human SessionType.client = hour * 16
default_duration UserType.human SessionType.type_unknown = hour
default_duration UserType.workload SessionType.clientless = hour * 2
default_duration UserType.workload SessionType.client = hour * 24 * 30 * 3
default_duration UserType.workload SessionType.type_unknown = hour
default_duration UserType.type_unknown t = 0

abbrev pub first_set : ℕ → ℕ → ℕ
first_set zero d = d
first_set (suc n) d = suc n

unfoldable pub session_duration : ClusterConfig → User → SessionType → ℕ
session_duration cc usr t =
    first_set (limits_duration usr.session t)
      (first_set (limits_duration (cluster_limits cc usr.type) t) (default_duration usr.type t))

abbrev pub state_or : SessionState → SessionState → SessionState
state_or SessionState.state_unknown s = s
state_or s t = s

abbrev pub limits_state : Option SessionLimits → SessionState
limits_state none = SessionState.state_unknown
limits_state (some l) = l.default_state

unfoldable pub initial_state : ClusterConfig → User → SessionState
initial_state cc usr =
    state_or (limits_state usr.session)
      (state_or (limits_state (cluster_limits cc usr.type)) SessionState.active)

-- `time.Now().Before` of the expiry that the caller asks for.
unfoldable pub expiry : ℕ → ℕ → Option ℕ → ℕ
expiry now d none = add_duration now d
expiry now d (some t) = if ltb now t then t else add_duration now d

-- The integer that an int64 stands for, plus 2 ^ 63.
abbrev pub as_signed : ℕ → ℕ
as_signed x = (x + 2 ^ 63) % 2 ^ 64

-- The duration, if it is at least 30 minutes.
unfoldable pub long_enough : Option Duration → Option Duration
long_enough none = none
long_enough (some d) =
    if leb (as_signed (30 * 60 * 1000000000)) (as_signed (to_go d)) then some d else none

abbrev pub access_of : Option SessionLimits → Option Duration
access_of none = none
access_of (some l) = l.access_token_duration

abbrev pub refresh_of : Option SessionLimits → Option Duration
refresh_of none = none
refresh_of (some l) = l.refresh_token_duration

abbrev pub or_duration : Option Duration → Option Duration → Option Duration
or_duration none e = e
or_duration (some d) e = some d

abbrev pub default_refresh : UserType → Option Duration
default_refresh UserType.human = some (Duration.hours 18)
default_refresh UserType.workload = some (Duration.days 14)
default_refresh UserType.type_unknown = none

unfoldable pub access_token_duration_of : ClusterConfig → User → Option Duration
access_token_duration_of cc usr =
    or_duration (long_enough (access_of usr.session))
      (or_duration (long_enough (access_of (cluster_limits cc usr.type))) (some (Duration.hours 4)))

-- A refresh token that would be shorter than the access token lasts as long as that.
unfoldable pub refresh_token_duration_of : ClusterConfig → User → Option Duration
refresh_token_duration_of cc usr =
    let found = or_duration (long_enough (refresh_of usr.session)) (
      or_duration (long_enough (refresh_of (cluster_limits cc usr.type)))
        (default_refresh usr.type)) in
    let access = access_token_duration_of cc usr in
    if ltb (as_signed (to_go? found)) (as_signed (to_go? access)) then access else found
