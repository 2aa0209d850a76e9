-- ===== src/Apiutils/Lifetime.antt =====
-- How long a Session is good for (pkg/apiutils/ucorev1/ucorev1.go, pkg/apiutils/umetav1/umetav1.go),
-- and which Service it serves.
use octelium.Base.{
  ℕ, String, ◌+◌, ◌*◌, ◌^◌, ◌≤◌, ◌<◌, ◌≡◌, refl, ◌↔◌, true, false, ◌&&◌, none, some, List, [], ◌∷◌,
  ◌==◌, eq_iff, arith, ◌⊎◌, inl, inr, Bool-cases,
}
use octelium.Corev1.Session.{Duration, SessionState, Session, Upstream}
use octelium.Apiutils.{
  to_go, add_duration, has_valid_access_token, has_valid_refresh_token,
  has_valid_refresh_token_by_token_id, is_valid, is_client_connected, is_served_by_session,
  get_session_upstream, find_upstream, contains_upstream, upstreams_of,
}

-- The nanoseconds that a duration means, with no bound.
abbrev pub nanoseconds : Duration → ℕ
nanoseconds (Duration.milliseconds n) = n * 1000000
nanoseconds (Duration.seconds n) = n * 1000000000
nanoseconds (Duration.minutes n) = n * 60000000000
nanoseconds (Duration.hours n) = n * 3600000000000
nanoseconds (Duration.days n) = n * 86400000000000
nanoseconds (Duration.weeks n) = n * 604800000000000
nanoseconds (Duration.months n) = n * 2592000000000000
nanoseconds Duration.unset = 0

add_duration-to_go :
    (t : ℕ) (d : Duration) → nanoseconds d < 2 ^ 63 → add_duration t (to_go d) ≡ t + nanoseconds d
unfolding add_duration to_go
add_duration-to_go t (Duration.milliseconds n) h = ground arith
add_duration-to_go t _ h = ground arith

-- Time passing never makes a Session valid again: one that is valid at a time was valid before.
pub is_valid-earlier :
    (s : Session) (earlier now : ℕ)
    → earlier ≤ now
    → is_valid now s ≡ true
    → is_valid earlier s ≡ true
unfolding is_valid
is_valid-earlier s earlier now h v = ground arith

-- A valid Session is active, has not passed its expiry, and its access token is younger than the
-- token's duration, where that is below 2 ^ 63 nanoseconds; and those together make it valid.
pub is_valid_iff :
    (s : Session) (now t : ℕ) (d : Duration)
    → s.expires_at ≡ some t
    → s.authentication.access_token_duration ≡ some d
    → nanoseconds d < 2 ^ 63
    → (is_valid now s ≡ true) ↔ (
        (s.state ≡ SessionState.active)
        × (now ≤ t)
        × (now < s.authentication.set_at + nanoseconds d))
unfolding is_valid
is_valid_iff s now t d e f h = (
  λ v. ground (arith, e, f, add_duration-to_go s.authentication.set_at d h),
  λ v. ground (arith, e, f, add_duration-to_go s.authentication.set_at d h),
)

-- Where the number of months makes 2 ^ 63 nanoseconds or more, and less than 2 ^ 64, the int64
-- turns negative: the access token is invalid from the moment it is set.
pub months_overflow :
    (s : Session) (now n : ℕ)
    → s.authentication.access_token_duration ≡ some (Duration.months n)
    → 2 ^ 63 ≤ nanoseconds (Duration.months n)
    → nanoseconds (Duration.months n) < 2 ^ 64
    → s.authentication.set_at ≤ now
    → has_valid_access_token now s ≡ false
unfolding has_valid_access_token
months_overflow s now n e h k t = ground (arith, e)

-- The refresh token's check by its ID agrees with the check that knows no ID, where the Session
-- has both durations.
pub has_valid_refresh_token_by_token_id_lem :
    (s : Session) (now : ℕ) (tid : String) (a r : Duration)
    → s.authentication.access_token_duration ≡ some a
    → s.authentication.refresh_token_duration ≡ some r
    → has_valid_refresh_token_by_token_id now s tid
      ≡ (s.authentication.token_id == tid && has_valid_refresh_token now s)
unfolding has_valid_refresh_token_by_token_id has_valid_refresh_token
has_valid_refresh_token_by_token_id_lem s now tid a r e f = ground (arith, e, f)

-- Where the Session has no access token duration, no refresh token of the right ID is ever too old,
-- whatever its own duration.
pub refresh_token_never_expires :
    (s : Session) (now : ℕ)
    → s.authentication.access_token_duration ≡ none
    → has_valid_refresh_token_by_token_id now s s.authentication.token_id ≡ true
unfolding has_valid_refresh_token_by_token_id
refresh_token_never_expires s now e =
    ground (arith, e, (eq_iff s.authentication.token_id s.authentication.token_id).1 refl)

find-contains :
    (uid : String) (us : List Upstream)
    → (find_upstream uid us ≡ none × (contains_upstream uid us ≡ false))
      ⊎ ((u : Upstream) × (find_upstream uid us ≡ some u)
          × (u.service_uid ≡ uid)
          × (contains_upstream uid us ≡ true))
unfolding find_upstream contains_upstream
find-contains uid [] = inl (refl, refl)
find-contains uid (u ∷ us) = elim (Bool-cases (u.service_uid == uid)) [
  | inl hit ↦ inr (u, ground (arith, hit), (eq_iff _ _).0 hit, ground (arith, hit))
  | inr miss ↦ rw miss (find-contains uid us)
]

-- A Session has an upstream for exactly the Services that it serves, and the upstream is the
-- Service's own.
pub get_session_upstream_lem :
    (uid : String) (s : Session)
    → ((is_served_by_session uid s ≡ false) × (get_session_upstream uid s ≡ none))
      ⊎ ((u : Upstream) × (is_served_by_session uid s ≡ true)
          × (get_session_upstream uid s ≡ some u)
          × (u.service_uid ≡ uid))
unfolding get_session_upstream
get_session_upstream_lem uid s = elim (Bool-cases (is_client_connected s)) [
  | inr out ↦ inl (ground (arith, out), ground (arith, out))
  | inl in_ ↦ elim (find-contains uid (upstreams_of s.connection)) [
    | inl (e, f) ↦ inl (ground (arith, in_, f), ground (arith, in_, f))
    | inr (u, e, own, f) ↦ inr (u, ground (arith, in_, f), ground (arith, in_, e, f), own)
  ]
]
