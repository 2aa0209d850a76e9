-- ===== src/Sessionc/Durations.antt =====
-- How long the tokens of a Session of cluster/common/sessionc/sessionc.go last.
use octelium.Base.{
  ℕ, String, ◌+◌, ◌*◌, ◌^◌, ◌≤◌, ◌≡◌, refl, ◌&&◌, Option, none, some, ok, ltb, leb, arith, ◌⊎◌, inl,
  inr, Option-cases, Bool-cases, Result-cases, ◌==◌,
}
use octelium.Corev1.Session.{Duration, Authentication, Session}
use octelium.Corev1.Resources.{User, ClusterConfig}
use octelium.Apiutils.{to_go, has_valid_refresh_token, has_valid_refresh_token_by_token_id}
use octelium.Apiutils.Lifetime.{has_valid_refresh_token_by_token_id_lem}
use octelium.Sessionc.Lifetime.{
  as_signed, long_enough, access_of, refresh_of, cluster_limits, access_token_duration_of,
  refresh_token_duration_of, or_duration, default_refresh,
}
use octelium.Sessionc.Caller.{Around}
use octelium.Sessionc.Create.{
  CreateSessionOpts, new_authentication, session_of, cluster_config_of, new_session,
}

abbrev pub half_hour : ℕ
half_hour = 1800000000000

-- Both tokens have a duration: the access token's is at least 30 minutes, and the refresh token's is
-- at least that.
pub record HasBothTokens (au : Authentication) : Type 0 where
  pub access : Duration
  pub refresh : Duration
  pub has_access : au.access_token_duration ≡ some access
  pub has_refresh : au.refresh_token_duration ≡ some refresh
  pub not_short : 2 ^ 63 + half_hour ≤ as_signed (to_go access)
  pub not_shorter : as_signed (to_go access) ≤ as_signed (to_go refresh)

long_enough-cases :
    (d : Option Duration)
    → (long_enough d ≡ none)
      ⊎ ((x : Duration) × (long_enough d ≡ some x) × (2 ^ 63 + half_hour ≤ as_signed (to_go x)))
unfolding long_enough
long_enough-cases none = inl refl
long_enough-cases (some d) =
    elim (Bool-cases (leb (as_signed (30 * 60 * 1000000000)) (as_signed (to_go d)))) [
      | inl h ↦ inr (d, ground (arith, h), ground (arith, h))
      | inr h ↦ inl (ground (arith, h))
    ]

four_hours : 2 ^ 63 + half_hour ≤ as_signed (to_go (Duration.hours 4))
unfolding to_go
four_hours = ground arith

access_token_duration_of-some :
    (c : ClusterConfig) (u : User)
    → (x : Duration) × (access_token_duration_of c u ≡ some x)
      × (2 ^ 63 + half_hour ≤ as_signed (to_go x))
unfolding access_token_duration_of
access_token_duration_of-some c u = elim (long_enough-cases (access_of u.session)) [
  | inr (x, e, h) ↦ (x, ground (arith, e), h)
  | inl e ↦ elim (long_enough-cases (access_of (cluster_limits c u.type))) [
    | inr (x, f, h) ↦ (x, ground (arith, e, f), h)
    | inl f ↦ (Duration.hours 4, ground (arith, e, f), four_hours)
  ]
]

refresh_token_duration_of-some :
    (c : ClusterConfig) (u : User) (x : Duration)
    → access_token_duration_of c u ≡ some x
    → 2 ^ 63 + half_hour ≤ as_signed (to_go x)
    → (y : Duration) × (refresh_token_duration_of c u ≡ some y)
      × (as_signed (to_go x) ≤ as_signed (to_go y))
unfolding refresh_token_duration_of
refresh_token_duration_of-some c u x e h =
    let found =
      or_duration (long_enough (refresh_of u.session)) (
        or_duration (long_enough (refresh_of (cluster_limits c u.type)))
          (default_refresh u.type)) in
    elim (Option-cases found) [
      | inl f ↦ (x, ground (arith, e, f, h), omega arith)
      | inr (y, f) ↦ elim (Bool-cases (ltb (as_signed (to_go y)) (as_signed (to_go x)))) [
        | inl g ↦ (x, ground (arith, e, f, g), omega arith)
        | inr g ↦ (y, ground (arith, e, f, g), ground (arith, g))
      ]
    ]

pub new_authentication-HasBothTokens :
    (a : Around) (c : ClusterConfig) (o : CreateSessionOpts)
    → HasBothTokens (new_authentication a c o)
unfolding new_authentication
new_authentication-HasBothTokens a c o =
    let (x, e, h) = access_token_duration_of-some c o.usr in
    let (y, f, k) = refresh_token_duration_of-some c o.usr x e h in
    record {
      access = x;
      refresh = y;
      has_access = e;
      has_refresh = f;
      not_short = h;
      not_shorter = k;
    }

-- The check of a refresh token by its ID is then the check of its age and of the ID.
pub HasBothTokens-refresh :
    (s : Session) (now : ℕ) (tid : String)
    → HasBothTokens s.authentication
    → has_valid_refresh_token_by_token_id now s tid
      ≡ (s.authentication.token_id == tid && has_valid_refresh_token now s)
HasBothTokens-refresh s now tid h =
    has_valid_refresh_token_by_token_id_lem s now tid h.access h.refresh h.has_access h.has_refresh

pub new_session-session_of :
    (a : Around) (o : CreateSessionOpts) (s : Session)
    → new_session a o ≡ ok s
    → (c : ClusterConfig) × (session_of a c o ≡ s)
unfolding new_session
new_session-session_of a o s h = elim (Result-cases (cluster_config_of a o)) [
  | inl (c, e) ↦ (c, ground (arith, e, h))
  | inr (x, e) ↦ ground (arith, e, h)
]
