-- ===== src/Sessionc/Limit.antt =====
-- The limit of Sessions per User of cluster/common/sessionc/sessionc.go.
use octelium.Base.{
  ℕ, suc, String, ◌^◌, ◌≤◌, ◌<◌, ◌≡◌, refl, ap, failed, eq_iff, Bool, true, false, List, [], ◌∷◌,
  some, ok, err, Error, ltb, leb, if◌then◌else◌, arith, ◌⊎◌, inl, inr, Bool-cases, Result-cases,
  ◌==◌,
}
use octelium.Corev1.Session.{Session}
use octelium.Corev1.Resources.{User, ClusterConfig}
use octelium.Sessionc.Caller.{Around}
use octelium.Sessionc.Create.{
  CreateSessionOpts, session_of, cluster_config_of, new_session, is_session_of, count_sessions,
  max_sessions, check_max_sessions_per_user, create_session,
}

-- The Sessions less those that a test picks: what deletions and expiry leave.
abbrev pub delete_sessions : (Session → Bool) → List Session → List Session
delete_sessions gone [] = []
delete_sessions gone (s ∷ ss) =
    let rest = delete_sessions gone ss in if gone s then rest else s ∷ rest

-- The limit that one creation is checked against is at most `m`, if it is for the User `uid`.
abbrev pub is_limited : String → ℕ → Around → CreateSessionOpts → Bool
is_limited uid m a o = elim (cluster_config_of a o) [
  | err e ↦ true
  | ok c ↦
      if o.usr.metadata.uid == uid
      then if o.check_per_user_limit then leb (max_sessions c o.usr) m else false
      else true
]

-- One change of the stored Sessions: a creation, which for the User `uid` is checked against a limit
-- of at most `m`, or the loss of any Sessions.
pub data Change (uid : String) (m : ℕ) (store : List Session) : List Session → Type 0 where
  created :
      (a : Around) (o : CreateSessionOpts)
      → is_limited uid m a o ≡ true
      → Change uid m store (create_session a o store).1
  lost : (gone : Session → Bool) → Change uid m store (delete_sessions gone store)

pub data Changes (uid : String) (m : ℕ) (init : List Session) : List Session → Type 0 where
  unchanged : Changes uid m init init
  changed : (s t : List Session) → Changes uid m init s → Change uid m s t → Changes uid m init t

count_sessions-delete_sessions :
    (uid : String) (gone : Session → Bool) (store : List Session)
    → count_sessions uid (delete_sessions gone store) ≤ count_sessions uid store
unfolding count_sessions
count_sessions-delete_sessions uid gone [] = ground arith
count_sessions-delete_sessions uid gone (s ∷ ss) =
    ground (arith, count_sessions-delete_sessions uid gone ss)

new_session-set :
    (a : Around) (o : CreateSessionOpts) (c : ClusterConfig)
    → new_session a (record o { cluster_config = some c }) ≡ ok (session_of a c o)
unfolding new_session session_of octelium.Sessionc.Create.new_authentication
new_session-set a o c = refl

check_max_sessions_per_user_lem :
    (u : User) (c : ClusterConfig) (store : List Session)
    → count_sessions u.metadata.uid store < 2 ^ 32
    → check_max_sessions_per_user u c store ≡ (
        if ltb (count_sessions u.metadata.uid store) (max_sessions c u)
        then ok tt
        else err (failed "Session per User limit exceeded"))
unfolding check_max_sessions_per_user
check_max_sessions_per_user_lem u c store h = ground arith

-- With a ClusterConfig at hand and fewer than 2 ^ 32 Sessions of the User, a creation adds its
-- Session exactly where the limit is not checked or the User has fewer Sessions than the limit, and
-- otherwise leaves the store as it is.
pub create_session_lem :
    (a : Around) (o : CreateSessionOpts) (store : List Session) (c : ClusterConfig)
    → cluster_config_of a o ≡ ok c
    → count_sessions o.usr.metadata.uid store < 2 ^ 32
    → create_session a o store ≡ (
        if (if o.check_per_user_limit
          then ltb (count_sessions o.usr.metadata.uid store) (max_sessions c o.usr)
          else true)
        then (ok (session_of a c o), session_of a c o ∷ store)
        else (err (failed "Session per User limit exceeded"), store))
unfolding create_session
create_session_lem a o store c e h =
    ground (arith, e, new_session-set a o c, check_max_sessions_per_user_lem o.usr c store h)

created_count :
    (a : Around) (o : CreateSessionOpts) (store : List Session) (c : ClusterConfig) (uid : String)
    → count_sessions uid (session_of a c o ∷ store) ≡ (
        if o.usr.metadata.uid == uid
        then suc (count_sessions uid store)
        else count_sessions uid store)
unfolding count_sessions session_of
created_count a o store c uid = refl

create_session-err :
    (a : Around) (o : CreateSessionOpts) (store : List Session) (x : Error)
    → cluster_config_of a o ≡ err x
    → (create_session a o store).1 ≡ store
unfolding create_session
create_session-err a o store x e = ground (arith, e)

-- Whatever the checks say, the Session is added or nothing is.
create_session-store :
    (a : Around) (o : CreateSessionOpts) (store : List Session) (c : ClusterConfig)
    → cluster_config_of a o ≡ ok c
    → ((create_session a o store).1 ≡ store)
      ⊎ ((create_session a o store).1 ≡ session_of a c o ∷ store)
unfolding create_session
create_session-store a o store c e =
    elim (Result-cases
      (if o.check_per_user_limit then check_max_sessions_per_user o.usr c store else ok tt)) [
        | inl (n, f) ↦ inr (ground (arith, e, f, new_session-set a o c))
        | inr (x, f) ↦ inl (ground (arith, e, f))
      ]

created_bound :
    (uid : String) (m : ℕ) (store : List Session) (a : Around) (o : CreateSessionOpts)
    → m < 2 ^ 32
    → is_limited uid m a o ≡ true
    → count_sessions uid store ≤ m
    → count_sessions uid (create_session a o store).1 ≤ m
created_bound uid m store a o w l h = elim (Result-cases (cluster_config_of a o)) [
  | inr (x, e) ↦ omega (arith, h, ap (count_sessions uid) (create_session-err a o store x e))
  | inl (c, e) ↦ elim (Bool-cases (o.usr.metadata.uid == uid)) [
    | inr other ↦ elim (create_session-store a o store c e) [
      | inl s ↦ omega (arith, h, ap (count_sessions uid) s)
      | inr s ↦ ground (arith, h, ap (count_sessions uid) s, created_count a o store c uid, other)
    ]
    | inl own ↦ ground (
      arith,
      e,
      own,
      l,
      h,
      created_count a o store c uid,
      create_session_lem a o store c e (ground (arith, (eq_iff _ _).0 own, h, w)),
      (eq_iff o.usr.metadata.uid uid).0 own,
    )
  ]
]

-- Where every creation for a User is checked against a limit of at most `m`, which is below 2 ^
-- 32, a User who starts with no more than `m` Sessions never has more, whatever is created for
-- others and whatever is deleted.
pub Changes-bound :
    (uid : String) (m : ℕ) (init store : List Session)
    → m < 2 ^ 32
    → count_sessions uid init ≤ m
    → Changes uid m init store
    → count_sessions uid store ≤ m
Changes-bound uid m init store w h unchanged = h
Changes-bound uid m init _ w h (changed s _ r (created a o l)) =
    created_bound uid m s a o w l (Changes-bound uid m init s w h r)
Changes-bound uid m init _ w h (changed s _ r (lost gone)) =
    omega (arith, count_sessions-delete_sessions uid gone s, Changes-bound uid m init s w h r)
