-- ===== src/Vigil/Unique.antt =====
-- cluster/vigil/vigil/loadbalancer/cache.go: no Session stands twice in the list of a User.
use octelium.Base.{
  String, ◌≡◌, refl, ap, Bool, true, false, ◌||◌, Option, some, List, [], ◌∷◌, eq_iff, arith, any,
  str_eq_refl, inl, inr, Bool-cases,
}
use octelium.Corev1.Session.{Connection, Session}
use octelium.Corev1.Resources.{Service}
use octelium.Apiutils.{is_served_by_session}
use octelium.Upstream.Candidates.{has_session_uid, put_session}
use octelium.Upstream.Hosts.{are_once}
use octelium.Vigil.Sessions.{
  cache_session, uncache_session, without_uid, find_served, get_by_user_name,
}
use octelium.Vigil.Handlers.{on_session_add, on_session_update, on_session_delete}
use octelium.Vigil.Watch.{Change, added, updated, removed}
use octelium.Vigil.Cached.{watched, find_uid}

any-put_session :
    (u : String) (c : Session) (ss : List Session)
    → any (has_session_uid u) (put_session c ss)
      ≡ (any (has_session_uid u) ss || has_session_uid u c)
any-put_session u c [] = ground arith
any-put_session u c (s ∷ ss) = ground (
  arith,
  any-put_session u c ss,
  eq_iff s.metadata.uid c.metadata.uid,
  eq_iff s.metadata.uid u,
  eq_iff c.metadata.uid u,
)

put_session-once :
    (c : Session) (ss : List Session) → are_once ss ≡ true → are_once (put_session c ss) ≡ true
put_session-once c [] h = refl
put_session-once c (s ∷ ss) h = elim (Bool-cases (has_session_uid c.metadata.uid s)) [
  | inl hit ↦
      let same : any (has_session_uid s.metadata.uid) ss ≡ any (has_session_uid c.metadata.uid) ss =
        ap (λ u. any (has_session_uid u) ss) ((eq_iff s.metadata.uid c.metadata.uid).0 hit) in
      ground (arith, h, hit, same)
  | inr miss ↦ ground (
    arith,
    h,
    miss,
    put_session-once c ss,
    any-put_session s.metadata.uid c ss,
    eq_iff s.metadata.uid c.metadata.uid,
    eq_iff c.metadata.uid s.metadata.uid,
  )
]

any-without_uid :
    (u gone : String) (ss : List Session)
    → any (has_session_uid u) ss ≡ false
    → any (has_session_uid u) (without_uid gone ss) ≡ false
any-without_uid u gone [] h = refl
any-without_uid u gone (s ∷ ss) h = ground (arith, h, any-without_uid u gone ss)

without_uid-once :
    (gone : String) (ss : List Session) → are_once ss ≡ true → are_once (without_uid gone ss) ≡ true
without_uid-once gone [] h = refl
without_uid-once gone (s ∷ ss) h =
    ground (arith, h, without_uid-once gone ss, any-without_uid s.metadata.uid gone ss)

module _ (is_equal : Option Connection → Option Connection → Bool) (svc : Service) where
  watched-once : (xs : List Change) (name : String) → are_once (watched is_equal svc xs name) ≡ true
  unfolding watched on_session_add on_session_update on_session_delete cache_session uncache_session
  watched-once [] name = refl
  watched-once (added s ∷ xs) name =
      let c = watched is_equal svc xs in
      ground (
        arith,
        watched-once xs name,
        put_session-once s (c s.user_ref.name) (watched-once xs s.user_ref.name),
      )
  watched-once (updated s old ∷ xs) name =
      let c = watched is_equal svc xs in
      ground (
        arith,
        watched-once xs name,
        put_session-once s (c s.user_ref.name) (watched-once xs s.user_ref.name),
        without_uid-once s.metadata.uid (c s.user_ref.name) (watched-once xs s.user_ref.name),
      )
  watched-once (removed s ∷ xs) name =
      let c = watched is_equal svc xs in
      ground (
        arith,
        watched-once xs name,
        without_uid-once s.metadata.uid (c s.user_ref.name) (watched-once xs s.user_ref.name),
      )

find_served-once :
    (svc : Service) (ss : List Session) (s : Session)
    → are_once ss ≡ true
    → find_served svc ss ≡ some s
    → (find_uid s.metadata.uid ss ≡ some s) × (any (has_session_uid s.metadata.uid) ss ≡ true)
find_served-once svc [] s h e = cc
find_served-once svc (x ∷ xs) s h e = elim (Bool-cases (is_served_by_session svc.metadata.uid x)) [
  | inl hit ↦
      let same : x ≡ s = ground (arith, e, hit) in
      let own = str_eq_refl s.metadata.uid in (ground (arith, same, own), ground (arith, same, own))
  | inr miss ↦
      let ih = find_served-once svc xs s (ground (arith, h)) (ground (arith, e, miss)) in
      elim (Bool-cases (has_session_uid s.metadata.uid x)) [
        | inr other ↦ (ground (arith, other, ih.0), ground (arith, other, ih.1))
        | inl twice ↦
            let there : any (has_session_uid x.metadata.uid) xs
                ≡ any (has_session_uid s.metadata.uid) xs =
              ap (λ u. any (has_session_uid u) xs)
                ((eq_iff x.metadata.uid s.metadata.uid).0 twice) in
            ground (arith, h, there, ih.1)
      ]
]

-- The Session that is found for a User is the one of its UID.
pub get_by_user_name-find_uid :
    (is_equal : Option Connection → Option Connection → Bool) (svc : Service) (xs : List Change)
    (user : String) (s : Session)
    → get_by_user_name user svc (watched is_equal svc xs) ≡ some s
    → find_uid s.metadata.uid (watched is_equal svc xs user) ≡ some s
unfolding get_by_user_name
get_by_user_name-find_uid is_equal svc xs user s e =
    (find_served-once svc (watched is_equal svc xs user) s (watched-once is_equal svc xs user) e).0
