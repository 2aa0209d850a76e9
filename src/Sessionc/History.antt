-- ===== src/Sessionc/History.antt =====
-- The authentications that follow one another in a Session (`SetCurrAuthentication` of
-- cluster/common/sessionc/sessionc.go).
use mathlib.Core.Path.{subst}
use octelium.Base.{
  ℕ, zero, suc, String, ◌+◌, ◌%◌, ◌^◌, ◌≤◌, ◌≡◌, refl, ap, ◌∙◌, ◌&&◌, List, [], ◌∷◌, ok, leb,
  length, take, arith, ◌⊎◌, inl, inr, Bool-cases, ◌==◌,
}
use octelium.Corev1.Session.{Authentication, Session}
use octelium.Apiutils.{has_valid_refresh_token, has_valid_refresh_token_by_token_id}
use octelium.Sessionc.Caller.{Around}
use octelium.Sessionc.Create.{CreateSessionOpts, session_of, new_session}
use octelium.Sessionc.Authenticate.{
  SetCurrAuthenticationOpts, prepend_authentication, set_curr_authentication,
}
use octelium.Sessionc.Durations.{
  HasBothTokens, new_authentication-HasBothTokens, HasBothTokens-refresh, new_session-session_of,
}

-- The Sessions that follow from one by further authentications, with all the authentications that
-- were replaced on the way, the last first.
pub data Follows (init : Session) : List Authentication → Session → Type 0 where
  begun : Follows init [] init
  again :
      (past : List Authentication) (s : Session) (a : Around) (o : SetCurrAuthenticationOpts)
      → Follows init past s
      → Follows init (s.authentication ∷ past) (set_curr_authentication a o s)

module _ {ℓ} {A : Type ℓ} where
  length-take : (n : ℕ) (xs : List A) → n ≤ length xs → length (take n xs) ≡ n
  length-take zero xs h = refl
  length-take (suc n) [] h = omega arith
  length-take (suc n) (x ∷ xs) h = omega (arith, length-take n xs (omega arith))

  take-take : (m n : ℕ) (xs : List A) → m ≤ n → take m (take n xs) ≡ take m xs
  take-take zero n xs h = refl
  take-take (suc m) zero xs h = ground arith
  take-take (suc m) (suc n) [] h = refl
  take-take (suc m) (suc n) (x ∷ xs) h = ap (λ ys. x ∷ ys) (take-take m n xs (omega arith))

-- The list of last authentications holds the most recent ones of `past`: all of them while they are
-- at most 100, and never fewer than 99 after that.
pub record IsRecent (past last : List Authentication) : Type 0 where
  pub kept : ℕ
  pub are_last : last ≡ take kept past
  pub at_most : kept ≤ length past
  pub bounded : kept ≤ 100
  pub enough : (kept ≡ length past) ⊎ (99 ≤ kept)

prepend_authentication-IsRecent :
    (au : Authentication) (past last : List Authentication)
    → IsRecent past last
    → IsRecent (au ∷ past) (prepend_authentication au last)
unfolding prepend_authentication
prepend_authentication-IsRecent au past last h =
    let n : length last ≡ h.kept = ap length h.are_last ∙ length-take h.kept past h.at_most in
    elim (Bool-cases (leb 100 (length last))) [
      | inl full ↦ record {
        kept = 99;
        are_last = ground (
          arith,
          full,
          h.are_last,
          n,
          h.bounded,
          take-take 98 h.kept past (ground (arith, full, n)),
        );
        at_most = ground (arith, full, n, h.at_most);
        bounded = omega arith;
        enough = inr (omega arith);
      }
      | inr room ↦ record {
        kept = suc h.kept;
        are_last = ground (arith, room, h.are_last);
        at_most = ground (arith, h.at_most);
        bounded = ground (arith, room, n);
        enough = elim h.enough [ inl e ↦ inl (ap suc e) | inr e ↦ inr (omega (arith, e)) ];
      }
    ]

-- What every Session keeps that follows from a new one.
pub record IsKept (past : List Authentication) (s : Session) : Type 0 where
  pub recent : IsRecent past s.last_authentications
  pub total : s.total_authentications ≡ (length past + 1) % 2 ^ 32
  pub initial : HasBothTokens s.initial_authentication
  pub current : HasBothTokens s.authentication

Follows-IsKept :
    (init s : Session) (past : List Authentication)
    → IsKept [] init
    → Follows init past s
    → IsKept past s
unfolding set_curr_authentication
Follows-IsKept init s past h begun = h
Follows-IsKept init _ _ h (again past s a o f) =
    let k = Follows-IsKept init s past h f in
    record {
      recent =
          prepend_authentication-IsRecent s.authentication past s.last_authentications k.recent;
      total = omega (arith, k.total);
      initial = k.initial;
      current = record {
        access = k.initial.access;
        refresh = k.initial.refresh;
        has_access = k.initial.has_access;
        has_refresh = k.initial.has_refresh;
        not_short = k.initial.not_short;
        not_shorter = k.initial.not_shorter;
      };
    }

session_of-IsKept : (a : Around) (c : _) (o : CreateSessionOpts) → IsKept [] (session_of a c o)
unfolding session_of
session_of-IsKept a c o = record {
  recent = record {
    kept = 0;
    are_last = refl;
    at_most = omega arith;
    bounded = omega arith;
    enough = inl refl;
  };
  total = refl;
  initial = new_authentication-HasBothTokens a c o;
  current = new_authentication-HasBothTokens a c o;
}

-- A new Session that is authenticated again any number of times lists its most recent past
-- authentications, at most 100 and never fewer than 99 of a longer past, counts all of them as a
-- uint32, and has an access token of at least 30 minutes with a refresh token that lasts as long or
-- longer.
pub new_session-IsKept :
    (a : Around) (o : CreateSessionOpts) (init s : Session) (past : List Authentication)
    → new_session a o ≡ ok init
    → Follows init past s
    → IsKept past s
new_session-IsKept a o init s past h f =
    let (c, e) = new_session-session_of a o init h in
    Follows-IsKept init s past (subst (IsKept []) e (session_of-IsKept a c o)) f

-- So the check of a refresh token by its ID, on a Session that was made new and authenticated again
-- any number of times, is the check of its age and of the ID.
pub new_session-refresh_token :
    (a : Around) (o : CreateSessionOpts) (init s : Session) (past : List Authentication) (now : ℕ)
    (tid : String)
    → new_session a o ≡ ok init
    → Follows init past s
    → has_valid_refresh_token_by_token_id now s tid
      ≡ (s.authentication.token_id == tid && has_valid_refresh_token now s)
new_session-refresh_token a o init s past now tid h f =
    HasBothTokens-refresh s now tid (new_session-IsKept a o init s past h f).current
