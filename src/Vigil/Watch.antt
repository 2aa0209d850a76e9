-- ===== src/Vigil/Watch.antt =====
-- What the watcher of Sessions reports to the handlers of
-- cluster/vigil/vigil/loadbalancer/loadbalancer.go.
use octelium.Base.{String, ◌≡◌, Bool, ◌&&◌, Option, none, some, List, [], ◌∷◌, ◌==◌, if◌then◌else◌}
use octelium.Corev1.Session.{Session}
use octelium.Upstream.Candidates.{has_session_uid}

-- A change that the watcher of Sessions reports; an update has the new Session first.
pub data Change : Type 0 where
  added removed : Session → Change
  updated : Session → Session → Change

abbrev pub is_of : String → String → Session → Bool
is_of name uid s = s.user_ref.name == name && has_session_uid uid s

-- The Session of a User and a UID as the watcher reported it last, the last change first.
unfoldable pub last_seen : String → String → List Change → Option Session
last_seen name uid [] = none
last_seen name uid (added s ∷ xs) =
    let rest = last_seen name uid xs in if is_of name uid s then some s else rest
last_seen name uid (updated s old ∷ xs) =
    let rest = last_seen name uid xs in if is_of name uid s then some s else rest
last_seen name uid (removed s ∷ xs) =
    let rest = last_seen name uid xs in if is_of name uid s then none else rest

-- An update is of a Session that was seen, as it was seen last, and changes neither its User, its UID
-- nor its type; what is added was not there.
unfoldable pub IsWatch : List Change → Type 0
IsWatch [] = Unit
IsWatch (added s ∷ xs) = (last_seen s.user_ref.name s.metadata.uid xs ≡ none) × IsWatch xs
IsWatch (updated s old ∷ xs) =
    (last_seen old.user_ref.name old.metadata.uid xs ≡ some old)
    × (s.user_ref.name ≡ old.user_ref.name)
    × (s.metadata.uid ≡ old.metadata.uid)
    × (s.type ≡ old.type)
    × IsWatch xs
IsWatch (removed s ∷ xs) = IsWatch xs
