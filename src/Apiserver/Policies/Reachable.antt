-- ===== src/Apiserver/Policies/Reachable.antt =====
-- The Policies that the handlers of cluster/apiserver/apiserver/admin/policy.go leave stored.
use octelium.Base.{String, ◌≡◌, true, false, all, is_in_list}
use octelium.Corev1.Policy.{Policy}
use octelium.Apiserver.Policies.{
  Checks, PolicyStore, create_policy, update_policy, delete_policy_request,
}
use octelium.Apiserver.Policies.Vetted.{is_int32}
use octelium.Apiserver.Policies.Stored.{
  uids_of, IsSoundStore, create_policy-IsSoundStore, update_policy-IsSoundStore,
}
use octelium.Apiserver.Policies.Removed.{delete_policy-IsSoundStore}

-- One request that the API server serves, whether it succeeds or not. The resource server's UIDs are
-- new, the versions are its own, and the priorities of a request are bit patterns of an int32.
pub data Step (k : Checks) (s : PolicyStore) : PolicyStore → Type 0 where
  created :
      (uid version : String) (req : Policy)
      → is_in_list (uids_of s) uid ≡ false
      → all is_int32 req.spec.rules ≡ true
      → Step k s (create_policy k uid version req s).1
  updated :
      (version : String) (req : Policy)
      → all is_int32 req.spec.rules ≡ true
      → Step k s (update_policy k version req s).1
  deleted : (uid name : String) → Step k s (delete_policy_request uid name s).1

pub data Reach (k : Checks) (init : PolicyStore) : PolicyStore → Type 0 where
  start : Reach k init init
  later : (s t : PolicyStore) → Reach k init s → Step k s t → Reach k init t

Step-IsSoundStore :
    (k : Checks) (s t : PolicyStore) → Step k s t → IsSoundStore k s → IsSoundStore k t
Step-IsSoundStore k s t (created uid version req new i) h =
    create_policy-IsSoundStore k uid version req s new i h
Step-IsSoundStore k s t (updated version req i) h = update_policy-IsSoundStore k version req s i h
Step-IsSoundStore k s t (deleted uid name) h = delete_policy-IsSoundStore k uid name s h

-- In every store that the handlers reach from a sound one, by requests that succeed or fail, each
-- Policy has a sound spec: valid attributes, at most 100000 bytes, and at most 100 rules and 100
-- enforcement rules, each with an effect that is set and a condition that is well formed to every
-- depth and whose CEL scripts compile, and each rule with a valid name and a priority from -4 to 4.
-- Each parent is stored, and no two Policies have the same UID or name.
pub Reach-IsSoundStore :
    (k : Checks) (init s : PolicyStore) → IsSoundStore k init → Reach k init s → IsSoundStore k s
Reach-IsSoundStore k init s h start = h
Reach-IsSoundStore k init _ h (later s t r st) =
    Step-IsSoundStore k s t st (Reach-IsSoundStore k init s h r)
