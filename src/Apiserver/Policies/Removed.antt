-- ===== src/Apiserver/Policies/Removed.antt =====
-- What deleting a Policy in cluster/apiserver/apiserver/admin/policy.go keeps true of the stored
-- Policies.
use mathlib.Core.Path.{subst⁻¹}
use octelium.Base.{
  String, ◌≡◌, refl, Bool, true, false, not, ◌&&◌, [], ◌∷◌, any, all, is_in_list, ◌==◌, eq_iff,
  if◌then◌else◌, arith, Result-cases, Bool-cases, Option-cases, inl, inr,
}
use octelium.Octovigil.Rules.Collects.{is_distinct}
use octelium.Apiserver.Policies.{
  Checks, StoredPolicy, PolicyStore, uid_of, name_of, find_by_name, find_by_uid, remove_uid,
  is_child_of, delete_found, delete_policy_request,
}
use octelium.Apiserver.Policies.Vetted.{is_sound_spec}
use octelium.Apiserver.Policies.Stored.{uids_of, names_of, has_parent, IsSoundStore}

remove_uid-all :
    (f : StoredPolicy → Bool) (uid : String) (s : PolicyStore)
    → all f s ≡ true
    → all f (remove_uid uid s) ≡ true
unfolding remove_uid
remove_uid-all f uid [] h = refl
remove_uid-all f uid (x ∷ xs) h = ground (arith, h, remove_uid-all f uid xs)

remove_uid-uids :
    (uid u : String) (s : PolicyStore)
    → is_in_list (uids_of (remove_uid uid s)) u ≡ (not (uid == u) && is_in_list (uids_of s) u)
unfolding remove_uid
remove_uid-uids uid u [] = ground arith
remove_uid-uids uid u (x ∷ xs) =
    ground
      (arith, remove_uid-uids uid u xs, eq_iff (uid_of x) uid, eq_iff (uid_of x) u, eq_iff uid u)

remove_uid-distinct :
    (uid : String) (s : PolicyStore)
    → is_distinct (uids_of s) ≡ true
    → is_distinct (uids_of (remove_uid uid s)) ≡ true
unfolding remove_uid
remove_uid-distinct uid [] h = refl
remove_uid-distinct uid (x ∷ xs) h =
    ground (arith, h, remove_uid-distinct uid xs, remove_uid-uids uid (uid_of x) xs)

remove_uid-names :
    (uid n : String) (s : PolicyStore)
    → is_in_list (names_of s) n ≡ false
    → is_in_list (names_of (remove_uid uid s)) n ≡ false
unfolding remove_uid
remove_uid-names uid n [] h = refl
remove_uid-names uid n (x ∷ xs) h = ground (arith, h, remove_uid-names uid n xs)

remove_uid-distinct_names :
    (uid : String) (s : PolicyStore)
    → is_distinct (names_of s) ≡ true
    → is_distinct (names_of (remove_uid uid s)) ≡ true
unfolding remove_uid
remove_uid-distinct_names uid [] h = refl
remove_uid-distinct_names uid (x ∷ xs) h =
    ground (arith, h, remove_uid-distinct_names uid xs, remove_uid-names uid (name_of x) xs)

-- Where no stored Policy is a child of the one removed, every parent is still there.
keeps_parents :
    (uid : String) (s xs : PolicyStore)
    → any (is_child_of uid) xs ≡ false
    → all (has_parent (uids_of s)) xs ≡ true
    → all (has_parent (uids_of (remove_uid uid s))) xs ≡ true
keeps_parents uid s [] c h = refl
keeps_parents uid s (x ∷ xs) c h = elim (Option-cases x.parent_uid) [
  | inl e ↦ ground (arith, e, c, h, keeps_parents uid s xs)
  | inr (u, e) ↦
      ground (
        arith,
        e,
        c,
        h,
        keeps_parents uid s xs,
        remove_uid-uids uid u s,
        eq_iff uid u,
        eq_iff u uid,
      )
]

removed :
    (k : Checks) (uid : String) (s : PolicyStore)
    → any (is_child_of uid) s ≡ false
    → IsSoundStore k s
    → IsSoundStore k (remove_uid uid s)
removed k uid s c h = record {
  sound = remove_uid-all (λ (x : StoredPolicy). is_sound_spec k x.policy.spec) uid s h.sound;
  parented =
      remove_uid-all (has_parent (uids_of (remove_uid uid s))) uid s
        (keeps_parents uid s s c h.parented);
  uids = remove_uid-distinct uid s h.uids;
  names = remove_uid-distinct_names uid s h.names;
}

delete_found-IsSoundStore :
    (k : Checks) (x : StoredPolicy) (s : PolicyStore)
    → IsSoundStore k s
    → IsSoundStore k (delete_found x s).1
delete_found-IsSoundStore k x s h = elim (Bool-cases x.is_system) [
  | inl y ↦ subst⁻¹ (IsSoundStore k) (ground (arith, y)) h
  | inr y ↦ elim (Bool-cases (any (is_child_of (uid_of x)) s)) [
    | inl c ↦ subst⁻¹ (IsSoundStore k) (ground (arith, y, c)) h
    | inr c ↦ subst⁻¹ (IsSoundStore k) (ground (arith, y, c)) (removed k (uid_of x) s c h)
  ]
]

pub delete_policy-IsSoundStore :
    (k : Checks) (uid name : String) (s : PolicyStore)
    → IsSoundStore k s
    → IsSoundStore k (delete_policy_request uid name s).1
unfolding delete_policy_request
delete_policy-IsSoundStore k uid name s h =
    elim (Result-cases (if uid == "" then find_by_name name s else find_by_uid uid s)) [
      | inr (x, e) ↦ subst⁻¹ (IsSoundStore k) (ground (arith, e)) h
      | inl (x, e) ↦
          subst⁻¹ (IsSoundStore k) (ground (arith, e)) (delete_found-IsSoundStore k x s h)
    ]
