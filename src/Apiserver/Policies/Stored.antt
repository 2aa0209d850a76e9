-- ===== src/Apiserver/Policies/Stored.antt =====
-- What creating and updating a Policy in cluster/apiserver/apiserver/admin/policy.go keeps true of the
-- stored Policies.
use mathlib.Core.Path.{subst⁻¹}
use octelium.Base.{
  String, ◌≡◌, refl, ◌∙◌, Bool, true, false, Option, none, some, List, [], ◌∷◌, map, all,
  all-weaken, is_in_list, not_found, Error, ok, err, ◌>>=◌, ◌==◌, str_eq_refl, arith, Result-cases,
  Bool-cases, inl, inr, ◌⊎◌,
}
use octelium.Corev1.Policy.{Policy}
use octelium.Apivalidation.{get_name_and_parents}
use octelium.Octovigil.Rules.Collects.{is_distinct}
use octelium.Apiserver.Policies.{
  Checks, StoredPolicy, PolicyStore, uid_of, name_of, find_by_name, metadata_from, replace_policy,
  get_parent_uid, validate_policy, validate_policy_spec, create_policy, update_policy,
}
use octelium.Apiserver.Policies.Vetted.{is_int32, is_sound_spec, validate_policy_spec-ok}

abbrev pub uids_of : PolicyStore → List String
uids_of = map uid_of

abbrev pub names_of : PolicyStore → List String
names_of = map name_of

abbrev pub is_stored : List String → Option String → Bool
is_stored uids none = true
is_stored uids (some u) = is_in_list uids u

abbrev pub has_parent : List String → StoredPolicy → Bool
has_parent uids x = is_stored uids x.parent_uid

-- What holds of the stored Policies: each spec is sound, each parent is stored, and no two
-- have the same UID or name.
pub record IsSoundStore (k : Checks) (s : PolicyStore) : Type 0 where
  pub sound : all (λ (x : StoredPolicy). is_sound_spec k x.policy.spec) s ≡ true
  pub parented : all (has_parent (uids_of s)) s ≡ true
  pub uids : is_distinct (uids_of s) ≡ true
  pub names : is_distinct (names_of s) ≡ true

find_by_name-names :
    (name : String) (s : PolicyStore)
    → ((x : StoredPolicy) × (find_by_name name s ≡ ok x)
        × (is_in_list (uids_of s) (uid_of x) ≡ true)
        × (is_in_list (names_of s) name ≡ true))
      ⊎ ((find_by_name name s ≡ err not_found) × (is_in_list (names_of s) name ≡ false))
unfolding find_by_name
find_by_name-names name [] = inr (refl, refl)
find_by_name-names name (x ∷ xs) = elim (Bool-cases (name_of x == name)) [
  | inl hit ↦
      inl (x, ground (arith, hit), ground (arith, str_eq_refl (uid_of x)), ground (arith, hit))
  | inr miss ↦ elim (find_by_name-names name xs) [
    | inl (y, e, u, n) ↦ inl (y, ground (arith, miss, e), ground (arith, u), ground (arith, n))
    | inr (e, n) ↦ inr (ground (arith, miss, e), ground (arith, miss, n))
  ]
]

find_by_name-missing :
    (name : String) (s : PolicyStore) (e : Error)
    → find_by_name name s ≡ err e
    → is_in_list (names_of s) name ≡ false
find_by_name-missing name s e h = elim (find_by_name-names name s) [
  | inl (x, f, u, n) ↦ cc
  | inr (f, n) ↦ n
]

find_by_name-ok :
    (name : String) (s : PolicyStore) (x : StoredPolicy)
    → find_by_name name s ≡ ok x
    → is_in_list (names_of s) name ≡ true
find_by_name-ok name s x h = elim (find_by_name-names name s) [
  | inl (y, f, u, n) ↦ n
  | inr (f, n) ↦ cc
]

get_parent_uid-stored :
    (k : Checks) (names : List String) (s : PolicyStore) (parent : Option String)
    → get_parent_uid k names s ≡ ok parent
    → is_stored (uids_of s) parent ≡ true
unfolding get_parent_uid
get_parent_uid-stored k [] s parent h = ground (arith, h)
get_parent_uid-stored k (n ∷ []) s parent h = ground (arith, h)
get_parent_uid-stored k (n ∷ p ∷ ns) s parent h = elim (Result-cases (find_by_name p s)) [
  | inr (x, e) ↦ ground (arith, h, e)
  | inl (y, e) ↦ elim (find_by_name-names p s) [
    | inl (x, f, u, m) ↦ ground (arith, h, f, u)
    | inr (f, m) ↦ ground (arith, find_by_name-ok p s y e)
  ]
]

has_parent-cons :
    (uid : String) (x : StoredPolicy) (uids : List String)
    → has_parent uids x ≡ true
    → has_parent (uid ∷ uids) x ≡ true
has_parent-cons uid x uids h = ground (arith, h)

added :
    (k : Checks) (uid version : String) (req : Policy) (up : Option String) (s : PolicyStore)
    → is_in_list (uids_of s) uid ≡ false
    → is_in_list (names_of s) req.metadata.name ≡ false
    → is_stored (uids_of s) up ≡ true
    → is_sound_spec k req.spec ≡ true
    → IsSoundStore k s
    → IsSoundStore k (
        record {
          policy = record req { metadata = metadata_from uid version req.metadata };
          parent_uid = up;
          is_system = false;
        }
        ∷ s)
added k uid version req up s new absent stored v h = record {
  sound = ground (arith, v, h.sound);
  parented = ground (
    arith,
    stored,
    all-weaken (has_parent (uids_of s)) (has_parent (uid ∷ uids_of s)) s
        (λ x. has_parent-cons uid x (uids_of s)) h.parented,
  );
  uids = ground (arith, new, h.uids);
  names = ground (arith, absent, h.names);
}

-- A created Policy: its spec is sound, its name is new, and its parent is stored.
get_up :
    (k : Checks) (req : Policy) (s : PolicyStore) (up : Option String)
    → (do names ← get_name_and_parents req.metadata.name; get_parent_uid k names s) ≡ ok up
    → is_stored (uids_of s) up ≡ true
get_up k req s up h = elim (Result-cases (get_name_and_parents req.metadata.name)) [
  | inr (x, e) ↦ ground (arith, e, h)
  | inl (names, e) ↦ get_parent_uid-stored k names s up (ground (arith, e, h))
]

pub create_policy-IsSoundStore :
    (k : Checks) (uid version : String) (req : Policy) (s : PolicyStore)
    → is_in_list (uids_of s) uid ≡ false
    → all is_int32 req.spec.rules ≡ true
    → IsSoundStore k s
    → IsSoundStore k (create_policy k uid version req s).1
unfolding create_policy
create_policy-IsSoundStore k uid version req s new i sound =
    elim (Result-cases (validate_policy k req)) [
      | inr (x, e) ↦ subst⁻¹ (IsSoundStore k) (ground (arith, e)) sound
      | inl (n, e) ↦ elim (find_by_name-names req.metadata.name s) [
        | inl (p, f, u, m) ↦ subst⁻¹ (IsSoundStore k) (ground (arith, e, f)) sound
        | inr (f, absent) ↦
            let parent = (do
              names ← get_name_and_parents req.metadata.name
              get_parent_uid k names s) in
            elim (Result-cases parent) [
              | inr (x, g) ↦ subst⁻¹ (IsSoundStore k) (ground (arith, e, f, g)) sound
              | inl (up, g) ↦ elim (Result-cases (validate_policy_spec k req.spec)) [
                | inr (x, v) ↦ subst⁻¹ (IsSoundStore k) (ground (arith, e, f, g, v)) sound
                | inl (n2, v) ↦
                    let stored = get_up k req s up g in
                    subst⁻¹ (IsSoundStore k) (ground (arith, e, f, g, v)) (
                      added k uid version req up s new absent stored
                        (validate_policy_spec-ok k req.spec i v) sound)
              ]
            ]
      ]
    ]

replace_policy-same :
    (uid version : String) (req : Policy) (s : PolicyStore)
    → (uids_of (replace_policy uid version req s) ≡ uids_of s)
      × (names_of (replace_policy uid version req s) ≡ names_of s)
unfolding replace_policy
replace_policy-same uid version req [] = (refl, refl)
replace_policy-same uid version req (x ∷ xs) =
    let ih = replace_policy-same uid version req xs in (ground (arith, ih.0), ground (arith, ih.1))

replace_policy-parented :
    (uids : List String) (uid version : String) (req : Policy) (s : PolicyStore)
    → all (has_parent uids) (replace_policy uid version req s) ≡ all (has_parent uids) s
unfolding replace_policy
replace_policy-parented uids uid version req [] = refl
replace_policy-parented uids uid version req (x ∷ xs) =
    ground (arith, replace_policy-parented uids uid version req xs)

replace_policy_sound :
    (k : Checks) (uid version : String) (req : Policy) (s : PolicyStore)
    → is_sound_spec k req.spec ≡ true
    → all (λ (x : StoredPolicy). is_sound_spec k x.policy.spec) s ≡ true
    → all (λ (x : StoredPolicy). is_sound_spec k x.policy.spec) (replace_policy uid version req s)
      ≡ true
unfolding replace_policy
replace_policy_sound k uid version req [] h a = refl
replace_policy_sound k uid version req (x ∷ xs) h a = elim (Bool-cases (uid_of x == uid)) [
  | inl hit ↦ ground (arith, hit, replace_policy_sound k uid version req xs h, h, a)
  | inr miss ↦ ground (arith, miss, replace_policy_sound k uid version req xs h, a)
]

replaced :
    (k : Checks) (uid version : String) (req : Policy) (s : PolicyStore)
    → is_sound_spec k req.spec ≡ true
    → IsSoundStore k s
    → IsSoundStore k (replace_policy uid version req s)
replaced k uid version req s v h =
    let same = replace_policy-same uid version req s in
    record {
      sound = replace_policy_sound k uid version req s v h.sound;
      parented = rw same.0 (replace_policy-parented (uids_of s) uid version req s ∙ h.parented);
      uids = rw same.0 h.uids;
      names = rw same.1 h.names;
    }

pub update_policy-IsSoundStore :
    (k : Checks) (version : String) (req : Policy) (s : PolicyStore)
    → all is_int32 req.spec.rules ≡ true
    → IsSoundStore k s
    → IsSoundStore k (update_policy k version req s).1
unfolding update_policy
update_policy-IsSoundStore k version req s i h = elim (Result-cases (validate_policy k req)) [
  | inr (x, e) ↦ subst⁻¹ (IsSoundStore k) (ground (arith, e)) h
  | inl (n, e) ↦ elim (Result-cases (find_by_name req.metadata.name s)) [
    | inr (x, f) ↦ subst⁻¹ (IsSoundStore k) (ground (arith, e, f)) h
    | inl (x, f) ↦ elim (Bool-cases x.is_system) [
      | inl y ↦ subst⁻¹ (IsSoundStore k) (ground (arith, e, f, y)) h
      | inr y ↦ elim (Result-cases (validate_policy_spec k req.spec)) [
        | inr (z, v) ↦ subst⁻¹ (IsSoundStore k) (ground (arith, e, f, y, v)) h
        | inl (n2, v) ↦
            subst⁻¹ (IsSoundStore k) (ground (arith, e, f, y, v))
              (replaced k (uid_of x) version req s (validate_policy_spec-ok k req.spec i v) h)
      ]
    ]
  ]
]
