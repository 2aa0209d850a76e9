-- ===== src/Octovigil/Acache/Keys.antt =====
-- What a lookup finds after a resource was set or deleted (cluster/octovigil/octovigil/acache).
use octelium.Base.{
  String, ◌≡◌, ◌≢◌, ◌||◌, not_found, ok, err, arith, ◌==◌, eq_iff, str_eq_refl, if◌then◌else◌,
}
use octelium.Corev1.Policy.{Metadata, Policy}
use octelium.Corev1.Resources.{Namespace, Group}
use octelium.Octovigil.Acache.{
  Bucket, Cache, get_resource, delete_resource, set_by_uid_and_name, set_policy, delete_policy,
  get_policy, set_namespace, delete_namespace, get_namespace, set_group, delete_group, get_group,
}

module _ {V : Type 0} where
  -- Setting a resource that has a UID stores it under its UID and its name, and nothing else.
  pub get-set_by_uid_and_name :
      (b : Bucket V) (m : Metadata) (v : V) (k : String)
      → m.uid ≢ ""
      → get_resource (set_by_uid_and_name b m v).1 k ≡ (
          if k == ""
          then err not_found
          else if k == m.uid || k == m.name
          then ok v
          else get_resource b k)
  unfolding get_resource set_by_uid_and_name
  get-set_by_uid_and_name b m v k u =
      ground
        (arith, eq_iff m.uid "", eq_iff m.name "", eq_iff k "", eq_iff k m.uid, eq_iff k m.name)

  pub get-delete_resource :
      (b : Bucket V) (key k : String)
      → get_resource (delete_resource b key) k
        ≡ (if k == key then err not_found else get_resource b k)
  unfolding get_resource delete_resource
  get-delete_resource b key k = ground arith

module _ (c : Cache) where
  -- A Policy with a UID that was set is found under its UID and under its name, and every other
  -- lookup finds what it found before.
  pub get_policy-set_policy :
      (p : Policy) (k : String)
      → p.metadata.uid ≢ ""
      → k ≢ ""
      → get_policy (set_policy c p).1 k
        ≡ (if k == p.metadata.uid || k == p.metadata.name then ok p else get_policy c k)
  unfolding get_policy set_policy
  get_policy-set_policy p k u n =
      ground (arith, get-set_by_uid_and_name c.policies p.metadata p k u, eq_iff k "")

  -- A Group with a UID that was set and then deleted is found under neither its UID nor its name,
  -- and every other lookup finds what it found before.
  pub get_group-delete_group :
      (g : Group) (k : String)
      → g.metadata.uid ≢ ""
      → k ≢ ""
      → get_group (delete_group (set_group c g).1 g) k
        ≡ (if k == g.metadata.uid || k == g.metadata.name then err not_found else get_group c k)
  unfolding get_group delete_group set_group
  get_group-delete_group g k u n = ground (
    arith,
    get-delete_resource
        (delete_resource (set_by_uid_and_name c.groups g.metadata g).1 g.metadata.uid)
        g.metadata.name k,
    get-delete_resource (set_by_uid_and_name c.groups g.metadata g).1 g.metadata.uid k,
    get-set_by_uid_and_name c.groups g.metadata g k u,
    eq_iff k "",
  )

  -- A Policy whose UID and name are not empty and differ, and that was set and then deleted, is
  -- still found under its name.
  pub deleted_policy_remains :
      (p : Policy)
      → p.metadata.uid ≢ ""
      → p.metadata.name ≢ ""
      → p.metadata.name ≢ p.metadata.uid
      → get_policy (delete_policy (set_policy c p).1 p) p.metadata.name ≡ ok p
  unfolding get_policy delete_policy set_policy
  deleted_policy_remains p u n d = ground (
    arith,
    get-delete_resource (set_by_uid_and_name c.policies p.metadata p).1 p.metadata.uid
        p.metadata.name,
    get-set_by_uid_and_name c.policies p.metadata p p.metadata.name u,
    eq_iff p.metadata.name "",
    eq_iff p.metadata.name p.metadata.uid,
    str_eq_refl p.metadata.name,
  )

  -- A Namespace whose UID and name are not empty and differ, and that was set and then deleted, is
  -- still found under its name.
  pub deleted_namespace_remains :
      (n : Namespace)
      → n.metadata.uid ≢ ""
      → n.metadata.name ≢ ""
      → n.metadata.name ≢ n.metadata.uid
      → get_namespace (delete_namespace (set_namespace c n).1 n) n.metadata.name ≡ ok n
  unfolding get_namespace delete_namespace set_namespace
  deleted_namespace_remains n u e d = ground (
    arith,
    get-delete_resource (set_by_uid_and_name c.namespaces n.metadata n).1 n.metadata.uid
        n.metadata.name,
    get-set_by_uid_and_name c.namespaces n.metadata n n.metadata.name u,
    eq_iff n.metadata.name "",
    eq_iff n.metadata.name n.metadata.uid,
    str_eq_refl n.metadata.name,
  )
