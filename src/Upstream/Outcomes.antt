-- ===== src/Upstream/Outcomes.antt =====
-- What the operations of cluster/common/upstream/upstream.go leave of the indexes given out.
use mathlib.Core.Path.{subst⁻¹}
use octelium.Base.{
  ℕ, ◌%◌, ◌^◌, ◌≡◌, ap, true, false, List, [], ◌∷◌, ◌++◌, Error, Result, ok, err, ◌>>=◌, failed,
  is_empty, arith, ◌⊎◌, inl, inr, Bool-cases, Result-cases,
}
use octelium.Corev1.Session.{DualStackNetwork, ConnectionType, Connection}
use octelium.Corev1.Resources.{ClusterConfig}
use octelium.Upstream.Addresses.{
  ClusterConnInfo, Network, has_index, active_indexes, with_indexes, choose_index, is_known_type,
  add_address_to_connection, get_index, remove_index, remove_conn_index, remove_addresses,
  remove_all_addresses, append_address,
}
use octelium.Upstream.Indexes.{
  is_usable, IsSoundInfo, choose_index-free, append_sound, remove_index_sound, active_sound,
  with_sound,
}

-- The two outcomes of an addition: an error, with the indexes as they were, or one more index that is
-- usable and was free.
pub record Refused (r : Result Connection × ClusterConnInfo) (info : ClusterConnInfo) : Type 0 where
  pub error : Error
  pub says : r.0 ≡ err error
  pub keeps : r.1 ≡ info

pub record Given (n : Network) (rounds : List (List (Result ℕ))) (conn : Connection)
    (info : ClusterConnInfo) : Type 0 where
  pub config : ClusterConfig
  pub idx : ℕ
  pub has_config : n.get_cluster_config ≡ ok config
  pub reads : (do u ← n.get_config; n.update_config) ≡ ok tt
  pub known : is_known_type conn.type ≡ true
  pub chosen : choose_index (active_indexes conn.type info) rounds 0 ≡ ok idx
  pub free : has_index (active_indexes conn.type info) idx ≡ false
  pub usable : is_usable idx ≡ true
  pub gives : add_address_to_connection n rounds conn info ≡ (
    append_address n config idx conn,
    with_indexes conn.type (active_indexes conn.type info ++ (idx ∷ [])) info,
  )

pub add_address-cases :
    (n : Network) (rounds : List (List (Result ℕ))) (conn : Connection) (info : ClusterConnInfo)
    → Refused (add_address_to_connection n rounds conn info) info ⊎ Given n rounds conn info
unfolding add_address_to_connection
add_address-cases n rounds conn info =
    let used = active_indexes conn.type info in
    elim (Bool-cases (is_known_type conn.type)) [
      | inr k ↦ inl (record {
        error = failed "Cannot adding addresses without knowing Connection type";
        says = ground (arith, k);
        keeps = ground (arith, k);
      })
      | inl k ↦ elim (Result-cases (do u ← n.get_config; n.get_cluster_config)) [
        | inr (x, e) ↦
            inl (record { error = x; says = ground (arith, k, e); keeps = ground (arith, k, e) })
        | inl (c, e) ↦ elim (Result-cases (choose_index used rounds 0)) [
          | inr (x, g) ↦ inl (record {
            error = x;
            says = ground (arith, k, e, g);
            keeps = ground (arith, k, e, g);
          })
          | inl (idx, g) ↦ elim (choose_index-free used rounds 0 idx g) [
            | inl none_free ↦ inl (record {
              error = failed "Could not find a valid IP";
              says = ground (arith, k, e, g, none_free);
              keeps = ground (arith, k, e, g, none_free);
            })
            | inr (free, usable) ↦ elim (Result-cases n.update_config) [
              | inr (x, w) ↦ inl (record {
                error = x;
                says = ground (arith, k, e, g, usable, w);
                keeps = ground (arith, k, e, g, usable, w);
              })
              | inl (v, w) ↦ inr (record {
                config = c;
                idx = idx;
                has_config = ground (arith, e);
                reads = ground (arith, e, w);
                known = k;
                chosen = g;
                free = free;
                usable = usable;
                gives = ground (arith, k, e, g, usable, w);
              })
            ]
          ]
        ]
      ]
    ]

add_address-IsSoundInfo :
    (n : Network) (rounds : List (List (Result ℕ))) (conn : Connection) (info : ClusterConnInfo)
    → IsSoundInfo info
    → IsSoundInfo (add_address_to_connection n rounds conn info).1
add_address-IsSoundInfo n rounds conn info h = elim (add_address-cases n rounds conn info) [
  | inl refused ↦ subst⁻¹ IsSoundInfo refused.keeps h
  | inr given ↦
      let used = active_indexes conn.type info in
      subst⁻¹ IsSoundInfo (ap (λ (r : Result Connection × ClusterConnInfo). r.1) given.gives) (
        with_sound conn.type (used ++ (given.idx ∷ [])) info
          (append_sound used given.idx given.free given.usable (active_sound conn.type info h)) h)
]

remove_addresses-IsSoundInfo :
    (n : Network) (typ : ConnectionType) (as_ : List DualStackNetwork) (info : ClusterConnInfo)
    → IsSoundInfo info
    → IsSoundInfo (remove_addresses n typ as_ info).1
unfolding remove_addresses
remove_addresses-IsSoundInfo n typ [] info h = h
remove_addresses-IsSoundInfo n typ (a ∷ rest) info h =
    elim (Result-cases (do u ← n.get_config; n.update_config)) [
      | inr (x, e) ↦ subst⁻¹ IsSoundInfo (ground (arith, e)) h
      | inl (u, e) ↦
          let arg = get_index n a % 2 ^ 32 in
          subst⁻¹ IsSoundInfo (ground (arith, e)) (
            remove_addresses-IsSoundInfo n typ rest (remove_conn_index info arg typ) (
              with_sound typ (remove_index (active_indexes typ info) arg) info
                (remove_index_sound (active_indexes typ info) arg (active_sound typ info h)) h))
    ]

remove_all_addresses-IsSoundInfo :
    (n : Network) (conn : Connection) (info : ClusterConnInfo)
    → IsSoundInfo info
    → IsSoundInfo (remove_all_addresses n conn info).1
unfolding remove_all_addresses
remove_all_addresses-IsSoundInfo n conn info h = elim (Bool-cases (is_empty conn.addresses)) [
  | inl e ↦ subst⁻¹ IsSoundInfo (ground (arith, e)) h
  | inr e ↦
      let r = remove_addresses n conn.type conn.addresses info in
      let kept = remove_addresses-IsSoundInfo n conn.type conn.addresses info h in
      elim (Result-cases r.0) [
        | inl (u, f) ↦ subst⁻¹ IsSoundInfo (ground (arith, e, f)) kept
        | inr (x, f) ↦ subst⁻¹ IsSoundInfo (ground (arith, e, f)) kept
      ]
]

-- One operation on the indexes that are given out, whether it succeeds or not.
pub data IndexStep (info : ClusterConnInfo) : ClusterConnInfo → Type 0 where
  given :
      (n : Network) (rounds : List (List (Result ℕ))) (conn : Connection)
      → IndexStep info (add_address_to_connection n rounds conn info).1
  taken_back :
      (n : Network) (conn : Connection) → IndexStep info (remove_all_addresses n conn info).1

pub data IndexReach (init : ClusterConnInfo) : ClusterConnInfo → Type 0 where
  first_info : IndexReach init init
  next_info : (s t : ClusterConnInfo) → IndexReach init s → IndexStep s t → IndexReach init t

IndexStep-IsSoundInfo : (s t : ClusterConnInfo) → IndexStep s t → IsSoundInfo s → IsSoundInfo t
IndexStep-IsSoundInfo s _ (given n rounds conn) h = add_address-IsSoundInfo n rounds conn s h
IndexStep-IsSoundInfo s _ (taken_back n conn) h = remove_all_addresses-IsSoundInfo n conn s h

-- Connections that come and go, with failures of any call, never leave an index given out twice, nor
-- one whose last byte is 0.
pub IndexReach-IsSoundInfo :
    (init info : ClusterConnInfo) → IsSoundInfo init → IndexReach init info → IsSoundInfo info
IndexReach-IsSoundInfo init info h first_info = h
IndexReach-IsSoundInfo init _ h (next_info s t r st) =
    IndexStep-IsSoundInfo s t st (IndexReach-IsSoundInfo init s h r)
