-- ===== src/Upstream/Restored.antt =====
-- An address that is given and taken back (cluster/common/upstream/upstream.go).
use octelium.Base.{
  ℕ, String, ◌<◌, ◌≡◌, refl, Bool, true, false, not, ◌&&◌, List, [], ◌∷◌, ◌++◌, all, Result, ok,
  err, ltb, if◌then◌else◌, arith, inl, inr, Bool-cases, Result-cases, ◌==◌, eq_iff,
}
use octelium.Corev1.Session.{DualStackNetwork, ConnectionType, Connection}
use octelium.Corev1.Resources.{ClusterConfig}
use octelium.Upstream.Addresses.{
  ClusterConnInfo, Network, has_index, active_indexes, with_indexes, get_random_ip_index,
  choose_index, is_known_type, add_address_to_connection, get_index, ip_by_index, address_by_index,
  conn_subnet, remove_index, remove_addresses, remove_all_addresses,
}
use octelium.Upstream.Outcomes.{add_address-cases}

-- What net and k8snet do, where the addresses of a subnet are written with a prefix of their own
-- length: an address of a subnet whose last 16 bits are 0 ends with the index that it was made of, it
-- is not the empty text, and the CIDR that it is written as is not empty and has that address.
pub record IsNetwork (n : Network) (subnet : String) (prefix : ℕ) : Type 0 where
  pub ends_with_index :
      (idx : ℕ) (ip : String)
      → idx < 65536
      → n.indexed_ip subnet idx ≡ ok ip
      → n.last_bytes ip ≡ idx
  pub not_empty : (idx : ℕ) (ip : String) → n.indexed_ip subnet idx ≡ ok ip → (ip == "") ≡ false
  pub not_empty_cidr :
      (idx : ℕ) (ip : String)
      → n.indexed_ip subnet idx ≡ ok ip
      → (n.with_prefix ip prefix == "") ≡ false
  pub before_slash :
      (idx : ℕ) (ip : String)
      → n.indexed_ip subnet idx ≡ ok ip
      → n.cidr_ip (n.with_prefix ip prefix) ≡ ip

-- `rand.Int(rand.Reader, 65535)` draws a number below 65535.
abbrev pub is_draw : Result ℕ → Bool
is_draw (ok n) = ltb n 65535
is_draw (err e) = true

get_random_ip_index_bound :
    (draws : List (Result ℕ)) (n : ℕ)
    → all is_draw draws ≡ true
    → get_random_ip_index draws ≡ ok n
    → n < 65535
unfolding get_random_ip_index
get_random_ip_index_bound [] n a h = cc
get_random_ip_index_bound (err e ∷ draws) n a h = cc
get_random_ip_index_bound (ok m ∷ draws) n a h =
    ground (arith, a, h, get_random_ip_index_bound draws n)

choose_index_bound :
    (used : List ℕ) (rounds : List (List (Result ℕ))) (start idx : ℕ)
    → all (all is_draw) rounds ≡ true
    → start < 65535
    → choose_index used rounds start ≡ ok idx
    → idx < 65535
unfolding choose_index
choose_index_bound used [] start idx a s h = ground (arith, s, h)
choose_index_bound used (draws ∷ rounds) start idx a s h =
    elim (Result-cases (get_random_ip_index draws)) [
      | inr (x, e) ↦ ground (arith, e, h)
      | inl (cur, e) ↦
          let new = if not (has_index used cur) then cur else start in
          choose_index_bound used rounds new idx (ground (arith, a))
            (ground (arith, s, get_random_ip_index_bound draws cur (ground (arith, a)) e))
            (ground (arith, e, h))
    ]

remove_index-last :
    (is : List ℕ) (i : ℕ) → has_index is i ≡ false → remove_index (is ++ (i ∷ [])) i ≡ is
unfolding remove_index
remove_index-last [] i h = ground arith
remove_index-last (k ∷ is) i h = ground (arith, h, remove_index-last is i)

-- The index is read back from the address.
get_index-address :
    (n : Network) (subnet : DualStackNetwork) (idx : ℕ) (address : DualStackNetwork)
    → IsNetwork n subnet.v4 32
    → IsNetwork n subnet.v6 128
    → (subnet.v4 == "" && subnet.v6 == "") ≡ false
    → idx < 65536
    → address_by_index n subnet idx ≡ ok address
    → get_index n address ≡ idx
unfolding address_by_index get_index
get_index-address n subnet idx address w4 w6 some_net b h =
    elim (Result-cases (ip_by_index n subnet.v4 idx)) [
      | inr (x, e) ↦ ground (arith, e, h)
      | inl (ip4, e) ↦ elim (Result-cases (ip_by_index n subnet.v6 idx)) [
        | inr (x, f) ↦ ground (arith, e, f, h)
        | inl (ip6, f) ↦ elim (Bool-cases (subnet.v4 == "")) [
          | inr four ↦
              let g : n.indexed_ip subnet.v4 idx ≡ ok ip4 = ground (arith, e, four) in
              ground (
                arith,
                e,
                f,
                h,
                four,
                w4.ends_with_index idx ip4 b g,
                w4.not_empty idx ip4 g,
                w4.not_empty_cidr idx ip4 g,
                w4.before_slash idx ip4 g,
              )
          | inl six ↦
              let g : n.indexed_ip subnet.v6 idx ≡ ok ip6 = ground (arith, f, six, some_net) in
              let z : ip4 ≡ "" = ground (arith, e, six) in
              let a4 : address.v4 ≡ "" = ground (arith, e, f, h, (eq_iff ip4 "").1 z) in
              let a6 : address.v6 ≡ n.with_prefix ip6 128 =
                ground (arith, e, f, h, w6.not_empty idx ip6 g) in
              rw a4 (
                rw a6 (
                  ground (
                    arith,
                    w6.ends_with_index idx ip6 b g,
                    w6.not_empty idx ip6 g,
                    w6.not_empty_cidr idx ip6 g,
                    w6.before_slash idx ip6 g,
                  )))
        ]
      ]
    ]

with_indexes-back :
    (typ : ConnectionType) (is js : List ℕ) (info : ClusterConnInfo)
    → is_known_type typ ≡ true
    → (active_indexes typ (with_indexes typ is info) ≡ is)
      × (with_indexes typ js (with_indexes typ is info) ≡ with_indexes typ js info)
      × (with_indexes typ (active_indexes typ info) info ≡ info)
with_indexes-back ConnectionType.wireguard is js info k = (refl, refl, refl)
with_indexes-back ConnectionType.quicv0 is js info k = (refl, refl, refl)
with_indexes-back ConnectionType.type_unknown is js info k = cc

-- What is given to a connection that has no address is taken back whole: the connection and the
-- indexes are as they were. net and k8snet do on the Cluster's subnets, of which at least one is set,
-- what `IsNetwork` says, and the numbers drawn are below 65535.
pub remove_all-add_address :
    (n : Network) (rounds : List (List (Result ℕ))) (conn conn' : Connection)
    (info info' : ClusterConnInfo)
    → ((c : ClusterConfig)
        → n.get_cluster_config ≡ ok c
        → IsNetwork n (conn_subnet conn.type c).v4 32)
    → ((c : ClusterConfig)
        → n.get_cluster_config ≡ ok c
        → IsNetwork n (conn_subnet conn.type c).v6 128)
    → ((c : ClusterConfig)
        → n.get_cluster_config ≡ ok c
        → ((conn_subnet conn.type c).v4 == "" && (conn_subnet conn.type c).v6 == "") ≡ false)
    → all (all is_draw) rounds ≡ true
    → conn.addresses ≡ []
    → add_address_to_connection n rounds conn info ≡ (ok conn', info')
    → remove_all_addresses n conn' info' ≡ (ok conn, info)
unfolding remove_all_addresses remove_addresses
remove_all-add_address n rounds conn conn' info info' w4 w6 some_net draws no_address h =
    elim (add_address-cases n rounds conn info) [
      | inl refused ↦ ground (arith, h, refused.says)
      | inr given ↦
          let c = given.config in
          let used = active_indexes conn.type info in
          elim (Result-cases (address_by_index n (conn_subnet conn.type c) given.idx)) [
            | inr (x, e) ↦ ground (arith, h, given.gives, e)
            | inl (address, e) ↦
                let b =
                  choose_index_bound used rounds 0 given.idx draws (omega arith) given.chosen in
                let i : get_index n address ≡ given.idx =
                  get_index-address n (conn_subnet conn.type c) given.idx address
                    (w4 c given.has_config) (w6 c given.has_config) (some_net c given.has_config)
                    (omega (arith, b)) e in
                let back =
                  with_indexes-back conn.type (used ++ (given.idx ∷ [])) used info given.known in
                ground (
                  arith,
                  h,
                  given.gives,
                  given.reads,
                  e,
                  i,
                  b,
                  no_address,
                  back.0,
                  back.1,
                  back.2,
                  remove_index-last used given.idx given.free,
                )
          ]
    ]
