-- ===== src/Upstream/Addresses.antt =====
-- cluster/common/upstream/upstream.go: the private addresses of a connection and the indexes that
-- the Cluster has given out.
use octelium.Base.{
  ℕ, String, ◌%◌, ◌^◌, Bool, true, false, not, ◌||◌, List, [], ◌∷◌, ◌++◌, Result, ok, err, failed,
  ◌>>=◌, nat_beq, is_empty, ◌==◌, if◌then◌else◌,
}
use octelium.Corev1.Session.{DualStackNetwork, ConnectionType, Connection}
use octelium.Corev1.Resources.{ClusterConfig}

-- `cclusterv1.ClusterConnInfo`
pub record ClusterConnInfo : Type 0 where
  pub active_indexes_wg : List ℕ
  pub active_indexes_quic : List ℕ

-- What is read and called around one operation: net and k8snet by `indexed_ip` (the address of an
-- index in a subnet), `cidr_ip` (the address of a CIDR, as a text), `with_prefix` (`fmt.Sprintf` of
-- an address and the length of its prefix) and `last_bytes` (the last two bytes of an address), the
-- ClusterConfig, and the failures of reading and of updating the Config.
pub record Network : Type 0 where
  pub indexed_ip : String → ℕ → Result String
  pub cidr_ip : String → String
  pub with_prefix : String → ℕ → String
  pub last_bytes : String → ℕ
  pub get_cluster_config : Result ClusterConfig
  pub get_config : Result (Unit {0})
  pub update_config : Result (Unit {0})

abbrev pub has_index : List ℕ → ℕ → Bool
has_index [] arg = false
has_index (i ∷ is) arg = nat_beq i arg || has_index is arg

abbrev pub active_indexes : ConnectionType → ClusterConnInfo → List ℕ
active_indexes ConnectionType.wireguard n = n.active_indexes_wg
active_indexes ConnectionType.quicv0 n = n.active_indexes_quic
active_indexes ConnectionType.type_unknown n = []

abbrev pub with_indexes : ConnectionType → List ℕ → ClusterConnInfo → ClusterConnInfo
with_indexes ConnectionType.wireguard is n = record n { active_indexes_wg = is }
with_indexes ConnectionType.quicv0 is n = record n { active_indexes_quic = is }
with_indexes ConnectionType.type_unknown is n = n

-- `GetRandomIPIndex`, over the numbers that crypto/rand draws.
unfoldable pub get_random_ip_index : List (Result ℕ) → Result ℕ
get_random_ip_index [] = err (failed "Could not generate a random number")
get_random_ip_index (err e ∷ draws) = err e
get_random_ip_index (ok n ∷ draws) =
    let rest = get_random_ip_index draws in
    if nat_beq n 0 || nat_beq (n % 256) 0 then rest else ok n

-- The loop that looks for an index, which keeps the last one that is free.
unfoldable pub choose_index : List ℕ → List (List (Result ℕ)) → ℕ → Result ℕ
choose_index used [] idx = ok idx
choose_index used (draws ∷ rounds) idx = elim (get_random_ip_index draws) [
  | err e ↦ err e
  | ok cur ↦ choose_index used rounds (if not (has_index used cur) then cur else idx)
]

-- `GetDualStackIPByIndex`, and the address of the connection that is made of it.
abbrev pub ip_by_index : Network → String → ℕ → Result String
ip_by_index n subnet idx = if subnet == "" then ok "" else n.indexed_ip subnet idx

abbrev pub cidr_of : Network → String → ℕ → String
cidr_of n ip prefix = if ip == "" then "" else n.with_prefix ip prefix

unfoldable pub address_by_index : Network → DualStackNetwork → ℕ → Result DualStackNetwork
address_by_index n subnet idx = do
  ipv4 ← ip_by_index n subnet.v4 idx
  ipv6 ← ip_by_index n subnet.v6 idx
  ok (record { v4 = cidr_of n ipv4 32; v6 = cidr_of n ipv6 128 })

abbrev pub conn_subnet : ConnectionType → ClusterConfig → DualStackNetwork
conn_subnet ConnectionType.quicv0 c = c.quic_conn_subnet
conn_subnet _ c = c.wg_conn_subnet

abbrev pub is_known_type : ConnectionType → Bool
is_known_type ConnectionType.type_unknown = false
is_known_type _ = true

-- The end of `AddAddressToConnection`, once the indexes are stored.
abbrev pub append_address : Network → ClusterConfig → ℕ → Connection → Result Connection
append_address n c idx conn = do
  address ← address_by_index n (conn_subnet conn.type c) idx
  ok (record conn { addresses = conn.addresses ++ (address ∷ []) })

-- `AddAddressToConnection` of a Session that has a connection. The indexes stay given out where
-- the address cannot be made.
unfoldable pub add_address_to_connection :
    Network
    → List (List (Result ℕ))
    → Connection
    → ClusterConnInfo
    → Result Connection × ClusterConnInfo
add_address_to_connection n rounds conn info =
    if not (is_known_type conn.type)
    then (err (failed "Cannot adding addresses without knowing Connection type"), info)
    else elim (do u ← n.get_config; n.get_cluster_config) [
      | err e ↦ (err e, info)
      | ok c ↦ elim (choose_index (active_indexes conn.type info) rounds 0) [
        | err e ↦ (err e, info)
        | ok idx ↦
            if nat_beq idx 0
            then (err (failed "Could not find a valid IP"), info)
            else elim n.update_config [
              | err e ↦ (err e, info)
              | ok u ↦ (
                append_address n c idx conn,
                with_indexes conn.type (active_indexes conn.type info ++ (idx ∷ [])) info,
              )
            ]
      ]
    ]

-- `GetIndex` of the address that a CIDR has.
unfoldable pub get_index : Network → DualStackNetwork → ℕ
get_index n address =
    let ip4 = if address.v4 == "" then "" else n.cidr_ip address.v4 in
    let ip6 = if address.v6 == "" then "" else n.cidr_ip address.v6 in
    if not (ip4 == "") then n.last_bytes ip4 else if not (ip6 == "") then n.last_bytes ip6 else 0

-- The first occurrence of an index is removed.
unfoldable pub remove_index : List ℕ → ℕ → List ℕ
remove_index [] arg = []
remove_index (i ∷ is) arg = if nat_beq i arg then is else i ∷ remove_index is arg

abbrev pub remove_conn_index : ClusterConnInfo → ℕ → ConnectionType → ClusterConnInfo
remove_conn_index info arg typ = with_indexes typ (remove_index (active_indexes typ info) arg) info

-- `removeAddressFromConnection`; the index is cut to a uint32.
abbrev pub remove_address :
    Network
    → ConnectionType
    → DualStackNetwork
    → ClusterConnInfo
    → Result (Unit {0}) × ClusterConnInfo
remove_address n typ address info = elim (do u ← n.get_config; n.update_config) [
  | err e ↦ (err e, info)
  | ok u ↦ (ok tt, remove_conn_index info (get_index n address % 2 ^ 32) typ)
]

unfoldable pub remove_addresses :
    Network
    → ConnectionType
    → List DualStackNetwork
    → ClusterConnInfo
    → Result (Unit {0}) × ClusterConnInfo
remove_addresses n typ [] info = (ok tt, info)
remove_addresses n typ (a ∷ rest) info =
    let (r, info') = remove_address n typ a info in
    elim r [ err e ↦ (err e, info') | ok u ↦ remove_addresses n typ rest info' ]

-- `RemoveAllAddressFromConnection`: the addresses go where every index was removed.
unfoldable pub remove_all_addresses :
    Network → Connection → ClusterConnInfo → Result Connection × ClusterConnInfo
remove_all_addresses n conn info =
    if is_empty conn.addresses
    then (ok conn, info)
    else let (r, info') = remove_addresses n conn.type conn.addresses info in
      elim r [ err e ↦ (err e, info') | ok u ↦ (ok (record conn { addresses = [] }), info') ]
