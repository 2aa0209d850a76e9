-- ===== src/Upstream/Tests.antt =====
-- Ports and addresses of cluster/common/upstream/upstream.go at concrete connections.
use Prim.Native.Char.{Char}
use mathlib.Core.Path.{subst}
use octelium.Base.{
  ℕ, zero, suc, String, ◌+◌, ◌-◌, ◌≤◌, ◌<◌, ◌≡◌, refl, ap, true, false, none, some, List, [], ◌∷◌,
  Result, ok, err, arith, ◌==◌, ◌&&◌, eq_iff, Bool-cases, inl, inr,
}
use octelium.Base.Text.{length_of}
use octelium.Corev1.Session.{L3Mode, ConnectionType, Connection, Session}
use octelium.Corev1.Resources.{ClusterConfig}
use octelium.Upstream.Ports.{ports_of, port_loop, get_listener_port}
use octelium.Upstream.Addresses.{
  has_index, ClusterConnInfo, Network, get_random_ip_index, choose_index, address_by_index,
  add_address_to_connection, remove_all_addresses,
}
use octelium.Upstream.FreePort.{get_listener_port-free}
use octelium.Upstream.Indexes.{IsSoundInfo}
use octelium.Upstream.Outcomes.{
  IndexReach, first_info, next_info, given, taken_back, IndexReach-IsSoundInfo,
}
use octelium.Upstream.Restored.{IsNetwork, remove_all-add_address}
use octelium.Samples.{a_session, an_upstream}

-- Addresses that are as long as their index says, and CIDRs that start with a slash.
unfoldable unary : ℕ → String
unary zero = "x"
unary (suc n) = String.◌∷◌ "x" (unary n)

abbrev drop_first : String → String
drop_first String.[] = ""
drop_first (String.◌∷◌ c s) = s

abbrev config : ClusterConfig
config = record {
  wg_conn_subnet = record { v4 = "100.64.0.0/16"; v6 = "" };
  quic_conn_subnet = record { v4 = "100.65.0.0/16"; v6 = "" };
  session = none;
  use_forwarded_for_header = false;
}

abbrev network : Network
network = record {
  indexed_ip = λ subnet idx. ok (unary idx);
  cidr_ip = drop_first;
  with_prefix = λ ip prefix. String.◌∷◌ "/" ip;
  last_bytes = λ ip. length_of ip - 1;
  get_cluster_config = ok config;
  get_config = ok tt;
  update_config = ok tt;
}

length-unary : (n : ℕ) → length_of (unary n) ≡ suc n
unfolding length_of unary
length-unary zero = refl
length-unary (suc n) = ap suc (length-unary n)

-- A text that has a first character is not empty.
cons-not_empty : (c : Char) (s : String) → (String.◌∷◌ c s == "") ≡ false
unfolding length_of
cons-not_empty c s = elim (Bool-cases (String.◌∷◌ c s == "")) [
  | inr e ↦ e
  | inl e ↦
      let none_there : ⊥ = omega (arith, ap length_of ((eq_iff (String.◌∷◌ c s) "").0 e)) in
      elim none_there [ ]
]

unary-not_empty : (n : ℕ) → (unary n == "") ≡ false
unfolding unary
unary-not_empty zero = refl
unary-not_empty (suc n) = cons-not_empty "x" (unary n)

network-IsNetwork : (subnet : String) (prefix : ℕ) → IsNetwork network subnet prefix
network-IsNetwork subnet prefix = record {
  ends_with_index = λ idx ip b e. ground (arith, e, length-unary idx);
  not_empty = λ idx ip e. ground (arith, e, unary-not_empty idx);
  not_empty_cidr = λ idx ip e. cons-not_empty "/" ip;
  before_slash = λ idx ip e. refl;
}

abbrev config_or : Result ClusterConfig → ClusterConfig
config_or (ok c) = c
config_or (err e) = config

config_has_subnet :
    (c : ClusterConfig)
    → network.get_cluster_config ≡ ok c
    → (c.wg_conn_subnet.v4 == "" && c.wg_conn_subnet.v6 == "") ≡ false
config_has_subnet c e =
    subst (λ (d : ClusterConfig). (d.wg_conn_subnet.v4 == "" && d.wg_conn_subnet.v6 == "") ≡ false)
      (ap config_or e) refl

abbrev connection : Connection
connection = record {
  type = ConnectionType.wireguard;
  service_options = some (record { serve_all = true; requested_services = []; port_start = 23000 });
  addresses = [];
  l3_mode = L3Mode.v4;
  upstreams = an_upstream "v-1" 23000 ∷ an_upstream "v-2" 23002 ∷ [];
  essh_enable = false;
}

abbrev session : Session
session = record a_session { connection = some connection }

second_port : get_listener_port session ≡ ok 23001
unfolding get_listener_port port_loop
second_port = refl

get_listener_port-free_example :
    (p : ℕ) × (get_listener_port session ≡ ok p)
    × (23000 ≤ p)
    × (p < 23000 + 10000)
    × (has_index (ports_of connection.upstreams) p ≡ false)
get_listener_port-free_example =
    get_listener_port-free session connection
      (record { serve_all = true; requested_services = []; port_start = 23000 }) refl refl
      (omega arith) (omega arith)

abbrev no_info : ClusterConnInfo
no_info = record { active_indexes_wg = 7 ∷ []; active_indexes_quic = [] }

-- The first number ends with a byte 0, and the second is given out.
abbrev rounds : List (List (Result ℕ))
rounds = (ok 256 ∷ ok 5 ∷ []) ∷ (ok 7 ∷ []) ∷ []

abbrev with_address : Connection
with_address = record connection {
  addresses = record { v4 = String.◌∷◌ "/" (unary 5); v6 = "" } ∷ [];
}

abbrev five_given : ClusterConnInfo
five_given = record { active_indexes_wg = 7 ∷ 5 ∷ []; active_indexes_quic = [] }

gives_five :
    add_address_to_connection network rounds connection no_info ≡ (ok with_address, five_given)
unfolding add_address_to_connection choose_index get_random_ip_index address_by_index unary
gives_five = refl

remove_all-add_address_example :
    remove_all_addresses network with_address five_given ≡ (ok connection, no_info)
remove_all-add_address_example =
    remove_all-add_address network rounds connection with_address no_info five_given
      (λ c e. network-IsNetwork _ _) (λ c e. network-IsNetwork _ _) config_has_subnet refl refl
      gives_five

no_info-IsSoundInfo : IsSoundInfo no_info
no_info-IsSoundInfo = record { wg = refl; quic = refl }

abbrev after_given : ClusterConnInfo
after_given = (add_address_to_connection network rounds connection no_info).1

abbrev after_taken : ClusterConnInfo
after_taken = (remove_all_addresses network with_address after_given).1

index_steps : IndexReach no_info after_taken
index_steps =
    next_info after_given after_taken
      (next_info no_info after_given first_info (given network rounds connection))
      (taken_back network with_address)

IndexReach-IsSoundInfo_example : IsSoundInfo after_taken
IndexReach-IsSoundInfo_example =
    IndexReach-IsSoundInfo no_info after_taken no_info-IsSoundInfo index_steps
