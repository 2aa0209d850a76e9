-- ===== src/Octovigil/Acache.antt =====
-- cluster/octovigil/octovigil/acache/acache.go: the resources that the watchers cache. A bbolt bucket
-- is the map that bbolt documents, with the messages in place of their bytes; reading and writing
-- its file does not fail.
pub mod Keys
pub mod Sessions
pub mod Tests
use octelium.Base.{
  String, Bool, true, false, Option, none, some, List, [], ◌∷◌, ◌++◌, Error, not_found,
  session_not_found, failed, Result, ok, err, ◌>>=◌, ◌==◌, if◌then◌else◌,
}
use octelium.Corev1.Policy.{ObjectReference, Metadata, Policy}
use octelium.Corev1.Session.{DualStackNetwork, Connection, Session}
use octelium.Corev1.Resources.{User, Device, Group, Namespace, Service}

abbrev pub Bucket : Type 0 → Type 0
Bucket V = String → Option V

pub record Cache : Type 0 where
  pub services : Bucket Service
  pub sessions : Bucket Session
  pub users : Bucket User
  pub devices : Bucket Device
  pub groups : Bucket Group
  pub policies : Bucket Policy
  pub namespaces : Bucket Namespace

-- The buckets as `NewCache` creates them.
abbrev pub new_cache : Cache
new_cache = record {
  services = λ k. none;
  sessions = λ k. none;
  users = λ k. none;
  devices = λ k. none;
  groups = λ k. none;
  policies = λ k. none;
  namespaces = λ k. none;
}

module _ {V : Type 0} where
  -- bbolt's `Put`, which refuses an empty key, and `Delete`.
  unfoldable pub put : Bucket V → String → V → Result (Bucket V)
  put b key v =
      if key == "" then err (failed "key required") else ok (λ k. if k == key then some v else b k)

  unfoldable pub delete_resource : Bucket V → String → Bucket V
  delete_resource b key = λ k. if k == key then none else b k

  -- An empty key stands for the UID of the resource.
  unfoldable pub set_resource : Bucket V → String → Metadata → V → Result (Bucket V)
  unfolding put
  set_resource b key m v = put b (if key == "" then m.uid else key) v

  unfoldable pub get_resource : Bucket V → String → Result V
  get_resource b key =
      if key == "" then err not_found else elim (b key) [ none ↦ err not_found | some v ↦ ok v ]

  -- Sets the resource under its UID and then under its name; a failure keeps what was written.
  unfoldable pub set_by_uid_and_name : Bucket V → Metadata → V → Result (Unit {0}) × Bucket V
  unfolding set_resource
  set_by_uid_and_name b m v = elim (set_resource b "" m v) [
    | err e ↦ (err e, b)
    | ok b' ↦ elim (set_resource b' m.name m v) [ err e ↦ (err e, b') | ok b'' ↦ (ok tt, b'') ]
  ]

  -- A write whose failure is logged and passed over.
  unfoldable pub set_or_skip : Bucket V → String → Metadata → V → Bucket V
  unfolding set_resource
  set_or_skip b key m v = elim (set_resource b key m v) [ err e ↦ b | ok b' ↦ b' ]

module _ (c : Cache) where
  unfoldable pub set_user : User → Result Cache
  unfolding set_resource
  set_user u = do b ← set_resource c.users "" u.metadata u; ok (record c { users = b })

  unfoldable pub set_device : Device → Result Cache
  unfolding set_resource
  set_device d = do b ← set_resource c.devices "" d.metadata d; ok (record c { devices = b })

  unfoldable pub set_service : Service → Result Cache
  unfolding set_resource
  set_service s = do
    b ← set_resource c.services s.metadata.uid s.metadata s
    ok (record c { services = b })

  unfoldable pub set_policy : Policy → Result (Unit {0}) × Cache
  unfolding set_by_uid_and_name
  set_policy p =
      let (r, b) = set_by_uid_and_name c.policies p.metadata p in (r, record c { policies = b })

  unfoldable pub delete_policy : Policy → Cache
  unfolding delete_resource
  delete_policy p = record c { policies = delete_resource c.policies p.metadata.uid }

  unfoldable pub get_policy : String → Result Policy
  unfolding get_resource
  get_policy uid = get_resource c.policies uid

  unfoldable pub set_namespace : Namespace → Result (Unit {0}) × Cache
  unfolding set_by_uid_and_name
  set_namespace n =
      let (r, b) = set_by_uid_and_name c.namespaces n.metadata n in (r, record c { namespaces = b })

  unfoldable pub delete_namespace : Namespace → Cache
  unfolding delete_resource
  delete_namespace n = record c { namespaces = delete_resource c.namespaces n.metadata.uid }

  unfoldable pub get_namespace : String → Result Namespace
  unfolding get_resource
  get_namespace uid = get_resource c.namespaces uid

  -- The first key is the UID itself, so an empty one stands for itself.
  unfoldable pub set_group : Group → Result (Unit {0}) × Cache
  unfolding set_by_uid_and_name
  set_group g =
      let (r, b) = set_by_uid_and_name c.groups g.metadata g in (r, record c { groups = b })

  unfoldable pub delete_group : Group → Cache
  unfolding delete_resource
  delete_group g = record c {
    groups = delete_resource (delete_resource c.groups g.metadata.uid) g.metadata.name;
  }

  unfoldable pub get_group : String → Result Group
  unfolding get_resource
  get_group key = get_resource c.groups key

  unfoldable pub get_user : String → Result User
  unfolding get_resource
  get_user uid = get_resource c.users uid

  unfoldable pub get_device : String → Result Device
  unfolding get_resource
  get_device uid = get_resource c.devices uid

  unfoldable pub get_session : String → Result Session
  unfolding get_resource
  get_session identifier = get_resource c.sessions identifier

  unfoldable pub get_service : String → Result Service
  unfolding get_resource
  get_service identifier = get_resource c.services identifier

  unfoldable pub delete_user : User → Cache
  unfolding delete_resource
  delete_user u = record c { users = delete_resource c.users u.metadata.uid }

  unfoldable pub delete_device : Device → Cache
  unfolding delete_resource
  delete_device d = record c { devices = delete_resource c.devices d.metadata.uid }

  unfoldable pub delete_service : Service → Cache
  unfolding delete_resource
  delete_service s = record c { services = delete_resource c.services s.metadata.uid }

unfoldable pub set_keys : Bucket Session → List String → Session → Bucket Session
unfolding set_or_skip
set_keys b [] s = b
set_keys b (k ∷ ks) s = set_keys (set_or_skip b k s.metadata s) ks s

-- `ip_of` is the address in a CIDR: `net.ParseCIDR` and `IP.String`.
module _ (ip_of : String → String) where
  -- The keys that `setSession` collects, IPv4 first.
  abbrev pub address_keys : List DualStackNetwork → List String
  address_keys [] = []
  address_keys (a ∷ rest) =
      (if a.v4 == "" then [] else ip_of a.v4 ∷ [])
      ++ (if a.v6 == "" then [] else ip_of a.v6 ∷ [])
      ++ address_keys rest

  abbrev pub connection_keys : Session → List String
  connection_keys s = elim s.connection [ none ↦ [] | some conn ↦ address_keys conn.addresses ]

  -- The loop of `DeleteSession` over the addresses: an IPv4 key is deleted before the IPv6 key.
  unfoldable pub delete_addresses : Bucket Session → List DualStackNetwork → Bucket Session
  unfolding delete_resource
  delete_addresses b [] = b
  delete_addresses b (a ∷ rest) =
      let b' = if a.v4 == "" then b else delete_resource b (ip_of a.v4) in
      let b'' = if a.v6 == "" then b' else delete_resource b' (ip_of a.v6) in
      delete_addresses b'' rest

  -- `setSession` returns no error.
  unfoldable pub set_session : Cache → Session → Cache
  unfolding set_keys
  set_session c s =
      let b = set_keys c.sessions (connection_keys s) s in
      let b' = set_or_skip b s.metadata.uid s.metadata s in
      record c { sessions = set_or_skip b' s.metadata.name s.metadata s }

  unfoldable pub delete_session : Cache → Session → Cache
  unfolding delete_addresses
  delete_session c s =
      let b : Bucket Session = elim s.connection [
        | none ↦ c.sessions
        | some conn ↦ delete_addresses c.sessions conn.addresses
      ] in
      record c { sessions = delete_resource (delete_resource b s.metadata.uid) s.metadata.name }

pub record DownstreamInfo : Type 0 where
  pub user : Option User
  pub device : Option Device
  pub session : Session
  pub groups : List Group

-- A lookup that may miss: `nil` for `ErrNotFound`, any other error is returned.
abbrev pub found_or_nil {ℓ} : {A : Type ℓ} → Result A → Result (Option A)
found_or_nil (ok a) = ok (some a)
found_or_nil (err not_found) = ok none
found_or_nil (err e) = err e

module _ (c : Cache) where
  -- The loop over the User's group names; a group that is not cached is left out.
  unfoldable pub cached_groups : List String → Result (List Group)
  unfolding get_group
  cached_groups [] = ok []
  cached_groups (g ∷ gs) =
      let rest = cached_groups gs in
      do
        grp ← found_or_nil (get_group c g)
        others ← rest
        ok (elim grp [ none ↦ others | some grp ↦ grp ∷ others ])

  abbrev session_error : Error → Error
  session_error not_found = session_not_found
  session_error e = e

  unfoldable pub get_downstream_info_by_session_identifier : String → Result DownstreamInfo
  get_downstream_info_by_session_identifier arg =
      if arg == "" then err session_not_found else elim (get_session c arg) [
        | err e ↦ err (session_error e)
        | ok sess ↦ do
          usr ← found_or_nil (get_user c sess.user_ref.uid)
          device ← elim sess.device_ref [
            | none ↦ ok none
            | some ref ↦ found_or_nil (get_device c ref.uid)
          ]
          groups ← elim usr [ none ↦ ok [] | some u ↦ cached_groups u.groups ]
          ok (record { user = usr; device = device; session = sess; groups = groups })
      ]
