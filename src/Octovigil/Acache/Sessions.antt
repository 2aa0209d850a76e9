-- ===== src/Octovigil/Acache/Sessions.antt =====
-- The keys of a Session in the cache (cluster/octovigil/octovigil/acache).
use octelium.Base.{
  String, ◌≡◌, ◌≢◌, refl, Bool, true, false, not, any, ◌&&◌, ◌||◌, none, some, Option-cases, inl,
  inr, List, [], ◌∷◌, not_found, ok, err, arith, ◌==◌, eq_iff, if◌then◌else◌, is_in_list,
}
use octelium.Corev1.Session.{DualStackNetwork, Session}
use octelium.Octovigil.Acache.{
  Bucket, Cache, get_resource, delete_resource, set_or_skip, connection_keys, set_keys,
  address_keys, delete_addresses, set_session, delete_session, get_session,
}
use octelium.Octovigil.Acache.Keys.{get-delete_resource}

-- Setting under a key changes that key, and the UID where the key is empty.
get-set_or_skip :
    (b : Bucket Session) (key : String) (s : Session) (k : String)
    → s.metadata.uid ≢ ""
    → k ≢ ""
    → get_resource (set_or_skip b key s.metadata s) k
      ≡ (if k == (if key == "" then s.metadata.uid else key) then ok s else get_resource b k)
unfolding get_resource set_or_skip
get-set_or_skip b key s k u n = ground (arith, eq_iff s.metadata.uid "", eq_iff k "", eq_iff key "")

get-set_keys :
    (b : Bucket Session) (ks : List String) (s : Session) (k : String)
    → s.metadata.uid ≢ ""
    → k ≢ ""
    → (k == s.metadata.uid) ≡ false
    → get_resource (set_keys b ks s) k ≡ (if is_in_list ks k then ok s else get_resource b k)
unfolding set_keys
get-set_keys b [] s k u n d = refl
get-set_keys b (key ∷ ks) s k u n d = ground (
  arith,
  get-set_keys (set_or_skip b key s.metadata s) ks s k u n d,
  get-set_or_skip b key s k u n,
  eq_iff key k,
  eq_iff k key,
  eq_iff k s.metadata.uid,
  eq_iff key "",
  eq_iff k "",
)

-- The address is that of one of the two networks.
abbrev pub is_ip_of : (String → String) → String → DualStackNetwork → Bool
is_ip_of ip_of k a = (not (a.v4 == "") && ip_of a.v4 == k) || (not (a.v6 == "") && ip_of a.v6 == k)

-- The Session is connected and has the address.
abbrev pub has_address : (String → String) → Session → String → Bool
has_address ip_of s k = elim s.connection [
  | none ↦ false
  | some conn ↦ any (is_ip_of ip_of k) conn.addresses
]

address_keys-has :
    (ip_of : String → String) (as' : List DualStackNetwork) (k : String)
    → is_in_list (address_keys ip_of as') k ≡ any (is_ip_of ip_of k) as'
address_keys-has ip_of [] k = refl
address_keys-has ip_of (a ∷ as') k = ground (
  arith,
  address_keys-has ip_of as' k,
  eq_iff a.v4 "",
  eq_iff a.v6 "",
  eq_iff (ip_of a.v4) k,
  eq_iff k (ip_of a.v4),
  eq_iff (ip_of a.v6) k,
  eq_iff k (ip_of a.v6),
)

connection_keys-has :
    (ip_of : String → String) (s : Session) (k : String)
    → is_in_list (connection_keys ip_of s) k ≡ has_address ip_of s k
connection_keys-has ip_of s k = elim (Option-cases s.connection) [
  | inl e ↦ ground (arith, e)
  | inr (conn, e) ↦ ground (arith, e, address_keys-has ip_of conn.addresses k)
]

get-delete_addresses :
    (ip_of : String → String) (b : Bucket Session) (as' : List DualStackNetwork) (k : String)
    → get_resource (delete_addresses ip_of b as') k
      ≡ (if any (is_ip_of ip_of k) as' then err not_found else get_resource b k)
unfolding delete_addresses
get-delete_addresses ip_of b [] k = refl
get-delete_addresses ip_of b (a ∷ as') k =
    let b' = if a.v4 == "" then b else delete_resource b (ip_of a.v4) in
    let b'' = if a.v6 == "" then b' else delete_resource b' (ip_of a.v6) in
    ground (
      arith,
      get-delete_addresses ip_of b'' as' k,
      get-delete_resource b' (ip_of a.v6) k,
      get-delete_resource b (ip_of a.v4) k,
      eq_iff (ip_of a.v4) k,
      eq_iff k (ip_of a.v4),
      eq_iff (ip_of a.v6) k,
      eq_iff k (ip_of a.v6),
    )

get-delete_connection :
    (ip_of : String → String) (b : Bucket Session) (s : Session) (k : String)
    → get_resource
        (elim s.connection [ none ↦ b | some conn ↦ delete_addresses ip_of b conn.addresses ])
        k
      ≡ (if has_address ip_of s k then err not_found else get_resource b k)
get-delete_connection ip_of b s k = elim (Option-cases s.connection) [
  | inl e ↦ ground (arith, e)
  | inr (conn, e) ↦ ground (arith, e, get-delete_addresses ip_of b conn.addresses k)
]

module _ (ip_of : String → String) (c : Cache) where
  -- The keys of a Session: the addresses of its connection, its UID and its name.
  abbrev pub is_key : Session → String → Bool
  is_key s k = has_address ip_of s k || k == s.metadata.uid || k == s.metadata.name

  -- A Session with a UID that was set is found under the IPv4 and the IPv6 address of each
  -- network of its connection, under its UID and under its name; every other lookup finds what it
  -- found before.
  pub get_session-set_session :
      (s : Session) (k : String)
      → s.metadata.uid ≢ ""
      → k ≢ ""
      → get_session (set_session ip_of c s) k ≡ (if is_key s k then ok s else get_session c k)
  unfolding get_session set_session
  get_session-set_session s k u n =
      let b = set_keys c.sessions (connection_keys ip_of s) s in
      let b' = set_or_skip b s.metadata.uid s.metadata s in
      ground (
        arith,
        get-set_or_skip b' s.metadata.name s k u n,
        get-set_or_skip b s.metadata.uid s k u n,
        get-set_keys c.sessions (connection_keys ip_of s) s k u n,
        connection_keys-has ip_of s k,
        eq_iff k s.metadata.uid,
        eq_iff k s.metadata.name,
        eq_iff s.metadata.name "",
        eq_iff s.metadata.uid "",
        eq_iff k "",
      )

  -- A Session that is deleted is found under none of its keys; every other lookup finds what it
  -- found before.
  pub get_session-delete_session :
      (s : Session) (k : String)
      → get_session (delete_session ip_of c s) k
        ≡ (if is_key s k then err not_found else get_session c k)
  unfolding get_session delete_session
  get_session-delete_session s k =
      let b : Bucket Session = elim s.connection [
        | none ↦ c.sessions
        | some conn ↦ delete_addresses ip_of c.sessions conn.addresses
      ] in
      ground (
        arith,
        get-delete_resource (delete_resource b s.metadata.uid) s.metadata.name k,
        get-delete_resource b s.metadata.uid k,
        get-delete_connection ip_of c.sessions s k,
      )

-- A Session that is set with a connection, updated without one and then deleted is still found, as
-- it was when connected, under the addresses of that connection that are not its UID or name.
pub deleted_session_remains :
    (ip_of : String → String) (c : Cache) (s t : Session) (k : String)
    → s.metadata.uid ≢ ""
    → k ≢ ""
    → t.metadata ≡ s.metadata
    → t.connection ≡ none
    → has_address ip_of s k ≡ true
    → (k == s.metadata.uid || k == s.metadata.name) ≡ false
    → get_session (delete_session ip_of (set_session ip_of (set_session ip_of c s) t) t) k ≡ ok s
deleted_session_remains ip_of c s t k u n m e h d = ground (
  arith,
  get_session-delete_session ip_of (set_session ip_of (set_session ip_of c s) t) t k,
  get_session-set_session ip_of (set_session ip_of c s) t k,
  get_session-set_session ip_of c s k u n,
  m,
  e,
)
