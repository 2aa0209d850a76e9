-- ===== src/Upstream/Served.antt =====
-- The upstreams of a Session that serves Services (cluster/common/upstream/upstream.go).
use octelium.Base.{
  ℕ, zero, suc, String, ◌+◌, ◌%◌, ◌^◌, ◌≡◌, refl, ap, true, false, none, some, List, [], ◌∷◌, ◌++◌,
  map, ok, ltb, is_in_list, is_in_list-append, ◌==◌, eq_iff, arith, ◌⊎◌, inl, inr, Bool-cases,
  Option-cases,
}
use octelium.Corev1.Session.{UpstreamBackend, Upstream, Connection, Session}
use octelium.Apiutils.{find_upstream}
use octelium.Octovigil.Rules.Collects.{is_distinct}
use octelium.Upstream.Ports.{as_signed32, ports_of, port_loop, get_listener_port}
use octelium.Upstream.Addresses.{has_index}
use octelium.Upstream.Indexes.{are_distinct, has_index-append}
use octelium.Upstream.Listener.{set_backend}

abbrev pub services_of : List Upstream → List String
services_of us = map (λ (u : Upstream). u.service_uid) us

-- No two upstreams have the same port, and no two serve the same Service.
pub record IsServing (us : List Upstream) : Type 0 where
  pub ports : are_distinct (ports_of us) ≡ true
  pub services : is_distinct (services_of us) ≡ true

port_loop-unused :
    (used : List ℕ) (fuel stop i p : ℕ)
    → port_loop used fuel stop i ≡ some p
    → has_index used p ≡ false
unfolding port_loop
port_loop-unused used zero stop i p h = cc
port_loop-unused used (suc fuel) stop i p h =
    elim (Bool-cases (ltb (as_signed32 i) (as_signed32 stop))) [
      | inr past ↦ ground (arith, past, h)
      | inl below ↦ elim (Bool-cases (has_index used i)) [
        | inr free ↦ ground (arith, below, free, h)
        | inl taken ↦
            port_loop-unused used fuel stop ((i + 1) % 2 ^ 32) p (ground (arith, below, taken, h))
      ]
    ]

pub get_listener_port-unused :
    (s : Session) (c : Connection) (p : ℕ)
    → s.connection ≡ some c
    → get_listener_port s ≡ ok p
    → has_index (ports_of c.upstreams) p ≡ false
unfolding get_listener_port
get_listener_port-unused s c p e h = elim (Option-cases c.service_options) [
  | inl f ↦ ground (arith, e, f, h)
  | inr (o, f) ↦
      let stop = (o.port_start + 10000) % 2 ^ 32 in
      let r = port_loop (ports_of c.upstreams) 10000 stop o.port_start in
      elim (Option-cases r) [
        | inl g ↦ ground (arith, e, f, g, h)
        | inr (q, g) ↦
            ground (
              arith,
              e,
              f,
              g,
              h,
              port_loop-unused (ports_of c.upstreams) 10000 stop o.port_start q g,
            )
      ]
]

pub are_distinct-append :
    (is : List ℕ) (i : ℕ)
    → has_index is i ≡ false
    → are_distinct is ≡ true
    → are_distinct (is ++ (i ∷ [])) ≡ true
are_distinct-append [] i free h = refl
are_distinct-append (k ∷ is) i free h =
    ground (arith, free, h, are_distinct-append is i, has_index-append is k i)

pub is_distinct-append :
    (xs : List String) (s : String)
    → is_in_list xs s ≡ false
    → is_distinct xs ≡ true
    → is_distinct (xs ++ (s ∷ [])) ≡ true
is_distinct-append [] s free h = refl
is_distinct-append (x ∷ xs) s free h = ground (
  arith,
  free,
  h,
  is_distinct-append xs s,
  is_in_list-append xs (s ∷ []) x,
  eq_iff s x,
  eq_iff x s,
)

pub ports_of-append :
    (us : List Upstream) (u : Upstream) → ports_of (us ++ (u ∷ [])) ≡ ports_of us ++ (u.port ∷ [])
ports_of-append [] u = refl
ports_of-append (v ∷ us) u = ap (λ ps. v.port ∷ ps) (ports_of-append us u)

pub services_of-append :
    (us : List Upstream) (u : Upstream)
    → services_of (us ++ (u ∷ [])) ≡ services_of us ++ (u.service_uid ∷ [])
services_of-append [] u = refl
services_of-append (v ∷ us) u = ap (λ ss. v.service_uid ∷ ss) (services_of-append us u)

-- What the search for the upstream of a Service does: it changes the backend of that one, or there is
-- none.
pub set_backend-cases :
    (uid : String) (b : UpstreamBackend) (us : List Upstream)
    → ((set_backend uid b us ≡ none)
        × (is_in_list (services_of us) uid ≡ false)
        × (find_upstream uid us ≡ none))
      ⊎ ((vs : List Upstream) × (u : Upstream) × (set_backend uid b us ≡ some vs)
          × (ports_of vs ≡ ports_of us)
          × (services_of vs ≡ services_of us)
          × (find_upstream uid vs ≡ some u)
          × (u.backend ≡ b))
unfolding set_backend find_upstream
set_backend-cases uid b [] = inl (refl, refl, refl)
set_backend-cases uid b (u ∷ us) = elim (Bool-cases (u.service_uid == uid)) [
  | inl hit ↦ inr (
    record u { backend = b } ∷ us,
    record u { backend = b },
    ground (arith, hit),
    refl,
    refl,
    ground (arith, hit),
    refl,
  )
  | inr miss ↦ elim (set_backend-cases uid b us) [
    | inl (e, f, g) ↦
        inl (ground (arith, miss, e), ground (arith, miss, f), ground (arith, miss, g))
    | inr (vs, v, e, p, s, f, g) ↦ inr (
      u ∷ vs,
      v,
      ground (arith, miss, e),
      ap (λ ps. u.port ∷ ps) p,
      ap (λ ss. u.service_uid ∷ ss) s,
      ground (arith, miss, f),
      g,
    )
  ]
]
