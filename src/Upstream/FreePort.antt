-- ===== src/Upstream/FreePort.antt =====
-- Which listener port `getListenerPort` of cluster/common/upstream/upstream.go chooses.
use octelium.Base.{
  ℕ, zero, suc, ◌+◌, ◌^◌, ◌≤◌, ◌<◌, ◌≡◌, refl, true, false, none, some, List, [], ◌∷◌, ok, leb,
  length, nat_beq, if◌then◌else◌, arith, ◌⊎◌, inl, inr, Bool-cases,
}
use octelium.Corev1.Session.{Upstream, Connection, ServiceOptions, Session}
use octelium.Upstream.Addresses.{has_index}
use octelium.Upstream.Ports.{ports_of, port_loop, get_listener_port}

-- How many ports of the list are `i` or above.
count_from : ℕ → List ℕ → ℕ
count_from i [] = 0
count_from i (p ∷ ps) = if leb i p then suc (count_from i ps) else count_from i ps

count_from-later : (i : ℕ) (ps : List ℕ) → count_from (suc i) ps ≤ count_from i ps
unfolding count_from
count_from-later i [] = omega arith
count_from-later i (p ∷ ps) = ground (arith, count_from-later i ps)

count_from-used :
    (i : ℕ) (ps : List ℕ) → has_index ps i ≡ true → suc (count_from (suc i) ps) ≤ count_from i ps
unfolding count_from
count_from-used i [] h = cc
count_from-used i (p ∷ ps) h = elim (Bool-cases (nat_beq p i)) [
  | inl hit ↦ ground (arith, hit, count_from-later i ps)
  | inr miss ↦ ground (arith, miss, count_from-used i ps (ground (arith, h, miss)))
]

count_from-length : (i : ℕ) (ps : List ℕ) → count_from i ps ≤ length ps
unfolding count_from
count_from-length i [] = omega arith
count_from-length i (p ∷ ps) = ground (arith, count_from-length i ps)

-- The loop, on `n` steps that do not wrap around: it finds a port that is not in use, or every one of
-- the `n` ports is in use.
port_loop-cases :
    (used : List ℕ) (n i : ℕ)
    → i + n < 2 ^ 31
    → ((p : ℕ) × (port_loop used n (i + n) i ≡ some p)
        × (i ≤ p)
        × (p < i + n)
        × (has_index used p ≡ false))
      ⊎ ((port_loop used n (i + n) i ≡ none) × (n ≤ count_from i used))
unfolding port_loop
port_loop-cases used zero i w = inr (refl, omega arith)
port_loop-cases used (suc n) i w = elim (Bool-cases (has_index used i)) [
  | inr free ↦ inl (i, ground (arith, free, w), omega arith, omega arith, free)
  | inl taken ↦ elim (port_loop-cases used n (suc i) (omega (arith, w))) [
    | inl (p, e, lo, hi, free) ↦
        inl (p, ground (arith, taken, w, e), omega (arith, lo), omega (arith, hi), free)
    | inr (e, m) ↦ inr (ground (arith, taken, w, e), omega (arith, m, count_from-used i used taken))
  ]
]

length-ports_of : (us : List Upstream) → length (ports_of us) ≡ length us
length-ports_of [] = refl
length-ports_of (u ∷ us) = omega (arith, length-ports_of us)

-- A connected Session with ServiceOptions and fewer than 10000 upstreams, whose range of ports
-- ends below 2 ^ 31, gets a port of the range that none of its upstreams has.
pub get_listener_port-free :
    (s : Session) (c : Connection) (o : ServiceOptions)
    → s.connection ≡ some c
    → c.service_options ≡ some o
    → o.port_start + 10000 < 2 ^ 31
    → length c.upstreams < 10000
    → (p : ℕ) × (get_listener_port s ≡ ok p)
      × (o.port_start ≤ p)
      × (p < o.port_start + 10000)
      × (has_index (ports_of c.upstreams) p ≡ false)
unfolding get_listener_port
get_listener_port-free s c o e f w few =
    let used = ports_of c.upstreams in
    elim (port_loop-cases used 10000 o.port_start w) [
      | inl (p, g, lo, hi, free) ↦ (p, ground (arith, e, f, g, w), lo, hi, free)
      | inr (g, m) ↦
          let none_left : ⊥ =
            omega
              (arith, m, few, count_from-length o.port_start used, length-ports_of c.upstreams) in
          elim none_left [ ]
    ]
