-- ===== src/Upstream/Ports.antt =====
-- cluster/common/upstream/upstream.go: the choice of a listener port.
use octelium.Base.{
  ℕ, zero, suc, ◌+◌, ◌%◌, ◌^◌, Option, none, some, List, map, Result, ok, err, failed, ltb,
  if◌then◌else◌,
}
use octelium.Upstream.Addresses.{has_index}
use octelium.Corev1.Session.{Upstream, Session}

-- The integer that an int32 stands for, plus 2 ^ 31.
abbrev pub as_signed32 : ℕ → ℕ
as_signed32 x = (x + 2 ^ 31) % 2 ^ 32

abbrev pub ports_of : List Upstream → List ℕ
ports_of us = map (λ (u : Upstream). u.port) us

-- The loop from `i` while it is below `stop`, as int32; the first number is the fuel.
unfoldable pub port_loop : List ℕ → ℕ → ℕ → ℕ → Option ℕ
port_loop used zero stop i = none
port_loop used (suc fuel) stop i =
    let rest = port_loop used fuel stop ((i + 1) % 2 ^ 32) in
    if ltb (as_signed32 i) (as_signed32 stop)
    then if has_index used i then rest else some i
    else none

-- The end of the range is at most 10000 steps away, which is the fuel.
unfoldable pub get_listener_port : Session → Result ℕ
get_listener_port s = elim s.connection [
  | none ↦ err (failed "Connection is not set in the Session")
  | some c ↦ elim c.service_options [
    | none ↦ err (failed "Nil ServiceOptions of Conn")
    | some o ↦
        elim (port_loop (ports_of c.upstreams) 10000 ((o.port_start + 10000) % 2 ^ 32)
          o.port_start) [ none ↦ err (failed "Could not choose port for Session") | some p ↦ ok p ]
  ]
]
