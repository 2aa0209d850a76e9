-- ===== src/Httputils/Tests.antt =====
-- The theorem on `X-Forwarded-For` at a concrete header.
use octelium.Base.{String, ◌≡◌, refl, true, false, Option, none, some, map, ◌==◌, if◌then◌else◌}
use octelium.Base.Text.{split}
use octelium.Httputils.{Addr, trim_space, get_downstream_public_ip_from_xff_header}
use octelium.Httputils.Rightmost.{rightmost, get_downstream_public_ip_lem}

-- A public address of that text.
abbrev public_addr : String → Addr
public_addr s = record {
  text = s;
  is_private = false;
  is_loopback = false;
  is_unspecified = false;
  is_link_local_unicast = false;
  is_link_local_multicast = false;
}

-- Three addresses that parse, two of them not public.
abbrev parse : String → Option Addr
parse s =
    if s == "8.8.8.8"
    then some (public_addr s)
    else if s == "10.0.0.1"
    then some (record (public_addr s) { is_private = true })
    else if s == "fe80::1"
    then some (record (public_addr s) { is_link_local_unicast = true })
    else none

get_downstream_public_ip_lem_example :
    get_downstream_public_ip_from_xff_header parse "x, 8.8.8.8 ,10.0.0.1, fe80::1" ≡ (
      if "x, 8.8.8.8 ,10.0.0.1, fe80::1" == ""
      then ""
      else rightmost parse "" (map trim_space (split b',' "x, 8.8.8.8 ,10.0.0.1, fe80::1")))
get_downstream_public_ip_lem_example =
    get_downstream_public_ip_lem parse "x, 8.8.8.8 ,10.0.0.1, fe80::1"

finds_the_public_one :
    get_downstream_public_ip_from_xff_header parse "x, 8.8.8.8 ,10.0.0.1, fe80::1" ≡ "8.8.8.8"
unfolding get_downstream_public_ip_from_xff_header
finds_the_public_one = refl
