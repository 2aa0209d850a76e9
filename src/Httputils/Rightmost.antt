-- ===== src/Httputils/Rightmost.antt =====
-- Which address of an `X-Forwarded-For` header counts (cluster/common/httputils).
use mathlib.Core.List.{reverse, reverse-cons}
use octelium.Base.{
  String, ◌≡◌, refl, Bool, not, ◌&&◌, Option, none, some, List, [], ◌∷◌, ◌++◌, map, arith, ◌==◌,
  if◌then◌else◌,
}
use octelium.Base.Text.{split}
use octelium.Httputils.{Addr, trim_space, first_public, get_downstream_public_ip_from_xff_header}

-- An address that the public Internet may route: none of the five tests is true of it.
abbrev pub is_public : Addr → Bool
is_public a =
    not a.is_private
    && not a.is_loopback
    && not a.is_unspecified
    && not a.is_link_local_unicast
    && not a.is_link_local_multicast

module _ (parse_addr : String → Option Addr) where
  -- One more address to the right: it takes the place of what came before if it is public.
  abbrev pub prefer : String → String → String
  prefer before ip = elim (parse_addr ip) [
    | none ↦ before
    | some addr ↦ if is_public addr then addr.text else before
  ]

  -- Read from left to right, the last public address wins.
  unfoldable pub rightmost : String → List String → String
  rightmost best [] = best
  rightmost best (ip ∷ ips) = rightmost (prefer best ip) ips

  abbrev or_else : List String → String → String
  or_else [] rest = rest
  or_else (ip ∷ ips) rest = prefer (or_else ips rest) ip

  first_public-or_else : (xs : List String) → first_public parse_addr xs ≡ or_else xs ""
  unfolding first_public
  first_public-or_else [] = refl
  first_public-or_else (x ∷ xs) = ground (arith, first_public-or_else xs)

  or_else-append :
      (xs ys : List String) (rest : String) → or_else (xs ++ ys) rest ≡ or_else xs (or_else ys rest)
  or_else-append [] ys rest = refl
  or_else-append (x ∷ xs) ys rest = ground (arith, or_else-append xs ys rest)

  or_else-reverse :
      (xs : List String) (rest : String) → or_else (reverse xs) rest ≡ rightmost rest xs
  unfolding rightmost
  or_else-reverse [] rest = refl
  or_else-reverse (x ∷ xs) rest =
      rw (reverse-cons x xs, or_else-append (reverse xs) (x ∷ []) rest)
        (or_else-reverse xs (prefer rest x))

  -- The address is the rightmost entry of the header that parses and is neither private, loopback,
  -- unspecified, link-local unicast nor link-local multicast, or the empty text if there is none:
  -- entries to the left of it do not count.
  pub get_downstream_public_ip_lem :
      (hdr : String)
      → get_downstream_public_ip_from_xff_header parse_addr hdr
        ≡ (if hdr == "" then "" else rightmost "" (map trim_space (split b',' hdr)))
  unfolding get_downstream_public_ip_from_xff_header
  get_downstream_public_ip_lem hdr = ground (
    arith,
    first_public-or_else (reverse (map trim_space (split b',' hdr))),
    or_else-reverse (map trim_space (split b',' hdr)) "",
  )
