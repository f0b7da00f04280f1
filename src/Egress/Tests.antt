-- ===== src/Egress/Tests.antt =====
-- Runs of the floor on small texts, and the theorems at them.
use busyclaw.Prelude.{
  List, ℕ, ◌≡◌, refl, true, false, ◌&&◌, ◌||◌, Option, none, some, [], ◌∷◌, arith, All, any, length,
  leb, ◌<◌, ◌^◌, ◌+◌, ◌*◌, if◌then◌else◌,
}
use busyclaw.Egress.Address.{Text, Octets, parse_ipv4, expand_ipv6}
use busyclaw.Egress.Address.Expansion.{expand_ipv6_bounds}
use busyclaw.Egress.Ranges.{
  private_10, unparseable, blocked_ipv4, blocked_ipv6, blocked_address_reason,
}
use busyclaw.Egress.Ranges.Cidr.{within, quad, blocked_cidrs, is_some, blocked_ipv4_iff}
use busyclaw.Egress.Ranges.Ipv6.{embeds, blocked_ipv6_iff}
use busyclaw.Egress.Floor.{
  Protocol, https, http, Url, Decision, allowed, only_https, resolve, bare_host, ip_kind,
  protocol_allowed, assert_egress_allowed,
}
use busyclaw.Egress.Floor.Laws.{IsPinnedFrom, allowed_checked}

effect : Unit {0}
unfolding parse_ipv4 expand_ipv6 blocked_ipv4 blocked_ipv6 blocked_address_reason resolve
    assert_egress_allowed
effect = tt

-- `1.1.1.1`
abbrev one_one : Text
one_one = 49 ∷ 46 ∷ 49 ∷ 46 ∷ 49 ∷ 46 ∷ 49 ∷ []

-- `::ffff:10.0.0.1`
abbrev mapped : Text
mapped = 58 ∷ 58 ∷ 102 ∷ 102 ∷ 102 ∷ 102 ∷ 58 ∷ 49 ∷ 48 ∷ 46 ∷ 48 ∷ 46 ∷ 48 ∷ 46 ∷ 49 ∷ []

-- `1.2.3.4::1`
abbrev dotted_head : Text
dotted_head = 49 ∷ 46 ∷ 50 ∷ 46 ∷ 51 ∷ 46 ∷ 52 ∷ 58 ∷ 58 ∷ 49 ∷ []

-- `[fe80::1%0]`
abbrev zoned : Text
zoned = 91 ∷ 102 ∷ 101 ∷ 56 ∷ 48 ∷ 58 ∷ 58 ∷ 49 ∷ 37 ∷ 48 ∷ 93 ∷ []

mapped_is_blocked : blocked_address_reason mapped ≡ some private_10
unfolding effect
mapped_is_blocked = refl

dotted_head_expands : expand_ipv6 dotted_head ≡ some (258 ∷ 772 ∷ 0 ∷ 0 ∷ 0 ∷ 0 ∷ 0 ∷ 1 ∷ [])
unfolding effect
dotted_head_expands = refl

zoned_expands : expand_ipv6 (bare_host zoned) ≡ some (0xfe80 ∷ 0 ∷ 0 ∷ 0 ∷ 0 ∷ 0 ∷ 0 ∷ 1 ∷ [])
unfolding effect
zoned_expands = refl

name_is_unparseable : blocked_address_reason (97 ∷ 46 ∷ 98 ∷ []) ≡ some unparseable
unfolding effect
name_is_unparseable = refl

abbrev at_one_one : Protocol → Text → Option Url
at_one_one protocol url = some (record { protocol = protocol; hostname = one_one })

abbrev decision : Decision
decision = record { url = 97 ∷ []; pinned_address = one_one; pinned_family = 4 }

one_one_allowed : assert_egress_allowed (at_one_one https) false none (97 ∷ []) ≡ allowed decision
unfolding effect
one_one_allowed = refl

http_refused : assert_egress_allowed (at_one_one http) false none (97 ∷ []) ≡ only_https http
unfolding effect
http_refused = refl

allowed_checked_example :
    (u : Url) × ((at_one_one https (97 ∷ []) ≡ some u)
      × ((protocol_allowed false u.protocol ≡ true)
          × ((decision.url ≡ 97 ∷ [])
              × IsPinnedFrom
                  (resolve none (bare_host u.hostname) (ip_kind (bare_host u.hostname)))
                  decision)))
allowed_checked_example =
    allowed_checked (at_one_one https) false none (97 ∷ []) decision one_one_allowed

abbrev metadata : Octets
metadata = record { a = 169; b = 254; c = 169; d = 254 }

blocked_ipv4_iff_example :
    is_some (blocked_ipv4 metadata) ≡ any (within (quad metadata)) blocked_cidrs
blocked_ipv4_iff_example =
    blocked_ipv4_iff metadata (omega arith, omega arith, omega arith, omega arith)

blocked_ipv6_iff_example : is_some (blocked_ipv6 (0xfe80 ∷ 0 ∷ 0 ∷ 0 ∷ 0 ∷ 0 ∷ 0 ∷ 1 ∷ [])) ≡ (
    if embeds (0xfe80 ∷ 0 ∷ 0 ∷ 0 ∷ 0 ∷ 0 ∷ 0 ∷ 1 ∷ [])
    then any (within (0 * 65536 + 1)) blocked_cidrs
    else ((leb 0xfe80 0xfe80 && leb 0xfe80 0xfebf) || (leb 0xfc00 0xfe80 && leb 0xfe80 0xfdff)))
blocked_ipv6_iff_example = blocked_ipv6_iff 0xfe80 0 0 0 0 0 0 1 (
  omega arith,
  (
    omega arith,
    (omega arith, (omega arith, (omega arith, (omega arith, (omega arith, (omega arith, tt)))))),
  ),
)

abbrev expanded : List ℕ
expanded = 258 ∷ 772 ∷ 0 ∷ 0 ∷ 0 ∷ 0 ∷ 0 ∷ 1 ∷ []

expand_ipv6_bounds_example : (length expanded ≡ 8) × All (λ g. g < 2 ^ 16) expanded
expand_ipv6_bounds_example = expand_ipv6_bounds dotted_head expanded dotted_head_expands
