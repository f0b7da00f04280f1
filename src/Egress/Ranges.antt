-- ===== src/Egress/Ranges.antt =====
-- The ranges that are blocked: `blockedIPv4`, `blockedIPv6`, `embeddedIPv4` and `blockedAddressReason`
-- (packages/foundation/egress/src/index.ts).
pub mod Cidr
mod Masks
pub mod Ipv6
use Prim.Native.Nat.{bit_and}
use busyclaw.Prelude.{
  ℕ, zero, suc, ◌/◌, Bool, ◌&&◌, ◌||◌, not, Option, none, some, List, [], ◌∷◌, ◌==◌, ltb, leb,
  if◌then◌else◌, take,
}
use busyclaw.Egress.Address.{Octets, Text, parse_ipv4, expand_ipv6, all_of}

pub data Reason : Type 0 where
  unspecified_v4 private_10 loopback_v4 link_local_v4 private_172 private_192 cgnat broadcast :
      Reason
  unspecified_v6 loopback_v6 link_local_v6 unique_local unparseable : Reason

unfoldable pub blocked_ipv4 : Octets → Option Reason
blocked_ipv4 o =
    if o.a == 0
    then some unspecified_v4
    else if o.a == 10
    then some private_10
    else if o.a == 127
    then some loopback_v4
    else if o.a == 169 && o.b == 254
    then some link_local_v4
    else if o.a == 172 && (leb 16 o.b && leb o.b 31)
    then some private_172
    else if o.a == 192 && o.b == 168
    then some private_192
    else if o.a == 100 && (leb 64 o.b && leb o.b 127)
    then some cgnat
    else if o.a == 255 && o.b == 255
    then some broadcast
    else none

abbrev pub group_at : ℕ → List ℕ → ℕ
group_at n [] = 0
group_at zero (g ∷ groups) = g
group_at (suc n) (g ∷ groups) = group_at n groups

abbrev pub all_zero : List ℕ → Bool
all_zero groups = all_of (λ g. g == 0) groups

abbrev pub embedded_ipv4 : List ℕ → Octets
embedded_ipv4 groups = record {
  a = bit_and (group_at 6 groups / 256) 255;
  b = bit_and (group_at 6 groups) 255;
  c = bit_and (group_at 7 groups / 256) 255;
  d = bit_and (group_at 7 groups) 255;
}

unfoldable pub blocked_ipv6 : List ℕ → Option Reason
unfolding blocked_ipv4
blocked_ipv6 groups =
    let high_zero = all_zero (take 5 groups) in
    if high_zero && group_at 5 groups == 0xffff
    then blocked_ipv4 (embedded_ipv4 groups)
    else if high_zero
        && (group_at 5 groups == 0 && (not (group_at 6 groups == 0) || ltb 1 (group_at 7 groups)))
    then blocked_ipv4 (embedded_ipv4 groups)
    else if all_zero groups
    then some unspecified_v6
    else if all_zero (take 7 groups) && group_at 7 groups == 1
    then some loopback_v6
    else if bit_and (group_at 0 groups) 0xffc0 == 0xfe80
    then some link_local_v6
    else if bit_and (group_at 0 groups) 0xfe00 == 0xfc00
    then some unique_local
    else none

-- An address that is no literal is blocked.
unfoldable pub blocked_address_reason : Text → Option Reason
unfolding parse_ipv4 expand_ipv6 blocked_ipv4 blocked_ipv6
blocked_address_reason address = elim (parse_ipv4 address) [
  | some o ↦ blocked_ipv4 o
  | none ↦ elim (expand_ipv6 address) [
    | some groups ↦ blocked_ipv6 groups
    | none ↦ some unparseable
  ]
]
