-- ===== src/Egress/Ranges/Ipv6.antt =====
-- The blocked IPv6 addresses by their groups (packages/foundation/egress/src/index.ts).
use Prim.Native.Nat.{bit_and}
use busyclaw.Prelude.{
  ℕ, ◌+◌, ◌*◌, ◌/◌, ◌<◌, Bool, true, ◌&&◌, ◌||◌, Bool-cases, inl, inr, List, [], ◌∷◌, ◌==◌, leb,
  any, take, All, if◌then◌else◌, ◌≡◌, refl, ◌∙◌, sym, ap, arith,
}
use busyclaw.Egress.Address.Bounds.{IsOctets, IsGroup}
use busyclaw.Egress.Ranges.{blocked_ipv4, blocked_ipv6, embedded_ipv4, all_zero, group_at}
use busyclaw.Egress.Ranges.Cidr.{within, quad, blocked_cidrs, is_some, blocked_ipv4_iff}
use busyclaw.Egress.Ranges.Masks.{bit_and_octet, bit_and_high, bit_and_top}

link_local-range :
    (g : ℕ) → g < 65536 → (bit_and g 0xffc0 == 0xfe80) ≡ (leb 0xfe80 g && leb g 0xfebf)
link_local-range g h = rw (bit_and_high g h) (ground arith)

unique_local-range :
    (g : ℕ) → g < 65536 → (bit_and g 0xfe00 == 0xfc00) ≡ (leb 0xfc00 g && leb g 0xfdff)
unique_local-range g h = rw (bit_and_top g h) (ground arith)

-- IPv4-compatible or IPv4-mapped: five groups of zero, then zero or ffff.
abbrev pub embeds : List ℕ → Bool
embeds groups = all_zero (take 5 groups) && (group_at 5 groups == 0 || group_at 5 groups == 0xffff)

-- The number of the last two groups.
abbrev pub low_32 : List ℕ → ℕ
low_32 groups = group_at 6 groups * 65536 + group_at 7 groups

embedded_ipv4-IsOctets :
    (groups : List ℕ)
    → group_at 6 groups < 65536
    → group_at 7 groups < 65536
    → IsOctets (embedded_ipv4 groups)
embedded_ipv4-IsOctets groups h6 h7 = grind (
  arith,
  bit_and_octet (group_at 6 groups / 256),
  bit_and_octet (group_at 6 groups),
  bit_and_octet (group_at 7 groups / 256),
  bit_and_octet (group_at 7 groups),
)

quad-embedded_ipv4 :
    (groups : List ℕ)
    → group_at 6 groups < 65536
    → group_at 7 groups < 65536
    → quad (embedded_ipv4 groups) ≡ low_32 groups
quad-embedded_ipv4 groups h6 h7 = omega (
  arith,
  bit_and_octet (group_at 6 groups / 256),
  bit_and_octet (group_at 6 groups),
  bit_and_octet (group_at 7 groups / 256),
  bit_and_octet (group_at 7 groups),
)

embedded-blocked :
    (groups : List ℕ)
    → group_at 6 groups < 65536
    → group_at 7 groups < 65536
    → is_some (blocked_ipv4 (embedded_ipv4 groups)) ≡ any (within (low_32 groups)) blocked_cidrs
embedded-blocked groups h6 h7 =
    blocked_ipv4_iff (embedded_ipv4 groups) (embedded_ipv4-IsOctets groups h6 h7)
    ∙ ap (λ v. any (within v) blocked_cidrs) (quad-embedded_ipv4 groups h6 h7)

blocked_ipv6-tests :
    (g0 g1 g2 g3 g4 g5 g6 g7 : ℕ)
    → is_some (blocked_ipv6 (g0 ∷ g1 ∷ g2 ∷ g3 ∷ g4 ∷ g5 ∷ g6 ∷ g7 ∷ [])) ≡ (
        if embeds (g0 ∷ g1 ∷ g2 ∷ g3 ∷ g4 ∷ g5 ∷ g6 ∷ g7 ∷ [])
        then ((g5 == 0 && (g6 == 0 && leb g7 1))
            || is_some (blocked_ipv4 (embedded_ipv4 (g0 ∷ g1 ∷ g2 ∷ g3 ∷ g4 ∷ g5 ∷ g6 ∷ g7 ∷ []))))
        else ((bit_and g0 0xffc0 == 0xfe80) || (bit_and g0 0xfe00 == 0xfc00)))
unfolding blocked_ipv6
blocked_ipv6-tests g0 g1 g2 g3 g4 g5 g6 g7 = ground arith

low-blocked :
    (groups : List ℕ)
    → group_at 6 groups ≡ 0
    → group_at 7 groups < 2
    → any (within (low_32 groups)) blocked_cidrs ≡ true
low-blocked groups h6 h7 = ground arith

low_absorbed :
    (groups : List ℕ)
    → ((group_at 5 groups == 0 && (group_at 6 groups == 0 && leb (group_at 7 groups) 1))
        || any (within (low_32 groups)) blocked_cidrs)
      ≡ any (within (low_32 groups)) blocked_cidrs
low_absorbed groups =
    elim (Bool-cases
      (group_at 5 groups == 0 && (group_at 6 groups == 0 && leb (group_at 7 groups) 1))) [
        | inr other ↦ rw other refl
        | inl zeros ↦
            rw zeros (sym (low-blocked groups (ground (arith, zeros)) (ground (arith, zeros))))
      ]

-- An IPv6 address of eight groups below 2 ^ 16 is blocked exactly when, IPv4-mapped or IPv4-compatible (the
-- unspecified and the loopback address included), its last 32 bits lie in one of the eight blocked IPv4
-- blocks, or, as any other address, its first group lies in fe80 to febf or in fc00 to fdff.
pub blocked_ipv6_iff :
    (g0 g1 g2 g3 g4 g5 g6 g7 : ℕ)
    → All IsGroup (g0 ∷ g1 ∷ g2 ∷ g3 ∷ g4 ∷ g5 ∷ g6 ∷ g7 ∷ [])
    → is_some (blocked_ipv6 (g0 ∷ g1 ∷ g2 ∷ g3 ∷ g4 ∷ g5 ∷ g6 ∷ g7 ∷ [])) ≡ (
        if embeds (g0 ∷ g1 ∷ g2 ∷ g3 ∷ g4 ∷ g5 ∷ g6 ∷ g7 ∷ [])
        then any (within (g6 * 65536 + g7)) blocked_cidrs
        else ((leb 0xfe80 g0 && leb g0 0xfebf) || (leb 0xfc00 g0 && leb g0 0xfdff)))
blocked_ipv6_iff g0 g1 g2 g3 g4 g5 g6 g7 h =
    blocked_ipv6-tests g0 g1 g2 g3 g4 g5 g6 g7
    ∙ (rw
        (
          link_local-range g0 h.0,
          unique_local-range g0 h.0,
          embedded-blocked (g0 ∷ g1 ∷ g2 ∷ g3 ∷ g4 ∷ g5 ∷ g6 ∷ g7 ∷ []) h.1.1.1.1.1.1.0
              h.1.1.1.1.1.1.1.0,
          low_absorbed (g0 ∷ g1 ∷ g2 ∷ g3 ∷ g4 ∷ g5 ∷ g6 ∷ g7 ∷ []),
        )
        refl)
