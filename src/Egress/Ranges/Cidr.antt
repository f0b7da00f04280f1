-- ===== src/Egress/Ranges/Cidr.antt =====
-- The blocked IPv4 addresses as CIDR blocks of 32-bit numbers (packages/foundation/egress/src/index.ts).
use busyclaw.Prelude.{
  ℕ, ◌+◌, ◌*◌, ◌<◌, Bool, true, false, ◌&&◌, ◌||◌, Option, none, some, List, [], ◌∷◌, ◌==◌, ltb,
  leb, any, ◌≡◌, refl, arith,
}
use busyclaw.Egress.Address.{Octets}
use busyclaw.Egress.Address.Bounds.{IsOctets}
use busyclaw.Egress.Ranges.{blocked_ipv4}

-- A block: its first address and how many it has.
pub record Cidr : Type 0 where
  pub base : ℕ
  pub size : ℕ

abbrev pub within : ℕ → Cidr → Bool
within address block = leb block.base address && ltb address (block.base + block.size)

abbrev pub quad : Octets → ℕ
quad o = ((o.a * 256 + o.b) * 256 + o.c) * 256 + o.d

abbrev slash_8 : ℕ → Cidr
slash_8 a = record { base = a * 16777216; size = 16777216 }

abbrev slash_16 : ℕ → ℕ → Cidr
slash_16 a b = record { base = a * 16777216 + b * 65536; size = 65536 }

-- 0.0.0.0/8, 10.0.0.0/8, 127.0.0.0/8, 169.254.0.0/16, 172.16.0.0/12, 192.168.0.0/16, 100.64.0.0/10 and
-- 255.255.0.0/16.
abbrev pub blocked_cidrs : List Cidr
blocked_cidrs =
    slash_8 0
    ∷ slash_8 10
    ∷ slash_8 127
    ∷ slash_16 169 254
    ∷ record { base = 2886729728; size = 1048576 }
    ∷ slash_16 192 168
    ∷ record { base = 1681915904; size = 4194304 }
    ∷ slash_16 255 255
    ∷ []

within_8 : (a : ℕ) (o : Octets) → IsOctets o → within (quad o) (slash_8 a) ≡ (o.a == a)
within_8 a o h = ground arith

within_16 :
    (a b : ℕ) (o : Octets)
    → b < 256
    → IsOctets o
    → within (quad o) (slash_16 a b) ≡ (o.a == a && o.b == b)
within_16 a b o hb h = ground arith

within_172 :
    (o : Octets)
    → IsOctets o
    → within (quad o) (record { base = 2886729728; size = 1048576 })
      ≡ (o.a == 172 && (leb 16 o.b && leb o.b 31))
within_172 o h = ground arith

within_100 :
    (o : Octets)
    → IsOctets o
    → within (quad o) (record { base = 1681915904; size = 4194304 })
      ≡ (o.a == 100 && (leb 64 o.b && leb o.b 127))
within_100 o h = ground arith

abbrev pub is_some : {A : Type 0} → Option A → Bool
is_some (some x) = true
is_some none = false

blocked_ipv4-tests :
    (o : Octets)
    → is_some (blocked_ipv4 o) ≡ (
        o.a == 0
        || (o.a == 10
            || (o.a == 127
                || ((o.a == 169 && o.b == 254)
                    || ((o.a == 172 && (leb 16 o.b && leb o.b 31))
                        || ((o.a == 192 && o.b == 168)
                            || ((o.a == 100 && (leb 64 o.b && leb o.b 127))
                                || ((o.a == 255 && o.b == 255) || false))))))))
unfolding blocked_ipv4
blocked_ipv4-tests o = ground arith

-- An IPv4 address of four octets below 256 is blocked exactly when its 32-bit number lies in one of the eight
-- listed CIDR blocks.
pub blocked_ipv4_iff :
    (o : Octets) → IsOctets o → is_some (blocked_ipv4 o) ≡ any (within (quad o)) blocked_cidrs
blocked_ipv4_iff o h =
    rw
      (
        blocked_ipv4-tests o,
        within_8 0 o h,
        within_8 10 o h,
        within_8 127 o h,
        within_16 169 254 o (omega arith) h,
        within_172 o h,
        within_16 192 168 o (omega arith) h,
        within_100 o h,
        within_16 255 255 o (omega arith) h,
      )
      refl
