-- ===== src/Egress/Address/Bounds.antt =====
-- The numbers that a parsed literal holds (packages/foundation/egress/src/index.ts).
use native.Mathlib.Nat.{mul_assoc}
use busyclaw.Prelude.{
  ℕ, zero, suc, ◌+◌, ◌*◌, ◌<◌, ◌≤◌, Bool, true, ◌&&◌, some, [], ◌∷◌, length, ◌≡◌, arith, subst,
}
use busyclaw.Egress.Address.{
  Text, Octets, octet, parse_ipv4, has_length_to, all_of, is_hex, hex_digit, hexadecimal,
}

abbrev pub IsOctets : Octets → Type 0
IsOctets o = (o.a < 256) × (o.b < 256) × (o.c < 256) × (o.d < 256)

octet-bound : (part : Text) (n : ℕ) → octet part ≡ some n → n < 256
unfolding octet
octet-bound part n h = ground arith

pub parse_ipv4-IsOctets : (text : Text) (o : Octets) → parse_ipv4 text ≡ some o → IsOctets o
unfolding parse_ipv4
parse_ipv4-IsOctets text o h = ground arith

abbrev pub IsGroup : ℕ → Type 0
IsGroup g = g < 65536

unfoldable pow16 : ℕ → ℕ
pow16 zero = 1
pow16 (suc n) = 16 * pow16 n

shift : (n m : ℕ) → (n * 16) * m ≡ n * (16 * m)
shift n m = mul_assoc n 16 m

hex_digit-bound : (c : ℕ) → is_hex c ≡ true → hex_digit c < 16
hex_digit-bound c h = ground arith

both-true : (p q : Bool) → (p && q) ≡ true → (p ≡ true) × (q ≡ true)
both-true p q h = ground arith

hexadecimal-bound_by :
    (acc n : ℕ) (token : Text)
    → all_of is_hex token ≡ true
    → acc < n
    → hexadecimal acc token < n * pow16 (length token)
unfolding hexadecimal pow16
hexadecimal-bound_by acc n [] h lt = omega arith
hexadecimal-bound_by acc n (x ∷ token) h lt =
    let split = both-true (is_hex x) (all_of is_hex token) h in
    subst (λ m. hexadecimal (acc * 16 + hex_digit x) token < m) (shift n (pow16 (length token)))
      (hexadecimal-bound_by (acc * 16 + hex_digit x) (n * 16) token split.1
        (omega (arith, hex_digit-bound x split.0)))

pow16-bound : (n : ℕ) → n ≤ 4 → pow16 n ≤ 65536
unfolding pow16
pow16-bound zero h = omega arith
pow16-bound (suc zero) h = omega arith
pow16-bound (suc (suc zero)) h = omega arith
pow16-bound (suc (suc (suc zero))) h = omega arith
pow16-bound (suc (suc (suc (suc zero)))) h = omega arith
pow16-bound (suc (suc (suc (suc (suc n))))) h = absurd (omega arith)

pub hexadecimal-IsGroup :
    (token : Text)
    → (has_length_to 4 token && all_of is_hex token) ≡ true
    → IsGroup (hexadecimal 0 token)
hexadecimal-IsGroup token h =
    let split = both-true (has_length_to 4 token) (all_of is_hex token) h in
    ground (
      arith,
      hexadecimal-bound_by 0 1 token split.1 (omega arith),
      pow16-bound (length token) (ground arith),
    )
