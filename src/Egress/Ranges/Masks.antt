-- ===== src/Egress/Ranges/Masks.antt =====
-- `&` with a mask of ones over zeros, as a quotient and a remainder.
use Prim.Native.Nat.{min, bit_and, digits, bit_and-bitwise}
use busyclaw.Prelude.{ℕ, zero, suc, ◌+◌, ◌*◌, ◌/◌, ◌%◌, ◌<◌, ◌≤◌, ◌≡◌, refl, ap, arith, ◌∙◌}

unfoldable ones : ℕ → ℕ
ones zero = 0
ones (suc k) = ones k * 2 + 1

unfoldable mask : ℕ → ℕ → ℕ
mask k zero = ones k
mask k (suc z) = mask k z * 2

-- The lowest digits of a number.
unfoldable low : ℕ → ℕ → ℕ
low zero a = 0
low (suc k) a = low k (a / 2) * 2 + a % 2

unfoldable kept : ℕ → ℕ → ℕ → ℕ
kept k zero a = low k a
kept k (suc z) a = kept k z (a / 2) * 2

low-zero : (k : ℕ) → low k 0 ≡ 0
unfolding low
low-zero zero = refl
low-zero (suc k) = omega (arith, low-zero k)

kept-zero : (k z : ℕ) → kept k z 0 ≡ 0
unfolding kept
kept-zero k zero = low-zero k
kept-zero k (suc z) = omega (arith, kept-zero k z)

unfoldable both : ℕ → ℕ → ℕ → ℕ
both n a b = digits (λ b. zero) min n a b

both-zero : (n b : ℕ) → both n 0 b ≡ 0
unfolding both
both-zero zero b = refl
both-zero (suc n) b = refl

both-suc :
    (n a b c : ℕ)
    → b / 2 ≡ c
    → both (suc n) (suc a) b ≡ both n (suc a / 2) c * 2 + min (suc a % 2) (b % 2)
unfolding both
both-suc n a b c h = ap (λ x. both n (suc a / 2) x * 2 + min (suc a % 2) (b % 2)) h

both-low : (k n a : ℕ) → a ≤ n → both n a (ones k) ≡ low k a
unfolding ones low
both-low k n zero h = omega (arith, both-zero n (ones k), low-zero k)
both-low k zero (suc a) h = absurd (omega arith)
both-low zero (suc n) (suc a) h =
    omega (arith, both-suc n a 0 0 refl, both-low zero n (suc a / 2) (omega arith))
both-low (suc k) (suc n) (suc a) h = omega (
  arith,
  both-suc n a (ones k * 2 + 1) (ones k) (omega arith),
  both-low k n (suc a / 2) (omega arith),
)

both-kept : (z k n a : ℕ) → a ≤ n → both n a (mask k z) ≡ kept k z a
unfolding mask kept
both-kept z k n zero h = omega (arith, both-zero n (mask k z), kept-zero k z)
both-kept z k zero (suc a) h = absurd (omega arith)
both-kept zero k (suc n) (suc a) h = both-low k (suc n) (suc a) h
both-kept (suc z) k (suc n) (suc a) h = omega (
  arith,
  both-suc n a (mask k z * 2) (mask k z) (omega arith),
  both-kept z k n (suc a / 2) (omega arith),
)

bit_and-mask : (k z a : ℕ) → bit_and a (mask k z) ≡ kept k z a
unfolding both
bit_and-mask k z a = bit_and-bitwise a (mask k z) ∙ both-kept z k a a (omega arith)

pub bit_and_octet : (a : ℕ) → bit_and a 255 ≡ a % 256
unfolding mask ones kept low
bit_and_octet a = omega (arith, bit_and-mask 8 0 a)

-- The ten highest of sixteen digits.
pub bit_and_high : (a : ℕ) → a < 65536 → bit_and a 0xffc0 ≡ a / 64 * 64
unfolding mask ones kept low
bit_and_high a h = omega (arith, bit_and-mask 10 6 a)

pub bit_and_top : (a : ℕ) → a < 65536 → bit_and a 0xfe00 ≡ a / 512 * 512
unfolding mask ones kept low
bit_and_top a h = omega (arith, bit_and-mask 7 9 a)
