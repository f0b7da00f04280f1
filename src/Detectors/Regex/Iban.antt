-- ===== src/Detectors/Regex/Iban.antt =====
-- The remainder that the check of an IBAN computes (packages/foundation/detectors/src/regex/index.ts).
use busyclaw.Prelude.{
  ℕ, ◌+◌, ◌-◌, ◌*◌, ◌%◌, Bool, true, ◌&&◌, ◌||◌, Bool-cases, inl, inr, none, some, [], ◌∷◌, leb,
  if◌then◌else◌, ◌≡◌, refl, arith,
}
use busyclaw.Detectors.Regex.{Text, mod97_from, mod97}

abbrev is_numeral : ℕ → Bool
is_numeral c = leb 48 c && leb c 57

abbrev is_capital : ℕ → Bool
is_capital c = leb 65 c && leb c 90

abbrev pub all_alphanumeric : Text → Bool
all_alphanumeric [] = true
all_alphanumeric (c ∷ text) = (is_numeral c || is_capital c) && all_alphanumeric text

-- The number that a text writes after the number `n`, a letter by its two digits: 10 for `A` to 35 for `Z`.
unfoldable pub number_from : ℕ → Text → ℕ
number_from n [] = n
number_from n (c ∷ text) =
    if is_numeral c
    then number_from (n * 10 + (c - 48)) text
    else number_from (n * 100 + (c - 55)) text

step_10 : (n d : ℕ) → (n % 97 * 10 + d) % 97 ≡ (n * 10 + d) % 97
step_10 n d = omega arith

step_100 : (n d : ℕ) → (n % 97 * 100 + d) % 97 ≡ (n * 100 + d) % 97
step_100 n d = omega arith

mod97_from-number :
    (n : ℕ) (text : Text)
    → mod97_from (n % 97) text
      ≡ (if all_alphanumeric text then some (number_from n text % 97) else none)
unfolding mod97_from number_from
mod97_from-number n [] = refl
mod97_from-number n (c ∷ text) = elim (Bool-cases (is_numeral c)) [
  | inl numeral ↦ rw (numeral, step_10 n (c - 48)) (mod97_from-number (n * 10 + (c - 48)) text)
  | inr other ↦ elim (Bool-cases (is_capital c)) [
    | inl capital ↦
        rw (other, capital, step_100 n (c - 55)) (mod97_from-number (n * 100 + (c - 55)) text)
    | inr neither ↦ rw (other, neither) refl
  ]
]

-- The loop of remainders gives the remainder modulo 97 of the
-- whole number that a text of digits and capital letters writes, and nothing for any other text.
pub mod97_lem :
    (text : Text)
    → mod97 text ≡ (if all_alphanumeric text then some (number_from 0 text % 97) else none)
unfolding mod97
mod97_lem text = mod97_from-number 0 text
