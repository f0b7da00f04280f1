-- ===== src/Detectors/Regex/Tests.antt =====
-- Runs of the detector on small texts, and the theorems at them.
use busyclaw.Prelude.{
  ◌≡◌, refl, true, false, none, some, List, [], ◌∷◌, ◌++◌, ◌%◌, if◌then◌else◌, arith, All,
}
use busyclaw.Detectors.Regex.{
  Text, Pattern, email, phone_candidate, card_candidate, iban_candidate, Match, card_kind,
  luhn_loop, luhn_valid, mod97_from, mod97, overlaps_any, iban_valid, is_year_range, regex_detector,
}
use busyclaw.Detectors.Regex.Luhn.{luhn_valid-changed}
use busyclaw.Detectors.Regex.Iban.{number_from, all_alphanumeric, mod97_lem}
use busyclaw.Detectors.Regex.Spans.{IsApart, regex_detector-IsApart}

effect : Unit {0}
unfolding luhn_loop luhn_valid mod97_from mod97 overlaps_any iban_valid regex_detector number_from
effect = tt

-- `4111 1111 1111 1111`
abbrev card_text : Text
card_text =
    52 ∷ 49 ∷ 49 ∷ 49 ∷ 32 ∷ 49 ∷ 49 ∷ 49 ∷ 49 ∷ 32 ∷ 49 ∷ 49 ∷ 49 ∷ 49 ∷ 32 ∷ 49 ∷ 49 ∷ 49 ∷ 49
    ∷ []

-- `GB82WEST12345698765432`
abbrev iban_text : Text
iban_text =
    71 ∷ 66 ∷ 56 ∷ 50 ∷ 87 ∷ 69 ∷ 83 ∷ 84 ∷ 49 ∷ 50 ∷ 51 ∷ 52 ∷ 53 ∷ 54 ∷ 57 ∷ 56 ∷ 55 ∷ 54 ∷ 53
    ∷ 52 ∷ 51 ∷ 50 ∷ []

-- `WEST12345698765432GB82`
abbrev rearranged_text : Text
rearranged_text =
    87 ∷ 69 ∷ 83 ∷ 84 ∷ 49 ∷ 50 ∷ 51 ∷ 52 ∷ 53 ∷ 54 ∷ 57 ∷ 56 ∷ 55 ∷ 54 ∷ 53 ∷ 52 ∷ 51 ∷ 50 ∷ 71
    ∷ 66 ∷ 56 ∷ 50 ∷ []

-- `2021 - 2026`
abbrev years : Text
years = 50 ∷ 48 ∷ 50 ∷ 49 ∷ 32 ∷ 45 ∷ 32 ∷ 50 ∷ 48 ∷ 50 ∷ 54 ∷ []

iban_text_valid : iban_valid (λ t. t) iban_text ≡ true
unfolding effect
iban_text_valid = refl

years_found : is_year_range years ≡ true
years_found = refl

-- Both the card and the phone pattern propose the whole text.
abbrev proposed : Text → Pattern → List Match
proposed text email = []
proposed text phone_candidate = record { value = text; start = 0; end = 19 } ∷ []
proposed text card_candidate = record { value = text; start = 0; end = 19 } ∷ []
proposed text iban_candidate = []

card_found :
    regex_detector proposed (λ t. t) card_text
    ≡ record { value = card_text; start = 0; end = 19; kind = card_kind; confidence = 95 } ∷ []
unfolding effect
card_found = refl

regex_detector-IsApart_example :
    All
      (λ s. All (IsApart s) (regex_detector proposed (λ t. t) card_text))
      (regex_detector proposed (λ t. t) card_text)
regex_detector-IsApart_example = regex_detector-IsApart proposed (λ t. t) card_text

mod97_lem_example :
    mod97 rearranged_text
    ≡ (if all_alphanumeric rearranged_text then some (number_from 0 rearranged_text % 97) else none)
mod97_lem_example = mod97_lem rearranged_text

-- `18` passes, and with its last digit changed it does not.
luhn_valid-changed_example : luhn_valid ((49 ∷ []) ++ 57 ∷ []) ≡ false
unfolding effect
luhn_valid-changed_example =
    luhn_valid-changed (49 ∷ []) [] 56 57 (omega arith) (omega arith) (omega arith) (omega arith)
      (omega arith) refl
