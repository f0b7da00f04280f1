-- ===== src/Detectors/Regex.antt =====
-- The deterministic detector: packages/foundation/detectors/src/regex/index.ts. A text is the list of its
-- character codes. What the four patterns match in a text and `toUpperCase` are the platform's, and parameters; a
-- confidence is in hundredths, and the source of a span, which is always `regex`, is left out.
pub mod Luhn
pub mod Iban
pub mod Spans
mod Tests
use busyclaw.Prelude.{
  ℕ, zero, suc, ◌+◌, ◌-◌, ◌*◌, ◌%◌, Bool, true, false, ◌&&◌, ◌||◌, not, Option, none, some, List,
  [], ◌∷◌, ◌++◌, ◌==◌, ltb, leb, if◌then◌else◌, any, filter, map, length, take,
}

abbrev pub Text : Type 0
Text = List ℕ

pub data Pattern : Type 0 where
  email phone_candidate card_candidate iban_candidate : Pattern

pub data Kind : Type 0 where
  email_kind id_kind card_kind phone_kind : Kind

pub record Match : Type 0 where
  pub value : Text
  pub start : ℕ
  pub end : ℕ

pub record Span : Type 0 where
  pub value : Text
  pub start : ℕ
  pub end : ℕ
  pub kind : Kind
  pub confidence : ℕ

abbrev pub is_digit : ℕ → Bool
is_digit c = leb 48 c && leb c 57

abbrev pub digits_only : Text → Text
digits_only text = filter is_digit text

-- `overlapsAny`, for the span of a candidate.
abbrev pub overlaps : (start end : ℕ) → Span → Bool
overlaps start end r = ltb start r.end && ltb r.start end

unfoldable pub overlaps_any : Match → List Span → Bool
overlaps_any m taken = any (overlaps m.start m.end) taken

-- What a digit counts, where it is doubled or not.
abbrev pub weigh : Bool → ℕ → ℕ
weigh false d = d
weigh true d = if ltb 9 (d * 2) then d * 2 - 9 else d * 2

-- The sum from the last digit on, and whether the next one is doubled.
unfoldable pub luhn_loop : Text → ℕ × Bool
luhn_loop [] = (0, false)
luhn_loop (c ∷ digits) =
    let (sum, double) = luhn_loop digits in (sum + weigh double (c - 48), not double)

unfoldable pub luhn_valid : Text → Bool
unfolding luhn_loop
luhn_valid [] = false
luhn_valid (c ∷ digits) = (luhn_loop (c ∷ digits)).0 % 10 == 0

-- `none` where the source says -1.
unfoldable pub mod97_from : ℕ → Text → Option ℕ
mod97_from remainder [] = some remainder
mod97_from remainder (c ∷ text) =
    if leb 48 c && leb c 57
    then mod97_from ((remainder * 10 + (c - 48)) % 97) text
    else if leb 65 c && leb c 90
    then mod97_from ((remainder * 100 + (c - 55)) % 97) text
    else none

abbrev pub mod97 : Text → Option ℕ
unfolding mod97_from
mod97 rearranged = mod97_from 0 rearranged

-- `\s`.
abbrev pub is_space : ℕ → Bool
is_space c =
    (leb 9 c && leb c 13)
    || ((c == 32)
        || ((c == 160)
            || ((c == 0x1680)
                || ((leb 0x2000 c && leb c 0x200a)
                    || ((c == 0x2028)
                        || ((c == 0x2029)
                            || ((c == 0x202f)
                                || ((c == 0x205f) || ((c == 0x3000) || (c == 0xfeff))))))))))

abbrev pub drop : ℕ → Text → Text
drop zero text = text
drop (suc n) [] = []
drop (suc n) (c ∷ text) = drop n text

abbrev pub rearrange : Text → Text
rearrange normalized = drop 4 normalized ++ take 4 normalized

abbrev pub is_one : Option ℕ → Bool
is_one none = false
is_one (some r) = r == 1

-- A run of one digit, or none.
abbrev pub is_uniform : Text → Bool
is_uniform [] = true
is_uniform (c ∷ digits) = not (any (λ d. not (d == c)) digits)

abbrev pub span : Kind → ℕ → Match → Span
span kind confidence m = record {
  value = m.value;
  start = m.start;
  end = m.end;
  kind = kind;
  confidence = confidence;
}

abbrev pub trim_start : Text → Text
trim_start [] = []
trim_start (c ∷ text) = let rest = trim_start text in if is_space c then rest else c ∷ text

abbrev pub is_empty : Text → Bool
is_empty [] = true
is_empty (c ∷ text) = false

abbrev pub trim_end : Text → Text
trim_end [] = []
trim_end (c ∷ text) =
    let rest = trim_end text in if is_space c && is_empty rest then [] else c ∷ rest

abbrev pub is_dash : ℕ → Bool
is_dash c = c == 45 || (c == 0x2013 || (c == 0x2014 || c == 47))

abbrev pub is_year : Text → Bool
is_year text = length text == 4 && length (digits_only text) == 4

abbrev pub is_dashed_year : Text → Bool
is_dashed_year [] = false
is_dashed_year (c ∷ text) = is_dash c && is_year (trim_start text)

-- `YEAR_RANGE`, of a text without spaces around it.
abbrev pub is_year_range : Text → Bool
is_year_range text = is_year (take 4 text) && is_dashed_year (trim_start (drop 4 text))

abbrev pub is_card : List Span → Match → Bool
unfolding luhn_valid overlaps_any
is_card exclude m =
    if is_uniform (digits_only m.value)
    then false
    else luhn_valid (digits_only m.value) && not (overlaps_any m exclude)

abbrev pub is_phone : List Span → Match → Bool
unfolding overlaps_any
is_phone exclude m =
    if ltb (length (digits_only m.value)) 7 || ltb 15 (length (digits_only m.value))
    then false
    else if is_year_range (trim_end (trim_start m.value))
    then false
    else not (overlaps_any m exclude)

unfoldable pub iban_valid : (upper : Text → Text) → Text → Bool
unfolding mod97
iban_valid upper value =
    let normalized = upper (filter (λ c. not (is_space c)) value) in
    if ltb (length normalized) 15 || ltb 34 (length normalized)
    then false
    else is_one (mod97 (rearrange normalized))

module _ (matches : Text → Pattern → List Match) (upper : Text → Text) where
  abbrev pub emails : Text → List Span
  emails text = map (span email_kind 90) (matches text email)

  abbrev pub ibans : Text → List Span
  unfolding iban_valid
  ibans text =
      map (span id_kind 95) (filter (λ m. iban_valid upper m.value) (matches text iban_candidate))

  abbrev pub cards : Text → List Span
  unfolding is_card ibans
  cards text =
      map (span card_kind 95)
        (filter (is_card (emails text ++ ibans text)) (matches text card_candidate))

  abbrev pub phones : Text → List Span
  unfolding is_phone ibans cards
  phones text =
      map (span phone_kind 70)
        (filter (is_phone (emails text ++ ibans text ++ cards text)) (matches text phone_candidate))

  unfoldable pub regex_detector : Text → List Span
  unfolding ibans cards phones
  regex_detector text = emails text ++ ibans text ++ cards text ++ phones text
