-- ===== src/Egress/Address.antt =====
-- Address literals: `parseIPv4` and `expandIPv6` (packages/foundation/egress/src/index.ts). A character is
-- its code: 37 is `%`, 46 is `.`, 58 is `:`, and 48 to 57 are the digits.
pub mod Bounds
pub mod Expansion
use busyclaw.Prelude.{
  ℕ, zero, suc, ◌+◌, ◌-◌, ◌*◌, Bool, true, false, ◌&&◌, ◌||◌, Option, none, some, List, [], ◌∷◌,
  ◌++◌, ◌==◌, ltb, leb, if◌then◌else◌, any, length,
}

abbrev pub Text : Type 0
Text = List ℕ

abbrev pub cons_head : ℕ → List Text → List Text
cons_head x [] = (x ∷ []) ∷ []
cons_head x (part ∷ parts) = (x ∷ part) ∷ parts

-- `text.split` at one character.
unfoldable pub split_on : ℕ → Text → List Text
split_on sep [] = [] ∷ []
split_on sep (x ∷ text) =
    let parts = split_on sep text in if x == sep then [] ∷ parts else cons_head x parts

-- `text.split("::")`, from the left: the flag says that a colon was read that is not yet one of a pair.
unfoldable pub split_pairs : Bool → Text → List Text
split_pairs false [] = [] ∷ []
split_pairs true [] = (58 ∷ []) ∷ []
split_pairs false (x ∷ text) =
    let rest = split_pairs (x == 58) text in if x == 58 then rest else cons_head x rest
split_pairs true (x ∷ text) =
    let rest = split_pairs false text in
    if x == 58 then [] ∷ rest else cons_head 58 (cons_head x rest)

abbrev pub is_digit : ℕ → Bool
is_digit c = leb 48 c && leb c 57

abbrev pub all_of : (ℕ → Bool) → Text → Bool
all_of p [] = true
all_of p (x ∷ text) = p x && all_of p text

abbrev pub has_length_to : ℕ → Text → Bool
has_length_to most text = leb 1 (length text) && leb (length text) most

-- The number that the digits write.
unfoldable pub decimal : ℕ → Text → ℕ
decimal acc [] = acc
decimal acc (x ∷ text) = decimal (acc * 10 + (x - 48)) text

unfoldable pub octet : Text → Option ℕ
unfolding decimal
octet part =
    if has_length_to 3 part && all_of is_digit part
    then (if ltb 255 (decimal 0 part) then none else some (decimal 0 part))
    else none

pub record Octets : Type 0 where
  pub a : ℕ
  pub b : ℕ
  pub c : ℕ
  pub d : ℕ

abbrev pub octets : Option ℕ → Option ℕ → Option ℕ → Option ℕ → Option Octets
octets (some a) (some b) (some c) (some d) = some (record { a = a; b = b; c = c; d = d })
octets (some a) (some b) (some c) none = none
octets (some a) (some b) none d = none
octets (some a) none c d = none
octets none b c d = none

abbrev pub four_parts : List Text → Option Octets
unfolding octet
four_parts (p ∷ q ∷ r ∷ s ∷ []) = octets (octet p) (octet q) (octet r) (octet s)
four_parts [] = none
four_parts (p ∷ []) = none
four_parts (p ∷ q ∷ []) = none
four_parts (p ∷ q ∷ r ∷ []) = none
four_parts (p ∷ q ∷ r ∷ s ∷ t ∷ more) = none

unfoldable pub parse_ipv4 : Text → Option Octets
unfolding split_on four_parts
parse_ipv4 text = four_parts (split_on 46 text)

abbrev pub is_hex : ℕ → Bool
is_hex c = is_digit c || ((leb 65 c && leb c 70) || (leb 97 c && leb c 102))

abbrev pub hex_digit : ℕ → ℕ
hex_digit c = if leb 97 c then c - 87 else if leb 65 c then c - 55 else c - 48

unfoldable pub hexadecimal : ℕ → Text → ℕ
hexadecimal acc [] = acc
hexadecimal acc (x ∷ text) = hexadecimal (acc * 16 + hex_digit x) text

abbrev pub groups_of : Option Octets → Option (List ℕ)
groups_of none = none
groups_of (some o) = some ((o.a * 256 + o.b) ∷ (o.c * 256 + o.d) ∷ [])

abbrev pub prepend : ℕ → Option (List ℕ) → Option (List ℕ)
prepend g none = none
prepend g (some groups) = some (g ∷ groups)

abbrev pub is_empty : {A : Type 0} → List A → Bool
is_empty [] = true
is_empty (x ∷ t) = false

-- The tokens of one side; a dotted quad may only be the last.
unfoldable pub parse_tokens : List Text → Option (List ℕ)
unfolding parse_ipv4 hexadecimal
parse_tokens [] = some []
parse_tokens (token ∷ tokens) =
    let rest = parse_tokens tokens in
    if is_empty token
    then none
    else if any (λ c. c == 46) token
    then (if is_empty tokens then groups_of (parse_ipv4 token) else none)
    else if has_length_to 4 token && all_of is_hex token
    then prepend (hexadecimal 0 token) rest
    else none

unfoldable pub parse_side : Text → Option (List ℕ)
unfolding parse_tokens split_on
parse_side [] = some []
parse_side (x ∷ segment) = parse_tokens (split_on 58 (x ∷ segment))

abbrev pub zeros : ℕ → List ℕ
zeros zero = []
zeros (suc n) = 0 ∷ zeros n

abbrev pub exactly_eight : Option (List ℕ) → Option (List ℕ)
exactly_eight none = none
exactly_eight (some head) = if length head == 8 then some head else none

-- `::` stands for at least one group.
abbrev pub filled : Option (List ℕ) → Option (List ℕ) → Option (List ℕ)
filled none tail = none
filled (some head) none = none
filled (some head) (some tail) =
    if ltb (length head + length tail) 8
    then some (head ++ (zeros (8 - (length head + length tail)) ++ tail))
    else none

abbrev pub halves : List Text → Option (List ℕ)
unfolding parse_side
halves [] = none
halves (head ∷ []) = exactly_eight (parse_side head)
halves (head ∷ tail ∷ []) = filled (parse_side head) (parse_side tail)
halves (head ∷ tail ∷ third ∷ more) = none

-- What stands before the zone.
unfoldable pub before_zone : Text → Text
before_zone [] = []
before_zone (x ∷ text) = let rest = before_zone text in if x == 37 then [] else x ∷ rest

unfoldable pub expand_ipv6 : Text → Option (List ℕ)
unfolding halves split_pairs before_zone
expand_ipv6 input =
    let text = before_zone input in
    if any (λ c. c == 58) text then halves (split_pairs false text) else none
