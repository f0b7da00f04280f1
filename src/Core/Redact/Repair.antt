-- ===== src/Core/Redact/Repair.antt =====
-- Repair of a mangled placeholder: `repairWord`, `repairKind`, `candidateCodes` and `recoverFrame`
-- (packages/foundation/core/src/redact.ts). A code is the list of its words, which hyphens join; what a
-- placeholder resolves to in the container at hand is a function on its kind and its code.
pub mod Word
pub mod Frame
use busyclaw.Prelude.{
  ℕ, zero, suc, ◌+◌, Bool, true, false, ◌&&◌, ◌||◌, not, Option, none, some, List, [], ◌∷◌, ◌++◌,
  ◌==◌, ltb, leb, if◌then◌else◌, any, map, length, take, Ident,
}
use busyclaw.Core.Redact.Distance.{Text, edit_distance}

abbrev pub text_eq : Text → Text → Bool
text_eq [] [] = true
text_eq [] (y ∷ b) = false
text_eq (x ∷ a) [] = false
text_eq (x ∷ a) (y ∷ b) = x == y && text_eq a b

-- `set.has`, and `prefix.get`: of the words with a prefix the map keeps the last.
abbrev pub has_word : Text → List Text → Bool
has_word w words = any (λ v. text_eq w v) words

abbrev pub by_prefix : Text → List Text → Option Text
by_prefix k [] = none
by_prefix k (v ∷ words) = elim (by_prefix k words) [
  | some found ↦ some found
  | none ↦ if text_eq (take 4 v) k then some v else none
]

abbrev pub word_max_edits : ℕ
word_max_edits = 1

abbrev pub recover_max_candidates : ℕ
recover_max_candidates = 24

-- The words of the book nearest to `w`, with their distance.
unfoldable pub nearest : Text → List Text → ℕ → List Text → ℕ × List Text
nearest w [] best matches = (best, matches)
nearest w (v ∷ words) best matches =
    let d = edit_distance w v in
    if ltb d best
    then nearest w words d (v ∷ [])
    else if d == best
    then nearest w words best (matches ++ v ∷ [])
    else nearest w words best matches

abbrev pub within : ℕ × List Text → List Text
within (best, matches) = if leb best word_max_edits then matches else []

abbrev pub search_book : Text → List Text → List Text
unfolding nearest
search_book w words = within (nearest w words (word_max_edits + 1) [])

-- The word is in lower case.
unfoldable pub repair_word : Text → List Text → List Text
unfolding search_book edit_distance
repair_word w words = if has_word w words then w ∷ [] else elim (by_prefix (take 4 w) words) [
  | some p ↦ if leb (edit_distance w p) word_max_edits then p ∷ [] else search_book w words
  | none ↦ search_book w words
]

-- The kind nearest to `k`, if it is the only one within one edit.
unfoldable pub nearest_kind : Text → List Text → ℕ → Option Text → Option Text
nearest_kind k [] best match = match
nearest_kind k (v ∷ kinds) best match =
    let d = edit_distance k v in
    if ltb d best
    then nearest_kind k kinds d (some v)
    else if d == best
    then nearest_kind k kinds best none
    else nearest_kind k kinds best match

abbrev pub repair_kind : Text → List Text → Option Text
unfolding nearest_kind
repair_kind k kinds = nearest_kind k kinds 2 none

-- The combinations of one word for each slot. `none`: more than the cap.
abbrev pub extend_all : List (List Text) → List Text → List (List Text)
extend_all [] slot = []
extend_all (combo ∷ combos) slot = map (λ w. combo ++ w ∷ []) slot ++ extend_all combos slot

unfoldable pub candidate_codes : List (List Text) → List (List Text) → Option (List (List Text))
candidate_codes combos [] = some combos
candidate_codes combos (slot ∷ slots) =
    let next = extend_all combos slot in
    let rest = candidate_codes next slots in
    if ltb recover_max_candidates (length next) then none else rest

-- The values that the codes resolve to, without repetition, and the last of them.
abbrev pub note_value : Option Ident → List Ident → List Ident
note_value none values = values
note_value (some v) values = if any (λ u. u == v) values then values else values ++ v ∷ []

abbrev pub latest : Option Ident → Option Ident → Option Ident
latest none recovered = recovered
latest (some v) recovered = some v

module _ (resolve : Text → List Text → Option Ident) where
  unfoldable pub resolve_all :
      Text → List (List Text) → List Ident → Option Ident → List Ident × Option Ident
  resolve_all kind [] values recovered = (values, recovered)
  resolve_all kind (code ∷ codes) values recovered =
      resolve_all kind codes (note_value (resolve kind code) values)
        (latest (resolve kind code) recovered)

  -- One value, or a refusal.
  abbrev pub agree : List Ident × Option Ident → Option Ident
  agree (values, recovered) = if length values == 1 then recovered else none

  abbrev pub as_is : List Text → Text → List Text → Option Ident
  as_is kinds kind words = if has_word kind kinds then resolve kind words else none

  abbrev pub recover_codes : Text → Option (List (List Text)) → Option Ident
  unfolding resolve_all
  recover_codes kind none = none
  recover_codes kind (some codes) = agree (resolve_all kind codes [] none)

  -- The words of the frame, in lower case and without the empty ones. `book` gives a kind its word list.
  unfoldable pub recover_frame : List Text → (Text → List Text) → Text → List Text → Option Ident
  unfolding repair_kind repair_word candidate_codes recover_codes
  recover_frame kinds book kind [] = none
  recover_frame kinds book kind (word ∷ words) = elim (as_is kinds kind (word ∷ words)) [
    | some value ↦ some value
    | none ↦ elim (repair_kind kind kinds) [
      | none ↦ none
      | some k ↦
          let slots = map (λ w. repair_word w (book k)) (word ∷ words) in
          if any (λ (s : List Text). length s == 0) slots
          then none
          else recover_codes k (candidate_codes ([] ∷ []) slots)
    ]
  ]
