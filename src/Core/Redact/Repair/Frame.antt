-- ===== src/Core/Redact/Repair/Frame.antt =====
-- Recovery of a mangled placeholder gives its own value, or none.
use busyclaw.Prelude.{
  ◌≡◌, refl, ◌≤◌, true, false, Option, none, some, List, [], ◌∷◌, ◌++◌, ◌==◌, if◌then◌else◌, any,
  map, length, arith, ap, sym, ◌∙◌, Ident, append_assoc, append-nil,
}
use busyclaw.Core.Redact.Distance.{Text, edit_distance}
use busyclaw.Core.Redact.Repair.{
  has_word, repair_word, repair_kind, candidate_codes, note_value, latest, resolve_all, agree,
  as_is, recover_codes, recover_frame,
}
use busyclaw.Core.Redact.Repair.Word.{IsSeparated, repair_word_lem}

-- Every word is at most one edit from the word of the book at its place.
abbrev pub IsMangled : List Text → List Text → List Text → Type 0
IsMangled words [] [] = Unit
IsMangled words [] (o ∷ os) = ⊥
IsMangled words (w ∷ ws) [] = ⊥
IsMangled words (w ∷ ws) (o ∷ os) =
    (has_word o words ≡ true) × (edit_distance w o ≤ 1) × IsMangled words ws os

abbrev singles : List Text → List (List Text)
singles os = map (λ o. o ∷ []) os

repair_all :
    (words ws os : List Text)
    → IsSeparated words
    → IsMangled words ws os
    → map (λ w. repair_word w words) ws ≡ singles os
repair_all words [] [] s m = refl
repair_all words [] (o ∷ os) s m = absurd m
repair_all words (w ∷ ws) [] s m = absurd m
repair_all words (w ∷ ws) (o ∷ os) s (h, d, m) =
    ground (arith, repair_word_lem w o words s h d, repair_all words ws os s m)

any-singles : (os : List Text) → any (λ (s : List Text). length s == 0) (singles os) ≡ false
any-singles [] = refl
any-singles (o ∷ os) = any-singles os

candidate_codes-singles :
    (done os : List Text) → candidate_codes (done ∷ []) (singles os) ≡ some ((done ++ os) ∷ [])
unfolding candidate_codes
candidate_codes-singles done [] = ap (λ x. some (x ∷ [])) (sym (append-nil done))
candidate_codes-singles done (o ∷ os) =
    candidate_codes-singles (done ++ o ∷ []) os
    ∙ ap (λ x. some (x ∷ [])) (append_assoc done (o ∷ []) os)

module _ (resolve : Text → List Text → Option Ident) where
  recover_one :
      (k : Text) (code : List Text) → recover_codes resolve k (some (code ∷ [])) ≡ resolve k code
  unfolding resolve_all recover_codes
  recover_one k code = by_value (resolve k code)
    where
      by_value : (o : Option Ident) → agree resolve (note_value o [], latest o none) ≡ o
      by_value none = refl
      by_value (some v) = refl

  -- A placeholder whose words were mangled by at most one edit each, and which as it stands resolves to
  -- nothing, recovers to exactly what the placeholder with the words of the book resolves to in the
  -- container: the same value, or no value. The words of the book are at least three edits apart, and
  -- `k` is the kind that the mangled kind is repaired to.
  pub recover_frame_lem :
      (kinds : List Text) (book : Text → List Text) (kind k w : Text) (ws os : List Text)
      → IsSeparated (book k)
      → IsMangled (book k) (w ∷ ws) os
      → repair_kind kind kinds ≡ some k
      → as_is resolve kinds kind (w ∷ ws) ≡ none
      → recover_frame resolve kinds book kind (w ∷ ws) ≡ resolve k os
  unfolding recover_frame repair_kind recover_codes
  recover_frame_lem kinds book kind k w ws os s m found lost =
      let slots = repair_all (book k) (w ∷ ws) os s m in
      let codes : candidate_codes ([] ∷ []) (singles os) ≡ some (os ∷ []) =
        candidate_codes-singles [] os in
      let outcome : List (List Text) → Option Ident = λ (xs : List (List Text)).
        if any (λ (s : List Text). length s == 0) xs
        then none
        else recover_codes resolve k (candidate_codes ([] ∷ []) xs) in
      rw (recover_frame, lost, found)
        (ap outcome slots ∙ (rw (any-singles os, codes) (recover_one k os)))
