-- ===== src/Core/Redact/Redactor/Pieces.antt =====
-- Slices of a text of packages/foundation/core/src/redact.ts, and a text as slices between placeholders.
use busyclaw.Prelude.{
  ℕ, zero, suc, ◌+◌, ◌-◌, ◌≡◌, refl, ◌≤◌, List, [], ◌∷◌, ◌++◌, length, take, arith, ap, sym, ◌∙◌,
  append_assoc, length-append,
}
use busyclaw.Core.Redact.Distance.{Text}
use busyclaw.Core.Redact.Redactor.{Range, drop, slice, rehydrate_ranges}

drop-append : (pre r : Text) → drop (length pre) (pre ++ r) ≡ r
drop-append [] r = refl
drop-append (x ∷ pre) r = drop-append pre r

take-append : (a r : Text) → take (length a) (a ++ r) ≡ a
take-append [] r = refl
take-append (x ∷ a) r = ap (λ t. x ∷ t) (take-append a r)

-- A part of a text, by where it stands.
slice-append :
    (pre a r : Text) (i j : ℕ)
    → i ≡ length pre
    → j ≡ length pre + length a
    → slice (pre ++ (a ++ r)) i j ≡ a
slice-append pre a r i j ei ej =
    let n : j - i ≡ length a = omega (arith, ei, ej) in
    ap (λ k. take k (drop i (pre ++ (a ++ r)))) n
    ∙ ap (λ k. take (length a) (drop k (pre ++ (a ++ r)))) ei
    ∙ ap (take (length a)) (drop-append pre (a ++ r))
    ∙ take-append a r

take-drop : (n : ℕ) (t : Text) → take n t ++ drop n t ≡ t
take-drop zero t = refl
take-drop (suc n) [] = refl
take-drop (suc n) (x ∷ t) = ap (λ r. x ∷ r) (take-drop n t)

drop-nil : (n : ℕ) → drop n [] ≡ []
drop-nil zero = refl
drop-nil (suc n) = refl

drop-add : (i n : ℕ) (t : Text) → drop n (drop i t) ≡ drop (i + n) t
drop-add zero n t = ap (λ k. drop k t) (omega arith)
drop-add (suc i) n [] = drop-nil n ∙ sym (drop-nil (suc i + n))
drop-add (suc i) n (x ∷ t) =
    let e : suc (i + n) ≡ suc i + n = omega arith in drop-add i n t ∙ ap (λ k. drop k (x ∷ t)) e

-- A slice and what follows it.
pub slice-drop : (t : Text) (i j : ℕ) → i ≤ j → slice t i j ++ drop j t ≡ drop i t
slice-drop t i j h =
    ap (λ k. slice t i j ++ drop k t) (omega (arith, h))
    ∙ ap (λ r. slice t i j ++ r) (sym (drop-add i (j - i) t))
    ∙ take-drop (j - i) (drop i t)

-- A slice of the source, then the placeholder put after it.
pub record Piece : Type 0 where
  pub verbatim : Text
  pub placeholder : Text

abbrev pub join : List Piece → Text → Text
join [] tail = tail
join (p ∷ ps) tail = p.verbatim ++ (p.placeholder ++ join ps tail)

-- Where the placeholders stand.
abbrev pub ranges_of : ℕ → List Piece → List Range
ranges_of at [] = []
ranges_of at (p ∷ ps) =
    let start = at + length p.verbatim in
    let end = start + length p.placeholder in record { start = start; end = end } ∷ ranges_of end ps

abbrev pub expand : (Text → Text) → List Piece → Text → Text
expand value [] tail = tail
expand value (p ∷ ps) tail = p.verbatim ++ (value p.placeholder ++ expand value ps tail)

-- Rehydration replaces every placeholder where it stands, and nothing else.
pub rehydrate-join :
    (value : Text → Text) (pre : Text) (ps : List Piece) (tail : Text) (at : ℕ)
    → at ≡ length pre
    → rehydrate_ranges value (pre ++ join ps tail) (ranges_of at ps) at ≡ expand value ps tail
unfolding rehydrate_ranges
rehydrate-join value pre [] tail at e = ap (λ k. drop k (pre ++ tail)) e ∙ drop-append pre tail
rehydrate-join value pre (p ∷ ps) tail at e =
    let text = pre ++ join (p ∷ ps) tail in
    let start = at + length p.verbatim in
    let end = start + length p.placeholder in
    let before : slice text at start ≡ p.verbatim =
      slice-append pre p.verbatim (p.placeholder ++ join ps tail) at start e (omega (arith, e)) in
    let whole : slice text start end ≡ p.placeholder =
      ap (λ t. slice t start end)
        (sym (append_assoc pre p.verbatim (p.placeholder ++ join ps tail)))
      ∙ slice-append (pre ++ p.verbatim) p.placeholder (join ps tail) start end
          (omega (arith, e, length-append pre p.verbatim))
          (omega (arith, e, length-append pre p.verbatim)) in
    let same : text ≡ ((pre ++ p.verbatim) ++ p.placeholder) ++ join ps tail =
      sym (append_assoc pre p.verbatim (p.placeholder ++ join ps tail))
      ∙ sym (append_assoc (pre ++ p.verbatim) p.placeholder (join ps tail)) in
    let later =
      ap (λ t. rehydrate_ranges value t (ranges_of end ps) end) same
      ∙ rehydrate-join value ((pre ++ p.verbatim) ++ p.placeholder) ps tail end (
          omega (
            arith,
            e,
            length-append (pre ++ p.verbatim) p.placeholder,
            length-append pre p.verbatim,
          )) in
    ap
      (λ v.
        v ++ (value (slice text start end) ++ rehydrate_ranges value text (ranges_of end ps) end))
      before
    ∙ ap (λ w. p.verbatim ++ (value w ++ rehydrate_ranges value text (ranges_of end ps) end)) whole
    ∙ ap (λ r. p.verbatim ++ (value p.placeholder ++ r)) later
