-- ===== src/Core/Redact/Redactor/Spans.antt =====
-- The spans that `cleanSpans` (packages/foundation/core/src/redact.ts) keeps.
use busyclaw.Prelude.{ℕ, ◌≤◌, ◌<◌, inl, inr, List, [], ◌∷◌, All, arith, Bool-cases}
use busyclaw.Core.Redact.Redactor.{
  PiiSpan, is_before, place_span, sort_spans, is_kept, keep_spans, clean_spans,
}

-- Spans in their order, apart from each other and inside the text.
abbrev pub IsClean : ℕ → ℕ → List PiiSpan → Type 0
IsClean last n [] = Unit
IsClean last n (s ∷ spans) =
    (last ≤ s.start) × (s.start < s.end) × (s.end ≤ n) × IsClean s.end n spans

keep_spans-IsClean : (last n : ℕ) (spans : List PiiSpan) → IsClean last n (keep_spans last n spans)
unfolding keep_spans
keep_spans-IsClean last n [] = tt
keep_spans-IsClean last n (s ∷ spans) = elim (Bool-cases (is_kept last n s)) [
  | inl kept ↦ rw kept (
    ground (arith, kept),
    ground (arith, kept),
    ground (arith, kept),
    keep_spans-IsClean s.end n spans,
  )
  | inr out ↦ rw out (keep_spans-IsClean last n spans)
]

pub clean_spans-IsClean : (spans : List PiiSpan) (n : ℕ) → IsClean 0 n (clean_spans spans n)
unfolding clean_spans
clean_spans-IsClean spans n = keep_spans-IsClean 0 n (sort_spans spans)

module _ (P : PiiSpan → Type 0) where
  place_span-All :
      (s : PiiSpan) (spans : List PiiSpan) → P s → All P spans → All P (place_span s spans)
  unfolding place_span
  place_span-All s [] h a = (h, tt)
  place_span-All s (t ∷ spans) h a = elim (Bool-cases (is_before s t)) [
    | inl now ↦ rw now (h, a)
    | inr later ↦ rw later (a.0, place_span-All s spans h a.1)
  ]

  sort_spans-All : (spans : List PiiSpan) → All P spans → All P (sort_spans spans)
  unfolding sort_spans
  sort_spans-All [] a = tt
  sort_spans-All (s ∷ spans) a = place_span-All s _ a.0 (sort_spans-All spans a.1)

  keep_spans-All :
      (last n : ℕ) (spans : List PiiSpan) → All P spans → All P (keep_spans last n spans)
  unfolding keep_spans
  keep_spans-All last n [] a = tt
  keep_spans-All last n (s ∷ spans) a = elim (Bool-cases (is_kept last n s)) [
    | inl kept ↦ rw kept (a.0, keep_spans-All s.end n spans a.1)
    | inr out ↦ rw out (keep_spans-All last n spans a.1)
  ]

  -- Cleaning invents no span.
  pub clean_spans-All : (spans : List PiiSpan) (n : ℕ) → All P spans → All P (clean_spans spans n)
  unfolding clean_spans
  clean_spans-All spans n a = keep_spans-All 0 n (sort_spans spans) (sort_spans-All spans a)
