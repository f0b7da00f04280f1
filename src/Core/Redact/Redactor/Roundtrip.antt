-- ===== src/Core/Redact/Redactor/Roundtrip.antt =====
-- A text that is redacted and rehydrated (packages/foundation/core/src/redact.ts).
use busyclaw.Prelude.{
  ℕ, suc, ◌≡◌, refl, Bool, true, false, if◌then◌else◌, Option, some, List, [], ◌∷◌, ◌++◌, Ident,
  Timestamp, arith, ap, ◌∙◌, All, length,
}
use busyclaw.Core.Redact.Distance.{Text}
use busyclaw.Core.Redact.Mapping.{MappingStore, resolve}
use busyclaw.Core.Redact.Redactor.{
  PiiSpan, Range, drop, slice, or_as_is, or_mended, rehydrate_ranges, rehydrate_text,
  RedactionContext, lookup_or_mint, redact_spans, redact_text, clean_spans,
  without_placeholder_overlaps,
}
use busyclaw.Core.Redact.Redactor.Spans.{IsClean, clean_spans-IsClean, clean_spans-All}
use busyclaw.Core.Redact.Redactor.Pieces.{
  slice-drop, Piece, join, ranges_of, expand, rehydrate-join,
}
use busyclaw.Core.Redact.Redactor.Minting.{IsIndexed, IsFresh}
use busyclaw.Core.Redact.Redactor.Lookup.{HasDistinctHashes, lookup-IsStep}

-- The detector's contract: a span carries the part of the text it covers.
abbrev pub IsOf : Text → PiiSpan → Type 0
IsOf text span = span.value ≡ slice text span.start span.end

module _ (hash_of : Option (Ident → Text → Ident)) (draw : Ident → ℕ → ℕ → Text)
    (ctx : RedactionContext) (text : Text) (ts : Timestamp) where
  -- The slices that stay and the placeholders put after them.
  abbrev pub pieces : List PiiSpan → ℕ → (last : ℕ) → MappingStore → List Piece
  pieces [] n last s = []
  pieces (span ∷ spans) n last s =
      let (placeholder, s') = lookup_or_mint hash_of draw ctx span n ts s in
      record { verbatim = slice text last span.start; placeholder = placeholder }
      ∷ pieces spans (suc n) span.end s'

  abbrev pub end_of : ℕ → List PiiSpan → ℕ
  end_of last [] = last
  end_of last (span ∷ spans) = end_of span.end spans

  redact_spans-join :
      (spans : List PiiSpan) (n last : ℕ) (s : MappingStore)
      → (redact_spans hash_of draw ctx text ts spans n last s).0
        ≡ join (pieces spans n last s) (drop (end_of last spans) text)
  unfolding redact_spans
  redact_spans-join [] n last s = refl
  redact_spans-join (span ∷ spans) n last s =
      let (placeholder, s') = lookup_or_mint hash_of draw ctx span n ts s in
      ap (λ rest. slice text last span.start ++ (placeholder ++ rest))
        (redact_spans-join spans (suc n) span.end s')

  module _ (V : Ident → Text → Type 0) (apart : HasDistinctHashes V hash_of) where
    redact_spans_grows :
        (spans : List PiiSpan) (n last : ℕ) (s : MappingStore)
        → All (λ span. V span.kind span.value) spans
        → IsFresh hash_of ctx.container V draw n s
        → IsIndexed hash_of ctx.container V s
        → (p v : Text) → resolve ctx.container p s ≡ some v
        → resolve ctx.container p (redact_spans hash_of draw ctx text ts spans n last s).1 ≡ some v
    unfolding redact_spans
    redact_spans_grows [] n last s held fresh v p x e = e
    redact_spans_grows (span ∷ spans) n last s held fresh v p x e =
        let step = lookup-IsStep hash_of draw ctx V n s span ts apart held.0 fresh v in
        redact_spans_grows spans (suc n) span.end (lookup_or_mint hash_of draw ctx span n ts s).1
          held.1 step.fresh step.indexed p x (step.grows p x e)

    redact_spans-expand :
        (value : Text → Text) (spans : List PiiSpan) (n last size : ℕ) (s : MappingStore)
        → IsClean last size spans
        → All (IsOf text) spans
        → All (λ span. V span.kind span.value) spans
        → IsFresh hash_of ctx.container V draw n s
        → IsIndexed hash_of ctx.container V s
        → ((p v : Text)
            → resolve ctx.container p (redact_spans hash_of draw ctx text ts spans n last s).1
              ≡ some v
            → value p ≡ v)
        → expand value (pieces spans n last s) (drop (end_of last spans) text) ≡ drop last text
    unfolding redact_spans
    redact_spans-expand value [] n last size s clean of held fresh v valued = refl
    redact_spans-expand value (span ∷ spans) n last size s clean of held fresh v valued =
        let step = lookup-IsStep hash_of draw ctx V n s span ts apart held.0 fresh v in
        let s' = (lookup_or_mint hash_of draw ctx span n ts s).1 in
        let placeholder = (lookup_or_mint hash_of draw ctx span n ts s).0 in
        let final = (redact_spans hash_of draw ctx text ts spans (suc n) span.end s').1 in
        let found : resolve ctx.container placeholder final ≡ some span.value =
          redact_spans_grows spans (suc n) span.end s' held.1 step.fresh step.indexed placeholder
            span.value step.resolved in
        let rest =
          expand value (pieces spans (suc n) span.end s') (drop (end_of span.end spans) text) in
        ap (λ w. slice text last span.start ++ (w ++ rest)) (valued placeholder span.value found)
        ∙ ap (λ r. slice text last span.start ++ (span.value ++ r))
            (redact_spans-expand value spans (suc n) span.end size s' clean.3 of.1 held.1 step.fresh
              step.indexed valued)
        ∙ ap (λ w. slice text last span.start ++ (w ++ drop span.end text)) of.0
        ∙ ap (λ r. slice text last span.start ++ r)
            (slice-drop text span.start span.end (omega (arith, clean.1)))
        ∙ slice-drop text last span.start clean.0

    module _ (scan : Text → List Range) (detected : List PiiSpan) (s : MappingStore) where
      no_overlaps : (spans : List PiiSpan) → without_placeholder_overlaps spans [] ≡ spans
      no_overlaps [] = refl
      no_overlaps (span ∷ spans) = ap (λ r. span ∷ r) (no_overlaps spans)

      redact_text-redact_spans :
          scan text ≡ []
          → redact_text hash_of draw scan ctx text ts detected s
            ≡ redact_spans hash_of draw ctx text ts (clean_spans detected (length text)) 0 0 s
      unfolding redact_text
      redact_text-redact_spans plain = ground (arith, plain, no_overlaps detected)

      -- The loop of a rehydration over the placeholders that were put in.
      rehydrate_ranges-redact_text :
          (value : Text → Text) (ranges : List Range)
          → scan text ≡ []
          → All (IsOf text) detected
          → All (λ span. V span.kind span.value) detected
          → IsFresh hash_of ctx.container V draw 0 s
          → IsIndexed hash_of ctx.container V s
          → ranges ≡ ranges_of 0 (pieces (clean_spans detected (length text)) 0 0 s)
          → ((p v : Text)
              → resolve ctx.container p (redact_text hash_of draw scan ctx text ts detected s).1
                ≡ some v
              → value p ≡ v)
          → rehydrate_ranges value (redact_text hash_of draw scan ctx text ts detected s).0 ranges 0
            ≡ text
      rehydrate_ranges-redact_text value ranges plain of held fresh v found valued =
          let spans = clean_spans detected (length text) in
          let e = redact_text-redact_spans plain in
          let tail = drop (end_of 0 spans) text in
          ap
            (λ r.
              rehydrate_ranges value (redact_text hash_of draw scan ctx text ts detected s).0 r 0)
            found
          ∙ ap (λ o. rehydrate_ranges value o.0 (ranges_of 0 (pieces spans 0 0 s)) 0) e
          ∙ ap (λ w. rehydrate_ranges value w (ranges_of 0 (pieces spans 0 0 s)) 0)
              (redact_spans-join spans 0 0 s)
          ∙ rehydrate-join value [] (pieces spans 0 0 s) tail 0 refl
          ∙ redact_spans-expand value spans 0 0 (length text) s
              (clean_spans-IsClean detected (length text))
              (clean_spans-All (IsOf text) detected (length text) of)
              (clean_spans-All (λ span. V span.kind span.value) detected (length text) held) fresh v
              (λ p x r. valued p x (ap (λ o. resolve ctx.container p o.1) e ∙ r))

      -- Redacting a text and rehydrating the result gives the text back, with and without the recovery of
      -- mangled placeholders, whatever the recovery answers: when the spans of the detector carry what they
      -- cover, the text has no placeholder of its own, the pattern that is used finds in the redacted text
      -- exactly the placeholders that were put in, and the store is indexed by hash. Of the values that are
      -- stored or detected, different ones have different hashes; and for each span one of the 25 draws of
      -- its mint is neither in use nor a draw for another span.
      pub rehydrate_text-redact_text :
          (recover : Bool) (loose : Text → List Range) (mend : MappingStore → Text → Option Text)
          → scan text ≡ []
          → All (IsOf text) detected
          → All (λ span. V span.kind span.value) detected
          → IsFresh hash_of ctx.container V draw 0 s
          → IsIndexed hash_of ctx.container V s
          → (if recover then loose else scan)
              (redact_text hash_of draw scan ctx text ts detected s).0
            ≡ ranges_of 0 (pieces (clean_spans detected (length text)) 0 0 s)
          → rehydrate_text recover scan loose mend ctx.container
              (redact_text hash_of draw scan ctx text ts detected s).0
              (redact_text hash_of draw scan ctx text ts detected s).1
            ≡ text
      unfolding rehydrate_text
      rehydrate_text-redact_text false loose mend plain of held fresh v found =
          rehydrate_ranges-redact_text _ _ plain of held fresh v found
            (λ p x r. ap (λ o. or_as_is o p) r)
      rehydrate_text-redact_text true loose mend plain of held fresh v found =
          let final = (redact_text hash_of draw scan ctx text ts detected s).1 in
          rehydrate_ranges-redact_text _ _ plain of held fresh v found
            (λ p x r. ap (λ o. or_as_is (or_mended o (mend final p)) p) r)
