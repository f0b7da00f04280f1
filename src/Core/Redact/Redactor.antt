-- ===== src/Core/Redact/Redactor.antt =====
-- The redactor of one text: `cleanSpans`, `withoutPlaceholderOverlaps`, `mintPlaceholder`,
-- `lookupOrMint`, `redactText` and `rehydrateText`
-- (packages/foundation/core/src/redact.ts), over the in-memory store. Third-party or platform code is a
-- parameter: `scan` and `loose` (the matches of the two placeholder patterns in a text), `hash_of` (the
-- keyed hash), `draw` (the random placeholder of a kind, for the number of a span and an attempt). `mend`
-- stands for `recoverFrame` on a match, which Core.Redact.Repair models, with values as numbers.
pub mod Spans
pub mod Pieces
pub mod Minting
pub mod Lookup
pub mod Roundtrip
use busyclaw.Prelude.{
  ℕ, zero, suc, ◌+◌, ◌-◌, Bool, true, false, ◌&&◌, ◌||◌, not, Option, none, some, List, [], ◌∷◌,
  ◌++◌, ◌==◌, ltb, leb, if◌then◌else◌, any, filter, length, take, Ident, Timestamp,
}
use busyclaw.Core.Redact.Distance.{Text}
use busyclaw.Core.Redact.Mapping.{
  PiiMapping, MappingStore, save, resolve, find_by_hash, link_subjects,
}

pub record PiiSpan : Type 0 where
  pub start : ℕ
  pub end : ℕ
  pub kind : Ident
  pub value : Text

pub record Range : Type 0 where
  pub start : ℕ
  pub end : ℕ

abbrev pub drop : ℕ → Text → Text
drop zero text = text
drop (suc n) [] = []
drop (suc n) (x ∷ text) = drop n text

-- `text.slice(from, to)`.
abbrev pub slice : Text → ℕ → ℕ → Text
slice text from to = take (to - from) (drop from text)

-- The order of the sort: the earlier start, then the later end. The sort is stable.
abbrev pub is_before : PiiSpan → PiiSpan → Bool
is_before a b = ltb a.start b.start || (a.start == b.start && leb b.end a.end)

unfoldable pub place_span : PiiSpan → List PiiSpan → List PiiSpan
place_span s [] = s ∷ []
place_span s (t ∷ spans) = if is_before s t then s ∷ t ∷ spans else t ∷ place_span s spans

unfoldable pub sort_spans : List PiiSpan → List PiiSpan
unfolding place_span
sort_spans [] = []
sort_spans (s ∷ spans) = place_span s (sort_spans spans)

abbrev pub is_kept : ℕ → ℕ → PiiSpan → Bool
is_kept last_end text_length s =
    leb last_end s.start && (leb s.end text_length && ltb s.start s.end)

unfoldable pub keep_spans : ℕ → ℕ → List PiiSpan → List PiiSpan
keep_spans last_end text_length [] = []
keep_spans last_end text_length (s ∷ spans) =
    let kept = keep_spans s.end text_length spans in
    let skipped = keep_spans last_end text_length spans in
    if is_kept last_end text_length s then s ∷ kept else skipped

unfoldable pub clean_spans : List PiiSpan → ℕ → List PiiSpan
unfolding sort_spans keep_spans
clean_spans spans text_length = keep_spans 0 text_length (sort_spans spans)

abbrev pub overlaps : PiiSpan → Range → Bool
overlaps s r = ltb s.start r.end && ltb r.start s.end

abbrev pub without_placeholder_overlaps : List PiiSpan → List Range → List PiiSpan
without_placeholder_overlaps spans taken = filter (λ s. not (any (overlaps s) taken)) spans

-- What a placeholder is rehydrated to.
abbrev pub or_as_is : Option Text → Text → Text
or_as_is none whole = whole
or_as_is (some original) whole = original

abbrev pub or_mended : Option Text → Option Text → Option Text
or_mended none mended = mended
or_mended (some exact) mended = some exact

-- The loop over the matches; `value` is what a match becomes.
unfoldable pub rehydrate_ranges : (Text → Text) → Text → List Range → (last : ℕ) → Text
rehydrate_ranges value text [] last = drop last text
rehydrate_ranges value text (r ∷ ranges) last =
    slice text last r.start
    ++ (value (slice text r.start r.end) ++ rehydrate_ranges value text ranges r.end)

abbrev pub exact : Ident → MappingStore → Text → Text
unfolding resolve
exact container s whole = or_as_is (resolve container whole s) whole

abbrev pub exact_or_mended :
    (MappingStore → Text → Option Text) → Ident → MappingStore → Text → Text
unfolding resolve
exact_or_mended mend container s whole =
    or_as_is (or_mended (resolve container whole s) (mend s whole)) whole

-- `recover` is the option: with it the loose pattern is matched, and a match that does not resolve is mended.
unfoldable pub rehydrate_text :
    (recover : Bool)
    → (scan loose : Text → List Range) → (mend : MappingStore → Text → Option Text) → Ident
    → Text
    → MappingStore
    → Text
unfolding rehydrate_ranges exact exact_or_mended
rehydrate_text recover scan loose mend container text s =
    if recover
    then rehydrate_ranges (exact_or_mended mend container s) text (loose text) 0
    else rehydrate_ranges (exact container s) text (scan text) 0

-- Who the data is of, and where it belongs.
pub record RedactionContext : Type 0 where
  pub container : Ident
  pub subject_ids : List Ident

module _ (hash_of : Option (Ident → Text → Ident)) (draw : Ident → ℕ → ℕ → Text) where
  -- The attempts of the mint: a drawn placeholder that is taken is drawn again, 24 times.
  unfoldable pub mint_from : Ident → Ident → ℕ → (attempt rounds : ℕ) → MappingStore → Text
  unfolding resolve
  mint_from container kind n attempt zero s = draw kind n attempt
  mint_from container kind n attempt (suc rounds) s =
      let later = mint_from container kind n (suc attempt) rounds s in
      elim (resolve container (draw kind n attempt) s) [
        | none ↦ draw kind n attempt
        | some _ ↦ later
      ]

  abbrev pub mint_placeholder : Ident → Ident → ℕ → MappingStore → Text
  unfolding mint_from
  mint_placeholder container kind n s = mint_from container kind n 0 24 s

  abbrev pub hash_for : PiiSpan → Option Ident
  hash_for span = elim hash_of [ none ↦ none | some h ↦ some (h span.kind span.value) ]

  abbrev pub minted : RedactionContext → PiiSpan → ℕ → Timestamp → MappingStore → PiiMapping
  unfolding mint_placeholder
  minted ctx span n ts s = record {
    container = ctx.container;
    placeholder = mint_placeholder ctx.container span.kind n s;
    original = span.value;
    original_hash = hash_for span;
    kind = span.kind;
    created_at = ts;
  }

  abbrev pub known : RedactionContext → Option Ident → MappingStore → Option PiiMapping
  unfolding find_by_hash
  known ctx none s = none
  known ctx (some h) s = find_by_hash h ctx.container s

  abbrev pub save_existing : RedactionContext → PiiMapping → MappingStore → MappingStore
  unfolding save
  save_existing ctx m s = elim ctx.subject_ids [ [] ↦ s | ◌∷◌ i is ↦ save m (i ∷ is) s ]

  -- The placeholder of a value, and the store after.
  unfoldable pub lookup_or_mint :
      RedactionContext → PiiSpan → ℕ → Timestamp → MappingStore → Text × MappingStore
  unfolding known minted save_existing
  lookup_or_mint ctx span n ts s = elim (known ctx (hash_for span) s) [
    | some m ↦ (m.placeholder, save_existing ctx m s)
    | none ↦ ((minted ctx span n ts s).placeholder, save (minted ctx span n ts s) ctx.subject_ids s)
  ]

  -- The loop over the cleaned spans; `n` counts them.
  unfoldable pub redact_spans :
      RedactionContext
      → Text
      → Timestamp
      → List PiiSpan
      → ℕ
      → (last : ℕ) → MappingStore
      → Text × MappingStore
  unfolding lookup_or_mint
  redact_spans ctx text ts [] n last s = (drop last text, s)
  redact_spans ctx text ts (span ∷ spans) n last s =
      let (placeholder, s') = lookup_or_mint ctx span n ts s in
      let (rest, s'') = redact_spans ctx text ts spans (suc n) span.end s' in
      (slice text last span.start ++ (placeholder ++ rest), s'')

  module _ (scan : Text → List Range) where
    abbrev pub placeholders_in : Text → List Range → List Text
    placeholders_in text [] = []
    placeholders_in text (r ∷ ranges) = slice text r.start r.end ∷ placeholders_in text ranges

    -- `detected` are the spans of the detector.
    unfoldable pub redact_text :
        RedactionContext → Text → Timestamp → List PiiSpan → MappingStore → Text × MappingStore
    unfolding redact_spans clean_spans link_subjects
    redact_text ctx text ts detected s =
        let linked : MappingStore = elim ctx.subject_ids [
          | [] ↦ s
          | ◌∷◌ i is ↦ link_subjects (placeholders_in text (scan text)) (i ∷ is) ctx.container s
        ] in
        redact_spans ctx text ts
          (clean_spans (without_placeholder_overlaps detected (scan text)) (length text)) 0 0 linked
