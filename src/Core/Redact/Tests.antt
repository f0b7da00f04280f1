-- ===== src/Core/Redact/Tests.antt =====
-- Concrete runs of the redaction of packages/foundation/core/src/redact.ts. A character and a word are
-- numbers; a placeholder is one character from 1000 on.
use busyclaw.Prelude.{
  ℕ, zero, suc, ◌+◌, ◌*◌, ◌≡◌, refl, ◌≢◌, true, ◌≤◌, inl, inr, ◌&&◌, Option, none, some, List, [],
  ◌∷◌, ltb, if◌then◌else◌, Ident, arith, ap, sym, ◌∙◌, subst, Bool-cases,
}
use busyclaw.Storage.Table.{find_one}
use busyclaw.Core.Redact.Distance.{Text, edit_distance}
use busyclaw.Core.Redact.Repair.{text_eq, nearest_kind, recover_frame}
use busyclaw.Core.Redact.Repair.Frame.{recover_frame_lem}
use busyclaw.Core.Redact.Mapping.{
  PiiMapping, MappingStore, has_key, has_hash, resolve, find_by_hash, delete_for_subject,
}
use busyclaw.Core.Redact.Mapping.Erasure.{delete_for_subject_lem}
use busyclaw.Core.Redact.Redactor.{
  PiiSpan, Range, RedactionContext, clean_spans, lookup_or_mint, redact_text, rehydrate_text,
}
use busyclaw.Core.Redact.Redactor.Minting.{IsIndexed, IsFresh}
use busyclaw.Core.Redact.Redactor.Lookup.{HasDistinctHashes}
use busyclaw.Core.Redact.Redactor.Roundtrip.{rehydrate_text-redact_text}

abbrev kitten : Text
kitten = 10 ∷ 8 ∷ 19 ∷ 19 ∷ 4 ∷ 13 ∷ []

abbrev sitting : Text
sitting = 18 ∷ 8 ∷ 19 ∷ 19 ∷ 8 ∷ 13 ∷ 6 ∷ []

kitten-sitting : edit_distance kitten sitting ≡ 3
unfolding edit_distance
kitten-sitting = refl

-- A book of two words; the email kind is `1 2 3`.
abbrev email : Text
email = 1 ∷ 2 ∷ 3 ∷ []

abbrev words : List Text
words = (1 ∷ 1 ∷ 1 ∷ 1 ∷ []) ∷ (2 ∷ 2 ∷ 2 ∷ 2 ∷ []) ∷ []

abbrev resolve_code : Text → List Text → Option Ident
resolve_code kind (v ∷ w ∷ []) =
    if text_eq v (1 ∷ 1 ∷ 1 ∷ 1 ∷ []) && text_eq w (2 ∷ 2 ∷ 2 ∷ 2 ∷ []) then some 77 else none
resolve_code kind code = none

recover_frame_lem_example :
    recover_frame resolve_code
      (email ∷ [])
      (λ _. words)
      (1 ∷ 9 ∷ 3 ∷ [])
      ((1 ∷ 1 ∷ 5 ∷ 1 ∷ []) ∷ (2 ∷ 2 ∷ 2 ∷ []) ∷ [])
    ≡ some 77
unfolding edit_distance nearest_kind
recover_frame_lem_example =
    recover_frame_lem resolve_code (email ∷ []) (λ _. words) (1 ∷ 9 ∷ 3 ∷ []) email
      (1 ∷ 1 ∷ 5 ∷ 1 ∷ []) ((2 ∷ 2 ∷ 2 ∷ []) ∷ []) words ((omega arith, tt), (tt, tt))
      (refl, omega arith, (refl, omega arith, tt)) refl refl

-- A store with one mapping, which is linked to subject 4.
abbrev one_mapping : MappingStore
one_mapping = record {
  by_key =
      record {
        container = 6;
        placeholder = 7 ∷ [];
        original = 5 ∷ 5 ∷ [];
        original_hash = none;
        kind = 9;
        created_at = 0;
      }
      ∷ [];
  subject_to_keys = record { subject = 4; container = 6; placeholder = 7 ∷ [] } ∷ [];
  erased_containers = [];
}

delete_for_subject_lem_example :
    resolve 6 (7 ∷ []) (delete_for_subject 4 (some 6) one_mapping).1 ≡ none
delete_for_subject_lem_example = delete_for_subject_lem 4 (some 6) one_mapping 6 (7 ∷ [])

-- A keyed hash of a text that no two texts share.
abbrev step : ℕ → ℕ → ℕ
step zero rest = 2 * rest + 1
step (suc n) rest = 2 * step n rest + 2

abbrev code_of : Text → ℕ
code_of [] = 0
code_of (x ∷ t) = step x (code_of t)

step_some : (n a : ℕ) → 1 ≤ step n a
step_some zero a = omega arith
step_some (suc n) a = omega arith

step-same : (n m a b : ℕ) → step n a ≡ step m b → (n ≡ m) × (a ≡ b)
step-same zero zero a b e = (refl, omega (arith, e))
step-same zero (suc m) a b e = absurd (omega (arith, e))
step-same (suc n) zero a b e = absurd (omega (arith, e))
step-same (suc n) (suc m) a b e = let (l, r) = step-same n m a b (omega (arith, e)) in (ap suc l, r)

code_of-same : (x y : Text) → code_of x ≡ code_of y → x ≡ y
code_of-same [] [] e = refl
code_of-same [] (y ∷ b) e = absurd (omega (arith, e, step_some y (code_of b)))
code_of-same (x ∷ a) [] e = absurd (omega (arith, e, step_some x (code_of a)))
code_of-same (x ∷ a) (y ∷ b) e =
    let (l, r) = step-same x y (code_of a) (code_of b) e in
    ap (λ c. c ∷ a) l ∙ ap (λ t. y ∷ t) (code_of-same a b r)

abbrev keyed_hash : Option (Ident → Text → Ident)
keyed_hash = some (λ _ value. code_of value)

-- The first attempt of every span draws the placeholder that is in use.
abbrev draw_one : Ident → ℕ → ℕ → Text
draw_one kind n zero = 999 ∷ []
draw_one kind n (suc attempt) = (1000 + n) ∷ []

abbrev scan_from : ℕ → Text → List Range
scan_from i [] = []
scan_from i (x ∷ t) =
    let rest = scan_from (suc i) t in
    if ltb 998 x then record { start = i; end = suc i } ∷ rest else rest

abbrev five_five : PiiMapping
five_five = record {
  container = 6;
  placeholder = 999 ∷ [];
  original = 5 ∷ 5 ∷ [];
  original_hash = some (code_of (5 ∷ 5 ∷ []));
  kind = 9;
  created_at = 0;
}

abbrev known_store : MappingStore
known_store = record { by_key = five_five ∷ []; subject_to_keys = []; erased_containers = [] }

-- The text `1 2 5 5 3 8`: the detector finds `1`, `5 5` and, inside it, `5`.
abbrev note_text : Text
note_text = 1 ∷ 2 ∷ 5 ∷ 5 ∷ 3 ∷ 8 ∷ []

abbrev found_spans : List PiiSpan
found_spans =
    record { start = 3; end = 4; kind = 9; value = 5 ∷ [] }
    ∷ record { start = 2; end = 4; kind = 9; value = 5 ∷ 5 ∷ [] }
    ∷ record { start = 0; end = 1; kind = 3; value = 1 ∷ [] }
    ∷ []

abbrev about_four : RedactionContext
about_four = record { container = 6; subject_ids = 4 ∷ [] }

abbrev IsAny : Ident → Text → Type 0
IsAny k v = Unit

draw_one_apart : (k j : Ident) (m l b : ℕ) → l ≢ m → draw_one k m 1 ≢ draw_one j l b
draw_one_apart k j m l zero other e = absurd (ground (arith, e))
draw_one_apart k j m l (suc b) other e = absurd (ground (arith, e, other))

known_store-IsFresh : IsFresh keyed_hash 6 IsAny draw_one 0 known_store
unfolding resolve
known_store-IsFresh k m le =
    (1, (omega arith, (ground arith, λ j l b other. draw_one_apart k j m l b other)))

-- The one mapping is found by its hash only.
found_one :
    (x : Ident) (m : PiiMapping)
    → find_by_hash x 6 known_store ≡ some m
    → (x ≡ code_of (5 ∷ 5 ∷ [])) × (five_five ≡ m)
unfolding find_by_hash
found_one x m e = elim (Bool-cases (has_hash x 6 five_five)) [
  | inl hit ↦ (ground (arith, hit), ground (arith, rw hit at e))
  | inr miss ↦ absurd (ground (arith, rw miss at e))
]

abbrev of_some : Option (Ident → Text → Ident) → Ident → Text → Ident
of_some none k v = 0
of_some (some h) k v = h k v

known_hashes : HasDistinctHashes IsAny keyed_hash
known_hashes h k j x y hx hy e same =
    let one = ap (λ o. of_some o k x) e in
    let two = ap (λ o. of_some o j y) e in code_of-same x y (one ∙ same ∙ sym two)

known_store-IsIndexed : IsIndexed keyed_hash 6 IsAny known_store
unfolding find_by_hash
known_store-IsIndexed = record {
  keyed = λ x m e.
      subst (λ y. find_one (has_key y.container y.placeholder) known_store.by_key ≡ some y)
        (found_one x m e).1 refl;
  hashed = λ x m h some_h e.
      let (mine, same) = found_one x m e in
      mine ∙ ap code_of (ap (λ y. y.original) same) ∙ ap (λ o. of_some o m.kind m.original) some_h;
  among = λ x m e. tt;
}

redact_text_run :
    (redact_text keyed_hash draw_one (scan_from 0) about_four note_text 0 found_spans known_store).0
    ≡ 1000 ∷ 2 ∷ 999 ∷ 3 ∷ 8 ∷ []
unfolding redact_text
redact_text_run = refl

rehydrate_text-redact_text_example :
    rehydrate_text true
      (scan_from 0)
      (scan_from 0)
      (λ s w. some [])
      6
      (redact_text keyed_hash draw_one
        (scan_from 0)
        about_four
        note_text
        0
        found_spans
        known_store).0
      (redact_text keyed_hash draw_one
        (scan_from 0)
        about_four
        note_text
        0
        found_spans
        known_store).1
    ≡ note_text
unfolding redact_text lookup_or_mint clean_spans
rehydrate_text-redact_text_example =
    rehydrate_text-redact_text keyed_hash draw_one about_four note_text 0 IsAny known_hashes
      (scan_from 0) found_spans known_store true (scan_from 0) (λ s w. some []) refl
      (refl, (refl, (refl, tt))) (tt, (tt, (tt, tt))) known_store-IsFresh known_store-IsIndexed refl
