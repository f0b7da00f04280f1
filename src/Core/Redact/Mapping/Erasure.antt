-- ===== src/Core/Redact/Mapping/Erasure.antt =====
-- Erasure takes a subject's mappings, and no others.
use busyclaw.Prelude.{
  ◌≡◌, refl, ◌↔◌, Bool, true, ◌&&◌, not, Option, none, some, List, [], ◌∷◌, if◌then◌else◌, filter,
  Ident, arith, ap, ◌∙◌,
}
use busyclaw.Storage.Table.{find_one}
use busyclaw.Core.Redact.Distance.{Text}
use busyclaw.Core.Redact.Repair.Word.{text_eq_iff}
use busyclaw.Core.Redact.Mapping.{
  PiiMapping, MappingStore, has_key, is_linked, resolve, is_in, is_doomed, delete_for_subject,
}

abbrev pub original_of : Option PiiMapping → Option Text
original_of none = none
original_of (some m) = some m.original

pub resolve_original :
    (c : Ident) (p : Text) (s : MappingStore)
    → resolve c p s ≡ original_of (find_one (has_key c p) s.by_key)
unfolding resolve
resolve_original c p s = by_row (find_one (has_key c p) s.by_key)
  where
    by_row :
        (o : Option PiiMapping) → elim o [ none ↦ none | some m ↦ some m.original ] ≡ original_of o
    by_row none = refl
    by_row (some m) = refl

pub has_key_iff :
    (c : Ident) (p : Text) (m : PiiMapping)
    → (has_key c p m ≡ true) ↔ ((m.container ≡ c) × (m.placeholder ≡ p))
has_key_iff c p m = ground (arith, text_eq_iff m.placeholder p)

-- Dropping rows by a test that all rows of a key share.
find_one-filter :
    (c : Ident) (p : Text) (gone : PiiMapping → Bool) (b : Bool) (ms : List PiiMapping)
    → ((m : PiiMapping) → has_key c p m ≡ true → gone m ≡ b)
    → find_one (has_key c p) (filter (λ m. not (gone m)) ms)
      ≡ (if b then none else find_one (has_key c p) ms)
unfolding find_one
find_one-filter c p gone b [] h = ground arith
find_one-filter c p gone b (m ∷ ms) h = ground (arith, h m, find_one-filter c p gone b ms h)

-- An erasure of a subject, bounded to a container or not: a placeholder resolves to nothing afterwards
-- if its mapping was linked to the subject and its container is in scope, and to exactly what it
-- resolved to before if not.
pub delete_for_subject_lem :
    (subject : Ident) (scope : Option Ident) (s : MappingStore) (c : Ident) (p : Text)
    → resolve c p (delete_for_subject subject scope s).1
      ≡ (if is_linked s subject c p && is_in scope c then none else resolve c p s)
unfolding delete_for_subject
delete_for_subject_lem subject scope s c p =
    let b = is_linked s subject c p && is_in scope c in
    let found = find_one-filter c p (is_doomed s subject scope) b s.by_key (λ m k.
      let (ec, ep) = (has_key_iff c p m).0 k in
      ap (λ x. is_linked s subject x m.placeholder && is_in scope x) ec
      ∙ ap (λ x. is_linked s subject c x && is_in scope c) ep) in
    resolve_original c p _ ∙ ap original_of found ∙ (ground (arith, resolve_original c p s))
