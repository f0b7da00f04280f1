-- ===== src/Core/Redact/Mapping.antt =====
-- The in-memory mapping store: `createMemoryPiiMappingStore` (packages/foundation/core/src/redact.ts).
-- A container's kind and id, always used together, are one number; so is the keyed hash of a value.
pub mod Erasure
use busyclaw.Prelude.{
  ℕ, ◌+◌, Bool, true, false, ◌&&◌, ◌||◌, not, Option, none, some, List, [], ◌∷◌, ◌++◌, ◌==◌,
  if◌then◌else◌, any, filter, map, length, Ident, Timestamp, opt_eq,
}
use busyclaw.Storage.Table.{find_one}
use busyclaw.Core.Redact.Distance.{Text}
use busyclaw.Core.Redact.Repair.{text_eq}

pub record PiiMapping : Type 0 where
  pub container : Ident
  pub placeholder : Text
  pub original : Text
  pub original_hash : Option Ident
  pub kind : Ident
  pub created_at : Timestamp

-- A link from a subject to the key of a mapping.
pub record SubjectLink : Type 0 where
  pub subject : Ident
  pub container : Ident
  pub placeholder : Text

-- That a subject was erased from a container.
pub record Erased : Type 0 where
  pub subject : Ident
  pub container : Ident

pub record MappingStore : Type 0 where
  pub by_key : List PiiMapping
  pub subject_to_keys : List SubjectLink
  pub erased_containers : List Erased

abbrev pub has_key : Ident → Text → PiiMapping → Bool
has_key container placeholder m = m.container == container && text_eq m.placeholder placeholder

-- `Map.set`: a key that is there keeps its place.
unfoldable pub put : PiiMapping → List PiiMapping → List PiiMapping
put m [] = m ∷ []
put m (n ∷ ms) = if has_key m.container m.placeholder n then m ∷ ms else n ∷ put m ms

abbrev pub is_link : Ident → Ident → Text → SubjectLink → Bool
is_link subject container placeholder l =
    l.subject == subject && (l.container == container && text_eq l.placeholder placeholder)

abbrev pub is_linked : MappingStore → Ident → Ident → Text → Bool
is_linked s subject container placeholder =
    any (is_link subject container placeholder) s.subject_to_keys

-- `Set.add`.
abbrev pub add_link : Ident → Ident → Text → List SubjectLink → List SubjectLink
add_link subject container placeholder links =
    if any (is_link subject container placeholder) links
    then links
    else links
      ++ record { subject = subject; container = container; placeholder = placeholder } ∷ []

abbrev pub add_links : List Ident → Ident → Text → List SubjectLink → List SubjectLink
add_links [] container placeholder links = links
add_links (s ∷ subjects) container placeholder links =
    add_links subjects container placeholder (add_link s container placeholder links)

unfoldable pub save : PiiMapping → List Ident → MappingStore → MappingStore
unfolding put
save m subjects s = record s {
  by_key = put m s.by_key;
  subject_to_keys = add_links subjects m.container m.placeholder s.subject_to_keys;
}

unfoldable pub resolve : Ident → Text → MappingStore → Option Text
unfolding find_one
resolve container placeholder s = elim (find_one (has_key container placeholder) s.by_key) [
  | none ↦ none
  | some m ↦ some m.original
]

-- A placeholder without a mapping here is not linked.
unfoldable pub link_subjects : List Text → List Ident → Ident → MappingStore → MappingStore
link_subjects [] subjects container s = s
link_subjects (p ∷ placeholders) subjects container s =
    let linked : MappingStore =
      if any (has_key container p) s.by_key
      then record s { subject_to_keys = add_links subjects container p s.subject_to_keys }
      else s in
    link_subjects placeholders subjects container linked

abbrev pub has_hash : Ident → Ident → PiiMapping → Bool
has_hash hash container m = opt_eq m.original_hash (some hash) && m.container == container

unfoldable pub find_by_hash : Ident → Ident → MappingStore → Option PiiMapping
unfolding find_one
find_by_hash hash container s = find_one (has_hash hash container) s.by_key

unfoldable pub is_erased : Ident → Ident → MappingStore → Bool
is_erased subject container s =
    any (λ e. e.subject == subject && e.container == container) s.erased_containers

-- `none` is every container.
abbrev pub is_in : Option Ident → Ident → Bool
is_in none container = true
is_in (some c) container = container == c

-- The mapping is one of the subject's, in scope.
abbrev pub is_doomed : MappingStore → Ident → Option Ident → PiiMapping → Bool
is_doomed s subject scope m =
    is_linked s subject m.container m.placeholder && is_in scope m.container

abbrev pub mark_all : Ident → List PiiMapping → List Erased → List Erased
mark_all subject [] marks = marks
mark_all subject (m ∷ ms) marks =
    let is_marked = any (λ e. e.subject == subject && e.container == m.container) marks in
    mark_all subject ms (
      if is_marked
      then marks
      else marks ++ record { subject = subject; container = m.container } ∷ [])

-- The number of mappings that went, and the store after.
unfoldable pub delete_for_subject : Ident → Option Ident → MappingStore → ℕ × MappingStore
delete_for_subject subject scope s =
    let doomed = filter (is_doomed s subject scope) s.by_key in
    (
      length doomed,
      record {
        by_key = filter (λ m. not (is_doomed s subject scope m)) s.by_key;
        subject_to_keys =
            filter (λ l. not (any (has_key l.container l.placeholder) doomed)) s.subject_to_keys;
        erased_containers = mark_all subject doomed s.erased_containers;
      },
    )
