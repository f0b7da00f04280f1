-- ===== src/Detectors/Regex/Spans.antt =====
-- One value, one kind (packages/foundation/detectors/src/regex/index.ts).
use busyclaw.Prelude.{
  Bool, true, false, Bool-cases, inl, inr, List, [], ◌∷◌, ◌++◌, any, filter, map, ◌≡◌, refl, ◌∙◌,
  ap, sym, arith, All, All-map, All-append, subst,
}
use busyclaw.Detectors.Regex.{
  Text, Pattern, email, iban_candidate, card_candidate, phone_candidate, iban_valid, Match, Span,
  Kind, email_kind, id_kind, card_kind, phone_kind, overlaps, overlaps_any, span, emails, ibans,
  is_card, cards, is_phone, phones, regex_detector,
}

-- The order of the kinds: a phone yields to a card, and both to emails and IBANs.
abbrev pub yields : Kind → Kind → Bool
yields card_kind email_kind = true
yields card_kind id_kind = true
yields phone_kind email_kind = true
yields phone_kind id_kind = true
yields phone_kind card_kind = true
yields card_kind card_kind = false
yields card_kind phone_kind = false
yields phone_kind phone_kind = false
yields email_kind k = false
yields id_kind k = false

-- A span shares no character with one that it yields to.
abbrev pub IsApart : Span → Span → Type 0
IsApart s r = yields s.kind r.kind ≡ true → overlaps s.start s.end r ≡ false

abbrev AllApart : List Span → Span → Type 0
AllApart taken s = All (IsApart s) taken

map-filter-All :
    (Q : Span → Type 0) (f : Match → Span) (p : Match → Bool)
    → ((m : Match) → p m ≡ true → Q (f m))
    → (ms : List Match) → All Q (map f (filter p ms))
map-filter-All Q f p h [] = tt
map-filter-All Q f p h (m ∷ ms) = elim (Bool-cases (p m)) [
  | inl kept ↦ rw kept (h m kept, map-filter-All Q f p h ms)
  | inr gone ↦ rw gone (map-filter-All Q f p h ms)
]

map-All :
    (Q : Span → Type 0) (f : Match → Span)
    → ((m : Match) → Q (f m))
    → (ms : List Match) → All Q (map f ms)
map-All Q f h [] = tt
map-All Q f h (m ∷ ms) = (h m, map-All Q f h ms)

IsApart-by_kind :
    (s : Span) (t : List Span) → All (λ r. yields s.kind r.kind ≡ false) t → All (IsApart s) t
IsApart-by_kind s t h = All-map (λ r stronger e. absurd (cc (stronger, e))) t h

IsApart-by_place :
    (s : Span) (t : List Span) → any (overlaps s.start s.end) t ≡ false → All (IsApart s) t
IsApart-by_place s [] h = tt
IsApart-by_place s (r ∷ t) h = (λ e. ground (arith, h), IsApart-by_place s t (ground (arith, h)))

card-apart :
    (exclude : List Span) (m : Match)
    → is_card exclude m ≡ true
    → any (overlaps m.start m.end) exclude ≡ false
unfolding is_card overlaps_any
card-apart exclude m h = ground (arith, h)

phone-apart :
    (exclude : List Span) (m : Match)
    → is_phone exclude m ≡ true
    → any (overlaps m.start m.end) exclude ≡ false
unfolding is_phone overlaps_any
phone-apart exclude m h = ground (arith, h)

-- A section of the answer: of one kind, and apart from what was found before it.
abbrev IsSection : Kind → List Span → Span → Type 0
IsSection k exclude s = (s.kind ≡ k) × (any (overlaps s.start s.end) exclude ≡ false)

-- What no span yields to.
abbrev IsFree : Kind → List Span → Type 0
IsFree k t = All (λ r. yields k r.kind ≡ false) t

every : (P : Span → Type 0) → ((r : Span) → P r) → (t : List Span) → All P t
every P h [] = tt
every P h (r ∷ t) = (h r, every P h t)

-- A span of a kind that yields to none is apart from all.
free-IsApart :
    (k : Kind)
    → ((k' : Kind) → yields k k' ≡ false)
    → (s : Span) → s.kind ≡ k
    → (t : List Span) → All (IsApart s) t
free-IsApart k h s e t =
    IsApart-by_kind s t
      (every (λ r. yields s.kind r.kind ≡ false) (λ r. ap (λ x. yields x r.kind) e ∙ h r.kind) t)

kind-IsApart : (k : Kind) (s : Span) (t : List Span) → s.kind ≡ k → IsFree k t → All (IsApart s) t
kind-IsApart k s t e free = IsApart-by_kind s t (subst (λ x. IsFree x t) (sym e) free)

of_kind-IsFree :
    (k k' : Kind) (t : List Span) → yields k k' ≡ false → All (λ r. r.kind ≡ k') t → IsFree k t
of_kind-IsFree k k' t h of = All-map (λ r e. ap (yields k) e ∙ h) t of

module _ (matches : Text → Pattern → List Match) (upper : Text → Text) (text : Text) where
  abbrev stronger : List Span
  unfolding ibans
  stronger = emails matches upper text ++ ibans matches upper text

  emails-kind : All (λ r. r.kind ≡ email_kind) (emails matches upper text)
  emails-kind =
      map-All (λ r. r.kind ≡ email_kind) (span email_kind 90) (λ m. refl) (matches text email)

  ibans-kind : All (λ r. r.kind ≡ id_kind) (ibans matches upper text)
  unfolding ibans
  ibans-kind =
      map-filter-All (λ r. r.kind ≡ id_kind) (span id_kind 95) (λ m. iban_valid upper m.value)
        (λ m h. refl) (matches text iban_candidate)

  cards-IsSection : All (IsSection card_kind stronger) (cards matches upper text)
  unfolding cards stronger
  cards-IsSection =
      map-filter-All (IsSection card_kind stronger) (span card_kind 95) (is_card stronger)
        (λ m h. (refl, card-apart stronger m h)) (matches text card_candidate)

  phones-IsSection :
      All (IsSection phone_kind (stronger ++ cards matches upper text)) (phones matches upper text)
  unfolding phones stronger
  phones-IsSection =
      map-filter-All (IsSection phone_kind (stronger ++ cards matches upper text))
        (span phone_kind 70) (is_phone (stronger ++ cards matches upper text))
        (λ m h. (refl, phone-apart (stronger ++ cards matches upper text) m h))
        (matches text phone_candidate)

  cards-kind : All (λ r. r.kind ≡ card_kind) (cards matches upper text)
  cards-kind = All-map (λ r section. section.0) _ cards-IsSection

  phones-kind : All (λ r. r.kind ≡ phone_kind) (phones matches upper text)
  phones-kind = All-map (λ r section. section.0) _ phones-IsSection

  card-section :
      (s : Span)
      → IsSection card_kind stronger s
      → All (IsApart s) (stronger ++ cards matches upper text ++ phones matches upper text)
  card-section s (kind, apart) =
      All-append (IsApart s) (stronger ++ cards matches upper text) (phones matches upper text)
        (All-append (IsApart s) stronger (cards matches upper text)
          (IsApart-by_place s stronger apart)
          (kind-IsApart card_kind s _ kind (of_kind-IsFree card_kind card_kind _ refl cards-kind)))
        (kind-IsApart card_kind s _ kind (of_kind-IsFree card_kind phone_kind _ refl phones-kind))

  phone-section :
      (s : Span)
      → IsSection phone_kind (stronger ++ cards matches upper text) s
      → All (IsApart s) (stronger ++ cards matches upper text ++ phones matches upper text)
  phone-section s (kind, apart) =
      All-append (IsApart s) (stronger ++ cards matches upper text) (phones matches upper text)
        (IsApart-by_place s _ apart)
        (kind-IsApart phone_kind s _ kind (of_kind-IsFree phone_kind phone_kind _ refl phones-kind))

  -- No card or phone number that the detector reports overlaps what it yields to: a card shares no character
  -- with an email or an IBAN that is reported, and a phone number none with an email, an IBAN or a card.
  pub regex_detector-IsApart :
      All
        (λ s. All (IsApart s) (regex_detector matches upper text))
        (regex_detector matches upper text)
  unfolding regex_detector stronger
  regex_detector-IsApart =
      let all = stronger ++ cards matches upper text ++ phones matches upper text in
      let P : Span → Type 0 = λ s. All (IsApart s) all in
      All-append P (stronger ++ cards matches upper text) (phones matches upper text)
        (All-append P stronger (cards matches upper text)
          (All-append P (emails matches upper text) (ibans matches upper text)
            (All-map (λ s e. free-IsApart email_kind (λ k. refl) s e all) _ emails-kind)
            (All-map (λ s e. free-IsApart id_kind (λ k. refl) s e all) _ ibans-kind))
          (All-map card-section _ cards-IsSection))
        (All-map phone-section _ phones-IsSection)
