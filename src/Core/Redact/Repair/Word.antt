-- ===== src/Core/Redact/Repair/Word.antt =====
-- A book whose words are at least three edits apart corrects one edit.
use busyclaw.Prelude.{
  ℕ, suc, ◌≡◌, refl, ◌≤◌, ◌↔◌, inl, inr, true, some, List, [], ◌∷◌, ◌++◌, ltb, leb, All, All-map,
  take, arith, ap, sym, ◌∙◌, subst, Bool-cases, Option-cases,
}
use busyclaw.Core.Redact.Distance.{Text, edit_distance}
use busyclaw.Core.Redact.Distance.Levenshtein.{edit_distance_comm, edit_distance_trans}
use busyclaw.Core.Redact.Repair.{
  text_eq, has_word, by_prefix, nearest, within, search_book, repair_word,
}

-- The words of a book are pairwise at least three edits apart.
abbrev pub IsSeparated : List Text → Type 0
IsSeparated [] = Unit
IsSeparated (v ∷ words) = All (λ u. 3 ≤ edit_distance v u) words × IsSeparated words

pub text_eq_iff : (a b : Text) → (text_eq a b ≡ true) ↔ (a ≡ b)
text_eq_iff [] [] = (λ _. refl, λ _. refl)
text_eq_iff [] (y ∷ b) = (λ e. absurd (cc e), λ e. absurd (cc e))
text_eq_iff (x ∷ a) [] = (λ e. absurd (cc e), λ e. absurd (cc e))
text_eq_iff (x ∷ a) (y ∷ b) = ground (arith, text_eq_iff a b)

All-has_word :
    (P : Text → Type 0) (w : Text) (words : List Text) → has_word w words ≡ true → All P words → P w
All-has_word P w [] h a = absurd (cc h)
All-has_word P w (v ∷ words) h a = elim (Bool-cases (text_eq w v)) [
  | inl same ↦ subst P (sym ((text_eq_iff w v).0 same)) a.0
  | inr other ↦ All-has_word P w words (rw other at h) a.1
]

-- Two words of the book within two edits are one word.
same_word :
    (u v : Text) (words : List Text)
    → IsSeparated words
    → has_word u words ≡ true
    → has_word v words ≡ true
    → edit_distance u v ≤ 2
    → u ≡ v
same_word u v [] s hu hv d = absurd (cc hu)
same_word u v (w ∷ words) s hu hv d = elim (Bool-cases (text_eq u w)) [
  | inl eu ↦ elim (Bool-cases (text_eq v w)) [
    | inl ev ↦ (text_eq_iff u w).0 eu ∙ sym ((text_eq_iff v w).0 ev)
    | inr nv ↦
        let far = All-has_word (λ u. 3 ≤ edit_distance w u) v words (rw nv at hv) s.0 in
        let is : u ≡ w = (text_eq_iff u w).0 eu in
        absurd (omega (arith, far, d, ap (λ x. edit_distance x v) is))
  ]
  | inr nu ↦ elim (Bool-cases (text_eq v w)) [
    | inl ev ↦
        let far = All-has_word (λ u. 3 ≤ edit_distance w u) u words (rw nu at hu) s.0 in
        let is : v ≡ w = (text_eq_iff v w).0 ev in
        absurd (omega (arith, far, d, ap (λ x. edit_distance u x) is, edit_distance_comm u w))
    | inr nv ↦ same_word u v words s.1 (rw nu at hu) (rw nv at hv) d
  ]
]

by_prefix-has_word :
    (k p : Text) (words : List Text) → by_prefix k words ≡ some p → has_word p words ≡ true
by_prefix-has_word k p [] e = absurd (cc e)
by_prefix-has_word k p (v ∷ words) e = elim (Option-cases (by_prefix k words)) [
  | inr (found, there) ↦ ground (arith, e, there, by_prefix-has_word k found words there)
  | inl absent ↦ ground (arith, e, absent, (text_eq_iff p v).1)
]

nearest_stays :
    (w : Text) (words : List Text) (best : ℕ) (matches : List Text)
    → All (λ v. suc best ≤ edit_distance w v) words
    → nearest w words best matches ≡ (best, matches)
unfolding nearest
nearest_stays w [] best matches a = refl
nearest_stays w (v ∷ words) best matches a =
    ground (arith, a.0, nearest_stays w words best matches a.1)

nearest_hit :
    (w o : Text) (words matches : List Text)
    → IsSeparated words
    → has_word o words ≡ true
    → edit_distance w o ≤ 1
    → nearest w words 2 matches ≡ (edit_distance w o, o ∷ [])
unfolding nearest
nearest_hit w o [] matches s h d = absurd (cc h)
nearest_hit w o (v ∷ words) matches s h d = elim (Bool-cases (text_eq o v)) [
  | inl hit ↦
      let is : o ≡ v = (text_eq_iff o v).0 hit in
      let here : edit_distance w v ≡ edit_distance w o = ap (λ x. edit_distance w x) (sym is) in
      let stays = nearest_stays w words (edit_distance w v) (v ∷ []) (
        All-map
          (λ u far. omega (arith, here, d, far, edit_distance_comm v w, edit_distance_trans v w u))
          words s.0) in
      let near : ltb (edit_distance w v) 2 ≡ true = ground (arith, here, d) in
      rw near (stays ∙ (rw (here, sym is) refl))
  | inr miss ↦
      let there : has_word o words ≡ true = rw miss at h in
      let far = All-has_word (λ u. 3 ≤ edit_distance v u) o words there s.0 in
      let le : 2 ≤ edit_distance w v =
        omega (arith, far, d, edit_distance_comm v w, edit_distance_trans v w o) in
      ground (
        arith,
        le,
        nearest_hit w o words (matches ++ v ∷ []) s.1 there d,
        nearest_hit w o words matches s.1 there d,
      )
]

-- A book whose words are at least three edits apart repairs a word that is at most one edit from a word
-- of the book to that word, and to nothing else.
pub repair_word_lem :
    (w o : Text) (words : List Text)
    → IsSeparated words
    → has_word o words ≡ true
    → edit_distance w o ≤ 1
    → repair_word w words ≡ o ∷ []
unfolding repair_word search_book
repair_word_lem w o words s h d =
    let search : search_book w words ≡ o ∷ [] =
      ap within (nearest_hit w o words [] s h d) ∙ (ground (arith, d)) in
    elim (Bool-cases (has_word w words)) [
      | inl there ↦ rw there (ap (λ x. x ∷ []) (same_word w o words s there h (omega (arith, d))))
      | inr gone ↦ elim (Option-cases (by_prefix (take 4 w) words)) [
        | inl absent ↦ rw (gone, absent) search
        | inr (p, found) ↦ elim (Bool-cases (leb (edit_distance w p) 1)) [
          | inr far ↦ rw (gone, found, far) search
          | inl near ↦
              rw (gone, found, near)
                (ap (λ x. x ∷ [])
                  (same_word p o words s (by_prefix-has_word (take 4 w) p words found) h
                    (ground (arith, near, d, edit_distance_comm w p, edit_distance_trans p w o))))
        ]
      ]
    ]
