-- ===== src/Storage/Table/Laws/Rows.antt =====
-- Inserts and deletes of packages/storage/core/src/index.ts (`create`, `delete`): reads after them.
use busyclaw.Prelude.{
  ℕ, ◌≡◌, refl, ◌≢◌, Bool, true, false, none, some, List, [], ◌∷◌, ◌++◌, ◌==◌, if◌then◌else◌, All,
  any, arith, All-append, Bool-cases, inl, inr, ap, sym, ◌∙◌,
}
use busyclaw.Storage.Table.{find_one, delete, get, create, or_keep}
use busyclaw.Storage.Table.Laws.Cas.{Unique, get_absent, All-ne}

module _ {ℓ} {R : Type ℓ} (key : R → ℕ) where
  -- Inserts.
  any-get : (i : ℕ) (t : List R) → any (λ s. key s == i) t ≡ true → get key i t ≢ none
  unfolding find_one
  any-get i [] h e = cc
  any-get i (r ∷ t) h e = ground (arith, any-get i t)

  any-All : (i : ℕ) (t : List R) → any (λ s. key s == i) t ≡ false → All (λ s. key s ≢ i) t
  any-All i [] h = tt
  any-All i (r ∷ t) h = ground (arith, any-All i t)

  any-get-none : (i : ℕ) (t : List R) → any (λ s. key s == i) t ≡ false → get key i t ≡ none
  any-get-none i t h = get_absent key i t (any-All i t h)

  -- An insert conflicts exactly if the key is in use.
  pub create_conflict : (r : R) (t : List R) → create key r t ≡ none → get key (key r) t ≢ none
  unfolding create
  create_conflict r t h = ground (arith, any-get (key r) t)

  pub create_fresh :
      (r : R) (t : List R) → get key (key r) t ≡ none → create key r t ≡ some (t ++ r ∷ [])
  unfolding create
  create_fresh r t h = ground (arith, any-get (key r) t)

  pub create_used : (r s : R) (t : List R) → get key (key r) t ≡ some s → create key r t ≡ none
  unfolding create
  create_used r s t e = elim (Bool-cases (any (λ x. key x == key r) t)) [
    | inl used ↦ rw used
    | inr free ↦ absurd (cc (e, any-get-none (key r) t free))
  ]

  get-append :
      (j : ℕ) (r : R) (t : List R)
      → All (λ s. key s ≢ key r) t
      → get key j (t ++ r ∷ []) ≡ (if key r == j then some r else get key j t)
  unfolding find_one
  get-append j r [] h = refl
  get-append j r (s ∷ t) h = ground (arith, get-append j r t h.1)

  pub get-create :
      (j : ℕ) (r : R) (t t' : List R)
      → create key r t ≡ some t'
      → get key j t' ≡ (if key r == j then some r else get key j t)
  unfolding create
  get-create j r t t' h = ground (arith, any-All (key r) t, get-append j r t)

  append-Unique :
      (r : R) (t : List R) → All (λ s. key s ≢ key r) t → Unique key t → Unique key (t ++ r ∷ [])
  append-Unique r [] h u = (tt, tt)
  append-Unique r (s ∷ t) h u =
      (All-append _ t _ u.0 ((λ e. h.0 (ground arith), tt)), append-Unique r t h.1 u.1)

  pub create-Unique :
      (r : R) (t t' : List R) → create key r t ≡ some t' → Unique key t → Unique key t'
  unfolding create
  create-Unique r t t' h u = ground (arith, any-All (key r) t, append-Unique r t)

  pub or_keep-create-Unique :
      (r : R) (t : List R) → Unique key t → Unique key (or_keep t (create key r t))
  unfolding create
  or_keep-create-Unique r t u = ground (arith, any-All (key r) t, append-Unique r t)

  get-append_some :
      (i : ℕ) (r s : R) (t : List R) → get key i t ≡ some s → get key i (t ++ r ∷ []) ≡ some s
  unfolding find_one
  get-append_some i r s [] e = cc
  get-append_some i r s (x ∷ t) e = ground (arith, get-append_some i r s t)

  -- An insert leaves the rows that are there.
  pub get-or_keep-create :
      (i : ℕ) (r s : R) (t : List R)
      → get key i t ≡ some s
      → get key i (or_keep t (create key r t)) ≡ some s
  unfolding create
  get-or_keep-create i r s t e = elim (Bool-cases (any (λ s. key s == key r) t)) [
    | inl used ↦ rw used e
    | inr free ↦ rw free (get-append_some i r s t e)
  ]

  -- Deletes by key.
  pub get-delete :
      (i : ℕ) (t : List R) → Unique key t → get key i (delete (λ r. key r == i) t) ≡ none
  unfolding find_one delete
  get-delete i [] u = refl
  get-delete i (r ∷ t) u = ground (
    arith,
    get-delete i t u.1,
    λ (e : key r ≡ i). get_absent key i t (All-ne key (key r) i t e u.0),
  )

  pub get-delete_ne :
      (i j : ℕ) (t : List R) → j ≢ i → get key j (delete (λ r. key r == i) t) ≡ get key j t
  unfolding find_one delete
  get-delete_ne i j [] h = refl
  get-delete_ne i j (r ∷ t) h = ground (arith, get-delete_ne i j t h)

  All-delete {κ} : (P : R → Type κ) (p : R → Bool) (t : List R) → All P t → All P (delete p t)
  unfolding delete
  All-delete P p [] h = tt
  All-delete P p (r ∷ t) h = ground (arith, All-delete P p t)

  pub delete-Unique : (p : R → Bool) (t : List R) → Unique key t → Unique key (delete p t)
  unfolding delete
  delete-Unique p [] u = tt
  delete-Unique p (r ∷ t) u = ground (arith, delete-Unique p t, All-delete (λ s. key s ≢ key r) p t)

  pub get_key : (i : ℕ) (t : List R) (r : R) → get key i t ≡ some r → key r ≡ i
  unfolding find_one
  get_key i [] r h = cc
  get_key i (s ∷ t) r h = ground (arith, get_key i t r)

  -- A row that a delete by key leaves was there, under another key.
  pub get-delete_inv :
      (i j : ℕ) (t : List R) (r : R)
      → Unique key t
      → get key j (delete (λ s. key s == i) t) ≡ some r
      → (j ≢ i) × (get key j t ≡ some r)
  get-delete_inv i j t r u e = (other, sym (get-delete_ne i j t other) ∙ e)
    where
      other : j ≢ i
      other same = cc (get-delete i t u, e, ap (λ k. get key k (delete (λ s. key s == i) t)) same)

  pub insert-Unique :
      (r : R) (t : List R) → get key (key r) t ≡ none → Unique key t → Unique key (t ++ r ∷ [])
  insert-Unique r t e u = create-Unique r t _ (create_fresh r t e) u

  pub get-insert :
      (j : ℕ) (r : R) (t : List R)
      → get key (key r) t ≡ none
      → get key j (t ++ r ∷ []) ≡ (if key r == j then some r else get key j t)
  get-insert j r t e = get-create j r t _ (create_fresh r t e)

  All-get_cons :
      (r : R) (t ys : List R)
      → All (λ c. key c ≢ key r) ys
      → All (λ c. get key (key c) t ≡ some c) ys
      → All (λ c. get key (key c) (r ∷ t) ≡ some c) ys
  unfolding find_one
  All-get_cons r t [] h g = tt
  All-get_cons r t (y ∷ ys) h g =
      (ground (arith, g.0, λ (e : key r ≡ key y). h.0 (sym e)), All-get_cons r t ys h.1 g.1)

  -- Every row is the one that its key reads.
  pub All-get : (t : List R) → Unique key t → All (λ c. get key (key c) t ≡ some c) t
  unfolding find_one
  All-get [] u = tt
  All-get (r ∷ t) u = (ground arith, All-get_cons r t t u.0 (All-get t u.1))
