-- ===== src/Storage/Table/Laws/Cas.antt =====
-- The compare-and-set of packages/storage/core/src/index.ts (`update`): reads after it.
use busyclaw.Prelude.{
  ℕ, ◌≡◌, refl, ◌≢◌, Bool, true, ◌&&◌, Option, none, some, List, [], ◌∷◌, ◌==◌, if◌then◌else◌, All,
  arith, Bool-cases, Option-cases, ◌⊎◌, inl, inr, ap, ◌∙◌,
}
use busyclaw.Storage.Table.{find_one, update, cas, get}

module _ {ℓ} {R : Type ℓ} (key : R → ℕ) where
  -- No two rows share a primary key.
  abbrev pub Unique : List R → Type 0
  Unique [] = Unit
  Unique (r ∷ t) = All (λ s. key s ≢ key r) t × Unique t

  pub get_absent : (i : ℕ) (t : List R) → All (λ s. key s ≢ i) t → get key i t ≡ none
  unfolding find_one
  get_absent i [] h = refl
  get_absent i (r ∷ t) h = ground (arith, get_absent i t h.1)

  pub All-ne : (i j : ℕ) (t : List R) → i ≡ j → All (λ s. key s ≢ i) t → All (λ s. key s ≢ j) t
  All-ne i j [] e h = tt
  All-ne i j (r ∷ t) e h = (λ q. h.0 (ground arith), All-ne i j t e h.1)

  -- What a compare-and-set returns, and what a read by key finds after it.
  abbrev pub cas_result : (R → Bool) → (R → R) → Option R → Option R
  cas_result guard f none = none
  cas_result guard f (some r) = if guard r then some (f r) else none

  abbrev pub map_row : (R → R) → Option R → Option R
  map_row f none = none
  map_row f (some r) = some (f r)

  abbrev pub cas_row : (R → Bool) → (R → R) → Option R → Option R
  cas_row guard f none = none
  cas_row guard f (some r) = if guard r then some (f r) else some r

  module _ (i : ℕ) (guard : R → Bool) (f : R → R) where
    cas_absent : (t : List R) → All (λ s. key s ≢ i) t → cas key i guard f t ≡ (none, t)
    unfolding update
    cas_absent [] h = refl
    cas_absent (r ∷ t) h = ground (arith, cas_absent t h.1)

    pub cas_returns :
        (t : List R) → Unique t → (cas key i guard f t).0 ≡ cas_result guard f (get key i t)
    unfolding update find_one
    cas_returns [] u = refl
    cas_returns (r ∷ t) u = ground (
      arith,
      cas_returns t u.1,
      λ (e : key r ≡ i). get_absent i t (All-ne (key r) i t e u.0),
      λ (e : key r ≡ i). cas_absent t (All-ne (key r) i t e u.0),
    )

    -- A compare-and-set that answers null has written nothing.
    pub cas_lost : (t : List R) → (cas key i guard f t).0 ≡ none → (cas key i guard f t).1 ≡ t
    unfolding update
    cas_lost [] e = refl
    cas_lost (r ∷ t) e = ground (arith, cas_lost t)

    module _ (keeps : (r : R) → key (f r) ≡ key r) where
      pub get-cas :
          (t : List R)
          → Unique t
          → get key i (cas key i guard f t).1 ≡ cas_row guard f (get key i t)
      unfolding update find_one
      get-cas [] u = refl
      get-cas (r ∷ t) u = ground (
        arith,
        keeps r,
        get-cas t u.1,
        λ (e : key r ≡ i). get_absent i t (All-ne (key r) i t e u.0),
        λ (e : key r ≡ i). cas_absent t (All-ne (key r) i t e u.0),
      )

      pub get-cas_ne :
          (j : ℕ) (t : List R) → j ≢ i → get key j (cas key i guard f t).1 ≡ get key j t
      unfolding update find_one
      get-cas_ne j [] h = refl
      get-cas_ne j (r ∷ t) h = ground (arith, keeps r, get-cas_ne j t h)

      -- Any row after the write, as a function of the row before it.
      pub get-cas_at :
          (j : ℕ) (t : List R)
          → Unique t
          → get key j (cas key i guard f t).1
            ≡ map_row (λ r. if key r == i && guard r then f r else r) (get key j t)
      unfolding update find_one
      get-cas_at j [] u = refl
      get-cas_at j (r ∷ t) u = ground (
        arith,
        keeps r,
        get-cas_at j t u.1,
        λ (e : key r ≡ i). cas_absent t (All-ne (key r) i t e u.0),
      )

      -- A row after the write is a row before it, patched or as it was.
      pub get-cas_inv :
          (j : ℕ) (t : List R) (r' : R)
          → Unique t
          → get key j (cas key i guard f t).1 ≡ some r'
          → (r : R) × (get key j t ≡ some r)
            × (((key r ≡ i) × (guard r ≡ true) × (r' ≡ f r)) ⊎ (r' ≡ r))
      get-cas_inv j t r' u e = elim (Option-cases (get key j t)) [
        | inl absent ↦ absurd (cc (get-cas_at j t u, absent, e))
        | inr (r, found) ↦ (r, found, patched r (get-cas_at j t u ∙ ap (map_row _) found))
      ]
        where
          patched :
              (r : R)
              → get key j (cas key i guard f t).1
                ≡ map_row (λ s. if key s == i && guard s then f s else s) (some r)
              → ((key r ≡ i) × (guard r ≡ true) × (r' ≡ f r)) ⊎ (r' ≡ r)
          patched r p = elim (Bool-cases (guard r)) [
            | inl ok ↦ elim (Bool-cases (key r == i)) [
              | inl same ↦ inl (ground (arith, same), ok, ground (arith, p, e, ok, same))
              | inr other ↦ inr (ground (arith, p, e, other))
            ]
            | inr bad ↦ inr (ground (arith, p, e, bad))
          ]

      -- A compare-and-set that finds a row that passes the guard answers with it, and stores it.
      pub cas_hit :
          (t : List R) (r : R)
          → Unique t
          → get key i t ≡ some r
          → guard r ≡ true
          → ((cas key i guard f t).0 ≡ some (f r))
            × (get key i (cas key i guard f t).1 ≡ some (f r))
      cas_hit t r u e ok = (
        cas_returns t u ∙ ap (cas_result guard f) e ∙ (ground (arith, ok)),
        get-cas t u ∙ ap (cas_row guard f) e ∙ (ground (arith, ok)),
      )

      -- A compare-and-set that answers with a row found one that passed the guard, and stored it.
      pub cas_won :
          (t : List R) (r' : R)
          → Unique t
          → (cas key i guard f t).0 ≡ some r'
          → (r : R) × (get key i t ≡ some r)
            × (guard r ≡ true)
            × (r' ≡ f r)
            × (get key i (cas key i guard f t).1 ≡ some r')
      cas_won t r' u e = elim (Option-cases (get key i t)) [
        | inl absent ↦ absurd (cc (cas_returns t u, ap (cas_result guard f) absent, e))
        | inr (r, found) ↦
            won r found (cas_returns t u ∙ ap (cas_result guard f) found)
              (get-cas t u ∙ ap (cas_row guard f) found)
      ]
        where
          won :
              (r : R)
              → get key i t ≡ some r
              → (cas key i guard f t).0 ≡ cas_result guard f (some r)
              → get key i (cas key i guard f t).1 ≡ cas_row guard f (some r)
              → (r : R) × (get key i t ≡ some r)
                × (guard r ≡ true)
                × (r' ≡ f r)
                × (get key i (cas key i guard f t).1 ≡ some r')
          won r found p q = elim (Bool-cases (guard r)) [
            | inl ok ↦ (r, found, ok, ground (arith, p, e), ground (arith, p, q, e))
            | inr bad ↦ absurd (ground (arith, p, e))
          ]

      All-cas :
          (k : ℕ) (t : List R)
          → All (λ s. key s ≢ k) t
          → All (λ s. key s ≢ k) (cas key i guard f t).1
      unfolding update
      All-cas k [] h = tt
      All-cas k (r ∷ t) h = ground (arith, keeps r, All-cas k t h.1)

      pub cas-Unique : (t : List R) → Unique t → Unique (cas key i guard f t).1
      unfolding update
      cas-Unique [] u = tt
      cas-Unique (r ∷ t) u =
          ground
            (arith, keeps r, cas-Unique t u.1, All-cas (key r) t u.0, All-ne (key r) (key (f r)) t)
