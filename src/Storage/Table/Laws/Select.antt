-- ===== src/Storage/Table/Laws/Select.antt =====
-- Selections of packages/storage/core/src/index.ts (`findMany` with `sortBy` and `limit`): what holds of
-- the rows holds of the selection.
use busyclaw.Prelude.{
  ℕ, zero, suc, ◌≡◌, refl, ◌≢◌, inl, inr, Bool, true, List, [], ◌∷◌, leb, filter, take, length, All,
  All-filter, arith, ap, sym, ◌∙◌, Bool-cases,
}
use busyclaw.Storage.Table.{sort_asc, place}
use busyclaw.Storage.Table.Laws.Cas.{Unique}

module _ {ℓ} {R : Type ℓ} where
  pub filter-All {κ} :
      (P : R → Type κ) (p : R → Bool) (t : List R)
      → All P t
      → All (λ r. P r × (p r ≡ true)) (filter p t)
  filter-All P p [] a = tt
  filter-All P p (r ∷ t) a = elim (Bool-cases (p r)) [
    | inl hit ↦ rw hit ((a.0, hit), filter-All P p t a.1)
    | inr miss ↦ rw miss (filter-All P p t a.1)
  ]

  pub take-All {κ} : (P : R → Type κ) (n : ℕ) (t : List R) → All P t → All P (take n t)
  take-All P zero t a = tt
  take-All P (suc n) [] a = tt
  take-All P (suc n) (r ∷ t) a = (a.0, take-All P n t a.1)

  module _ (col : R → ℕ) where
    place-All {κ} : (P : R → Type κ) (r : R) (t : List R) → P r → All P t → All P (place col r t)
    unfolding place
    place-All P r [] h a = (h, tt)
    place-All P r (s ∷ t) h a = elim (Bool-cases (leb (col r) (col s))) [
      | inl before ↦ rw before (h, a)
      | inr after ↦ rw after (a.0, place-All P r t h a.1)
    ]

    pub sort_asc-All {κ} : (P : R → Type κ) (t : List R) → All P t → All P (sort_asc col t)
    unfolding sort_asc
    sort_asc-All P [] a = tt
    sort_asc-All P (r ∷ t) a = place-All P r _ a.0 (sort_asc-All P t a.1)

    length-place : (r : R) (t : List R) → length (place col r t) ≡ suc (length t)
    unfolding place
    length-place r [] = refl
    length-place r (s ∷ t) = ground (arith, length-place r t)

    pub length-sort_asc : (t : List R) → length (sort_asc col t) ≡ length t
    unfolding sort_asc
    length-sort_asc [] = refl
    length-sort_asc (r ∷ t) = length-place r (sort_asc col t) ∙ ap suc (length-sort_asc t)

  module _ (key : R → ℕ) where
    pub filter-Unique : (p : R → Bool) (t : List R) → Unique key t → Unique key (filter p t)
    filter-Unique p [] u = tt
    filter-Unique p (r ∷ t) u =
        ground (arith, filter-Unique p t u.1, All-filter (λ s. key s ≢ key r) p t u.0)

    pub take-Unique : (n : ℕ) (t : List R) → Unique key t → Unique key (take n t)
    take-Unique zero t u = tt
    take-Unique (suc n) [] u = tt
    take-Unique (suc n) (r ∷ t) u = (take-All (λ s. key s ≢ key r) n t u.0, take-Unique n t u.1)

    module _ (col : R → ℕ) where
      place-Unique :
          (r : R) (t : List R)
          → All (λ s. key s ≢ key r) t
          → Unique key t
          → Unique key (place col r t)
      unfolding place
      place-Unique r [] h u = (tt, tt)
      place-Unique r (s ∷ t) h u = elim (Bool-cases (leb (col r) (col s))) [
        | inl before ↦ rw before (h, u)
        | inr after ↦ rw after (
          place-All col (λ x. key x ≢ key s) r t (λ e. h.0 (sym e)) u.0,
          place-Unique r t h.1 u.1,
        )
      ]

      pub sort_asc-Unique : (t : List R) → Unique key t → Unique key (sort_asc col t)
      unfolding sort_asc
      sort_asc-Unique [] u = tt
      sort_asc-Unique (r ∷ t) u =
          place-Unique r _ (sort_asc-All col (λ s. key s ≢ key r) t u.0) (sort_asc-Unique t u.1)
