-- ===== src/Storage/Table.antt =====
-- One model of the in-memory adapter (packages/storage/core/src/index.ts): its rows in the order of
-- insertion. A `where` list is a Boolean test on a row, and a patch a function on rows.
pub mod Laws
use busyclaw.Prelude.{
  ℕ, Bool, true, false, ◌&&◌, Option, none, some, List, [], ◌∷◌, ◌++◌, ◌==◌, leb, not,
  if◌then◌else◌, filter, length, any,
}

module _ {ℓ} {R : Type ℓ} where
  unfoldable pub find_one : (R → Bool) → List R → Option R
  find_one p [] = none
  find_one p (r ∷ t) = if p r then some r else find_one p t

  unfoldable pub find_many : (R → Bool) → List R → List R
  find_many p t = filter p t

  -- The first row that matches is patched and returned.
  unfoldable pub update : (R → Bool) → (R → R) → List R → Option R × List R
  update p f [] = (none, [])
  update p f (r ∷ t) =
      let (found, rest) = update p f t in if p r then (some (f r), f r ∷ t) else (found, r ∷ rest)

  unfoldable pub delete : (R → Bool) → List R → List R
  delete p [] = []
  delete p (r ∷ t) = if p r then t else r ∷ delete p t

  unfoldable pub delete_many : (R → Bool) → List R → List R
  delete_many p t = filter (λ r. not (p r)) t

  -- A write that names a row by its primary key and guards it: the compare-and-set of the stores.
  abbrev pub cas : (R → ℕ) → ℕ → (R → Bool) → (R → R) → List R → Option R × List R
  cas key i guard f t = update (λ r. key r == i && guard r) f t

  -- A read by primary key.
  abbrev pub get : (R → ℕ) → ℕ → List R → Option R
  get key i t = find_one (λ r. key r == i) t

  -- An insert. `none` is the conflict that a database reports on a primary key in use.
  unfoldable pub create : (R → ℕ) → R → List R → Option (List R)
  create key r t = if any (λ s. key s == key r) t then none else some (t ++ r ∷ [])

  -- An insert under an id that was drawn at random, and is taken to be fresh.
  abbrev pub insert : R → List R → List R
  insert r t = t ++ r ∷ []

  -- `sortBy` on one column, ascending and descending. Rows that compare equal keep their order.
  unfoldable pub place : (R → ℕ) → R → List R → List R
  place col r [] = r ∷ []
  place col r (s ∷ t) = if leb (col r) (col s) then r ∷ s ∷ t else s ∷ place col r t

  unfoldable pub sort_asc : (R → ℕ) → List R → List R
  unfolding place
  sort_asc col [] = []
  sort_asc col (r ∷ t) = place col r (sort_asc col t)

  unfoldable pub place_desc : (R → ℕ) → R → List R → List R
  place_desc col r [] = r ∷ []
  place_desc col r (s ∷ t) = if leb (col s) (col r) then r ∷ s ∷ t else s ∷ place_desc col r t

  unfoldable pub sort_desc : (R → ℕ) → List R → List R
  unfolding place_desc
  sort_desc col [] = []
  sort_desc col (r ∷ t) = place_desc col r (sort_desc col t)

  -- The rows after an insert whose conflict the caller meets without writing.
  abbrev pub or_keep : List R → Option (List R) → List R
  or_keep t none = t
  or_keep t (some t') = t'
