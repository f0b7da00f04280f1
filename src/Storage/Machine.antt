-- ===== src/Storage/Machine.antt =====
-- A store as a machine: what each of its writes does to the table, and to one row of it. Reads and
-- writes of several processes interleave as a list of writes.
use busyclaw.Prelude.{ℕ, ◌≡◌, some, List, [], ◌∷◌, All}
use busyclaw.Storage.Table.{get}
use busyclaw.Storage.Table.Laws.{Unique}

-- `C` names the writes. Each keeps the primary keys distinct, and moves a stored row by `after`,
-- whatever else the table holds.
pub record Machine (R C : Type 0) : Type 0 where
  pub key : R → ℕ
  pub step : List R → C → List R
  pub after : C → R → R
  pub unique : (t : List R) (c : C) → Unique key t → Unique key (step t c)
  pub row :
      (i : ℕ) (t : List R) (c : C) (r : R)
      → Unique key t
      → get key i t ≡ some r
      → get key i (step t c) ≡ some (after c r)

module _ {R C : Type 0} (m : Machine R C) where
  unfoldable pub run : List R → List C → List R
  run t [] = t
  run t (c ∷ cs) = run (m.step t c) cs

  pub run-Unique : (t : List R) (cs : List C) → Unique m.key t → Unique m.key (run t cs)
  unfolding run
  run-Unique t [] u = u
  run-Unique t (c ∷ cs) u = run-Unique (m.step t c) cs (m.unique t c u)

  -- What each write preserves in a row holds of that row after any history.
  pub run_keeps {κ η} :
      (P : R → Type κ) (Good : C → Type η)
      → ((c : C) (r : R) → Good c → P r → P (m.after c r))
      → (i : ℕ) (cs : List C) (t : List R) (r : R) → Unique m.key t
      → get m.key i t ≡ some r
      → All Good cs
      → P r
      → (r' : R) × (get m.key i (run t cs) ≡ some r') × P r'
  unfolding run
  run_keeps P Good keep i [] t r u e g p = (r, e, p)
  run_keeps P Good keep i (c ∷ cs) t r u e g p =
      run_keeps P Good keep i cs (m.step t c) (m.after c r) (m.unique t c u) (m.row i t c r u e) g.1
        (keep c r g.0 p)
