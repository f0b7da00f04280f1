-- ===== src/Engine/Prune/Drained.antt =====
-- The calls of `pruneRuns` (packages/engines/sql/src/store.ts) come to an end.
use busyclaw.Prelude.{
  ℕ, zero, suc, ◌+◌, ◌≡◌, refl, ◌≢◌, ◌≤◌, inl, inr, Bool, true, false, some, List, [], ◌∷◌, ◌==◌,
  leb, filter, take, length, All, Ident, Timestamp, arith, ap, ◌∙◌, Bool-cases,
}
use busyclaw.Storage.Table.{get, find_one, cas, update, find_many, sort_asc}
use busyclaw.Storage.Table.Laws.{
  Unique, All-get, cas-Unique, get-cas_ne, filter-All, take-All, sort_asc-All, filter-Unique,
  take-Unique, sort_asc-Unique, length-sort_asc,
}
use busyclaw.Engine.Schema.{RunRecord, run_key}
use busyclaw.Engine.Prune.{
  Store, PruneInput, is_prunable, limit_of, prune_candidates, marked, mark_pruned, Pruned,
  nothing_pruned, sweep_runs, prune_runs, prunes,
}

-- The ended runs that are old enough and not swept yet.
abbrev pub unswept : PruneInput → List RunRecord → ℕ
unswept input runs = length (filter (is_prunable input) runs)

module _ (input : PruneInput) where
  -- A mark takes one run off.
  mark_unswept :
      (id : Ident) (r : RunRecord) (now : Timestamp) (runs : List RunRecord)
      → get run_key id runs ≡ some r
      → is_prunable input r ≡ true
      → unswept input (cas run_key id (λ x. true) (marked now) runs).1 + 1 ≡ unswept input runs
  unfolding find_one update
  mark_unswept id r now [] e p = absurd (cc e)
  mark_unswept id r now (x ∷ runs) e p = elim (Bool-cases (x.id == id)) [
    | inl hit ↦
        let same : x ≡ r = ground (arith, e, hit) in
        let was : is_prunable input x ≡ true = ap (is_prunable input) same ∙ p in
        let gone : is_prunable input (marked now x) ≡ false = ground arith in
        rw (hit, was, gone) (omega arith)
    | inr miss ↦
        let rest = mark_unswept id r now runs (rw miss at e) p in rw miss (ground (arith, rest))
  ]

  abbrev IsListed : List RunRecord → RunRecord → Type 0
  IsListed runs r = (get run_key r.id runs ≡ some r) × (is_prunable input r ≡ true)

  cas-IsListed :
      (rows : List RunRecord) (r : RunRecord) (now : Timestamp) (runs : List RunRecord)
      → All (λ s. s.id ≢ r.id) rows
      → All (IsListed runs) rows
      → All (IsListed (cas run_key r.id (λ x. true) (marked now) runs).1) rows
  cas-IsListed [] r now runs ne a = tt
  cas-IsListed (s ∷ rows) r now runs ne a = (
    (get-cas_ne run_key r.id (λ x. true) (marked now) (λ x. refl) s.id runs ne.0 ∙ a.0.0, a.0.1),
    cas-IsListed rows r now runs ne.1 a.1,
  )

  mark_pruned-unswept :
      (rows : List RunRecord) (now : Timestamp) (runs : List RunRecord)
      → Unique run_key runs
      → Unique run_key rows
      → All (IsListed runs) rows
      → (unswept input (mark_pruned rows now runs) + length rows ≡ unswept input runs)
        × Unique run_key (mark_pruned rows now runs)
  unfolding mark_pruned
  mark_pruned-unswept [] now runs u w a = (omega arith, u)
  mark_pruned-unswept (r ∷ rows) now runs u w a =
      let (rest, v) =
        mark_pruned-unswept rows now _
          (cas-Unique run_key r.id (λ x. true) (marked now) (λ x. refl) runs u) w.1
          (cas-IsListed rows r now runs w.0 a.1) in
      (omega (arith, rest, mark_unswept r.id r now runs a.0.0 a.0.1), v)

  module _ (d : Bool) where
    -- What a call takes is off the runs that are left, and it answers with their number.
    prune_runs-unswept :
        (now : Timestamp) (s : Store)
        → Unique run_key s.db.runs
        → (unswept input (prune_runs d input now s).1.db.runs + (prune_runs d input now s).0.runs
            ≡ unswept input s.db.runs)
          × Unique run_key (prune_runs d input now s).1.db.runs
    unfolding prune_runs
    prune_runs-unswept now s u =
        by_rows (prune_candidates input s.db.runs) candidates-Unique candidates-IsListed
      where
        candidates-Unique : Unique run_key (prune_candidates input s.db.runs)
        candidates-Unique = take-Unique run_key (limit_of input) _ (
            sort_asc-Unique run_key (λ r. r.updated_at) _
              (filter-Unique run_key (is_prunable input) s.db.runs u))

        candidates-IsListed : All (IsListed s.db.runs) (prune_candidates input s.db.runs)
        candidates-IsListed = take-All (IsListed s.db.runs) (limit_of input) _ (
            sort_asc-All (λ r. r.updated_at) (IsListed s.db.runs) _
              (filter-All (λ r. get run_key r.id s.db.runs ≡ some r) (is_prunable input) s.db.runs
                (All-get run_key s.db.runs u)))

        by_rows :
            (rows : List RunRecord)
            → Unique run_key rows
            → All (IsListed s.db.runs) rows
            → let out = elim rows as (λ _. Pruned × Store) [
              | [] ↦ (nothing_pruned, s)
              | ◌∷◌ r rest ↦ sweep_runs d (r ∷ rest) now s
            ] in
              (unswept input out.1.db.runs + out.0.runs ≡ unswept input s.db.runs)
              × Unique run_key out.1.db.runs
        by_rows [] w a = (omega arith, u)
        by_rows (r ∷ rows) w a = mark_pruned-unswept (r ∷ rows) now s.db.runs u w a

    answered :
        (now : Timestamp) (s : Store)
        → (prune_runs d input now s).0.runs ≡ length (prune_candidates input s.db.runs)
    unfolding prune_runs
    answered now s = by_rows (prune_candidates input s.db.runs)
      where
        by_rows :
            (rows : List RunRecord)
            → (elim rows as (λ _. Pruned × Store) [
              | [] ↦ (nothing_pruned, s)
              | ◌∷◌ r rest ↦ sweep_runs d (r ∷ rest) now s
            ]).0.runs
              ≡ length rows
        by_rows [] = refl
        by_rows (r ∷ rows) = refl

    -- A call that leaves a run to sweep has swept another.
    some_pruned :
        (now : Timestamp) (s : Store)
        → 1 ≤ limit_of input
        → 1 ≤ unswept input s.db.runs
        → 1 ≤ (prune_runs d input now s).0.runs
    unfolding prune_candidates find_many
    some_pruned now s lim le =
        let n =
          length-sort_asc (λ (r : RunRecord). r.updated_at)
            (filter (is_prunable input) s.db.runs) in
        let taken : 1
            ≤ length (
                take (limit_of input) (
                  sort_asc (λ (r : RunRecord). r.updated_at)
                    (filter (is_prunable input) s.db.runs))) =
          length-take (limit_of input)
            (sort_asc (λ (r : RunRecord). r.updated_at) (filter (is_prunable input) s.db.runs)) lim
            (omega (arith, n, le)) in
        omega (arith, taken, answered now s)
      where
        length-take : (n : ℕ) (t : List RunRecord) → 1 ≤ n → 1 ≤ length t → 1 ≤ length (take n t)
        length-take zero t h k = absurd (omega (arith, h))
        length-take (suc n) [] h k = absurd (omega (arith, k))
        length-take (suc n) (r ∷ t) h k = omega arith

    prunes-unswept :
        (clock : ℕ → Timestamp) (n : ℕ) (s : Store)
        → Unique run_key s.db.runs
        → 1 ≤ limit_of input
        → unswept input s.db.runs ≤ n
        → (unswept input (prunes d n input clock s).db.runs ≡ 0)
          × Unique run_key (prunes d n input clock s).db.runs
    unfolding prunes
    prunes-unswept clock zero s u lim le = (omega (arith, le), u)
    prunes-unswept clock (suc n) s u lim le =
        let (sum, v) = prune_runs-unswept (clock n) s u in
        let less : unswept input (prune_runs d input (clock n) s).1.db.runs ≤ n =
          elim (Bool-cases (leb 1 (unswept input s.db.runs))) [
            | inl more ↦ omega (arith, sum, le, some_pruned (clock n) s lim (ground (arith, more)))
            | inr none_left ↦
                let zero_left : unswept input s.db.runs ≤ 0 = ground (arith, none_left) in
                omega (arith, sum, zero_left)
          ] in
        prunes-unswept clock n (prune_runs d input (clock n) s).1 v lim less

    -- Calling again until no run is left comes to an end: after as many calls as there are ended runs that
    -- are old enough and not swept, or more, none of them is left and the next call answers zero runs. The
    -- limit of a call is at least one, and the ids of the runs are distinct.
    pub prunes_end :
        (clock : ℕ → Timestamp) (n : ℕ) (s : Store) (now : Timestamp)
        → Unique run_key s.db.runs
        → 1 ≤ limit_of input
        → unswept input s.db.runs ≤ n
        → (unswept input (prunes d n input clock s).db.runs ≡ 0)
          × ((prune_runs d input now (prunes d n input clock s)).0.runs ≡ 0)
    prunes_end clock n s now u lim le =
        let (done, v) = prunes-unswept clock n s u lim le in
        (done, omega (arith, done, (prune_runs-unswept now (prunes d n input clock s) v).0))
