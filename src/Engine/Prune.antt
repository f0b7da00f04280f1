-- ===== src/Engine/Prune.antt =====
-- Retention: `pruneRuns` (packages/engines/sql/src/store.ts) deletes what the ended runs of a claw left,
-- oldest first and a bounded number of runs a call. A host calls it until it answers that no run is left.
-- `has_delete_many` says whether the adapter has the optional operation that deletes.
pub mod Drained
mod Tests
use busyclaw.Prelude.{
  ℕ, zero, suc, Bool, true, false, ◌&&◌, not, Option, none, some, List, [], ◌∷◌, ◌==◌, ltb, filter,
  take, length, map, any, Ident, Timestamp, opt_eq,
}
use busyclaw.Storage.Table.{cas, find_many, sort_asc}
use busyclaw.Engine.Schema.{RunRecord, RuntimeTask, RunEvent, Db, run_key, is_live}
use busyclaw.Engine.Inbox.{RunMessage}

abbrev pub default_prune_limit : ℕ
default_prune_limit = 500

-- The engine's tables and the inbox.
pub record Store : Type 0 where
  pub db : Db
  pub messages : List RunMessage

pub record PruneInput : Type 0 where
  pub claw_id : Ident
  pub before : Timestamp
  pub limit : Option ℕ

pub record Pruned : Type 0 where
  pub runs : ℕ
  pub events : ℕ
  pub tasks : ℕ
  pub messages : ℕ
  pub run_ids : List Ident

abbrev pub is_unswept : Option Timestamp → Bool
is_unswept none = true
is_unswept (some _) = false

abbrev pub is_prunable : PruneInput → RunRecord → Bool
is_prunable input r =
    opt_eq r.claw_id (some input.claw_id)
    && (not (is_live r.status) && (ltb r.updated_at input.before && is_unswept r.pruned_at))

abbrev pub limit_of : PruneInput → ℕ
limit_of input = elim input.limit [ none ↦ default_prune_limit | some n ↦ n ]

abbrev pub prune_candidates : PruneInput → List RunRecord → List RunRecord
unfolding find_many sort_asc
prune_candidates input runs =
    take (limit_of input) (sort_asc (λ r. r.updated_at) (find_many (is_prunable input) runs))

-- `in` over the ids.
abbrev pub is_of : List RunRecord → Ident → Bool
is_of runs id = any (λ r. r.id == id) runs

abbrev pub marked : Timestamp → RunRecord → RunRecord
marked now r = record r { pruned_at = some now }

unfoldable pub mark_pruned : List RunRecord → Timestamp → List RunRecord → List RunRecord
mark_pruned [] now runs = runs
mark_pruned (r ∷ rows) now runs =
    mark_pruned rows now (cas run_key r.id (λ x. true) (marked now) runs).1

-- `deleteMany`, which does nothing where the adapter has none.
abbrev pub delete_many : {R : Type 0} → Bool → (R → Bool) → List R → List R
delete_many false p t = t
delete_many true p t = filter (λ r. not (p r)) t

-- The deletes, then the marks.
abbrev pub sweep_runs : Bool → List RunRecord → Timestamp → Store → Pruned × Store
unfolding mark_pruned
sweep_runs has_delete_many rows now s = (
  record {
    runs = length rows;
    events = length (filter (λ e. is_of rows e.run_id) s.db.events);
    tasks = length (filter (λ t. is_of rows t.run_id) s.db.tasks);
    messages = length (filter (λ m. is_of rows m.to_run_id) s.messages);
    run_ids = map (λ r. r.id) rows;
  },
  record {
    db = record s.db {
      runs = mark_pruned rows now s.db.runs;
      tasks = delete_many has_delete_many (λ t. is_of rows t.run_id) s.db.tasks;
      events = delete_many has_delete_many (λ e. is_of rows e.run_id) s.db.events;
    };
    messages = delete_many has_delete_many (λ m. is_of rows m.to_run_id) s.messages;
  },
)

abbrev pub nothing_pruned : Pruned
nothing_pruned = record { runs = 0; events = 0; tasks = 0; messages = 0; run_ids = [] }

unfoldable pub prune_runs : Bool → PruneInput → Timestamp → Store → Pruned × Store
unfolding prune_candidates sweep_runs
prune_runs has_delete_many input now s = elim (prune_candidates input s.db.runs) [
  | [] ↦ (nothing_pruned, s)
  | ◌∷◌ r rows ↦ sweep_runs has_delete_many (r ∷ rows) now s
]

-- The host's loop, `n` calls at the instants that `clock` reads.
unfoldable pub prunes : Bool → ℕ → PruneInput → (ℕ → Timestamp) → Store → Store
unfolding prune_runs
prunes has_delete_many zero input clock s = s
prunes has_delete_many (suc n) input clock s =
    prunes has_delete_many n input clock (prune_runs has_delete_many input (clock n) s).1
